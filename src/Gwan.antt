-- ===== src/Gwan.antt =====
-- G-WAN, the server that runs the adapter, as far as the adapter calls it: include/gwan.h and
-- include/xbuffer.h declare these functions, and their code is not in the repository. They are an
-- interface with the documented laws that the proofs use.
pub mod Sprintf
use gwan_pg_rest_adapter.Prelude.{
  ℕ, ◌-◌, ◌≡◌, Bool, true, false, Option, some, List, ◌++◌, Bytes, take,
}
use gwan_pg_rest_adapter.Gwan.Sprintf.{Arg, sprintf}

-- `enum JSN_TYPE`
pub data JsnType : Type 0 where
  jsn_false jsn_true jsn_null jsn_integer jsn_real jsn_string jsn_node jsn_array : JsnType

-- A `jsn_t *` is a value of `Jsn`; its fields are read by `type` and `string`.
pub record Gwan : Type 1 where
  -- format 'a la sprintf()' into the buffer
  pub xbuf_xcat : Bytes → Bytes → List Arg → Bytes
  pub xbuf_xcat_lem :
      (buf fmt : Bytes) (args : List Arg) {text : Bytes}
      → sprintf fmt args ≡ some text
      → xbuf_xcat buf fmt args ≡ buf ++ text
  -- writes at most `len - 1` bytes and a NUL
  pub s_snprintf : ℕ → Bytes → List Arg → Bytes
  pub s_snprintf_lem :
      (len : ℕ) (fmt : Bytes) (args : List Arg) {text : Bytes}
      → sprintf fmt args ≡ some text
      → s_snprintf len fmt args ≡ take (len - 1) text
  -- the reason phrase of a status and its explanation, and `errno`
  pub http_status : ℕ → Bytes
  pub http_error : ℕ → Bytes
  pub errno : ℕ
  -- `get_arg(name, &value, argc, argv)`
  pub get_arg : Bytes → ℕ → (ℕ → Option Bytes) → Option Bytes
  pub Jsn : Type 0
  pub jsn_frtext : Option Bytes → Option Jsn
  pub jsn_byname : Jsn → Bytes → Option Jsn
  -- the items of an array: what `jsn_byindex` returns one by one, and what `next` leads to
  pub items : Jsn → List Jsn
  -- appends to the buffer and returns the buffer's text; the node may be a null pointer
  pub jsn_totext : Bytes → Option Jsn → Bytes
  pub type : Jsn → JsnType
  -- the field `string`, a pointer where the type is jsn_STRING
  pub string : Jsn → Option Bytes
  -- the node's own memory read as a text
  pub memory : Jsn → Option Bytes

-- `node->type == jsn_STRING` and the other comparisons of types.
abbrev pub is_string_type : JsnType → Bool
is_string_type jsn_string = true
is_string_type _ = false

abbrev pub is_node_type : JsnType → Bool
is_node_type jsn_node = true
is_node_type _ = false

abbrev pub is_array_type : JsnType → Bool
is_array_type jsn_array = true
is_array_type _ = false

abbrev pub is_null_type : JsnType → Bool
is_null_type jsn_null = true
is_null_type _ = false

abbrev pub is_true_type : JsnType → Bool
is_true_type jsn_true = true
is_true_type _ = false
