-- ===== src/Utils/Headers.antt =====
-- `get_headers` and `get_header_value` of libraries/postrest/utils.c. The request's buffer is the
-- list of its bytes; G-WAN keeps a NUL behind it, and bytes read past the end count as NUL.
pub mod Bounds
pub mod Lines
pub mod NoColon
pub mod RoundTrip
use Prim.Native.Nat.{min}
use gwan_pg_rest_adapter.Prelude.{
  ℕ, zero, suc, ◌+◌, ◌-◌, true, false, ◌&&◌, ◌||◌, Option, none, some, List, [], ◌∷◌, Bytes, c_str,
  length, take, ltb, leb, ◌==◌, str_eq, if◌then◌else◌,
}
use gwan_pg_rest_adapter.Utils.Text.{string_to_lowercase}

-- `MAX_HEADER_NAME` and `MAX_HEADER_VALUE` of include/postrest/db.h.
abbrev pub max_header_name : ℕ
max_header_name = 64

abbrev pub max_header_value : ℕ
max_header_value = 256

-- `http_headers_t`, the texts in the two buffers, which begin as empty texts.
pub record Header : Type 0 where
  pub name : Bytes
  pub value : Bytes

-- `strchr(name, ':')` on a text without NUL: what stands before the colon and behind it.
unfoldable pub split_colon : Bytes → Option (Bytes × Bytes)
split_colon [] = none
split_colon (c ∷ s) = elim (c == b':') [
  | true ↦ some ([], s)
  | false ↦ elim (split_colon s) [ none ↦ none | some (name, rest) ↦ some (c ∷ name, rest) ]
]

-- `while(*value && (*value == ' ' || *value == '\t')) value++;`
abbrev pub skip_blanks : Bytes → Bytes
skip_blanks [] = []
skip_blanks (c ∷ s) = let rest = skip_blanks s in if c == b' ' || c == 9 then rest else c ∷ s

-- The value that is copied, `line` bytes after the line's start and up to its last byte. A value
-- behind the line's end makes the length of `memcpy` negative: `none`.
abbrev pub value_of : ℕ → Bytes → Bytes → Option Bytes
value_of hlen text [] = some []
value_of hlen text (c ∷ s) =
    let start = length text - length (c ∷ s) in
    if ltb (hlen + 1) start
    then none
    else some (take (min (hlen + 1 - start) (max_header_value - 1)) (c ∷ s))

-- The name before the colon and the value behind it, cut to their buffers. `text` is the C string
-- from the line's start, and `hlen` the distance to the line's last byte.
abbrev pub header_of : ℕ → Bytes → Bytes × Bytes → Option Header
header_of hlen text (name, rest) = elim (value_of hlen text (skip_blanks rest)) [
  | none ↦ none
  | some value ↦
      some (record { name = string_to_lowercase (take (max_header_name - 1) name); value = value })
]

-- What a line adds: nothing, a header, or undefined behaviour.
pub data Line : Type 0 where
  skipped invalid : Line
  found : Header → Line

abbrev pub of_header : Option Header → Line
of_header none = invalid
of_header (some h) = found h

abbrev pub of_split : ℕ → Bytes → Option (Bytes × Bytes) → Line
of_split hlen text none = skipped
of_split hlen text (some parts) = of_header (header_of hlen text parts)

abbrev pub read_line : ℕ → Bytes → Line
read_line zero line = skipped
read_line (suc hlen) line = of_split (suc hlen) (c_str line) (split_colon (c_str line))

abbrev pub prepend : Header → Option (List Header) → Option (List Header)
prepend h none = none
prepend h (some hs) = some (h ∷ hs)

-- The loop at `rest`, `hlen` bytes behind the start of the line, with room for `room` headers: the
-- headers found, or `none` for undefined behaviour. A line ends at the byte before CR LF, and the
-- next begins behind them; with room for one header the limit is reached.
unfoldable pub scan_lines : ℕ → ℕ → Bytes → Bytes → Option (List Header)
scan_lines room hlen line [] = some []
scan_lines room hlen line (c ∷ []) = some []
scan_lines room hlen line (c ∷ d ∷ []) = some []
scan_lines room hlen line (c ∷ d ∷ e ∷ rest) = elim (d == 13 && e == 10) [
  | true ↦ elim (read_line hlen line) [
    | skipped ↦ scan_lines room 0 rest rest
    | invalid ↦ none
    | found h ↦ elim (leb room 1) [
      | true ↦ some (h ∷ [])
      | false ↦ prepend h (scan_lines (room - 1) 0 rest rest)
    ]
  ]
  | false ↦ scan_lines room (hlen + 1) line (d ∷ e ∷ rest)
]

unfoldable pub get_headers : Bytes → ℕ → Option (List Header)
unfolding scan_lines
get_headers req maxh = scan_lines maxh 0 req req

-- The loop of `get_header_value` over `i` from `from` to `to`.
unfoldable pub find_header : ℕ → List Header → Bytes → Option Bytes
find_header zero headers name = none
find_header (suc n) [] name = none
find_header (suc n) (h ∷ headers) name =
    let rest = find_header n headers name in
    elim h.name [ [] ↦ none | c ∷ s ↦ if str_eq (c ∷ s) name then some h.value else rest ]

-- `to = sizeof(headers)` is the size of a pointer.
unfoldable pub get_header_value : List Header → Bytes → Option Bytes
unfolding find_header
get_header_value headers name = find_header 8 headers name
