-- ===== src/Sda/Arrays.antt =====
-- `Array` and `Buffer` of sda.c, which grow as they are filled. A block of memory is the list of its
-- cells, and a write past its end is `none`.
pub mod Blocks
pub mod Grow
use gwan_pg_rest_adapter.Prelude.{
  ℕ, zero, suc, ◌+◌, ◌*◌, ◌≡◌, Option, none, some, List, [], ◌∷◌, ◌++◌, Bytes, c_str, length, take,
  leb, ◌==◌, if◌then◌else◌,
}

-- `malloc` gives a block of that many cells, whose contents are whatever was there.
pub record Memory : Type 0 where
  pub fresh : ℕ → List ℕ
  pub length-fresh : (n : ℕ) → length (fresh n) ≡ n

pub record Array : Type 0 where
  pub elem : List ℕ
  pub used : ℕ
  pub size : ℕ

pub record Buffer : Type 0 where
  pub str : List ℕ
  pub len : ℕ
  pub size : ℕ

-- A write of one cell.
abbrev pub store : List ℕ → ℕ → ℕ → Option (List ℕ)
store [] i v = none
store (x ∷ xs) zero v = some (v ∷ xs)
store (x ∷ xs) (suc i) v = elim (store xs i v) [ none ↦ none | some ys ↦ some (x ∷ ys) ]

-- `memcpy`
abbrev pub copy_to : List ℕ → ℕ → List ℕ → Option (List ℕ)
copy_to cells i [] = some cells
copy_to cells i (y ∷ ys) = elim (store cells i y) [
  | none ↦ none
  | some cells' ↦ copy_to cells' (suc i) ys
]

abbrev pub with_elem : Array → Option (List ℕ) → Option Array
with_elem a none = none
with_elem a (some elem) = some (record a { elem = elem; used = suc a.used })

abbrev pub with_str : Buffer → ℕ → Option (List ℕ) → Option Buffer
with_str b len none = none
with_str b len (some str) = some (record b { str = str; len = len })

abbrev pub then_store : Option (List ℕ) → ℕ → ℕ → Option (List ℕ)
then_store none i v = none
then_store (some cells) i v = store cells i v

module _ (m : Memory) where
  -- `realloc`
  abbrev pub resize : List ℕ → ℕ → List ℕ
  resize cells n = take n (cells ++ m.fresh n)

  unfoldable pub init_array : ℕ → Array
  init_array size = record { elem = m.fresh size; used = 0; size = size }

  unfoldable pub init_buffer : ℕ → Option Buffer
  init_buffer size =
      with_str (record { str = m.fresh size; len = 0; size = size }) 0 (store (m.fresh size) 0 0)

  abbrev pub grown_array : Array → Array
  grown_array a = record { elem = resize a.elem (a.size * 2); used = a.used; size = a.size * 2 }

  unfoldable pub insert_array : Array → ℕ → Option Array
  insert_array a elem =
      let a' = if a.used == a.size then grown_array a else a in
      with_elem a' (store a'.elem a'.used elem)

  -- `len ? len : strlen(str)`
  abbrev pub count_of : Bytes → ℕ → ℕ
  count_of str len = if len == 0 then length (c_str str) else len

  abbrev pub grown_buffer : Buffer → ℕ → Buffer
  grown_buffer b len = record {
    str = resize b.str (len + b.size + 1);
    len = b.len;
    size = len + b.size + 1;
  }

  -- The copy, and the NUL one cell behind the new end. `str` holds the bytes from the pointer on.
  abbrev pub append_buffer : Buffer → Bytes → ℕ → Option Buffer
  append_buffer b str l =
      if leb l (length str)
      then with_str b (b.len + l) (then_store (copy_to b.str b.len (take l str)) (b.len + l + 1) 0)
      else none

  unfoldable pub push_buffer : Buffer → Bytes → ℕ → Option Buffer
  push_buffer b str len =
      let l = count_of str len in
      append_buffer (if leb b.size (b.len + l + 1) then grown_buffer b len else b) str l

-- What has been put into an array and into a buffer.
abbrev pub elements : Array → List ℕ
elements a = take a.used a.elem

abbrev pub text_of : Buffer → Bytes
text_of b = take b.len b.str
