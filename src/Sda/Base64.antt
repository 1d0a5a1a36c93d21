-- ===== src/Sda/Base64.antt =====
-- Base64 in sda.c, which leaves out the characters that stand for a zero.
pub mod Chars
pub mod Encode
pub mod Decode
pub mod RoundTrip
use Prim.Native.Nat.{bit_and, bit_or}
use gwan_pg_rest_adapter.Prelude.{
  ℕ, zero, suc, ◌+◌, ◌-◌, ◌%◌, Bool, true, false, not, ◌&&◌, Option, none, some, List, [], ◌∷◌,
  Bytes, codes, ltb, leb, length, get_elem?, ◌==◌, if◌then◌else◌,
}
use gwan_pg_rest_adapter.Sda.Words.{shl, shr, int_of_char}
use gwan_pg_rest_adapter.Sda.Arrays.{
  Memory, Array, Buffer, init_array, init_buffer, insert_array, push_buffer, elements,
}

abbrev pub b64_tab : Bytes
b64_tab = codes "ABCDEFGHIJKLMNOPQRSTUVWXYZabcdefghijklmnopqrstuvwxyz0123456789+/"

-- The loop of `decode`: the index of the first `c`, or the number of entries.
abbrev pub index_in : Bytes → ℕ → ℕ
index_in [] c = 0
index_in (d ∷ tab) c = let rest = suc (index_in tab c) in if d == c then 0 else rest

unfoldable pub decode : ℕ → ℕ
decode c = index_in b64_tab c

-- The three bytes of four characters.
unfoldable pub triplet_of : ℕ → ℕ → ℕ → ℕ → ℕ
unfolding decode
triplet_of b1 b2 b3 b4 =
    bit_or
      (bit_or
        (bit_or (bit_and (shl (decode b1) 18) 0xffffff) (bit_and (shl (decode b2) 12) 0x3ffff))
        (bit_and (shl (decode b3) 6) 0xfff))
      (bit_and (decode b4) 0x3f)

-- `pushBuffer(str, b64_tab + i, 1)`: the table from the character on is what is copied from.
abbrev pub from_tab : Bytes → ℕ → Bytes
from_tab tab zero = tab
from_tab [] (suc i) = []
from_tab (c ∷ tab) (suc i) = from_tab tab i

unfoldable pub word_of : ℕ → ℕ → ℕ → ℕ
word_of e b2 b3 =
    bit_or (bit_or (bit_and (shl e 16) 0xffffff) (bit_and (shl b2 8) 0xffff)) (bit_and b3 0xff)

-- The buffer of the archive and the local one.
pub record Form : Type 0 where
  pub buf : Buffer
  pub str : Buffer

abbrev pub buf_of : Option Form → Option Buffer
buf_of none = none
buf_of (some f) = some f.buf

module _ (m : Memory) where
  abbrev pub insert_if : Bool → Option Array → ℕ → Option Array
  insert_if wanted none elem = none
  insert_if wanted (some arr) elem = if wanted then insert_array m arr elem else some arr

  -- One round of the loop of `b64_to_array`.
  abbrev pub put_triplet : ℕ → ℕ → ℕ → ℕ → Array → Option Array
  put_triplet b1 b2 b3 b4 arr =
      let triplet = triplet_of b1 b2 b3 b4 in
      insert_if (not (b4 == 0))
        (insert_if (not (b3 == 0)) (insert_array m arr (bit_and (shr triplet 16) 0xff))
          (bit_and (shr triplet 8) 0xff))
        (bit_and triplet 0xff)

  -- The rounds from a position on; a character behind the end of the text counts as 0.
  unfoldable pub put_triplets : Bytes → Option Array → Option Array
  put_triplets s none = none
  put_triplets [] (some arr) = some arr
  put_triplets (c1 ∷ []) (some arr) = put_triplet (int_of_char c1) 0 0 0 arr
  put_triplets (c1 ∷ c2 ∷ []) (some arr) = put_triplet (int_of_char c1) (int_of_char c2) 0 0 arr
  put_triplets (c1 ∷ c2 ∷ c3 ∷ []) (some arr) =
      put_triplet (int_of_char c1) (int_of_char c2) (int_of_char c3) 0 arr
  put_triplets (c1 ∷ c2 ∷ c3 ∷ c4 ∷ s) (some arr) =
      put_triplets s
        (put_triplet (int_of_char c1) (int_of_char c2) (int_of_char c3) (int_of_char c4) arr)

  unfoldable pub b64_to_array : Bytes → Option Array
  unfolding put_triplets
  b64_to_array str = put_triplets str (some (init_array m (length str)))

  abbrev pub push_char : Option Buffer → ℕ → Option Buffer
  push_char none i = none
  push_char (some str) i = push_buffer m str (from_tab b64_tab i) 1

  abbrev pub push_if : Bool → Option Buffer → ℕ → Option Buffer
  push_if wanted str i = let pushed = push_char str i in if wanted then pushed else str

  -- The characters of one round of the loop of `array_to_form`.
  abbrev pub push_chars : ℕ → ℕ → ℕ → Option Buffer → Option Buffer
  push_chars e b2 b3 str =
      let triplet = word_of e b2 b3 in
      push_if (not (b3 == 0))
        (push_if (not (b2 == 0))
          (push_char (push_char str (bit_and (shr triplet 18) 0x3f))
            (bit_and (shr triplet 12) 0x3f))
          (bit_and (shr triplet 6) 0x3f))
        (bit_and triplet 0x3f)

  abbrev pub with_buf : Form → Option Buffer → Option Form
  with_buf f none = none
  with_buf f (some buf) = some (record f { buf = buf })

  abbrev pub flush : Form → Option Form
  flush f = with_buf f (push_buffer m f.buf f.str.str f.str.len)

  abbrev pub begin_line : Option Form → Option Form
  begin_line none = none
  begin_line (some f) = elim (push_buffer m (record f.str { len = 0 }) (codes "\n") 1) [
    | none ↦ none
    | some str ↦ some (record f { str = str })
  ]

  -- The end of a round: `left` elements are left at its start, `i` is its index.
  abbrev pub end_round : ℕ → ℕ → Form → Option Form
  end_round i left f =
      if i % 48 == 45
      then (if ltb 3 left then begin_line (flush f) else flush f)
      else if leb left 3
      then flush f
      else some f

  abbrev pub end_with : ℕ → ℕ → Form → Option Buffer → Option Form
  end_with i left f none = none
  end_with i left f (some str) = end_round i left (record f { str = str })

  abbrev pub round : ℕ → ℕ → ℕ → ℕ → ℕ → Form → Option Form
  round i left e b2 b3 f = end_with i left f (push_chars e b2 b3 (some f.str))

  -- The rounds from index `i` on, on the elements that are left.
  unfoldable pub rounds : ℕ → List ℕ → Option Form → Option Form
  unfolding word_of
  rounds i elems none = none
  rounds i [] (some f) = some f
  rounds i (e ∷ []) (some f) = round i 1 e 0 0 f
  rounds i (e ∷ b2 ∷ []) (some f) = round i 2 e b2 0 f
  rounds i (e ∷ b2 ∷ b3 ∷ elems) (some f) =
      rounds (i + 3) elems (round i (length (e ∷ b2 ∷ b3 ∷ elems)) e b2 b3 f)

  abbrev pub rounds_from : Buffer → List ℕ → Option Buffer → Option Form
  rounds_from buf elems none = none
  rounds_from buf elems (some str) = rounds 0 elems (some (record { buf = buf; str = str }))

  -- The archive's buffer, with the text behind it.
  unfoldable pub array_to_form : Buffer → Array → Option Buffer
  unfolding rounds
  array_to_form buf arr = buf_of (rounds_from buf (elements arr) (init_buffer m arr.used))
