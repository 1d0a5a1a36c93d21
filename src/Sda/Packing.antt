-- ===== src/Sda/Packing.antt =====
-- `compress8to7` and `expand7to8` of sda.c, which put the seven bits of eight characters into seven
-- bytes and take them out again.
pub mod Fill
pub mod Unfill
pub mod RoundTrip
pub mod Overrun
use Prim.Native.Nat.{bit_and, bit_or}
use gwan_pg_rest_adapter.Prelude.{
  ℕ, zero, suc, ◌+◌, ◌-◌, ◌*◌, ◌%◌, Option, none, some, List, [], ◌∷◌, Bytes, ltb, length, drop,
  get_elem?, if◌then◌else◌,
}
use gwan_pg_rest_adapter.Sda.Words.{shl, shr, int_of_char}
use gwan_pg_rest_adapter.Sda.Arrays.{Memory, Array, Buffer, init_array, insert_array, push_buffer}

-- `str[i]`: behind the text stands its NUL, and behind that nothing is the text's.
abbrev pub char_at : Bytes → ℕ → Option ℕ
char_at [] zero = some 0
char_at [] (suc i) = none
char_at (c ∷ s) zero = some c
char_at (c ∷ s) (suc i) = char_at s i

module _ (m : Memory) where
  -- The inner loop from `j` on, which has `n` rounds left; `s` is the text from `i` on.
  unfoldable pub fill : ℕ → ℕ → ℕ → Bytes → Option Array → Option Array
  fill zero j val s arr = arr
  fill (suc n) j val s none = none
  fill (suc n) j val s (some arr) =
      if ltb j (length s + 1)
      then elim (char_at s (suc j)) [
        | none ↦ none
        | some c ↦
            let tmp = shl (int_of_char c) (j + 2) in
            fill n (suc j) (bit_and tmp 0xff) s
              (insert_array m arr (bit_and (bit_or val (shr tmp 8)) 0xff))
      ]
      else some arr

  -- The outer loop from `i` on, with a bound on its rounds.
  unfoldable pub fill_all : ℕ → Bytes → Option Array → Option Array
  unfolding fill
  fill_all zero s arr = arr
  fill_all (suc n) [] arr = arr
  fill_all (suc n) (c ∷ s) arr =
      fill_all n (drop 8 (c ∷ s)) (fill 7 0 (bit_and (shl (int_of_char c) 1) 0xfe) (c ∷ s) arr)

  unfoldable pub compress8to7 : Bytes → Option Array
  unfolding fill_all
  compress8to7 str = fill_all (length str) str (some (init_array m (length str * 2)))

  abbrev pub push_one : Option Buffer → ℕ → Option Buffer
  push_one none chr = none
  push_one (some buf) chr = push_buffer m buf (chr % 256 ∷ []) 1

  -- The inner loop from `j` on, which has `n` rounds left; `cells` are those from `i` on.
  unfoldable pub unfill : ℕ → ℕ → ℕ → List ℕ → Option Buffer → Option Buffer
  unfill zero j tmp cells buf = buf
  unfill (suc n) j tmp cells buf = elim (get_elem? cells j) [
    | none ↦ none
    | some tmp' ↦
        unfill n (suc j) tmp' cells
          (push_one buf (bit_or (bit_and (shl tmp (7 - j)) 0x7f) (shr (bit_and tmp' 0xff) (suc j))))
  ]

  -- The outer loop, with a bound on its rounds; `left` elements are left.
  unfoldable pub unfill_all : ℕ → ℕ → List ℕ → Option Buffer → Option Buffer
  unfolding unfill
  unfill_all zero left cells buf = buf
  unfill_all (suc n) zero cells buf = buf
  unfill_all (suc n) (suc left) [] buf = none
  unfill_all (suc n) (suc left) (e ∷ cells) buf =
      unfill_all n (suc left - 7) (drop 7 (e ∷ cells))
        (unfill 7 1 e (e ∷ cells) (push_one buf (bit_and (shr e 1) 0x7f)))

  unfoldable pub expand7to8 : Buffer → Array → Option Buffer
  unfolding unfill_all
  expand7to8 buf array = unfill_all array.used array.used array.elem (some buf)
