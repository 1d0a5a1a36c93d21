-- ===== src/Sda/Base64/Decode.antt =====
-- What `b64_to_array` makes of characters of the table.
use Prim.Native.Nat.{bit_and, bit_or}
use gwan_pg_rest_adapter.Prelude.{
  ℕ, ◌+◌, ◌*◌, ◌/◌, ◌%◌, ◌^◌, ◌<◌, ◌≡◌, refl, sym, ap, ◌∙◌, Bool, true, false, not, Option, none,
  some, List, [], ◌∷◌, ◌++◌, append-nil, arith, ◌==◌,
}
use gwan_pg_rest_adapter.Sda.Bits.{passes-holds, bit_and_low, bit_or_above}
use gwan_pg_rest_adapter.Sda.Words.{shl, shr, int_of_char}
use gwan_pg_rest_adapter.Sda.Arrays.{Memory, Array, insert_array}
use gwan_pg_rest_adapter.Sda.Arrays.Grow.{Holds, insert_array-elements}
use gwan_pg_rest_adapter.Sda.Base64.{decode, triplet_of, put_triplet, insert_if}
use gwan_pg_rest_adapter.Sda.Base64.Chars.{IsByte, char_of, keep_if}
use gwan_pg_rest_adapter.Sda.Words.Laws.{shr_positive}

abbrev is_decoded : ℕ → Bool
is_decoded i = decode (int_of_char (char_of i)) == i

pub decode-char_of : (i : ℕ) → i < 64 → decode (int_of_char (char_of i)) ≡ i
unfolding decode
decode-char_of i h =
    let found : is_decoded i ≡ true = passes-holds is_decoded 64 i refl h in ground arith

pub char_of_positive : (i : ℕ) → i < 64 → (int_of_char (char_of i) == 0) ≡ false
char_of_positive i h =
    let found : not (int_of_char (char_of i) == 0) ≡ true =
      passes-holds (λ i. not (int_of_char (char_of i) == 0)) 64 i refl h in
    ground arith

triplet_of_lem :
    (b1 b2 b3 b4 i1 i2 i3 i4 : ℕ)
    → i1 < 64
    → i2 < 64
    → decode b1 ≡ i1
    → decode b2 ≡ i2
    → decode b3 % 64 ≡ i3
    → decode b4 % 64 ≡ i4
    → triplet_of b1 b2 b3 b4 ≡ i1 * 2 ^ 18 + i2 * 2 ^ 12 + i3 * 2 ^ 6 + i4
unfolding triplet_of
triplet_of_lem b1 b2 b3 b4 i1 i2 i3 i4 h1 h2 e1 e2 e3 e4 =
    let a : bit_and (shl (decode b1) 18) 0xffffff ≡ i1 * 2 ^ 18 =
      bit_and_low 24 (shl (decode b1) 18) ∙ ap (λ n. shl n 18 % 2 ^ 24) e1 ∙ omega arith in
    let b : bit_and (shl (decode b2) 12) 0x3ffff ≡ i2 * 2 ^ 12 =
      bit_and_low 18 (shl (decode b2) 12) ∙ ap (λ n. shl n 12 % 2 ^ 18) e2 ∙ omega arith in
    let c : bit_and (shl (decode b3) 6) 0xfff ≡ i3 * 2 ^ 6 =
      bit_and_low 12 (shl (decode b3) 6) ∙ omega (arith, e3) in
    let d : bit_and (decode b4) 0x3f ≡ i4 = bit_and_low 6 (decode b4) ∙ e4 in
    let small3 : i3 < 64 = omega (arith, e3) in
    let small4 : i4 < 64 = omega (arith, e4) in
    ap
      (λ n.
        bit_or
          (bit_or (bit_or n (bit_and (shl (decode b2) 12) 0x3ffff))
            (bit_and (shl (decode b3) 6) 0xfff))
          (bit_and (decode b4) 0x3f))
      a
    ∙ ap
        (λ n.
          bit_or (bit_or (bit_or (i1 * 2 ^ 18) n) (bit_and (shl (decode b3) 6) 0xfff))
            (bit_and (decode b4) 0x3f))
        b
    ∙ ap (λ n. bit_or (bit_or (bit_or (i1 * 2 ^ 18) (i2 * 2 ^ 12)) n) (bit_and (decode b4) 0x3f)) c
    ∙ ap (λ n. bit_or (bit_or (bit_or (i1 * 2 ^ 18) (i2 * 2 ^ 12)) (i3 * 2 ^ 6)) n) d
    ∙ ap (λ n. bit_or (bit_or n (i3 * 2 ^ 6)) i4)
        (bit_or_above 18 i1 (i2 * 2 ^ 12) (omega arith) ∙ omega arith)
    ∙ ap (λ n. bit_or n i4)
        (bit_or_above 12 (i1 * 2 ^ 6 + i2) (i3 * 2 ^ 6) (omega arith) ∙ omega arith)
    ∙ bit_or_above 6 ((i1 * 2 ^ 6 + i2) * 2 ^ 6 + i3) i4 small4
    ∙ omega arith

eight_bits : (x k : ℕ) → x < 2 ^ 31 → bit_and (shr x k) 0xff ≡ x / 2 ^ k % 256
eight_bits x k h = bit_and_low 8 (shr x k) ∙ ap (λ (n : ℕ). n % 256) (shr_positive x k h)

-- A byte that is not 0.
abbrev pub IsNonzero : ℕ → Type 0
IsNonzero c = (0 < c) × IsByte c

module _ (m : Memory) where
  insert_if-elements :
      (wanted : Bool) (o : Option Array) (elem v : ℕ) (xs : List ℕ)
      → elem ≡ v
      → Holds m o xs
      → Holds m (insert_if m wanted o elem) (xs ++ keep_if wanted v)
  insert_if-elements wanted none elem v xs same (a, e, ok, holds) = cc
  insert_if-elements true (some arr) elem v xs same (a, e, ok, holds) =
      let at : arr ≡ a = cc in
      let (a', e', ok', holds') = insert_array-elements m a elem ok in
      (
        a',
        ap (λ b. insert_array m b elem) at ∙ e',
        ok',
        holds' ∙ ap (λ t. t ++ elem ∷ []) holds ∙ ap (λ n. xs ++ n ∷ []) same,
      )
  insert_if-elements false (some arr) elem v xs same (a, e, ok, holds) =
      (a, e, ok, holds ∙ sym (append-nil xs))

  -- What one round puts into the array.
  pub put_triplet-elements :
      (b1 b2 b3 b4 e f g : ℕ) (arr : Array) (xs : List ℕ)
      → IsByte e
      → IsByte f
      → IsByte g
      → decode b1 ≡ e / 4
      → decode b2 ≡ e % 4 * 16 + f / 16
      → decode b3 % 64 ≡ f % 16 * 4 + g / 64
      → decode b4 % 64 ≡ g % 64
      → Holds m (some arr) xs
      → Holds m
          (put_triplet m b1 b2 b3 b4 arr)
          (((xs ++ e ∷ []) ++ keep_if (not (b3 == 0)) f) ++ keep_if (not (b4 == 0)) g)
  put_triplet-elements b1 b2 b3 b4 e f g arr xs h1 h2 h3 e1 e2 e3 e4 holds =
      let t = triplet_of b1 b2 b3 b4 in
      let read = triplet_of_lem b1 b2 b3 b4 _ _ _ _ (omega arith) (omega arith) e1 e2 e3 e4 in
      let word : t ≡ e * 2 ^ 16 + f * 2 ^ 8 + g = read ∙ omega arith in
      let i1 : bit_and (shr t 16) 0xff ≡ e =
        eight_bits t 16 (omega (arith, word)) ∙ omega (arith, word) in
      let i2 : bit_and (shr t 8) 0xff ≡ f =
        eight_bits t 8 (omega (arith, word)) ∙ omega (arith, word) in
      let i3 : bit_and t 0xff ≡ g = bit_and_low 8 t ∙ omega (arith, word) in
      let first = insert_if-elements true (some arr) (bit_and (shr t 16) 0xff) e xs i1 holds in
      let second = insert_if-elements (not (b3 == 0)) _ (bit_and (shr t 8) 0xff) f _ i2 first in
      insert_if-elements (not (b4 == 0)) _ (bit_and t 0xff) g _ i3 second
