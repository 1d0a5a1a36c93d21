-- ===== src/Sda/Base64/Chars.antt =====
-- The characters that one round of `array_to_form` puts into its local buffer.
use Prim.Native.Nat.{bit_and, bit_or}
use gwan_pg_rest_adapter.Prelude.{
  ℕ, zero, suc, ◌+◌, ◌*◌, ◌/◌, ◌%◌, ◌^◌, ◌≤◌, ◌<◌, ◌≡◌, refl, sym, ap, ◌∙◌, Bool, true, false, not,
  Option, none, some, List, [], ◌∷◌, ◌++◌, append_assoc, append-nil, Bytes, length, take, arith,
  ◌==◌,
}
use gwan_pg_rest_adapter.Sda.Bits.{bit_and_low, bit_or_above}
use gwan_pg_rest_adapter.Sda.Words.{shl, shr}
use gwan_pg_rest_adapter.Sda.Words.Laws.{shr_positive}
use gwan_pg_rest_adapter.Sda.Arrays.{Memory, Buffer, push_buffer, text_of}
use gwan_pg_rest_adapter.Sda.Arrays.Grow.{HoldsText, push_buffer-text_of}
use gwan_pg_rest_adapter.Sda.Base64.{b64_tab, from_tab, push_char, push_if, push_chars, word_of}

abbrev pub IsByte : ℕ → Type 0
IsByte c = c < 256

-- The character of six bits.
abbrev pub char_in : Bytes → ℕ → ℕ
char_in [] i = 0
char_in (c ∷ tab) zero = c
char_in (c ∷ tab) (suc i) = char_in tab i

abbrev pub char_of : ℕ → ℕ
char_of i = char_in b64_tab i

abbrev pub keep_if : Bool → ℕ → Bytes
keep_if true c = c ∷ []
keep_if false c = []

-- The characters of three bytes; those of a zero are left out.
abbrev pub chars : ℕ → ℕ → ℕ → Bytes
chars e b2 b3 =
    char_of (e / 4)
    ∷ char_of (e % 4 * 16 + b2 / 16)
    ∷ (keep_if (not (b2 == 0)) (char_of (b2 % 16 * 4 + b3 / 64))
        ++ keep_if (not (b3 == 0)) (char_of (b3 % 64)))

abbrev pub form : List ℕ → Bytes
form [] = []
form (e ∷ []) = chars e 0 0
form (e ∷ b2 ∷ []) = chars e b2 0
form (e ∷ b2 ∷ b3 ∷ elems) = chars e b2 b3 ++ form elems

word_of_lem :
    (e b2 b3 : ℕ)
    → IsByte e
    → IsByte b2
    → IsByte b3
    → word_of e b2 b3 ≡ e * 2 ^ 16 + b2 * 2 ^ 8 + b3
unfolding word_of
word_of_lem e b2 b3 h1 h2 h3 =
    let a : bit_and (shl e 16) 0xffffff ≡ e * 2 ^ 8 * 2 ^ 8 =
      bit_and_low 24 (shl e 16) ∙ omega arith in
    let b : bit_and (shl b2 8) 0xffff ≡ b2 * 2 ^ 8 = bit_and_low 16 (shl b2 8) ∙ omega arith in
    let c : bit_and b3 0xff ≡ b3 = bit_and_low 8 b3 ∙ omega arith in
    let ab : bit_or (bit_and (shl e 16) 0xffffff) (bit_and (shl b2 8) 0xffff)
        ≡ (e * 2 ^ 8 + b2) * 2 ^ 8 =
      ap (λ t. bit_or t (bit_and (shl b2 8) 0xffff)) (a ∙ times e)
      ∙ ap (bit_or (e * 2 ^ 16)) b
      ∙ bit_or_above 16 e (b2 * 2 ^ 8) (omega arith)
      ∙ omega arith in
    ap (λ t. bit_or t (bit_and b3 0xff)) ab
    ∙ ap (bit_or ((e * 2 ^ 8 + b2) * 2 ^ 8)) c
    ∙ bit_or_above 8 (e * 2 ^ 8 + b2) b3 h3
    ∙ omega arith
  where
    times : (e : ℕ) → e * 2 ^ 8 * 2 ^ 8 ≡ e * 2 ^ 16
    times e = omega arith

-- Six bits of a word.
six_bits : (x k : ℕ) → x < 2 ^ 31 → bit_and (shr x k) 0x3f ≡ x / 2 ^ k % 64
six_bits x k h = bit_and_low 6 (shr x k) ∙ ap (λ (n : ℕ). n % 64) (shr_positive x k h)

from_tab_lem :
    (tab : Bytes) (i : ℕ)
    → i < length tab
    → (1 ≤ length (from_tab tab i)) × (take 1 (from_tab tab i) ≡ char_in tab i ∷ [])
from_tab_lem [] i h = absurd (omega arith)
from_tab_lem (c ∷ tab) zero h = (omega arith, refl)
from_tab_lem (c ∷ tab) (suc i) h = from_tab_lem tab i (omega arith)

four_chars :
    (text : Bytes) (want3 want4 : Bool) {i1 i2 i3 i4 j1 j2 j3 j4 : ℕ}
    → i1 ≡ j1
    → i2 ≡ j2
    → i3 ≡ j3
    → i4 ≡ j4
    → (((text ++ char_of i1 ∷ []) ++ char_of i2 ∷ []) ++ keep_if want3 (char_of i3))
        ++ keep_if want4 (char_of i4)
      ≡ text ++ char_of j1 ∷ char_of j2 ∷ (keep_if want3 (char_of j3) ++ keep_if want4 (char_of j4))
four_chars text want3 want4 {i1} {i2} {i3} {i4} {j1} {j2} {j3} {j4} e1 e2 e3 e4 =
    append_assoc _ (keep_if want3 (char_of i3)) (keep_if want4 (char_of i4))
    ∙ append_assoc _ (char_of i2 ∷ []) _
    ∙ append_assoc text (char_of i1 ∷ []) _
    ∙ ap
        (λ (n : ℕ).
          text
          ++ char_of n ∷ char_of i2 ∷ (keep_if want3 (char_of i3) ++ keep_if want4 (char_of i4)))
        e1
    ∙ ap
        (λ (n : ℕ).
          text
          ++ char_of j1 ∷ char_of n ∷ (keep_if want3 (char_of i3) ++ keep_if want4 (char_of i4)))
        e2
    ∙ ap
        (λ (n : ℕ).
          text
          ++ char_of j1 ∷ char_of j2 ∷ (keep_if want3 (char_of n) ++ keep_if want4 (char_of i4)))
        e3
    ∙ ap
        (λ (n : ℕ).
          text
          ++ char_of j1 ∷ char_of j2 ∷ (keep_if want3 (char_of j3) ++ keep_if want4 (char_of n)))
        e4

module _ (m : Memory) where
  push_char-text_of :
      (o : Option Buffer) (i : ℕ) (text : Bytes)
      → i < 64
      → HoldsText m o text
      → HoldsText m (push_char m o i) (text ++ char_of i ∷ [])
  push_char-text_of none i text h (b, e, ok, holds) = cc
  push_char-text_of (some str) i text h (b, e, ok, holds) =
      let same : str ≡ b = cc in
      let (long, char) = from_tab_lem b64_tab i h in
      let (b', e', ok', holds') =
        push_buffer-text_of m b (from_tab b64_tab i) 1 ok (omega arith) long in
      (
        b',
        ap (λ s. push_buffer m s (from_tab b64_tab i) 1) same ∙ e',
        ok',
        holds' ∙ ap (λ t. text_of b ++ t) char ∙ ap (λ t. t ++ char_of i ∷ []) holds,
      )

  push_if-text_of :
      (wanted : Bool) (o : Option Buffer) (i : ℕ) (text : Bytes)
      → i < 64
      → HoldsText m o text
      → HoldsText m (push_if m wanted o i) (text ++ keep_if wanted (char_of i))
  push_if-text_of true o i text h holds = push_char-text_of o i text h holds
  push_if-text_of false o i text h (b, e, ok, holds) = (b, e, ok, holds ∙ sym (append-nil text))

  pub reads_as : {o : Option Buffer} {s t : Bytes} → HoldsText m o s → s ≡ t → HoldsText m o t
  reads_as (b, e, ok, holds) same = (b, e, ok, holds ∙ same)

  -- What one round puts into the local buffer.
  pub push_chars-text_of :
      (e b2 b3 : ℕ) (str : Buffer) (text : Bytes)
      → IsByte e
      → IsByte b2
      → IsByte b3
      → HoldsText m (some str) text
      → HoldsText m (push_chars m e b2 b3 (some str)) (text ++ chars e b2 b3)
  push_chars-text_of e b2 b3 str text h1 h2 h3 holds =
      let t = word_of e b2 b3 in
      let word = word_of_lem e b2 b3 h1 h2 h3 in
      let i1 : bit_and (shr t 18) 0x3f ≡ e / 4 =
        six_bits t 18 (omega (arith, word)) ∙ omega (arith, word) in
      let i2 : bit_and (shr t 12) 0x3f ≡ e % 4 * 16 + b2 / 16 =
        six_bits t 12 (omega (arith, word)) ∙ omega (arith, word) in
      let i3 : bit_and (shr t 6) 0x3f ≡ b2 % 16 * 4 + b3 / 64 =
        six_bits t 6 (omega (arith, word)) ∙ omega (arith, word) in
      let i4 : bit_and t 0x3f ≡ b3 % 64 = bit_and_low 6 t ∙ omega (arith, word) in
      let first =
        push_char-text_of (some str) (bit_and (shr t 18) 0x3f) text (omega (arith, i1)) holds in
      let second = push_char-text_of _ (bit_and (shr t 12) 0x3f) _ (omega (arith, i2)) first in
      let third =
        push_if-text_of (not (b2 == 0)) _ (bit_and (shr t 6) 0x3f) _ (omega (arith, i3)) second in
      let fourth = push_if-text_of (not (b3 == 0)) _ (bit_and t 0x3f) _ (omega (arith, i4)) third in
      reads_as fourth (four_chars text (not (b2 == 0)) (not (b3 == 0)) i1 i2 i3 i4)
