-- ===== src/Sda/Packing/Fill.antt =====
-- The bytes that `compress8to7` makes of eight characters.
use Prim.Native.Nat.{bit_and, bit_or}
use gwan_pg_rest_adapter.Prelude.{
  ℕ, zero, suc, ◌+◌, ◌*◌, ◌/◌, ◌%◌, ◌^◌, ◌≤◌, ◌<◌, ◌≡◌, refl, sym, subst, ap, ◌∙◌, true, Option,
  none, some, List, [], ◌∷◌, ◌++◌, append_assoc, append-nil, Bytes, All, length, arith, ltb, ◌==◌,
}
use gwan_pg_rest_adapter.Sda.Bits.{bit_and_low, bit_or_above, passes-holds}
use gwan_pg_rest_adapter.Sda.Words.{shl, shr, int_of_char}
use gwan_pg_rest_adapter.Sda.Arrays.{Memory, Array, insert_array}
use gwan_pg_rest_adapter.Sda.Arrays.Grow.{HoldsIn, insert_array_grows}
use gwan_pg_rest_adapter.Sda.Words.Laws.{shr_positive}
use gwan_pg_rest_adapter.Sda.Packing.{char_at, fill, fill_all}

-- A character of seven bits.
abbrev pub IsSeven : ℕ → Type 0
IsSeven c = c < 128

int_of_seven : (c : ℕ) → IsSeven c → int_of_char c ≡ c
int_of_seven c h = let low : ltb c 128 ≡ true = ground arith in rw low refl

first_bits : (c : ℕ) → IsSeven c → bit_and (shl (int_of_char c) 1) 0xfe ≡ c * 2
first_bits c h =
    let found =
      passes-holds (λ (c : ℕ). bit_and (shl (int_of_char c) 1) 0xfe == c * 2) 128 c refl h in
    ground arith

-- The byte of a round: the bits that are left of one character above the first of the next.
joined :
    (k q c r : ℕ)
    → IsSeven c
    → c * 2 ^ (k + 1) < 2 ^ 31
    → c * 2 ^ (k + 1) / 2 ^ 8 ≡ r
    → r < 2 ^ k
    → q * 2 ^ k + r < 256
    → bit_and (bit_or (q * 2 ^ k) (shr (shl (int_of_char c) (k + 1)) 8)) 0xff ≡ q * 2 ^ k + r
joined k q c r h small lower low fits =
    let shifted : shl (int_of_char c) (k + 1) ≡ c * 2 ^ (k + 1) =
      ap (λ n. shl n (k + 1)) (int_of_seven c h) ∙ omega arith in
    let above : shr (shl (int_of_char c) (k + 1)) 8 ≡ r =
      ap (λ n. shr n 8) shifted ∙ shr_positive (c * 2 ^ (k + 1)) 8 small ∙ lower in
    ap (λ n. bit_and (bit_or (q * 2 ^ k) n) 0xff) above
    ∙ ap (λ n. bit_and n 0xff) (bit_or_above k q r low)
    ∙ bit_and_low 8 (q * 2 ^ k + r)
    ∙ omega arith

-- The seven bytes of eight characters.
abbrev pub seven_of : ℕ → ℕ → ℕ → ℕ → ℕ → ℕ → ℕ → ℕ → List ℕ
seven_of a b c d e f g h =
    (a * 2 ^ 1 + b / 2 ^ 6)
    ∷ (b % 2 ^ 6 * 2 ^ 2 + c / 2 ^ 5)
    ∷ (c % 2 ^ 5 * 2 ^ 3 + d / 2 ^ 4)
    ∷ (d % 2 ^ 4 * 2 ^ 4 + e / 2 ^ 3)
    ∷ (e % 2 ^ 3 * 2 ^ 5 + f / 2 ^ 2)
    ∷ (f % 2 ^ 2 * 2 ^ 6 + g / 2)
    ∷ (g % 2 * 2 ^ 7 + h / 1)
    ∷ []

module _ (m : Memory) where
  reads_in :
      {size : ℕ} {o : Option Array} {xs ys : List ℕ}
      → HoldsIn m size o xs
      → xs ≡ ys
      → HoldsIn m size o ys
  reads_in (a, e, ok, holds, room) same = (a, e, ok, holds ∙ same, room)

  fill_next :
      (n j val c q r left : ℕ) (s : Bytes) (size : ℕ) (o : Option Array) (xs zs : List ℕ)
      → ltb j (length s + 1) ≡ true
      → char_at s (suc j) ≡ some c
      → val ≡ q * 2 ^ suc j
      → IsSeven c
      → c * 2 ^ (suc j + 1) < 2 ^ 31
      → c * 2 ^ (suc j + 1) / 2 ^ 8 ≡ r
      → r < 2 ^ suc j
      → q * 2 ^ suc j + r < 256
      → c * 2 ^ (suc j + 1) % 2 ^ 8 ≡ left
      → ((o' : Option Array)
          → HoldsIn m size o' (xs ++ (q * 2 ^ suc j + r) ∷ [])
          → HoldsIn m size (fill m n (suc j) left s o') ((xs ++ (q * 2 ^ suc j + r) ∷ []) ++ zs))
      → HoldsIn m size o xs
      → HoldsIn m size (fill m (suc n) j val s o) (xs ++ (q * 2 ^ suc j + r) ∷ zs)
  unfolding fill
  fill_next n j val c q r left s size none xs zs inside here is_val h small lower low fits rest next
        (a, e, ok, holds, room) =
      cc
  fill_next n j val c q r left s size (some arr) xs zs inside here is_val h small lower low fits
        rest next (a, e, ok, holds, room) =
      let same : arr ≡ a = cc in
      let two : j + 2 ≡ suc j + 1 = omega arith in
      let elem : bit_and (bit_or val (shr (shl (int_of_char c) (j + 2)) 8)) 0xff
          ≡ q * 2 ^ suc j + r =
        ap (λ n. bit_and (bit_or val (shr (shl (int_of_char c) n) 8)) 0xff) two
        ∙ ap (λ n. bit_and (bit_or n (shr (shl (int_of_char c) (suc j + 1)) 8)) 0xff) is_val
        ∙ joined (suc j) q c r h small lower low fits in
      let remains : bit_and (shl (int_of_char c) (j + 2)) 0xff ≡ left =
        ap (λ n. bit_and (shl (int_of_char c) n) 0xff) two
        ∙ bit_and_low 8 (shl (int_of_char c) (suc j + 1))
        ∙ ap (λ n. shl n (suc j + 1) % 2 ^ 8) (int_of_seven c h)
        ∙ omega (arith, small, rest) in
      let (a', e', ok', holds', room') = insert_array_grows m a (q * 2 ^ suc j + r) ok in
      let inserted : HoldsIn m size (insert_array m arr (q * 2 ^ suc j + r))
          (xs ++ (q * 2 ^ suc j + r) ∷ []) =
        (
          a',
          ap (λ b. insert_array m b (q * 2 ^ suc j + r)) same ∙ e',
          ok',
          holds' ∙ ap (λ t. t ++ (q * 2 ^ suc j + r) ∷ []) holds,
          omega (arith, room, room'),
        ) in
      let done =
        reads_in (next (insert_array m arr (q * 2 ^ suc j + r)) inserted)
          (append_assoc xs ((q * 2 ^ suc j + r) ∷ []) zs) in
      rw inside (
        rw here (
          subst
            (λ v.
              HoldsIn m size
                (fill m n (suc j) (bit_and (shl (int_of_char c) (j + 2)) 0xff) s
                  (insert_array m arr v))
                (xs ++ (q * 2 ^ suc j + r) ∷ zs))
            (sym elem)
            (subst
              (λ v.
                HoldsIn m size (fill m n (suc j) v s (insert_array m arr (q * 2 ^ suc j + r)))
                  (xs ++ (q * 2 ^ suc j + r) ∷ zs))
              (sym remains) done)))

  fill_block :
      (a b c d e f g h : ℕ) (s : Bytes) (size : ℕ) (o : Option Array) (xs : List ℕ)
      → IsSeven a
      → IsSeven b
      → IsSeven c
      → IsSeven d
      → IsSeven e
      → IsSeven f
      → IsSeven g
      → IsSeven h
      → HoldsIn m size o xs
      → HoldsIn m size
          (fill m 7 0 (bit_and (shl (int_of_char a) 1) 0xfe) (a ∷ b ∷ c ∷ d ∷ e ∷ f ∷ g ∷ h ∷ s) o)
          (xs ++ seven_of a b c d e f g h)
  unfolding fill
  fill_block a b c d e f g h s size o xs ha hb hc hd he hf hg hh holds =
      let text = a ∷ b ∷ c ∷ d ∷ e ∷ f ∷ g ∷ h ∷ s in
      let inside : (j : ℕ) → j ≤ 7 → ltb j (length text + 1) ≡ true = λ j k. ground arith in
      fill_next 6 0 _ b (a) (b / 2 ^ 6) (b % 2 ^ 6 * 2 ^ 2) text size _ _ _ (inside 0 (omega arith))
        refl (first_bits a ha ∙ omega arith) hb (omega arith) (omega arith) (omega arith)
        (omega arith) (omega arith)
        (λ o0 held0.
          fill_next 5 1 _ c (b % 2 ^ 6) (c / 2 ^ 5) (c % 2 ^ 5 * 2 ^ 3) text size _ _ _
            (inside 1 (omega arith)) refl refl hc (omega arith) (omega arith) (omega arith)
            (omega arith) (omega arith)
            (λ o1 held1.
              fill_next 4 2 _ d (c % 2 ^ 5) (d / 2 ^ 4) (d % 2 ^ 4 * 2 ^ 4) text size _ _ _
                (inside 2 (omega arith)) refl refl hd (omega arith) (omega arith) (omega arith)
                (omega arith) (omega arith)
                (λ o2 held2.
                  fill_next 3 3 _ e (d % 2 ^ 4) (e / 2 ^ 3) (e % 2 ^ 3 * 2 ^ 5) text size _ _ _
                    (inside 3 (omega arith)) refl refl he (omega arith) (omega arith) (omega arith)
                    (omega arith) (omega arith)
                    (λ o3 held3.
                      fill_next 2 4 _ f (e % 2 ^ 3) (f / 2 ^ 2) (f % 2 ^ 2 * 2 ^ 6) text size _ _ _
                        (inside 4 (omega arith)) refl refl hf (omega arith) (omega arith)
                        (omega arith) (omega arith) (omega arith)
                        (λ o4 held4.
                          fill_next 1 5 _ g (f % 2 ^ 2) (g / 2) (g % 2 * 2 ^ 7) text size _ _ _
                            (inside 5 (omega arith)) refl refl hg (omega arith) (omega arith)
                            (omega arith) (omega arith) (omega arith)
                            (λ o5 held5.
                              fill_next 0 6 _ h (g % 2) (h / 1) (h % 1 * 2 ^ 8) text size _ _ _
                                (inside 6 (omega arith)) refl refl hh (omega arith) (omega arith)
                                (omega arith) (omega arith) (omega arith)
                                (λ o6 held6. reads_in held6 (sym (append-nil _))) held5)
                            held4)
                        held3)
                    held2)
                held1)
            held0)
        holds

-- A text whose length is a multiple of eight.
pub data Eights : Bytes → Type 0 where
  none_left : Eights []
  eight_more :
      (a b c d e f g h : ℕ) {s : Bytes} → Eights s → Eights (a ∷ b ∷ c ∷ d ∷ e ∷ f ∷ g ∷ h ∷ s)

pub eights : (k : ℕ) (s : Bytes) → length s ≡ k * 8 → Eights s
eights zero [] h = none_left
eights zero (c ∷ s) h = absurd (omega (arith, h))
eights (suc k) (a ∷ b ∷ c ∷ d ∷ e ∷ f ∷ g ∷ i ∷ s) h =
    eight_more a b c d e f g i (eights k s (omega (arith, h)))
eights (suc k) s h = absurd (omega (arith, h))

-- The bytes of such a text.
abbrev pub packing : {s : Bytes} → Eights s → List ℕ
packing none_left = []
packing (eight_more a b c d e f g h more) = seven_of a b c d e f g h ++ packing more

pub length-packing : {s : Bytes} (d : Eights s) → length (packing d) * 8 ≡ length s * 7
length-packing none_left = refl
length-packing (eight_more a b c d e f g h more) = omega (arith, length-packing more)

module _ (m : Memory) where
  pub fill_all-packing :
      (n : ℕ) {s : Bytes} (d : Eights s) (size : ℕ) (o : Option Array) (xs : List ℕ)
      → length s ≤ n
      → All IsSeven s
      → HoldsIn m size o xs
      → HoldsIn m size (fill_all m n s o) (xs ++ packing d)
  unfolding fill_all
  fill_all-packing zero none_left size o xs enough h holds = reads_in m holds (sym (append-nil xs))
  fill_all-packing (suc n) none_left size o xs enough h holds =
      reads_in m holds (sym (append-nil xs))
  fill_all-packing zero (eight_more a b c d e f g i more) size o xs enough h holds =
      absurd (omega arith)
  fill_all-packing (suc n) (eight_more a b c d e f g i {s} more) size o xs enough
        (ha, (hb, (hc, (hd, (he, (hf, (hg, (hi, hs)))))))) holds =
      let here = fill_block m a b c d e f g i s size o xs ha hb hc hd he hf hg hi holds in
      reads_in m (fill_all-packing n more size _ _ (omega arith) hs here)
        (append_assoc xs (seven_of a b c d e f g i) (packing more))
