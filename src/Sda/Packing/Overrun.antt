-- ===== src/Sda/Packing/Overrun.antt =====
-- `compress8to7` reads behind the NUL of a text that ends within a block of eight.
use gwan_pg_rest_adapter.Prelude.{
  ℕ, zero, suc, ◌+◌, ◌-◌, ◌*◌, ◌%◌, ◌/◌, ◌≤◌, ◌<◌, ◌≡◌, refl, ap, ◌∙◌, Bool-cases, inl, inr, Option,
  none, some, [], ◌∷◌, Bytes, true, length, drop, arith, ltb,
}
use gwan_pg_rest_adapter.Sda.Arrays.{Memory, Array}
use gwan_pg_rest_adapter.Sda.Packing.{char_at, fill, fill_all, compress8to7}

char_at-within : (s : Bytes) (i : ℕ) → i ≤ length s → (c : ℕ) × (char_at s i ≡ some c)
char_at-within [] zero h = (0, refl)
char_at-within [] (suc i) h = absurd (omega arith)
char_at-within (c ∷ s) zero h = (c, refl)
char_at-within (c ∷ s) (suc i) h = char_at-within s i (omega arith)

char_at-behind : (s : Bytes) (i : ℕ) → length s < i → char_at s i ≡ none
char_at-behind [] zero h = absurd (omega arith)
char_at-behind [] (suc i) h = refl
char_at-behind (c ∷ s) zero h = absurd (omega arith)
char_at-behind (c ∷ s) (suc i) h = char_at-behind s i (omega arith)

length-drop : (n : ℕ) (s : Bytes) → length (drop n s) ≡ length s - n
length-drop zero s = omega arith
length-drop (suc n) [] = omega arith
length-drop (suc n) (c ∷ s) = omega (arith, length-drop n s)

module _ (m : Memory) where
  fill_overrun :
      (n j val : ℕ) (s : Bytes) (o : Option Array)
      → j ≤ length s
      → length s < j + n
      → fill m n j val s o ≡ none
  unfolding fill
  fill_overrun zero j val s o h le = absurd (omega arith)
  fill_overrun (suc n) j val s none h le = refl
  fill_overrun (suc n) j val s (some arr) h le =
      let inside : ltb j (length s + 1) ≡ true = ground arith in
      elim (Bool-cases (ltb j (length s))) [
        | inl below ↦
            let more : suc j ≤ length s = ground arith in
            let (c, here) = char_at-within s (suc j) more in
            rw inside (rw here (fill_overrun n (suc j) _ s _ more (omega arith)))
        | inr not_below ↦
            let past = char_at-behind s (suc j) (ground arith) in rw inside (rw past refl)
      ]

  fill_all-none : (n : ℕ) (s : Bytes) → fill_all m n s none ≡ none
  unfolding fill_all
  fill_all-none zero s = refl
  fill_all-none (suc n) [] = refl
  fill_all-none (suc n) (c ∷ s) = fill_all-none n (drop 8 (c ∷ s))

  fill_all_overrun :
      (n k : ℕ) (s : Bytes) (o : Option Array)
      → k * 8 < length s
      → length s < k * 8 + 7
      → length s ≤ n
      → fill_all m n s o ≡ none
  unfolding fill_all
  fill_all_overrun zero k s o h near enough = absurd (omega arith)
  fill_all_overrun (suc n) k [] o h near enough = absurd (omega arith)
  fill_all_overrun (suc n) zero (c ∷ s) o h near enough =
      ap (fill_all m n (drop 8 (c ∷ s))) (fill_overrun 7 0 _ (c ∷ s) o (omega arith) near)
      ∙ fill_all-none n (drop 8 (c ∷ s))
  fill_all_overrun (suc n) (suc k) (c ∷ s) o h near enough =
      let rest = length-drop 8 (c ∷ s) in
      fill_all_overrun n k (drop 8 (c ∷ s)) _ (omega (arith, rest)) (omega (arith, rest))
        (omega (arith, rest))

  -- A text of one to six characters more than a multiple of eight is read behind its end, whatever
  -- the characters are.
  pub compress8to7_overrun :
      (str : Bytes) → 0 < length str % 8 → length str % 8 < 7 → compress8to7 m str ≡ none
  unfolding compress8to7
  compress8to7_overrun str h near =
      fill_all_overrun (length str) (length str / 8) str _ (omega arith) (omega arith) (omega arith)
