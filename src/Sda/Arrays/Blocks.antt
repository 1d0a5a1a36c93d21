-- ===== src/Sda/Arrays/Blocks.antt =====
-- Writes within a block, and the first cells of one.
use gwan_pg_rest_adapter.Prelude.{
  ℕ, zero, suc, ◌+◌, ◌≤◌, ◌<◌, ◌≡◌, refl, sym, ap, append-nil, ◌∙◌, some, List, [], ◌∷◌, ◌++◌,
  append_assoc, length, take, arith,
}
use gwan_pg_rest_adapter.Sda.Arrays.{store, copy_to}

-- A write within the block succeeds: what it leaves before the cell, and up to it.
pub store-within :
    (cells : List ℕ) (i v : ℕ)
    → i < length cells
    → (cells' : List ℕ) × (store cells i v ≡ some cells')
      × (length cells' ≡ length cells)
      × (take i cells' ≡ take i cells)
      × (take (suc i) cells' ≡ take i cells ++ v ∷ [])
store-within [] i v h = absurd (omega arith)
store-within (x ∷ xs) zero v h = (v ∷ xs, refl, refl, refl, refl)
store-within (x ∷ xs) (suc i) v h =
    let (ys, e, same, before, upto) = store-within xs i v (omega arith) in
    (x ∷ ys, rw e refl, omega arith, ap (λ t. x ∷ t) before, ap (λ t. x ∷ t) upto)

pub copy_to-within :
    (cells : List ℕ) (i : ℕ) (ys : List ℕ)
    → i + length ys ≤ length cells
    → (cells' : List ℕ) × (copy_to cells i ys ≡ some cells')
      × (length cells' ≡ length cells)
      × (take (i + length ys) cells' ≡ take i cells ++ ys)
copy_to-within cells i [] h =
    let stop : i + 0 ≡ i = omega arith in
    (cells, refl, refl, ap (λ n. take n cells) stop ∙ sym (append-nil (take i cells)))
copy_to-within cells i (y ∷ ys) h =
    let (mid, e, same, before, upto) = store-within cells i y (omega arith) in
    let next : i + length (y ∷ ys) ≡ suc i + length ys = omega arith in
    let (cells', e', same', filled) = copy_to-within mid (suc i) ys (omega arith) in
    (
      cells',
      rw (copy_to, e) e',
      same' ∙ same,
      ap (λ n. take n cells') next
          ∙ filled
          ∙ ap (λ t. t ++ ys) upto
          ∙ append_assoc (take i cells) (y ∷ []) ys,
    )

pub length-take : (n : ℕ) (xs : List ℕ) → n ≤ length xs → length (take n xs) ≡ n
length-take zero xs h = refl
length-take (suc n) [] h = absurd (omega arith)
length-take (suc n) (x ∷ xs) h = omega (arith, length-take n xs (omega arith))

pub take-append : (n : ℕ) (xs ys : List ℕ) → n ≤ length xs → take n (xs ++ ys) ≡ take n xs
take-append zero xs ys h = refl
take-append (suc n) [] ys h = absurd (omega arith)
take-append (suc n) (x ∷ xs) ys h = ap (λ t. x ∷ t) (take-append n xs ys (omega arith))

pub take-take : (k n : ℕ) (xs : List ℕ) → k ≤ n → take k (take n xs) ≡ take k xs
take-take zero n xs h = refl
take-take (suc k) zero xs h = absurd (omega arith)
take-take (suc k) (suc n) [] h = refl
take-take (suc k) (suc n) (x ∷ xs) h = ap (λ t. x ∷ t) (take-take k n xs (omega arith))
