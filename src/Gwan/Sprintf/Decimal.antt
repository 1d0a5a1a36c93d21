-- ===== src/Gwan/Sprintf/Decimal.antt =====
-- The decimal form of a number consists of digits.
use gwan_pg_rest_adapter.Prelude.{
  ℕ, zero, suc, ◌+◌, ◌/◌, ◌%◌, ◌≤◌, [], ◌∷◌, ltb, Bytes, All, arith, inl, inr, Bool-cases,
}
use gwan_pg_rest_adapter.Gwan.Sprintf.{digits_from, decimal}

abbrev pub IsDigitByte : ℕ → Type 0
IsDigitByte c = (b'0' ≤ c) × (c ≤ b'9')

digits_from-IsDigitByte :
    (fuel n : ℕ) (rest : Bytes) → All IsDigitByte rest → All IsDigitByte (digits_from fuel n rest)
unfolding digits_from
digits_from-IsDigitByte zero n rest h = h
digits_from-IsDigitByte (suc fuel) n rest h = elim (Bool-cases (ltb n 10)) [
  | inl small ↦ rw small ((ground arith, ground arith), h)
  | inr large ↦ rw large (
      digits_from-IsDigitByte fuel (n / 10) ((n % 10 + 48) ∷ rest)
        ((ground arith, ground arith), h))
]

pub decimal-IsDigitByte : (n : ℕ) → All IsDigitByte (decimal n)
unfolding decimal
decimal-IsDigitByte n = digits_from-IsDigitByte 20 n [] tt
