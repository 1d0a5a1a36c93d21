-- ===== src/Sda/Bits.antt =====
-- `&`, `|` and `^` as arithmetic: their lowest digit, masks, and fields that do not overlap.
use Prim.Native.Nat.{
  min, max, differ, digits, bit_and, bit_or, bit_xor, bit_and-bitwise, bit_or-bitwise,
  bit_xor-bitwise,
}
use native.Mathlib.Nat.{pow-suc, one-le-pow}
use gwan_pg_rest_adapter.Prelude.{
  ℕ, zero, suc, ◌+◌, ◌-◌, ◌*◌, ◌/◌, ◌%◌, ◌^◌, ◌≤◌, ◌<◌, ◌≡◌, refl, ap, ◌∙◌, arith, Bool, true,
  false, ◌&&◌, ◌==◌, Bool-cases, inl, inr,
}

-- Any number of digits that the first number fits in will do.
module _ (rest : ℕ → ℕ) (op : ℕ → ℕ → ℕ) where
  digits_enough : (i j x y : ℕ) → x ≤ i → x ≤ j → digits rest op i x y ≡ digits rest op j x y
  digits_enough zero zero zero y h k = refl
  digits_enough zero zero (suc x) y h k = refl
  digits_enough zero (suc j) zero y h k = refl
  digits_enough zero (suc j) (suc x) y h k = absurd (omega arith)
  digits_enough (suc i) zero zero y h k = refl
  digits_enough (suc i) zero (suc x) y h k = absurd (omega arith)
  digits_enough (suc i) (suc j) zero y h k = refl
  digits_enough (suc i) (suc j) (suc x) y h k =
      let ih = digits_enough i j (suc x / 2) (y / 2) (omega arith) (omega arith) in
      ap (λ t. t * 2 + op (suc x % 2) (y % 2)) ih

pub bit_and_digit : (x y : ℕ) → bit_and x y ≡ bit_and (x / 2) (y / 2) * 2 + min (x % 2) (y % 2)
bit_and_digit zero y = omega (arith, bit_and-bitwise zero y, bit_and-bitwise zero (y / 2))
bit_and_digit (suc x) y = omega (
  arith,
  bit_and-bitwise (suc x) y,
  bit_and-bitwise (suc x / 2) (y / 2),
  digits_enough (λ b. zero) min x (suc x / 2) (suc x / 2) (y / 2) (omega arith) (omega arith),
)

pub bit_or_digit : (x y : ℕ) → bit_or x y ≡ bit_or (x / 2) (y / 2) * 2 + max (x % 2) (y % 2)
bit_or_digit zero y = omega (arith, bit_or-bitwise zero y, bit_or-bitwise zero (y / 2))
bit_or_digit (suc x) y = omega (
  arith,
  bit_or-bitwise (suc x) y,
  bit_or-bitwise (suc x / 2) (y / 2),
  digits_enough (λ b. b) max x (suc x / 2) (suc x / 2) (y / 2) (omega arith) (omega arith),
)

pub bit_xor_digit : (x y : ℕ) → bit_xor x y ≡ bit_xor (x / 2) (y / 2) * 2 + differ (x % 2) (y % 2)
bit_xor_digit zero y = omega (arith, bit_xor-bitwise zero y, bit_xor-bitwise zero (y / 2))
bit_xor_digit (suc x) y = omega (
  arith,
  bit_xor-bitwise (suc x) y,
  bit_xor-bitwise (suc x / 2) (y / 2),
  digits_enough (λ b. b) differ x (suc x / 2) (suc x / 2) (y / 2) (omega arith) (omega arith),
)

-- The laws of zero and of a number with itself, with as many halvings as the number has room for.
or_zero_within : (n x : ℕ) → x ≤ n → bit_or x 0 ≡ x
or_zero_within n zero h = refl
or_zero_within zero (suc x) h = absurd (omega arith)
or_zero_within (suc n) (suc x) h =
    omega (arith, bit_or_digit (suc x) 0, or_zero_within n (suc x / 2) (omega arith))

and_zero_within : (n x : ℕ) → x ≤ n → bit_and x 0 ≡ 0
and_zero_within n zero h = refl
and_zero_within zero (suc x) h = absurd (omega arith)
and_zero_within (suc n) (suc x) h =
    omega (arith, bit_and_digit (suc x) 0, and_zero_within n (suc x / 2) (omega arith))

twice_pow : (q k : ℕ) → q * 2 ^ suc k ≡ q * 2 ^ k * 2
twice_pow q k = omega (arith, ap (λ (t : ℕ). q * t) (pow-suc 2 k))

and_field : (k q r : ℕ) → r < 2 ^ k → bit_and (q * 2 ^ k + r) (2 ^ k - 1) ≡ r
and_field zero q r h =
    ground (arith, and_zero_within (q * 2 ^ zero + r) (q * 2 ^ zero + r) (omega arith))
and_field (suc k) q r h = ground (
  arith,
  bit_and_digit (q * 2 ^ suc k + r) (2 ^ suc k - 1),
  twice_pow q k,
  pow-suc 2 k,
  and_field k q (r / 2),
)

-- The lowest `k` bits.
pub bit_and_low : (k x : ℕ) → bit_and x (2 ^ k - 1) ≡ x % 2 ^ k
bit_and_low k x = ground (arith, one-le-pow k 2, and_field k (x / 2 ^ k) (x % 2 ^ k))

-- A field above `k` bits and one within them.
pub bit_or_above : (k q r : ℕ) → r < 2 ^ k → bit_or (q * 2 ^ k) r ≡ q * 2 ^ k + r
bit_or_above zero q r h = ground (arith, or_zero_within q q (omega arith))
bit_or_above (suc k) q r h =
    ground
      (arith, bit_or_digit (q * 2 ^ suc k) r, twice_pow q k, pow-suc 2 k, bit_or_above k q (r / 2))

-- Fields at the same places.
pub bit_or_shift :
    (k a b r : ℕ) → r < 2 ^ k → bit_or (a * 2 ^ k) (b * 2 ^ k + r) ≡ bit_or a b * 2 ^ k + r
bit_or_shift zero a b r h =
    let e : r ≡ 0 = omega arith in ground (arith, ap (λ (t : ℕ). bit_or a (b + t)) e)
bit_or_shift (suc k) a b r h = ground (
  arith,
  bit_or_digit (a * 2 ^ suc k) (b * 2 ^ suc k + r),
  twice_pow a k,
  twice_pow b k,
  twice_pow (bit_or a b) k,
  pow-suc 2 k,
  bit_or_shift k a b (r / 2),
)

-- `k` ones take in every number of `k` bits.
pub bit_or_ones : (k a : ℕ) → a < 2 ^ k → bit_or a (2 ^ k - 1) ≡ 2 ^ k - 1
bit_or_ones zero a h = let e : a ≡ 0 = omega arith in ap (λ (t : ℕ). bit_or t 0) e
bit_or_ones (suc k) a h =
    ground
      (arith, bit_or_digit a (2 ^ suc k - 1), pow-suc 2 k, one-le-pow k 2, bit_or_ones k (a / 2))

-- A test of all numbers below a bound.
abbrev pub passes : (ℕ → Bool) → ℕ → Bool
passes p zero = true
passes p (suc n) = p n && passes p n

both : (b c : Bool) → (b && c) ≡ true → (b ≡ true) × (c ≡ true)
both true c h = (refl, h)
both false c h = absurd (cc)

pub passes-holds : (p : ℕ → Bool) (n i : ℕ) → passes p n ≡ true → i < n → p i ≡ true
passes-holds p zero i h le = absurd (omega arith)
passes-holds p (suc n) i h le = elim (Bool-cases (i == n)) [
  | inl same ↦ let at : i ≡ n = ground arith in ap p at ∙ (both (p n) (passes p n) h).0
  | inr less ↦ passes-holds p n i ((both (p n) (passes p n) h).1) (ground arith)
]
