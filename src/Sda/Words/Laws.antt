-- ===== src/Sda/Words/Laws.antt =====
-- What the addition and the rotation of sda.c compute.
use Prim.Native.Nat.{bit_and, bit_or}
use gwan_pg_rest_adapter.Prelude.{
  ℕ, zero, suc, ◌+◌, ◌-◌, ◌*◌, ◌/◌, ◌%◌, ◌^◌, ◌≤◌, ◌<◌, ◌≡◌, refl, sym, ap, ◌∙◌, arith, ltb, true,
}
use native.Mathlib.Nat.{
  mod-lt, pow-suc, one-le-pow, div-add-mod, add-mul-mod_self_left, mod-eq_of_lt, div-eq_of_lt-le,
}
use gwan_pg_rest_adapter.Sda.Bits.{bit_and_low, bit_or_above, bit_or_shift, bit_or_ones}
use gwan_pg_rest_adapter.Sda.Words.{shl, shr, safe_add, bit_rol}

-- A number that is not negative is halved.
pub shr_positive : (x k : ℕ) → x < 2 ^ 31 → shr x k ≡ x / 2 ^ k
shr_positive x k h = let e : ltb x (2 ^ 31) ≡ true = ground arith in rw e refl

-- The sign bits that a shift brings in are above the low half.
shr-low : (x : ℕ) → x < 2 ^ 32 → shr x 16 % 2 ^ 16 ≡ x / 2 ^ 16
shr-low x h = ground arith

-- A high half, from its low bits, and a low half.
halves : (m r : ℕ) → r < 2 ^ 16 → bit_or (shl m 16) r ≡ m % 2 ^ 16 * 2 ^ 16 + r
halves m r h =
    let e : shl m 16 ≡ m % 2 ^ 16 * 2 ^ 16 = omega arith in
    ap (λ t. bit_or t r) e ∙ bit_or_above 16 (m % 2 ^ 16) r h

-- `safe_add` is the addition of 32-bit numbers, whatever the signs are.
pub safe_add_lem : (x y : ℕ) → x < 2 ^ 32 → y < 2 ^ 32 → safe_add x y ≡ (x + y) % 2 ^ 32
unfolding safe_add
safe_add_lem x y hx hy =
    let lsw = (bit_and x 0xffff + bit_and y 0xffff) % 2 ^ 32 in
    let msw = (shr x 16 + shr y 16 + shr lsw 16) % 2 ^ 32 in
    let ex : bit_and x 0xffff ≡ x % 2 ^ 16 = bit_and_low 16 x in
    let ey : bit_and y 0xffff ≡ y % 2 ^ 16 = bit_and_low 16 y in
    let el : bit_and lsw 0xffff ≡ lsw % 2 ^ 16 = bit_and_low 16 lsw in
    ap (bit_or (shl msw 16)) el
    ∙ halves msw (lsw % 2 ^ 16) (omega arith)
    ∙ omega (arith, ex, ey, shr-low x hx, shr-low y hy, shr-low lsw (omega arith))

-- The rotation to the left.
abbrev pub rotate : ℕ → ℕ → ℕ
rotate num cnt = num * 2 ^ cnt % 2 ^ 32 + num / 2 ^ (32 - cnt)

pow_add : (m n : ℕ) → 2 ^ (m + n) ≡ 2 ^ m * 2 ^ n
pow_add zero n = ap (λ (t : ℕ). 2 ^ t) (add_zero n) ∙ omega arith
  where
    add_zero : (n : ℕ) → zero + n ≡ n
    add_zero n = omega arith
pow_add (suc m) n =
    ap (λ (t : ℕ). 2 ^ t) (add_suc m n)
    ∙ omega (arith, pow-suc 2 (m + n), ap (λ (t : ℕ). t * 2 ^ n) (pow-suc 2 m), pow_add m n)
  where
    add_suc : (m n : ℕ) → suc m + n ≡ suc (m + n)
    add_suc m n = omega arith

module _ (p q x : ℕ) (pos : 0 < q) (small : x < q * p) where
  quotient_lt : x / q < p
  quotient_lt = grind arith

  -- What a shift by `p` leaves of `x` in a word of `q * p`.
  shifted : x * p % (q * p) ≡ x % q * p
  shifted =
      let parts : x * p ≡ x % q * p + q * p * (x / q) =
        omega (arith, ap (λ (t : ℕ). t * p) (div-add-mod x q)) in
      let within : x % q * p < q * p = grind (arith, mod-lt x pos) in
      ap (λ t. t % (q * p)) parts
      ∙ add-mul-mod_self_left (x % q * p) (q * p) (x / q)
      ∙ mod-eq_of_lt within

  -- The quotient of the complement.
  complement-quotient : (q * p - 1 - x) / q ≡ p - 1 - x / q
  complement-quotient =
      let d = x / q in
      let lt = quotient_lt in
      let rest = mod-lt x pos in
      let parts = div-add-mod x q in
      let e : p ≡ (p - 1 - d) + 1 + d = omega arith in
      let full : q * p ≡ q * (p - 1 - d) + q + q * d = omega (arith, ap (λ (t : ℕ). q * t) e) in
      div-eq_of_lt-le {k = p - 1 - d} q {m = q * p - 1 - x} (omega arith) (omega arith)

word_parts : (cnt : ℕ) → cnt < 32 → 2 ^ 32 ≡ 2 ^ (32 - cnt) * 2 ^ cnt
word_parts cnt h =
    let e : 32 ≡ 32 - cnt + cnt = omega arith in ap (λ (t : ℕ). 2 ^ t) e ∙ pow_add (32 - cnt) cnt

-- `bit_rol` rotates a number whose sign bit is clear. One whose sign bit is set keeps the bits that
-- come round, but all others are set, since `>>` copies the sign.
pub bit_rol_lem :
    (num cnt : ℕ)
    → num < 2 ^ 32
    → 0 < cnt
    → cnt < 32
    → (num < 2 ^ 31 → bit_rol num cnt ≡ rotate num cnt)
      × (2 ^ 31 ≤ num → bit_rol num cnt ≡ (2 ^ (32 - cnt) - 1) * 2 ^ cnt + num / 2 ^ (32 - cnt))
unfolding bit_rol
bit_rol_lem num cnt small pos fits =
    let q = 2 ^ (32 - cnt) in
    let p = 2 ^ cnt in
    let whole : 2 ^ 32 ≡ q * p = word_parts cnt fits in
    let some_q : 0 < q = one-le-pow (32 - cnt) 2 (omega arith) in
    let within : num < q * p = omega (arith, whole) in
    let round : num / q < p = quotient_lt p q num some_q within in
    let high : shl num cnt ≡ num % q * p =
      ap (λ (t : ℕ). num * p % t) whole ∙ shifted p q num some_q within in
    (
      λ positive.
          let low : shr num (32 - cnt) ≡ num / q = ground arith in
          ap (λ (t : ℕ). bit_or t (shr num (32 - cnt))) high
          ∙ ap (bit_or (num % q * p)) low
          ∙ bit_or_above cnt (num % q) (num / q) round
          ∙ ap (λ (t : ℕ). t + num / q) (sym high),
      λ negative.
          let turned : (2 ^ 32 - 1 - num) / q ≡ p - 1 - num / q =
            ap (λ (t : ℕ). (t - 1 - num) / q) whole ∙ complement-quotient p q num some_q within in
          let again : q ≡ q - 1 + 1 = omega arith in
          let split : q * p ≡ (q - 1) * p + p = omega (arith, ap (λ (t : ℕ). t * p) again) in
          let low : shr num (32 - cnt) ≡ (q - 1) * p + num / q =
            ground (arith, turned, split, whole) in
          ap (λ (t : ℕ). bit_or t (shr num (32 - cnt))) high
          ∙ ap (bit_or (num % q * p)) low
          ∙ bit_or_shift cnt (num % q) (q - 1) (num / q) round
          ∙ ap (λ (t : ℕ). t * p + num / q) (bit_or_ones (32 - cnt) (num % q) (mod-lt num some_q)),
    )
