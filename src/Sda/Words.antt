-- ===== src/Sda/Words.antt =====
-- The arithmetic of sda.c. An `int` is its bit pattern, a number below 2 ^ 32: `+` and `<<` wrap,
-- and `>>` copies the sign.
pub mod Laws
use Prim.Native.Nat.{bit_and, bit_or, bit_xor}
use gwan_pg_rest_adapter.Prelude.{ℕ, ◌+◌, ◌-◌, ◌*◌, ◌/◌, ◌%◌, ◌^◌, ltb, if◌then◌else◌}

-- `-n`, `~x`, `x << k` and `x >> k`
abbrev pub neg : ℕ → ℕ
neg n = 2 ^ 32 - n

abbrev pub complement : ℕ → ℕ
complement x = 2 ^ 32 - 1 - x

abbrev pub shl : ℕ → ℕ → ℕ
shl x k = x * 2 ^ k % 2 ^ 32

abbrev pub shr : ℕ → ℕ → ℕ
shr x k = if ltb x (2 ^ 31) then x / 2 ^ k else complement (complement x / 2 ^ k)

-- A `char`, which is signed, as an `int`.
abbrev pub int_of_char : ℕ → ℕ
int_of_char c = if ltb c 128 then c else c + neg 256

unfoldable pub safe_add : ℕ → ℕ → ℕ
safe_add x y =
    let lsw = (bit_and x 0xffff + bit_and y 0xffff) % 2 ^ 32 in
    let msw = (shr x 16 + shr y 16 + shr lsw 16) % 2 ^ 32 in
    bit_or (shl msw 16) (bit_and lsw 0xffff)

unfoldable pub bit_rol : ℕ → ℕ → ℕ
bit_rol num cnt = bit_or (shl num cnt) (shr num (32 - cnt))

unfoldable pub md5_cmn : ℕ → ℕ → ℕ → ℕ → ℕ → ℕ → ℕ
unfolding safe_add bit_rol
md5_cmn q a b x s t = safe_add (bit_rol (safe_add (safe_add a q) (safe_add x t)) s) b

unfoldable pub md5_ff : ℕ → ℕ → ℕ → ℕ → ℕ → ℕ → ℕ → ℕ
unfolding md5_cmn
md5_ff a b c d x s t = md5_cmn (bit_or (bit_and b c) (bit_and (complement b) d)) a b x s t

unfoldable pub md5_gg : ℕ → ℕ → ℕ → ℕ → ℕ → ℕ → ℕ → ℕ
unfolding md5_cmn
md5_gg a b c d x s t = md5_cmn (bit_or (bit_and b d) (bit_and c (complement d))) a b x s t

unfoldable pub md5_hh : ℕ → ℕ → ℕ → ℕ → ℕ → ℕ → ℕ → ℕ
unfolding md5_cmn
md5_hh a b c d x s t = md5_cmn (bit_xor (bit_xor b c) d) a b x s t

unfoldable pub md5_ii : ℕ → ℕ → ℕ → ℕ → ℕ → ℕ → ℕ → ℕ
unfolding md5_cmn
md5_ii a b c d x s t = md5_cmn (bit_xor c (bit_or b (complement d))) a b x s t
