-- ===== src/Utils/Atoi.antt =====
-- C's `atoi`, as the bit pattern of the `int` that csp/*.c print with %u. A value
-- that no int holds wraps here; C leaves it undefined.
use gwan_pg_rest_adapter.Prelude.{
  ℕ, ◌+◌, ◌-◌, ◌*◌, ◌%◌, ◌^◌, Bool, ◌&&◌, ◌||◌, [], ◌∷◌, Bytes, leb, ◌==◌, if◌then◌else◌,
}

abbrev is_space : ℕ → Bool
is_space c = c == 32 || (leb 9 c && leb c 13)

abbrev is_digit : ℕ → Bool
is_digit c = leb 48 c && leb c 57

abbrev skip_spaces : Bytes → Bytes
skip_spaces [] = []
skip_spaces (c ∷ s) = let rest = skip_spaces s in if is_space c then rest else c ∷ s

digits : ℕ → Bytes → ℕ
digits n [] = n
digits n (c ∷ s) = let more = digits (10 * n + (c - 48)) s in if is_digit c then more else n

signed : Bytes → ℕ
unfolding digits
signed [] = 0
signed (c ∷ s) =
    if c == b'-'
    then (2 ^ 32 - digits 0 s % 2 ^ 32) % 2 ^ 32
    else (if c == b'+' then digits 0 s % 2 ^ 32 else digits 0 (c ∷ s) % 2 ^ 32)

-- A value that no `int` holds is undefined in C and wraps here.
unfoldable pub atoi : Bytes → ℕ
unfolding signed
atoi s = signed (skip_spaces s)
