-- ===== src/Gwan/Sprintf.antt =====
-- C's formatted output for the conversions that the adapter uses on its texts: %s, %c, %d, %u, %x, %X,
-- and the last four with the length modifier ll.
-- `none`: an argument is missing or a null pointer, the conversion is another one, or the number of a
-- %d has the sign bit of an int.
pub mod Decimal
use gwan_pg_rest_adapter.Prelude.{
  ℕ, zero, suc, ◌+◌, ◌-◌, ◌/◌, ◌%◌, Bool, true, false, Option, none, some, List, [], ◌∷◌, ◌++◌, ◌^◌,
  ◌<◌, ◌≡◌, refl, arith, Bytes, ltb, ◌==◌, if◌then◌else◌,
}

pub data Arg : Type 0 where
  str : Option Bytes → Arg
  num : ℕ → Arg
  chr : ℕ → Arg

-- Decimal digits in front of `rest`; `fuel` is at least the number of digits.
digits_from : ℕ → ℕ → Bytes → Bytes
digits_from zero n rest = rest
digits_from (suc fuel) n rest =
    let more = digits_from fuel (n / 10) ((n % 10 + 48) ∷ rest) in
    if ltb n 10 then (n + 48) ∷ rest else more

-- The decimal form of an unsigned 64-bit number has at most twenty digits.
unfoldable pub decimal : ℕ → Bytes
unfolding digits_from
decimal n = digits_from 20 n []

-- The digit of a value below 16, from `ten` on for those from ten up.
hex_digit : ℕ → ℕ → ℕ
hex_digit ten n = if ltb n 10 then n + 48 else n - 10 + ten

hex_from : ℕ → ℕ → ℕ → Bytes → Bytes
unfolding hex_digit
hex_from zero ten n rest = rest
hex_from (suc fuel) ten n rest =
    let more = hex_from fuel ten (n / 16) (hex_digit ten (n % 16) ∷ rest) in
    if ltb n 16 then hex_digit ten n ∷ rest else more

-- The hexadecimal form of an unsigned 64-bit number has at most sixteen digits.
unfoldable pub hexadecimal : ℕ → ℕ → Bytes
unfolding hex_from
hexadecimal ten n = hex_from 16 ten n []

-- What a conversion writes, and the arguments left.
unfoldable pub convert : ℕ → List Arg → Option (Bytes × List Arg)
convert c [] = none
convert c (str none ∷ args) = none
convert c (str (some s) ∷ args) = if c == b's' then some (s, args) else none
convert c (num n ∷ args) =
    if c == b'd'
    then (if ltb n (2 ^ 31) then some (decimal n, args) else none)
    else if c == b'u'
    then some (decimal n, args)
    else if c == b'x'
    then some (hexadecimal b'a' n, args)
    else if c == b'X'
    then some (hexadecimal b'A' n, args)
    else none
convert c (chr k ∷ args) = if c == b'c' then some (k ∷ [], args) else none

abbrev pub prepend : Bytes → Option Bytes → Option Bytes
prepend s none = none
prepend s (some t) = some (s ++ t)

-- `percent`: the byte before was the '%' of a conversion.
unfoldable pub format : Bool → Bytes → List Arg → Option Bytes
unfolding convert
format true [] args = none
format false [] args = some []
format true (c ∷ fmt) args = elim (c == b'l') [
  | true ↦ format true fmt args
  | false ↦ elim (convert c args) [
    | none ↦ none
    | some (out, left) ↦ prepend out (format false fmt left)
  ]
]
format false (c ∷ fmt) args = elim (c == b'%') [
  | true ↦ format true fmt args
  | false ↦ prepend (c ∷ []) (format false fmt args)
]

unfoldable pub sprintf : Bytes → List Arg → Option Bytes
unfolding format
sprintf fmt args = format false fmt args

-- A %d of a number without the sign bit of an int.
pub format_int :
    (n : ℕ) (fmt : Bytes) (args : List Arg)
    → n < 2 ^ 31
    → format true (b'd' ∷ fmt) (num n ∷ args) ≡ prepend (decimal n) (format false fmt args)
unfolding format
format_int n fmt args h =
    let small : ltb n (2 ^ 31) ≡ true = ground arith in rw (format, small) refl
