-- ===== src/Utils/Validate/Accepts.antt =====
-- What the validators of libraries/postrest/utils.c accept, described by classes of bytes.
use gwan_pg_rest_adapter.Prelude.{
  ℕ, ◌≤◌, ◌<◌, ◌≡◌, ◌≢◌, ◌↔◌, ◌⊎◌, refl, Bool, true, false, Option, none, some, [], ◌∷◌, Bytes, All,
  all, arith,
}
use gwan_pg_rest_adapter.Utils.Validate.{
  strword, is_string, is_uuid, strdigit, word_byte, string_byte, digit_byte, uuid_byte,
}

-- - _ 0-9 A-Z a-z
abbrev pub IsWordByte : ℕ → Type 0
IsWordByte c =
    (c ≡ b'-')
    ⊎ (c ≡ b'_')
    ⊎ (b'0' ≤ c) × (c ≤ b'9')
    ⊎ (b'A' ≤ c) × (c ≤ b'Z')
    ⊎ (b'a' ≤ c) × (c ≤ b'z')

-- Printable ASCII other than the quote and the semicolon (and DEL, which the code admits).
abbrev pub IsStringByte : ℕ → Type 0
IsStringByte c = (32 ≤ c) × (c < 128) × (c ≢ b'\'') × (c ≢ b';')

-- A non-empty text all of whose bytes satisfy `P`.
abbrev pub Consists : (ℕ → Type 0) → Option Bytes → Type 0
Consists P none = ⊥
Consists P (some []) = ⊥
Consists P (some (c ∷ s)) = P c × All P s

word_byte_iff : (c : ℕ) → (word_byte c ≡ true) ↔ IsWordByte c
word_byte_iff c = (λ h. ground arith, λ h. ground arith)

string_byte_iff : (c : ℕ) → (string_byte c ≡ true) ↔ IsStringByte c
string_byte_iff c = (λ h. ground arith, λ h. ground arith)

digit_byte_iff : (c : ℕ) → (digit_byte c ≡ true) ↔ ((b'0' ≤ c) × (c ≤ b'9'))
digit_byte_iff c = (λ h. ground arith, λ h. ground arith)

module _ {p : ℕ → Bool} {P : ℕ → Type 0} (p_iff : (c : ℕ) → (p c ≡ true) ↔ P c) where
  all→All : (s : Bytes) → all p s ≡ true → All P s
  all→All [] h = tt
  all→All (c ∷ s) h = ((p_iff c).0 (ground arith), all→All s (ground arith))

  All→all : (s : Bytes) → All P s → all p s ≡ true
  All→all [] h = refl
  All→all (c ∷ s) (h, k) = ground (arith, (p_iff c).1 h, All→all s k)

uuid_byte-false : (c : ℕ) → uuid_byte c ≡ false
uuid_byte-false c = ground arith

-- `strword` accepts exactly the non-empty texts of letters, digits, '-' and '_'.
pub strword_iff : (s : Option Bytes) → (strword s ≡ true) ↔ Consists IsWordByte s
unfolding strword
strword_iff none = (λ h. cc, λ h. absurd h)
strword_iff (some []) = (λ h. cc, λ h. absurd h)
strword_iff (some (c ∷ s)) = (all→All word_byte_iff (c ∷ s), All→all word_byte_iff (c ∷ s))

-- `isString` accepts exactly the non-empty texts of ASCII bytes from 32 up, without ' and ;.
pub is_string_iff : (s : Option Bytes) → (is_string s ≡ true) ↔ Consists IsStringByte s
unfolding is_string
is_string_iff none = (λ h. cc, λ h. absurd h)
is_string_iff (some []) = (λ h. cc, λ h. absurd h)
is_string_iff (some (c ∷ s)) = (all→All string_byte_iff (c ∷ s), All→all string_byte_iff (c ∷ s))

-- `strdigit` accepts exactly the non-empty texts of decimal digits.
pub strdigit_iff :
    (s : Option Bytes) → (strdigit s ≡ true) ↔ Consists (λ c. (b'0' ≤ c) × (c ≤ b'9')) s
unfolding strdigit
strdigit_iff none = (λ h. cc, λ h. absurd h)
strdigit_iff (some []) = (λ h. cc, λ h. absurd h)
strdigit_iff (some (c ∷ s)) = (all→All digit_byte_iff (c ∷ s), All→all digit_byte_iff (c ∷ s))

-- `isUUID` accepts no string at all: no byte is both '-' and from '0' to 'f'.
pub is_uuid-eq-false : (s : Option Bytes) → is_uuid s ≡ false
unfolding is_uuid
is_uuid-eq-false none = refl
is_uuid-eq-false (some []) = refl
is_uuid-eq-false (some (c ∷ s)) = ground (arith, uuid_byte-false c)
