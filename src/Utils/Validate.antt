-- ===== src/Utils/Validate.antt =====
-- The string validators of libraries/postrest/utils.c. Each returns 1 or 0, here true or false.
-- A loop that returns 0 at the first offending byte is `all` over the bytes.
pub mod Accepts
use gwan_pg_rest_adapter.Prelude.{
  ℕ, Bool, true, false, not, ◌&&◌, ◌||◌, Option, none, some, [], ◌∷◌, Bytes, below, above, leb,
  ◌==◌, all, length, if◌then◌else◌,
}

-- The macros `IS_ALPHA` and `IS_NUMBER`.
abbrev pub is_alpha : ℕ → Bool
is_alpha c = (leb b'A' c && leb c b'Z') || (leb b'a' c && leb c b'z')

abbrev pub is_number : ℕ → Bool
is_number c = leb b'0' c && leb c b'9'

abbrev pub is_token_byte : ℕ → Bool
is_token_byte c =
    is_alpha c
    || is_number c
    || c == b'!'
    || c == b'#'
    || c == b'$'
    || c == b'%'
    || c == b'&'
    || c == 0x27
    || c == b'*'
    || c == b'+'
    || c == b'-'
    || c == b'.'
    || c == b'^'
    || c == b'_'
    || c == b'`'
    || c == b'|'
    || c == b'~'

-- The test that `strword` rejects on.
abbrev pub word_byte : ℕ → Bool
word_byte c =
    (c == 0x2d || c == 0x5f)
    || not (
        (below c 0x30 || above c 0x7a)
        || (above c 0x39 && below c 0x41)
        || (above c 0x5a && below c 0x61))

abbrev pub string_byte : ℕ → Bool
string_byte c = not (below c 0x20 || c == 0x27 || c == 0x3b)

abbrev pub uuid_byte : ℕ → Bool
uuid_byte c =
    not ((below c b'0' || above c b'f') || (above c b'9' && below c b'a') || not (c == b'-'))

abbrev pub base64_byte : ℕ → Bool
base64_byte c = is_alpha c || is_number c || c == b'+' || c == b'/' || c == b'='

abbrev pub csv_byte : ℕ → Bool
csv_byte c = not (
    below c 0x2c
    || above c 0x7a
    || (above c 0x3a && below c 0x40)
    || (above c 0x5a && below c 0x61))

abbrev pub digit_byte : ℕ → Bool
digit_byte c = not (below c 0x30 || above c 0x39)

-- `if(!string) return 0; if(strlen(string) <= 0) return 0;` and then the loop.
abbrev non_empty : (ℕ → Bool) → Option Bytes → Bool
non_empty p none = false
non_empty p (some []) = false
non_empty p (some (c ∷ s)) = all p (c ∷ s)

unfoldable pub strword : Option Bytes → Bool
strword s = non_empty word_byte s

unfoldable pub is_string : Option Bytes → Bool
is_string s = non_empty string_byte s

-- The empty string is a token here.
unfoldable pub is_token : Option Bytes → Bool
is_token none = false
is_token (some s) = all is_token_byte s

unfoldable pub is_uuid : Option Bytes → Bool
is_uuid none = false
is_uuid (some s) = if length s == 36 then all uuid_byte s else false

unfoldable pub is_base64 : Option Bytes → Bool
is_base64 s = non_empty base64_byte s

unfoldable pub strcsv : Option Bytes → Bool
strcsv s = non_empty csv_byte s

unfoldable pub strdigit : Option Bytes → Bool
strdigit s = non_empty digit_byte s
