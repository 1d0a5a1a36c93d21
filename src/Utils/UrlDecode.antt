-- ===== src/Utils/UrlDecode.antt =====
-- `url_decode` of libraries/postrest/utils.c, on the bytes before the NUL of `src`. The result is
-- what is written to `dst` before the final NUL; "%00" writes a NUL in the middle.
pub mod RoundTrip
use gwan_pg_rest_adapter.Prelude.{
  ℕ, ◌+◌, ◌-◌, ◌*◌, ◌%◌, Bool, true, false, ◌&&◌, ◌||◌, [], ◌∷◌, Bytes, leb, ◌==◌, if◌then◌else◌,
}

-- C's `isxdigit`
abbrev pub isxdigit : ℕ → Bool
isxdigit c = (leb b'0' c && leb c b'9') || (leb b'A' c && leb c b'F') || (leb b'a' c && leb c b'f')

-- `if (a >= 'a') a -= 'a'-'A'; if (a >= 'A') a -= ('A' - 10); else a -= '0';` on a hex digit
abbrev pub hex_value : ℕ → ℕ
hex_value a =
    let upper = if leb b'a' a then a - 32 else a in
    if leb b'A' upper then upper - 55 else upper - 48

unfoldable pub url_decode : Bytes → Bytes
url_decode [] = []
url_decode (c ∷ []) = c ∷ []
url_decode (c ∷ a ∷ []) = c ∷ a ∷ []
url_decode (c ∷ a ∷ b ∷ src) = elim (c == b'%' && (isxdigit a && isxdigit b)) [
  | true ↦ ((16 * hex_value a + hex_value b) % 256) ∷ url_decode src
  | false ↦ c ∷ url_decode (a ∷ b ∷ src)
]
