-- ===== src/Utils/UrlDecode/RoundTrip.antt =====
-- Decoding undoes percent-encoding, and never makes a text longer.
use gwan_pg_rest_adapter.Prelude.{
  ℕ, ◌+◌, ◌/◌, ◌%◌, ◌≤◌, ◌<◌, ◌≡◌, ◌≢◌, refl, ap, ◌∙◌, Bool, true, false, [], ◌∷◌, Bytes, All,
  arith, ltb, length, inl, inr, Bool-cases, if◌then◌else◌,
}
use gwan_pg_rest_adapter.Utils.UrlDecode.{isxdigit, hex_value, url_decode}

-- A hex digit, in upper case.
abbrev pub hex_digit : ℕ → ℕ
hex_digit n = if ltb n 10 then n + 48 else n + 55

-- A percent-encoder that may leave alone whatever bytes it likes, other than '%'.
abbrev pub url_encode : (ℕ → Bool) → Bytes → Bytes
url_encode keep [] = []
url_encode keep (c ∷ s) =
    let rest = url_encode keep s in
    if keep c then c ∷ rest else b'%' ∷ hex_digit (c / 16) ∷ hex_digit (c % 16) ∷ rest

hex_digit-isxdigit : (n : ℕ) → n < 16 → isxdigit (hex_digit n) ≡ true
hex_digit-isxdigit n h = ground arith

hex_value-hex_digit : (n : ℕ) → n < 16 → hex_value (hex_digit n) ≡ n
hex_value-hex_digit n h = ground arith

url_decode-nil : url_decode [] ≡ []
unfolding url_decode
url_decode-nil = refl

url_decode_kept : (c : ℕ) (s : Bytes) → c ≢ b'%' → url_decode (c ∷ s) ≡ c ∷ url_decode s
unfolding url_decode
url_decode_kept c [] h = refl
url_decode_kept c (a ∷ []) h = refl
url_decode_kept c (a ∷ b ∷ s) h = ground arith

url_decode_escaped :
    (c : ℕ) (s : Bytes)
    → c < 256
    → url_decode (b'%' ∷ hex_digit (c / 16) ∷ hex_digit (c % 16) ∷ s) ≡ c ∷ url_decode s
unfolding url_decode
url_decode_escaped c s h = ground (
  arith,
  hex_digit-isxdigit (c / 16),
  hex_digit-isxdigit (c % 16),
  hex_value-hex_digit (c / 16),
  hex_value-hex_digit (c % 16),
)

-- Whichever bytes the encoder escapes, as long as it never leaves a '%' alone, decoding gives the
-- text back.
pub url_decode-url_encode :
    (keep : ℕ → Bool) (s : Bytes)
    → keep b'%' ≡ false
    → All (λ c. c < 256) s
    → url_decode (url_encode keep s) ≡ s
url_decode-url_encode keep [] h k = url_decode-nil
url_decode-url_encode keep (c ∷ s) h (k, ks) =
    let ih = url_decode-url_encode keep s h ks in
    elim (Bool-cases (keep c)) [
      | inl kept ↦
          let c_ne : c ≢ b'%' = (λ e. cc (ap keep e)) in
          rw kept (url_decode_kept c (url_encode keep s) c_ne ∙ ap (λ r. c ∷ r) ih)
      | inr escaped ↦ rw escaped (url_decode_escaped c (url_encode keep s) k ∙ ap (λ r. c ∷ r) ih)
    ]

-- A text without '%' is decoded to itself.
pub url_decode_plain : (s : Bytes) → All (λ c. c ≢ b'%') s → url_decode s ≡ s
url_decode_plain [] h = url_decode-nil
url_decode_plain (c ∷ s) (h, hs) = url_decode_kept c s h ∙ ap (λ r. c ∷ r) (url_decode_plain s hs)

-- What is written is never longer than what is read.
pub length-url_decode-le : (s : Bytes) → length (url_decode s) ≤ length s
unfolding url_decode
length-url_decode-le [] = omega arith
length-url_decode-le (c ∷ []) = omega arith
length-url_decode-le (c ∷ a ∷ []) = omega arith
length-url_decode-le (c ∷ a ∷ b ∷ s) =
    ground (arith, length-url_decode-le s, length-url_decode-le (a ∷ b ∷ s))
