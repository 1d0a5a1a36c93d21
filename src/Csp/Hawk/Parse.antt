-- ===== src/Csp/Hawk/Parse.antt =====
-- A Hawk authorization is read back.
use gwan_pg_rest_adapter.Prelude.{
  ℕ, ◌≡◌, ◌≢◌, ap, refl, false, none, some, [], ◌∷◌, ◌++◌, Bytes, codes, All, length, ltb, arith,
  ◌==◌,
}
use gwan_pg_rest_adapter.Csp.Hawk.{
  text, strip, strstr, split_comma, drop_last, quoted_token, read_value, hawk_parse_token, parsed,
  hawk_parse_artifacts,
}

abbrev pub NoComma : Bytes → Type 0
NoComma v = All (λ c. c ≢ b',') v

drop_last-append : (v : Bytes) (c : ℕ) → drop_last (v ++ c ∷ []) ≡ v
drop_last-append [] c = refl
drop_last-append (d ∷ []) c = refl
drop_last-append (d ∷ e ∷ v) c = ap (λ t. d ∷ t) (drop_last-append (e ∷ v) c)

split_comma-append :
    (v more : Bytes)
    → NoComma v
    → split_comma (v ++ b'"' ∷ b',' ∷ more) ≡ some (v ++ b'"' ∷ [], more)
unfolding split_comma
split_comma-append [] more h = refl
split_comma-append (c ∷ v) more (h, hs) =
    let other : (c == b',') ≡ false = ground arith in
    rw (split_comma, other) (rw (split_comma-append v more hs) refl)

split_comma-end : (v : Bytes) → NoComma v → split_comma (v ++ b'"' ∷ []) ≡ none
unfolding split_comma
split_comma-end [] h = refl
split_comma-end (c ∷ v) (h, hs) =
    let other : (c == b',') ≡ false = ground arith in
    rw (split_comma, other) (rw (split_comma-end v hs) refl)

-- A value in quotes, in front of a comma or at the end.
read_value-quoted_token :
    (v more : Bytes)
    → NoComma v
    → read_value (b'"' ∷ (v ++ b'"' ∷ b',' ∷ more)) ≡ (text v, some more)
read_value-quoted_token v more h = rw (split_comma-append v more h) (within v)
  where
    within :
        (v : Bytes)
        → quoted_token (v ++ b'"' ∷ b',' ∷ more) (some (v ++ b'"' ∷ [], more)) ≡ (text v, some more)
    within [] = refl
    within (c ∷ v) = ap (λ t. (text t, some more)) (drop_last-append (c ∷ v) b'"')

read_value-end : (v : Bytes) → NoComma v → read_value (b'"' ∷ (v ++ b'"' ∷ [])) ≡ (text v, none)
read_value-end v h = rw (split_comma-end v h) (ap (λ t. (text t, none)) (drop_last-append v b'"'))

strip-append : (s t : Bytes) → strip s (s ++ t) ≡ some t
unfolding strip
strip-append [] t = refl
strip-append (c ∷ s) t = let ih = strip-append s t in ground arith

strip-other : (k d : ℕ) (ks t : Bytes) → (k == d) ≡ false → strip (k ∷ ks) (d ∷ t) ≡ none
unfolding strip
strip-other k d ks t other = ground arith

-- A text is found at its own start.
strstr-append : (k : ℕ) (ks t : Bytes) → strstr (k ∷ ks) ((k ∷ ks) ++ t) ≡ some t
unfolding strstr
strstr-append k ks t = rw (strstr, strip-append (k ∷ ks) t) refl

strstr-blank :
    (k : ℕ) (ks t : Bytes) → (k == b' ') ≡ false → strstr (k ∷ ks) (b' ' ∷ ((k ∷ ks) ++ t)) ≡ some t
unfolding strstr
strstr-blank k ks t blank =
    rw (strstr, strip-other k b' ' ks ((k ∷ ks) ++ t) blank) (strstr-append k ks t)

-- A token whose name is found at the start, or behind a blank.
token_first :
    (v more : Bytes)
    → NoComma v
    → hawk_parse_token (codes "id=") (some (codes "id=\"" ++ (v ++ b'"' ∷ b',' ∷ more)))
      ≡ (text v, some more)
unfolding hawk_parse_token strip
token_first v more h = read_value-quoted_token v more h

token_next :
    (k : ℕ) (ks v more : Bytes)
    → (k == b' ') ≡ false
    → ltb (length (k ∷ ks)) 2 ≡ false
    → NoComma v
    → hawk_parse_token (k ∷ ks) (some (b' ' ∷ ((k ∷ ks) ++ b'"' ∷ (v ++ b'"' ∷ b',' ∷ more))))
      ≡ (text v, some more)
unfolding hawk_parse_token
token_next k ks v more blank long h =
    let e = strstr-blank k ks (b'"' ∷ (v ++ b'"' ∷ b',' ∷ more)) blank in
    rw long (rw e (read_value-quoted_token v more h))

token_last :
    (k : ℕ) (ks v : Bytes)
    → (k == b' ') ≡ false
    → ltb (length (k ∷ ks)) 2 ≡ false
    → NoComma v
    → hawk_parse_token (k ∷ ks) (some (b' ' ∷ ((k ∷ ks) ++ b'"' ∷ (v ++ b'"' ∷ []))))
      ≡ (text v, none)
unfolding hawk_parse_token
token_last k ks v blank long h =
    let e = strstr-blank k ks (b'"' ∷ (v ++ b'"' ∷ [])) blank in rw long (rw e (read_value-end v h))

-- The five tokens in the order in which they are looked for.
abbrev from_mac : Bytes → Bytes
from_mac mac = codes " mac=\"" ++ (mac ++ codes "\"")

abbrev from_ext : (ext mac : Bytes) → Bytes
from_ext ext mac = codes " ext=\"" ++ (ext ++ (codes "\"," ++ from_mac mac))

abbrev from_nonce : (nonce ext mac : Bytes) → Bytes
from_nonce nonce ext mac = codes " nonce=\"" ++ (nonce ++ (codes "\"," ++ from_ext ext mac))

abbrev from_ts : (ts nonce ext mac : Bytes) → Bytes
from_ts ts nonce ext mac = codes " ts=\"" ++ (ts ++ (codes "\"," ++ from_nonce nonce ext mac))

abbrev pub print : (id ts nonce ext mac : Bytes) → Bytes
print id ts nonce ext mac = codes "Hawk id=\"" ++ (id ++ (codes "\"," ++ from_ts ts nonce ext mac))

-- The authorization of five tokens in quotes, none of which has a comma in it, is read back,
-- whatever else is in them, quotes included.
pub hawk_parse_artifacts-print :
    (id ts nonce ext mac : Bytes)
    → NoComma id
    → NoComma ts
    → NoComma nonce
    → NoComma ext
    → NoComma mac
    → hawk_parse_artifacts (print id ts nonce ext mac)
      ≡ parsed (record {
        id = text id;
        ts = text ts;
        nonce = text nonce;
        ext = text ext;
        mac = text mac;
      })
unfolding hawk_parse_artifacts
hawk_parse_artifacts-print id ts nonce ext mac h1 h2 h3 h4 h5 =
    let e1 = token_first id (from_ts ts nonce ext mac) h1 in
    let e2 = token_next b't' (codes "s=") ts (from_nonce nonce ext mac) refl refl h2 in
    let e3 = token_next b'n' (codes "once=") nonce (from_ext ext mac) refl refl h3 in
    let e4 = token_next b'e' (codes "xt=") ext (from_mac mac) refl refl h4 in
    let e5 = token_last b'm' (codes "ac=") mac refl refl h5 in
    rw e1 (rw e2 (rw e3 (rw e4 (rw e5 refl))))
