-- ===== src/Utils/Headers/NoColon.antt =====
-- `get_headers` on a line without a colon.
use gwan_pg_rest_adapter.Prelude.{
  ℕ, suc, ◌+◌, ◌-◌, ◌≤◌, ◌<◌, ◌≡◌, ◌≢◌, ◌⊎◌, inl, inr, [], refl, sym, ap, ◌∙◌, true, none, some,
  ◌∷◌, ◌++◌, append_assoc, Bytes, All, All-map, length, length-append, c_str, ltb, arith,
}
use gwan_pg_rest_adapter.Utils.Headers.{
  invalid, split_colon, skip_blanks, value_of, read_line, get_headers, of_header, of_split,
}
use gwan_pg_rest_adapter.Utils.Headers.Lines.{
  after_line, scan_lines-end, c_str-append, split_colon-append,
}
use gwan_pg_rest_adapter.Utils.Headers.RoundTrip.{IsNameByte, All-append, with_value}

-- The C string from a line on that has no colon, up to a colon in the next line.
abbrev joined : Bytes → Bytes → Bytes → Bytes
joined line name rest = line ++ 13 ∷ 10 ∷ (name ++ b':' ∷ rest)

c_str-joined :
    (line name rest rest' : Bytes)
    → All IsNameByte line
    → All IsNameByte name
    → c_str rest ≡ rest'
    → c_str (joined line name rest) ≡ joined line name rest'
c_str-joined line name rest rest' h k last =
    c_str-append line _ (All-map (λ c e. e.0) line h)
    ∙ ap (λ t. line ++ 13 ∷ 10 ∷ t)
        (c_str-append name _ (All-map (λ c e. e.0) name k) ∙ ap (λ t. name ++ b':' ∷ t) last)

abbrev pub IsBlank : ℕ → Type 0
IsBlank c = (c ≡ b' ') ⊎ (c ≡ 9)

nonzero : (c : ℕ) → IsBlank c → c ≢ 0
nonzero c (inl h) = ground arith
nonzero c (inr h) = ground arith

skip_blanks-append :
    (blanks : Bytes) (v : ℕ) (rest : Bytes)
    → All IsBlank blanks
    → (v ≢ b' ') × (v ≢ 9)
    → skip_blanks (blanks ++ v ∷ rest) ≡ v ∷ rest
skip_blanks-append [] v rest h (v1, v2) = ground arith
skip_blanks-append (c ∷ blanks) v rest (inl h, hs) given =
    ground (arith, skip_blanks-append blanks v rest hs given)
skip_blanks-append (c ∷ blanks) v rest (inr h, hs) given =
    ground (arith, skip_blanks-append blanks v rest hs given)

split_colon-joined :
    (line name rest : Bytes)
    → All IsNameByte line
    → All IsNameByte name
    → split_colon (joined line name rest) ≡ some (line ++ 13 ∷ 10 ∷ name, rest)
split_colon-joined line name rest h k =
    ap split_colon (sym (append_assoc line (13 ∷ 10 ∷ name) _))
    ∙ split_colon-append (line ++ 13 ∷ 10 ∷ name) rest (
        All-append (λ c. c ≢ b':') line _ (All-map (λ c e. e.2) line h)
          (ground arith, (ground arith, All-map (λ c e. e.2) name k)))

value_of-joined :
    (hlen : ℕ) (line name blanks rest : Bytes) (v : ℕ)
    → hlen ≤ length line
    → value_of hlen (joined line name (blanks ++ v ∷ rest)) (v ∷ rest) ≡ none
value_of-joined hlen line name blanks rest v short =
    let start : hlen + 1 < length (joined line name (blanks ++ v ∷ rest)) - length (v ∷ rest) =
      omega (
        arith,
        length-append line (13 ∷ 10 ∷ (name ++ b':' ∷ (blanks ++ v ∷ rest))),
        length-append name (b':' ∷ (blanks ++ v ∷ rest)),
        length-append blanks (v ∷ rest),
      ) in
    let behind : ltb (hlen + 1) (length (joined line name (blanks ++ v ∷ rest)) - length (v ∷ rest))
        ≡ true =
      ground arith in
    rw behind refl

read_line-joined :
    (hlen : ℕ) (line name blanks rest : Bytes) (v : ℕ)
    → All IsNameByte line
    → All IsNameByte name
    → All IsBlank blanks
    → (v ≢ 0) × (v ≢ b' ') × (v ≢ 9)
    → suc hlen ≤ length line
    → read_line (suc hlen) (joined line name (blanks ++ v ∷ rest)) ≡ invalid
read_line-joined hlen line name blanks rest v h k bs (v0, v1, v2) short =
    let behind = blanks ++ v ∷ c_str rest in
    let text = joined line name behind in
    let last : c_str (v ∷ rest) ≡ v ∷ c_str rest = ground arith in
    let cut : c_str (blanks ++ v ∷ rest) ≡ behind =
      c_str-append blanks (v ∷ rest) (All-map nonzero blanks bs) ∙ ap (λ t. blanks ++ t) last in
    ap (λ t. of_split (suc hlen) t (split_colon t))
      (c_str-joined line name (blanks ++ v ∷ rest) behind h k cut)
    ∙ ap (of_split (suc hlen) text) (split_colon-joined line name behind h k)
    ∙ ap (λ b. of_header (with_value (line ++ 13 ∷ 10 ∷ name) (value_of (suc hlen) text b)))
        (skip_blanks-append blanks v (c_str rest) bs (v1, v2))
    ∙ ap (λ o. of_header (with_value (line ++ 13 ∷ 10 ∷ name) o))
        (value_of-joined (suc hlen) line name blanks (c_str rest) v short)

-- A first line of at least two bytes without a colon, in front of a line with a colon and a value
-- behind any blanks, both without NUL and CR up to the value, makes the length of a copy negative.
pub get_headers_no_colon_blank :
    (c : ℕ) (w name blanks : Bytes) (v : ℕ) (rest : Bytes) (maxh : ℕ)
    → All IsNameByte (c ∷ w)
    → 0 < length w
    → All IsNameByte name
    → All IsBlank blanks
    → (v ≢ 0) × (v ≢ b' ') × (v ≢ 9)
    → get_headers ((c ∷ w) ++ 13 ∷ 10 ∷ (name ++ b':' ∷ (blanks ++ v ∷ rest))) maxh ≡ none
unfolding get_headers
get_headers_no_colon_blank c w name blanks v rest maxh (h, hs) long k bs given =
    let behind = name ++ b':' ∷ (blanks ++ v ∷ rest) in
    let size : 0 + length w ≡ suc (length w - 1) = omega arith in
    scan_lines-end maxh 0 (joined (c ∷ w) name (blanks ++ v ∷ rest)) c w behind
      (All-map (λ d e. e.1) w hs)
    ∙ ap (λ n. after_line maxh behind (read_line n (joined (c ∷ w) name (blanks ++ v ∷ rest)))) size
    ∙ ap (after_line maxh behind) (
        read_line-joined (length w - 1) (c ∷ w) name blanks rest v (h, hs) k bs given (omega arith))

-- A first line of at least two bytes without a colon, in front of a line with a colon and a value
-- that begins with no blank, both without NUL and CR up to the value, makes the length of a copy
-- negative: `get_headers` is undefined, whatever follows.
pub get_headers_no_colon :
    (c : ℕ) (w name : Bytes) (v : ℕ) (rest : Bytes) (maxh : ℕ)
    → All IsNameByte (c ∷ w)
    → 0 < length w
    → All IsNameByte name
    → (v ≢ 0) × (v ≢ b' ') × (v ≢ 9)
    → get_headers ((c ∷ w) ++ 13 ∷ 10 ∷ (name ++ b':' ∷ v ∷ rest)) maxh ≡ none
get_headers_no_colon c w name v rest maxh h long k given =
    get_headers_no_colon_blank c w name [] v rest maxh h long k tt given
