-- ===== src/Utils/Headers/RoundTrip.antt =====
-- `get_headers` reads back headers that are written as lines.
use gwan_pg_rest_adapter.Prelude.{
  ℕ, suc, ◌+◌, ◌-◌, ◌≤◌, ◌<◌, ◌≡◌, ◌≢◌, refl, sym, ap, ◌∙◌, false, Option, none, some, List, [],
  ◌∷◌, ◌++◌, append_assoc, Bytes, All, All-map, map, length, length-append, take, c_str, ltb, leb,
  arith, Bool-cases, inl, inr,
}
use gwan_pg_rest_adapter.Utils.Text.{string_to_lowercase}
use gwan_pg_rest_adapter.Utils.Headers.{
  Header, found, split_colon, skip_blanks, value_of, read_line, scan_lines, get_headers, prepend,
  of_header, of_split,
}
use gwan_pg_rest_adapter.Utils.Headers.Lines.{
  after_line, scan_lines-end, c_str-append, split_colon-append, take-append,
}

abbrev IsText : ℕ → Type 0
IsText c = (c ≢ 0) × (c ≢ 13)

abbrev pub IsNameByte : ℕ → Type 0
IsNameByte c = (c ≢ 0) × (c ≢ 13) × (c ≢ b':')

pub All-append : (P : ℕ → Type 0) → (v w : Bytes) → All P v → All P w → All P (v ++ w)
All-append P [] w h k = k
All-append P (c ∷ v) w (h, hs) k = (h, All-append P v w hs k)

-- A header as a client writes it: a name and a value, neither empty, the value not beginning with
-- a blank.
pub record Field : Type 0 where
  pub first : ℕ
  pub name : Bytes
  pub start : ℕ
  pub value : Bytes

pub record IsField (f : Field) : Type 0 where
  pub name : All IsNameByte (f.first ∷ f.name)
  pub value : All IsText (f.start ∷ f.value)
  pub no_blank : (f.start ≢ b' ') × (f.start ≢ 9)

-- The line of a field, and the header that is stored for it.
abbrev line_of : Field → Bytes → Bytes
line_of f rest = (f.first ∷ f.name) ++ b':' ∷ b' ' ∷ ((f.start ∷ f.value) ++ 13 ∷ 10 ∷ rest)

abbrev pub print : List Field → Bytes
print [] = 13 ∷ 10 ∷ []
print (f ∷ fs) = line_of f (print fs)

abbrev pub stored : Field → Header
stored f = record {
  name = string_to_lowercase (take 63 (f.first ∷ f.name));
  value = take 255 (f.start ∷ f.value);
}

value_of-line :
    (hlen : ℕ) (name value rest : Bytes) (v : ℕ)
    → hlen ≡ length name + 2 + length value
    → value_of hlen (name ++ b':' ∷ b' ' ∷ ((v ∷ value) ++ rest)) ((v ∷ value) ++ rest)
      ≡ some (take 255 (v ∷ value))
value_of-line hlen name value rest v e =
    let start : length (name ++ b':' ∷ b' ' ∷ ((v ∷ value) ++ rest)) - suc (length (value ++ rest))
        ≡ length name + 2 =
      omega (arith, length-append name (b':' ∷ b' ' ∷ ((v ∷ value) ++ rest))) in
    let inside : ltb (hlen + 1) (length name + 2) ≡ false = ground arith in
    let size : hlen + 1 - (length name + 2) ≡ length (v ∷ value) = omega arith in
    rw start (rw (inside, size) (ap some (take-append 255 (v ∷ value) rest)))

skip_blanks_line : (v : ℕ) (s : Bytes) → (v ≢ b' ') → (v ≢ 9) → skip_blanks (b' ' ∷ v ∷ s) ≡ v ∷ s
skip_blanks_line v s h k = ground arith

c_str-line :
    (f : Field) (rest : Bytes) → IsField f → c_str (line_of f rest) ≡ line_of f (c_str rest)
c_str-line f rest ok =
    c_str-append (f.first ∷ f.name) _ (All-map (λ c h. h.0) (f.first ∷ f.name) ok.name)
    ∙ ap (λ t. (f.first ∷ f.name) ++ b':' ∷ b' ' ∷ t)
        (c_str-append (f.start ∷ f.value) _ (All-map (λ c h. h.0) (f.start ∷ f.value) ok.value))

-- The header with a value that was copied.
abbrev pub with_value : Bytes → Option Bytes → Option Header
with_value name none = none
with_value name (some value) =
    some (record { name = string_to_lowercase (take 63 name); value = value })

read_line-field :
    (hlen : ℕ) (f : Field) (rest : Bytes)
    → IsField f
    → hlen ≡ length f.name + 2 + length f.value
    → read_line (suc hlen) (line_of f rest) ≡ found (stored f)
read_line-field hlen f rest ok e =
    let text = line_of f (c_str rest) in
    let behind = (f.start ∷ f.value) ++ 13 ∷ 10 ∷ c_str rest in
    ap (λ t. of_split (suc hlen) t (split_colon t)) (c_str-line f rest ok)
    ∙ ap (of_split (suc hlen) text)
        (split_colon-append (f.first ∷ f.name) _ (All-map (λ c h. h.2) (f.first ∷ f.name) ok.name))
    ∙ ap (λ b. of_header (with_value (f.first ∷ f.name) (value_of (suc hlen) text b)))
        (skip_blanks_line f.start _ ok.no_blank.0 ok.no_blank.1)
    ∙ ap (λ o. of_header (with_value (f.first ∷ f.name) o))
        (value_of-line (suc hlen) (f.first ∷ f.name) f.value (13 ∷ 10 ∷ c_str rest) f.start
          (omega arith))

-- What a line holds behind its first byte.
abbrev body : Field → Bytes
body f = f.name ++ b':' ∷ b' ' ∷ (f.start ∷ f.value)

body-IsText : (f : Field) → IsField f → All (λ c. c ≢ 13) (body f)
body-IsText f ok =
    let (name, names) = ok.name in
    All-append (λ c. c ≢ 13) f.name _ (All-map (λ c h. h.1) f.name names)
      (ground arith, (ground arith, All-map (λ c h. h.1) (f.start ∷ f.value) ok.value))

scan_lines-line :
    (room : ℕ) (f : Field) (rest : Bytes)
    → IsField f
    → scan_lines room 0 (line_of f rest) (line_of f rest) ≡ after_line room rest (found (stored f))
scan_lines-line room f rest ok =
    let split : line_of f rest ≡ f.first ∷ (body f ++ 13 ∷ 10 ∷ rest) =
      ap (λ t. f.first ∷ t) (sym (append_assoc f.name (b':' ∷ b' ' ∷ (f.start ∷ f.value)) _)) in
    let size : 0 + length (body f) ≡ suc (length f.name + 2 + length f.value) =
      omega (arith, length-append f.name (b':' ∷ b' ' ∷ (f.start ∷ f.value))) in
    ap (scan_lines room 0 (line_of f rest)) split
    ∙ scan_lines-end room 0 (line_of f rest) f.first (body f) rest (body-IsText f ok)
    ∙ ap (λ n. after_line room rest (read_line n (line_of f rest))) size
    ∙ ap (after_line room rest)
        (read_line-field (length f.name + 2 + length f.value) f rest ok refl)

scan_lines-print :
    (fs : List Field) (room : ℕ)
    → All IsField fs
    → length fs ≤ room
    → 0 < room
    → scan_lines room 0 (print fs) (print fs) ≡ some (map stored fs)
unfolding scan_lines
scan_lines-print [] room h fits pos = refl
scan_lines-print (f ∷ fs) room (ok, oks) fits pos =
    scan_lines-line room f (print fs) ok ∙ elim (Bool-cases (leb room 1)) [
      | inl last ↦
          rw (after_line, last) (ap (λ hs. some (stored f ∷ hs)) (none_left fs (ground arith)))
      | inr more ↦
          rw (after_line, more)
            (ap (prepend (stored f))
              (scan_lines-print fs (room - 1) oks (omega arith) (ground arith)))
    ]
  where
    none_left : (fs : List Field) → length fs ≤ 0 → [] ≡ map stored fs
    none_left [] h = refl
    none_left (x ∷ xs) h = absurd (omega arith)

-- When each of at most `maxh` headers is a line of a name, a colon, a blank and a value, both not
-- empty, the name without a colon and the value not beginning with a blank, `get_headers` stores
-- them all in their order, each name cut to 63 bytes and in lower case, each value cut to 255.
pub get_headers-print :
    (fs : List Field) (maxh : ℕ)
    → All IsField fs
    → length fs ≤ maxh
    → 0 < maxh
    → get_headers (print fs) maxh ≡ some (map stored fs)
unfolding get_headers
get_headers-print fs maxh h fits pos = scan_lines-print fs maxh h fits pos
