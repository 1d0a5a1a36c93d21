-- ===== src/Utils/Headers/Bounds.antt =====
-- What `get_headers` puts into the caller's array, and what can be looked up there.
use Prim.Native.Nat.{min, max}
use gwan_pg_rest_adapter.Prelude.{
  ℕ, zero, suc, ◌+◌, ◌-◌, ◌≤◌, ◌<◌, ◌≡◌, ◌⊎◌, refl, ◌∙◌, true, false, ◌&&◌, Option, none, some,
  List, [], ◌∷◌, Bytes, All, length, take, leb, subst, c_str, str_eq, str_eq→eq, ◌==◌, arith, inl,
  inr, Bool-cases, Option-cases,
}
use gwan_pg_rest_adapter.Utils.Text.{string_to_lowercase, tolower}
use gwan_pg_rest_adapter.Utils.Headers.{
  Header, Line, skipped, invalid, found, value_of, header_of, read_line, scan_lines, get_headers,
  find_header, get_header_value, split_colon, of_header, skip_blanks, prepend,
}

abbrev pub IsLower : ℕ → Type 0
IsLower c = (c < b'A') ⊎ (b'Z' < c)

-- The name and the value fit their buffers with a NUL, and the name is in lower case.
pub record IsStored (h : Header) : Type 0 where
  pub name_fits : length h.name < 64
  pub value_fits : length h.value < 256
  pub lower : All IsLower h.name

length-take-le : (n : ℕ) (s : Bytes) → length (take n s) ≤ n
length-take-le zero s = omega arith
length-take-le (suc n) [] = omega arith
length-take-le (suc n) (c ∷ s) = omega (arith, length-take-le n s)

length-string_to_lowercase : (s : Bytes) → length (string_to_lowercase s) ≡ length s
unfolding string_to_lowercase
length-string_to_lowercase [] = refl
length-string_to_lowercase (c ∷ s) = omega (arith, length-string_to_lowercase s)

tolower-IsLower : (c : ℕ) → IsLower (tolower c)
tolower-IsLower c = ground arith

string_to_lowercase-IsLower : (s : Bytes) → All IsLower (string_to_lowercase s)
unfolding string_to_lowercase
string_to_lowercase-IsLower [] = tt
string_to_lowercase-IsLower (c ∷ s) = (tolower-IsLower c, string_to_lowercase-IsLower s)

value_of-fits : (hlen : ℕ) (text rest v : Bytes) → value_of hlen text rest ≡ some v → length v < 256
value_of-fits hlen text [] v h = ground arith
value_of-fits hlen text (c ∷ s) v h =
    ground
      (arith, length-take-le (min (hlen + 1 - (length text - length (c ∷ s))) (256 - 1)) (c ∷ s))

read_line-IsStored :
    (hlen : ℕ) (line : Bytes) (h : Header) → read_line hlen line ≡ found h → IsStored h
read_line-IsStored zero line h e = cc
read_line-IsStored (suc hlen) line h e = elim (Option-cases (split_colon (c_str line))) [
  | inl missing ↦ cc (rw missing at e)
  | inr ((name, rest), split) ↦ of_parts name rest (rw split at e)
]
  where
    of_parts :
        (name rest : Bytes)
        → of_header (header_of (suc hlen) (c_str line) (name, rest)) ≡ found h
        → IsStored h
    of_parts name rest e' =
        elim (Option-cases (value_of (suc hlen) (c_str line) (skip_blanks rest))) [
          | inl negative ↦ cc (rw (negative, of_header, header_of) at e')
          | inr (v, copied) ↦
              let stored : Header = record {
                name = string_to_lowercase (take 63 name);
                value = v;
              } in
              let same : stored ≡ h = cc (rw (copied, of_header, header_of) at e') in
              subst IsStored same (record {
                name_fits =
                    omega
                      (arith, length-string_to_lowercase (take 63 name), length-take-le 63 name);
                value_fits = value_of-fits (suc hlen) (c_str line) (skip_blanks rest) v copied;
                lower = string_to_lowercase-IsLower (take 63 name);
              })
        ]

-- The headers fit the caller's array and their buffers, when the code is defined.
abbrev Fits : ℕ → Option (List Header) → Type 0
Fits room none = Unit
Fits room (some hs) = All IsStored hs × (length hs ≤ max 1 room)

prepend-Fits :
    (room : ℕ) (h : Header) (rest : Option (List Header))
    → leb room 1 ≡ false
    → IsStored h
    → Fits (room - 1) rest
    → Fits room (prepend h rest)
prepend-Fits room h none more stored fits = tt
prepend-Fits room h (some hs) more stored (all_stored, few) = ((stored, all_stored), ground arith)

line-Fits :
    (room : ℕ) (l : Line) (same less : Option (List Header))
    → ((h : Header) → l ≡ found h → IsStored h)
    → Fits room same
    → Fits (room - 1) less
    → Fits room (elim l [
      | skipped ↦ same
      | invalid ↦ none
      | found h ↦ elim (leb room 1) [ true ↦ some (h ∷ []) | false ↦ prepend h less ]
    ])
line-Fits room skipped same less stored fits_same fits_less = fits_same
line-Fits room invalid same less stored fits_same fits_less = tt
line-Fits room (found h) same less stored fits_same fits_less = elim (Bool-cases (leb room 1)) [
  | inl last ↦ rw last ((stored h refl, tt), ground arith)
  | inr more ↦ rw more (prepend-Fits room h less more (stored h refl) fits_less)
]

scan_lines-Fits : (room hlen : ℕ) (line rest : Bytes) → Fits room (scan_lines room hlen line rest)
unfolding scan_lines
scan_lines-Fits room hlen line [] = (tt, ground arith)
scan_lines-Fits room hlen line (c ∷ []) = (tt, ground arith)
scan_lines-Fits room hlen line (c ∷ d ∷ []) = (tt, ground arith)
scan_lines-Fits room hlen line (c ∷ d ∷ e ∷ rest) = elim (Bool-cases (d == 13 && e == 10)) [
  | inl ends ↦
      rw (ends, Fits)
        (line-Fits room (read_line hlen line) (scan_lines room 0 rest rest)
          (scan_lines (room - 1) 0 rest rest) (read_line-IsStored hlen line)
          (scan_lines-Fits room 0 rest rest) (scan_lines-Fits (room - 1) 0 rest rest))
  | inr inside ↦ rw (inside, Fits) (scan_lines-Fits room (hlen + 1) line (d ∷ e ∷ rest))
]

-- For every request that `get_headers` reads without undefined behaviour, it fills at most `maxh`
-- headers, or one when `maxh` is 0; each name and value fits its buffer with its NUL, and the names
-- are in lower case.
pub get_headers-IsStored :
    (req : Bytes) (maxh : ℕ) (hs : List Header)
    → get_headers req maxh ≡ some hs
    → All IsStored hs × (length hs ≤ max 1 maxh)
unfolding get_headers
get_headers-IsStored req maxh hs e = subst (Fits maxh) e (scan_lines-Fits maxh 0 req req)

find_header-IsLower :
    (n : ℕ) (hs : List Header) (name v : Bytes)
    → All IsStored hs
    → find_header n hs name ≡ some v
    → All IsLower name
unfolding find_header
find_header-IsLower zero hs name v stored e = cc
find_header-IsLower (suc n) [] name v stored e = cc
find_header-IsLower (suc n) (h ∷ hs) name v (stored, all_stored) e =
    named h.name refl (find_header-IsLower n hs name v all_stored)
  where
    named :
        (s : Bytes)
        → h.name ≡ s
        → (find_header n hs name ≡ some v → All IsLower name)
        → All IsLower name
    named [] same later = cc (rw (same, find_header) at e)
    named (c ∷ s) same later = elim (Bool-cases (str_eq (c ∷ s) name)) [
      | inl equal ↦ subst (All IsLower) (same ∙ str_eq→eq (c ∷ s) name equal) stored.lower
      | inr other ↦ later (rw (same, find_header, other) at e)
    ]

-- A name with a capital letter is never found among the headers of a request.
pub get_header_value_capital :
    (req : Bytes) (maxh : ℕ) (hs : List Header) (name : Bytes)
    → get_headers req maxh ≡ some hs
    → ¬ (All IsLower name)
    → get_header_value hs name ≡ none
unfolding get_header_value
get_header_value_capital req maxh hs name e capital = elim (Option-cases (find_header 8 hs name)) [
  | inl missing ↦ missing
  | inr (v, there) ↦
      absurd
        (capital (find_header-IsLower 8 hs name v (get_headers-IsStored req maxh hs e).0 there))
]
