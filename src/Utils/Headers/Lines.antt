-- ===== src/Utils/Headers/Lines.antt =====
-- How `get_headers` comes to the end of a line, and what it finds in one.
use Prim.Native.Nat.{min}
use gwan_pg_rest_adapter.Prelude.{
  ℕ, ◌==◌, ◌&&◌, zero, suc, ◌+◌, ◌-◌, ◌≡◌, ◌≢◌, refl, ap, ◌∙◌, true, false, Option, none, some,
  List, [], ◌∷◌, ◌++◌, Bytes, All, length, take, c_str, leb, arith,
}
use gwan_pg_rest_adapter.Utils.Headers.{
  Header, Line, skipped, invalid, found, split_colon, read_line, scan_lines, prepend,
}

-- What the loop does at the end of a line that is read so.
abbrev pub after_line : ℕ → Bytes → Line → Option (List Header)
after_line room rest skipped = scan_lines room 0 rest rest
after_line room rest invalid = none
after_line room rest (found h) = elim (leb room 1) [
  | true ↦ some (h ∷ [])
  | false ↦ prepend h (scan_lines (room - 1) 0 rest rest)
]

not_end : (d e : ℕ) → d ≢ 13 → (d == 13 && e == 10) ≡ false
not_end d e h = ground arith

scan_lines_inside :
    (room hlen : ℕ) (line : Bytes) (c d e : ℕ) (rest : Bytes)
    → d ≢ 13
    → scan_lines room hlen line (c ∷ d ∷ e ∷ rest) ≡ scan_lines room (hlen + 1) line (d ∷ e ∷ rest)
unfolding scan_lines
scan_lines_inside room hlen line c d e rest h = rw (scan_lines, not_end d e h) refl

pub scan_lines-end :
    (room hlen : ℕ) (line : Bytes) (c : ℕ) (w rest : Bytes)
    → All (λ d. d ≢ 13) w
    → scan_lines room hlen line (c ∷ (w ++ 13 ∷ 10 ∷ rest))
      ≡ after_line room rest (read_line (hlen + length w) line)
unfolding scan_lines
scan_lines-end room hlen line c [] rest h =
    let e : hlen ≡ hlen + 0 = omega arith in ap (λ n. after_line room rest (read_line n line)) e
scan_lines-end room hlen line c (d ∷ []) rest (h, hs) =
    let e : hlen + 1 + 0 ≡ hlen + 1 = omega arith in
    scan_lines_inside room hlen line c d 13 (10 ∷ rest) h
    ∙ scan_lines-end room (hlen + 1) line d [] rest hs
    ∙ ap (λ n. after_line room rest (read_line n line)) e
scan_lines-end room hlen line c (d ∷ e ∷ w) rest (h, hs) =
    let same : hlen + 1 + length (e ∷ w) ≡ hlen + length (d ∷ e ∷ w) = omega arith in
    scan_lines_inside room hlen line c d e (w ++ 13 ∷ 10 ∷ rest) h
    ∙ scan_lines-end room (hlen + 1) line d (e ∷ w) rest hs
    ∙ ap (λ n. after_line room rest (read_line n line)) same

pub c_str-append : (w rest : Bytes) → All (λ c. c ≢ 0) w → c_str (w ++ rest) ≡ w ++ c_str rest
c_str-append [] rest h = refl
c_str-append (c ∷ w) rest (h, hs) = ground (arith, c_str-append w rest hs)

pub split_colon-append :
    (w rest : Bytes) → All (λ c. c ≢ b':') w → split_colon (w ++ b':' ∷ rest) ≡ some (w, rest)
unfolding split_colon
split_colon-append [] rest h = refl
split_colon-append (c ∷ w) rest (h, hs) = ground (arith, split_colon-append w rest hs)

pub take-append : (n : ℕ) (w rest : Bytes) → take (min (length w) n) (w ++ rest) ≡ take n w
take-append zero [] rest = refl
take-append zero (c ∷ w) rest = let e : min (suc (length w)) 0 ≡ 0 = omega arith in rw e refl
take-append (suc n) [] rest = let e : min 0 (suc n) ≡ 0 = omega arith in rw e refl
take-append (suc n) (c ∷ w) rest =
    let e : min (suc (length w)) (suc n) ≡ suc (min (length w) n) = omega arith in
    rw e (ap (λ t. c ∷ t) (take-append n w rest))
