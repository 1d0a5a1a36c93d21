-- ===== src/Sql/Scan.antt =====
-- What texts do to the scanner, by the bytes that they are made of.
use gwan_pg_rest_adapter.Prelude.{
  ℕ, ◌≡◌, ◌≢◌, refl, [], ◌∷◌, ◌++◌, append_assoc, append-nil, Bytes, All, arith,
}
use gwan_pg_rest_adapter.Sql.{normal, comment, quoted, scan}

-- A byte that opens no literal and no comment and ends no statement.
abbrev pub IsPlain : ℕ → Type 0
IsPlain c = (c ≢ b'\'') × (c ≢ b';') × (c ≢ b'-')

abbrev pub IsUnquoted : ℕ → Type 0
IsUnquoted c = c ≢ b'\''

pub scan_plain : (w rest : Bytes) → All IsPlain w → scan normal (w ++ rest) ≡ scan normal rest
unfolding scan
scan_plain [] rest h = refl
scan_plain (c ∷ w) rest (h, hs) = ground (arith, scan_plain w rest hs)

pub scan_quoted :
    (w s rest : Bytes)
    → All IsUnquoted w
    → scan (quoted s) (w ++ rest) ≡ scan (quoted (s ++ w)) rest
unfolding scan
scan_quoted [] s rest h = rw append-nil
scan_quoted (c ∷ w) s rest (h, hs) =
    ground (arith, scan_quoted w (s ++ c ∷ []) rest hs, append_assoc s (c ∷ []) w)

pub scan_comment_append :
    (w rest : Bytes) → All (λ c. c ≢ 10) w → scan comment (w ++ rest) ≡ scan comment rest
unfolding scan
scan_comment_append [] rest h = refl
scan_comment_append (c ∷ w) rest (h, hs) = ground (arith, scan_comment_append w rest hs)
