-- ===== src/Sql.antt =====
-- How PostgreSQL reads the text of a query, as far as a query can be taken apart by what a client
-- puts into it: string literals in single quotes, comments from "--" to the end of the line, and
-- the semicolons that end statements. A reference for the queries that csp/*.c build; doubled
-- quotes, dollar quotes and C comments are not read.
pub mod Scan
use gwan_pg_rest_adapter.Prelude.{
  ℕ, Bool, true, false, List, [], ◌∷◌, ◌++◌, Bytes, ◌==◌, if◌then◌else◌,
}

-- `stop` is a semicolon outside a literal; `open_literal` a literal that the text does not close.
pub data Token : Type 0 where
  stop : Token
  literal : Bytes → Token
  open_literal : Bytes → Token

-- `dash`: the byte before was a '-' that begins no comment yet. `quoted` holds the literal so far.
pub data Mode : Type 0 where
  normal dash comment : Mode
  quoted : Bytes → Mode

abbrev pub outside : Bool → ℕ → Mode
outside dashed c =
    if c == b'-'
    then (if dashed then comment else dash)
    else (if c == b'\'' then quoted [] else normal)

abbrev pub next_mode : Mode → ℕ → Mode
next_mode normal c = outside false c
next_mode dash c = outside true c
next_mode comment c = if c == 10 then normal else comment
next_mode (quoted s) c = if c == b'\'' then normal else quoted (s ++ c ∷ [])

abbrev pub emitted : Mode → ℕ → List Token
emitted normal c = if c == b';' then stop ∷ [] else []
emitted dash c = if c == b';' then stop ∷ [] else []
emitted comment c = []
emitted (quoted s) c = if c == b'\'' then literal s ∷ [] else []

abbrev pub at_end : Mode → List Token
at_end (quoted s) = open_literal s ∷ []
at_end _ = []

unfoldable pub scan : Mode → Bytes → List Token
scan m [] = at_end m
scan m (c ∷ text) = emitted m c ++ scan (next_mode m c) text

-- The literals and statement ends of a query.
unfoldable pub tokens : Bytes → List Token
unfolding scan
tokens query = scan normal query
