-- ===== src/Csp/Table.antt =====
-- The table "name.schema.collection" that most queries of csp/*.c name: how the scanner reads it,
-- and what the checks of a request make of the parts.
use gwan_pg_rest_adapter.Prelude.{
  ℕ, ◌≡◌, ◌≢◌, refl, ◌∙◌, true, Option, none, some, [], ◌∷◌, ◌++◌, Bytes, All, All-map, All-map₂,
  arith,
}
use gwan_pg_rest_adapter.Sql.{scan, normal}
use gwan_pg_rest_adapter.Sql.Scan.{IsPlain, IsUnquoted, scan_plain}
use gwan_pg_rest_adapter.Utils.Validate.{strword, is_string}
use gwan_pg_rest_adapter.Utils.Validate.Accepts.{
  IsWordByte, IsStringByte, Consists, strword_iff, is_string_iff,
}
use gwan_pg_rest_adapter.Csp.Action.{Names}

-- The names of a session that open no literal and no comment and end no statement.
pub record IsPlainNames (db : Names) : Type 0 where
  pub name : All IsPlain db.name
  pub schema : All IsPlain db.schema

abbrev pub NoDash : Bytes → Type 0
NoDash s = All (λ c. c ≢ b'-') s

pub scan_table :
    (db : Names) (table rest : Bytes)
    → IsPlainNames db
    → All IsPlain table
    → scan normal (db.name ++ b'.' ∷ (db.schema ++ b'.' ∷ (table ++ rest))) ≡ scan normal rest
unfolding scan
scan_table db table rest plain h =
    scan_plain db.name _ plain.name ∙ scan_plain db.schema _ plain.schema ∙ scan_plain table rest h

IsWordByte-IsUnquoted : (c : ℕ) → IsWordByte c → IsUnquoted c
IsWordByte-IsUnquoted c h = ground arith

IsWordByte-IsPlain : (c : ℕ) → IsWordByte c → c ≢ b'-' → IsPlain c
IsWordByte-IsPlain c h k = ground arith

pub word-IsUnquoted : (w : Bytes) → All IsWordByte w → All IsUnquoted w
word-IsUnquoted w h = All-map IsWordByte-IsUnquoted w h

pub word-IsPlain : (w : Bytes) → All IsWordByte w → NoDash w → All IsPlain w
word-IsPlain w h k = All-map₂ IsWordByte-IsPlain w h k

pub string-IsUnquoted : (w : Bytes) → All IsStringByte w → All IsUnquoted w
string-IsUnquoted w h = All-map (λ c k. k.2) w h

module _ {P : ℕ → Type 0} where
  Consists-some : (o : Option Bytes) → Consists P o → (w : Bytes) × (o ≡ some w) × All P w
  Consists-some none h = absurd h
  Consists-some (some []) h = absurd h
  Consists-some (some (c ∷ w)) h = (c ∷ w, refl, h)

pub Consists-All : (P : ℕ → Type 0) → (w : Bytes) → Consists P (some w) → All P w
Consists-All P [] h = absurd h
Consists-All P (c ∷ w) h = h

-- What a check that passed says of the argument.
pub strword-some :
    (o : Option Bytes) → strword o ≡ true → (w : Bytes) × (o ≡ some w) × All IsWordByte w
strword-some o h = Consists-some o ((strword_iff o).0 h)

pub is_string-some :
    (o : Option Bytes) → is_string o ≡ true → (w : Bytes) × (o ≡ some w) × All IsStringByte w
is_string-some o h = Consists-some o ((is_string_iff o).0 h)
