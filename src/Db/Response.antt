-- ===== src/Db/Response.antt =====
-- `db_response` of libraries/postrest/db.c: the rows that it writes for a result; its loop over the
-- results of a query is in `Loop`.
pub mod Rows
pub mod Loop
pub mod Stream
pub mod Steps
pub mod Returns
pub mod Written
pub mod OneByOne
pub mod Refused
pub mod Arrays
use gwan_pg_rest_adapter.Prelude.{
  ℕ, zero, suc, ◌+◌, ◌-◌, ◌%◌, ◌^◌, Bool, true, false, not, ◌&&◌, ◌||◌, Option, none, some, [], ◌∷◌,
  ◌++◌, Bytes, codes, ltb, leb, length, ◌==◌, str_eq, take, drop, if◌then◌else◌,
}
use gwan_pg_rest_adapter.Gwan.{Gwan}
use gwan_pg_rest_adapter.Gwan.Sprintf.{str, num}
use gwan_pg_rest_adapter.Db.Libpq.{Libpq, State, db_wait, ev_read}
use gwan_pg_rest_adapter.Db.Send.{fail}
use gwan_pg_rest_adapter.Endpoint.{Outcome, returned, undefined}

-- `strstr(fname, "json")`
unfoldable pub strstr_json : Bytes → Option Bytes
strstr_json [] = none
strstr_json (c ∷ s) =
    let rest = strstr_json s in
    if str_eq (take 4 (c ∷ s)) (codes "json") then some (c ∷ s) else rest

-- `strlen(json) > 5 ? json+5 : "json"`
abbrev pub json_name : Bytes → Bytes
json_name json = if ltb 5 (length json) then drop 5 json else codes "json"

module _ (g : Gwan) (p : Libpq) where
  open g use {xbuf_xcat}
  open p use {Result, nfields, fname, fformat, getisnull, getvalue}

  -- A value in text form, null, or a binary value in base 64, of which nothing is known here.
  unfoldable pub put_value : Result → ℕ → ℕ → Bytes → Bytes
  put_value result row col buf =
      if fformat result col == 0
      then xbuf_xcat buf (codes "\"%s\"") (str (some (getvalue result row col)) ∷ [])
      else if getisnull result row col
      then xbuf_xcat buf (codes "null") []
      else xbuf_xcat buf (codes "\"%12B\"") (str (some (getvalue result row col)) ∷ [])

  -- The comma behind a column, or the end of the object.
  abbrev close_column : ℕ → Bool → Bytes → Bytes
  close_column zero in_object buf = if in_object then xbuf_xcat buf (codes "}") [] else buf
  close_column (suc left) in_object buf = xbuf_xcat buf (codes ",") []

  abbrev named_column : Result → ℕ → ℕ → Bool → Bytes → Bytes
  named_column result row col in_object buf =
      let opened = if in_object then buf else xbuf_xcat buf (codes "{") [] in
      put_value result row col
        (xbuf_xcat opened (codes "\"%s\":") (str (some (fname result col)) ∷ []))

  -- The value is the format of `xbuf_xcat`.
  abbrev json_column : Result → ℕ → ℕ → Bytes → Bytes → Bytes
  json_column result row col json buf =
      let labelled =
        if ltb 1 (nfields result)
        then xbuf_xcat buf (codes "\"%s\":") (str (some (json_name json)) ∷ [])
        else buf in
      xbuf_xcat labelled (getvalue result row col) []

  -- The loop over the columns, `left` of them from `col` on.
  unfoldable pub put_columns : ℕ → Result → ℕ → ℕ → Bool → Bytes → Bytes
  put_columns zero result row col in_object buf = buf
  put_columns (suc left) result row col in_object buf = elim (strstr_json (fname result col)) [
    | none ↦
        put_columns left result row (col + 1) true
          (close_column left true (named_column result row col in_object buf))
    | some json ↦
        put_columns left result row (col + 1) in_object
          (close_column left in_object (json_column result row col json buf))
  ]

  -- The loop over the rows.
  unfoldable pub put_rows : ℕ → Bool → Result → ℕ → Bytes → Bytes
  unfolding put_columns
  put_rows zero single result row buf = buf
  put_rows (suc left) single result row buf =
      let written = put_columns (nfields result) result row 0 false buf in
      put_rows left single result (row + 1)
        (if single || not (left == 0) then xbuf_xcat written (codes ",") [] else written)
