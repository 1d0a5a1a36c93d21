-- ===== src/Db/Response/Rows.antt =====
-- The JSON that `db_response` writes for a row.
use gwan_pg_rest_adapter.Prelude.{
  ℕ, zero, suc, ◌+◌, ◌<◌, ◌≡◌, ◌≢◌, ◌⊎◌, inl, inr, ltb, ◌==◌, arith, All, some, refl, sym, ap, ◌∙◌,
  true, false, none, Option, List, [], ◌∷◌, ◌++◌, append_assoc, Bytes, codes,
}
use gwan_pg_rest_adapter.Gwan.{Gwan}
use gwan_pg_rest_adapter.Gwan.Sprintf.{sprintf, format, str}
use gwan_pg_rest_adapter.Db.Libpq.{Libpq}
use gwan_pg_rest_adapter.Utils.Text.Laws.{comma_separated}
use gwan_pg_rest_adapter.Db.Response.{
  put_columns, put_value, strstr_json, named_column, json_column, json_name, close_column,
}

-- A text without '%' is a format that is written as it is.
abbrev pub IsPlainFormat : Bytes → Type 0
IsPlainFormat s = All (λ c. c ≢ b'%') s

sprintf_plain : (s : Bytes) → IsPlainFormat s → sprintf s [] ≡ some s
unfolding sprintf format
sprintf_plain [] h = refl
sprintf_plain (c ∷ s) (h, hs) =
    let plain : (c == b'%') ≡ false = ground arith in
    let ih : format false s [] ≡ some s = sprintf_plain s hs in
    rw (sprintf, format, plain) (rw ih refl)

module _ (g : Gwan) (p : Libpq) (result : p.Result) (row : ℕ) where
  open p use {nfields, fname, fformat, getvalue}

  -- A column of text whose name has no "json" in it.
  abbrev pub IsTextColumn : ℕ → Type 0
  IsTextColumn col = (strstr_json (fname result col) ≡ none) × (fformat result col ≡ 0)

  -- A column whose name has "json" in it, of which that and what follows is `json`, behind another
  -- column; its value is no format with arguments.
  abbrev pub IsJsonColumn : Bytes → ℕ → Type 0
  IsJsonColumn json col =
      (strstr_json (fname result col) ≡ some json)
      × (1 < nfields result)
      × IsPlainFormat (getvalue result row col)

  abbrev pub IsColumn : ℕ → Type 0
  IsColumn col = IsTextColumn col ⊎ ((json : Bytes) × IsJsonColumn json col)

  -- "name":"value"
  abbrev pub text_member : ℕ → Bytes
  text_member col =
      b'"' ∷ (fname result col ++ (codes "\":\"" ++ (getvalue result row col ++ codes "\"")))

  -- "name":value, where the name is what stands behind "json_" or else "json".
  abbrev pub json_member : Bytes → ℕ → Bytes
  json_member json col = b'"' ∷ (json_name json ++ (codes "\":" ++ getvalue result row col))

  abbrev pub member_by : ℕ → Option Bytes → Bytes
  member_by col none = text_member col
  member_by col (some json) = json_member json col

  abbrev pub member : ℕ → Bytes
  member col = member_by col (strstr_json (fname result col))

  -- The columns from `col` on.
  abbrev pub members : ℕ → ℕ → List Bytes
  members zero col = []
  members (suc left) col = member col ∷ members left (col + 1)

  abbrev pub AllColumns : ℕ → ℕ → Type 0
  AllColumns zero col = Unit
  AllColumns (suc left) col = IsColumn col × AllColumns left (col + 1)

  put_value_text :
      (col : ℕ) (buf : Bytes)
      → fformat result col ≡ 0
      → put_value g p result row col buf ≡ buf ++ (b'"' ∷ (getvalue result row col ++ codes "\""))
  unfolding put_value sprintf
  put_value_text col buf text = rw (put_value, text) (g.xbuf_xcat_lem buf _ _ refl)

  named_column_text :
      (col : ℕ) (buf : Bytes)
      → fformat result col ≡ 0
      → named_column g p result row col true buf ≡ buf ++ text_member col
  unfolding sprintf
  named_column_text col buf text =
      put_value_text col _ text
      ∙ ap (λ t. t ++ (b'"' ∷ (getvalue result row col ++ codes "\"")))
          (g.xbuf_xcat_lem buf _ _ refl)
      ∙ append_assoc buf _ _
      ∙ ap (λ t. buf ++ b'"' ∷ t) (append_assoc (fname result col) (codes "\":") _)

  label :
      (json buf : Bytes)
      → g.xbuf_xcat buf (codes "\"%s\":") (str (some (json_name json)) ∷ [])
        ≡ buf ++ b'"' ∷ (json_name json ++ codes "\":")
  unfolding sprintf
  label json buf = g.xbuf_xcat_lem buf _ _ refl

  json_column_lem :
      (json : Bytes) (col : ℕ) (buf : Bytes)
      → IsJsonColumn json col
      → json_column g p result row col json buf ≡ buf ++ json_member json col
  json_column_lem json col buf (named, more, plain) =
      let labelled : ltb 1 (nfields result) ≡ true = ground arith in
      rw (json_column, labelled)
        (g.xbuf_xcat_lem _ (getvalue result row col) []
            (sprintf_plain (getvalue result row col) plain)
          ∙ ap (λ t. t ++ getvalue result row col) (label json buf)
          ∙ append_assoc buf _ _
          ∙ ap (λ t. buf ++ b'"' ∷ t) (append_assoc (json_name json) (codes "\":") _))

  -- One column in an object, and then the others.
  put_columns_next :
      (left col : ℕ) (buf : Bytes)
      → IsColumn col
      → put_columns g p (suc left) result row col true buf
        ≡ put_columns g p left result row
            (col + 1)
            true
            (close_column g p left true (buf ++ member col))
  unfolding put_columns
  put_columns_next left col buf (inl (plain, text)) =
      rw (put_columns, plain)
        (ap (λ t. put_columns g p left result row (col + 1) true (close_column g p left true t))
          (named_column_text col buf text))
  put_columns_next left col buf (inr (json, (named, more, plain))) =
      rw (put_columns, named)
        (ap (λ t. put_columns g p left result row (col + 1) true (close_column g p left true t))
          (json_column_lem json col buf (named, more, plain)))

  put_columns-rest :
      (left col : ℕ) (buf : Bytes)
      → AllColumns (suc left) col
      → put_columns g p (suc left) result row col true buf
        ≡ buf ++ (comma_separated (members (suc left) col) ++ codes "}")
  unfolding put_columns sprintf
  put_columns-rest zero col buf (column, rest) =
      put_columns_next zero col buf column
      ∙ g.xbuf_xcat_lem _ (codes "}") [] refl
      ∙ append_assoc buf (member col) _
  put_columns-rest (suc left) col buf (column, rest) =
      put_columns_next (suc left) col buf column
      ∙ put_columns-rest left (col + 1) _ rest
      ∙ ap (λ t. t ++ (comma_separated (members (suc left) (col + 1)) ++ codes "}"))
          (g.xbuf_xcat_lem _ (codes ",") [] refl)
      ∙ append_assoc (buf ++ member col) (codes ",") _
      ∙ append_assoc buf (member col) _
      ∙ ap (λ t. buf ++ t)
          (sym (
            append_assoc (member col) (b',' ∷ comma_separated (members (suc left) (col + 1)))
              (codes "}")))

  put_columns_first :
      (left col : ℕ) (buf : Bytes)
      → strstr_json (fname result col) ≡ none
      → put_columns g p (suc left) result row col false buf
        ≡ put_columns g p (suc left) result row col true (g.xbuf_xcat buf (codes "{") [])
  unfolding put_columns
  put_columns_first left col buf plain = rw (put_columns, plain) refl

  -- A row whose first column is of text is written as an object of its columns, in their order and
  -- separated by commas.
  pub put_columns-members :
      (left : ℕ) (buf : Bytes)
      → IsTextColumn 0
      → AllColumns left 1
      → put_columns g p (suc left) result row 0 false buf
        ≡ buf ++ (codes "{" ++ (comma_separated (members (suc left) 0) ++ codes "}"))
  unfolding sprintf
  put_columns-members left buf (plain, text) rest =
      put_columns_first left 0 buf plain
      ∙ put_columns-rest left 0 _ (inl (plain, text), rest)
      ∙ ap (λ t. t ++ (comma_separated (members (suc left) 0) ++ codes "}"))
          (g.xbuf_xcat_lem buf (codes "{") [] refl)
      ∙ append_assoc buf (codes "{") _
