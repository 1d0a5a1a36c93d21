-- ===== src/Db/Response/OneByOne.antt =====
-- Rows in single-row mode, the mode that `db_send` asks for, and what each adds to the reply.
use gwan_pg_rest_adapter.Prelude.{
  ℕ, suc, ◌+◌, ◌%◌, ◌^◌, ◌<◌, ◌≡◌, refl, sym, ap, ◌∙◌, Bool, true, false, not, ◌&&◌, Option, none,
  some, List, [], ◌∷◌, ◌++◌, append_assoc, append-nil, Bytes, codes, All, length, arith, ◌==◌,
}
use gwan_pg_rest_adapter.Gwan.{Gwan}
use gwan_pg_rest_adapter.Gwan.Sprintf.{sprintf}
use gwan_pg_rest_adapter.Utils.Text.Laws.{comma_separated}
use gwan_pg_rest_adapter.Db.Libpq.{Libpq}
use gwan_pg_rest_adapter.Db.Response.{put_columns, put_rows}
use gwan_pg_rest_adapter.Db.Response.Loop.{
  Progress, write_result, blank_last, put_array, tuples_of, single_after,
}
use gwan_pg_rest_adapter.Db.Response.Rows.{IsTextColumn, AllColumns, members, put_columns-members}
use gwan_pg_rest_adapter.Db.Response.Written.{accepted, write_all}

blank_last-comma : (s : Bytes) → blank_last (s ++ b',' ∷ []) ≡ some (s ++ b' ' ∷ [])
blank_last-comma [] = refl
blank_last-comma (c ∷ []) = refl
blank_last-comma (c ∷ d ∷ s) = let ih = blank_last-comma (d ∷ s) in rw ih refl

module _ (g : Gwan) (p : Libpq) where
  open p use {Conn, Result, result_status, nfields, ntuples}

  -- A row in single-row mode, whose first column is of text and whose others are of text or JSON.
  pub record IsRow (result : Result) : Type 0 where
    pub status : result_status result ≡ 9
    pub columns : ℕ
    pub fields : nfields result ≡ suc columns
    pub text : IsTextColumn g p result 0 0
    pub others : AllColumns g p result 0 columns 1

  -- The result that ends the rows.
  pub record IsLast (result : Result) : Type 0 where
    pub status : result_status result ≡ 2
    pub tuples : ntuples result ≡ 0

  -- {"name":"value",…}
  abbrev pub object_of : Result → Bytes
  object_of result =
      codes "{" ++ (comma_separated (members g p result 0 (nfields result) 0) ++ codes "}")

  -- Objects, each with a comma behind it.
  abbrev pub objects : List Result → Bytes
  objects [] = []
  objects (row ∷ rows) = object_of row ++ (b',' ∷ objects rows)

  put_columns-row :
      (row : Result) (buf : Bytes)
      → IsRow row
      → put_columns g p (nfields row) row 0 0 false buf ≡ buf ++ object_of row
  put_columns-row row buf ok =
      rw ok.fields (put_columns-members g p row 0 ok.columns buf ok.text ok.others)

  -- The progress behind the row that makes `items`.
  abbrev pub rows_done : ℕ → Progress
  rows_done items = record { items = items; status = 9; single = true }

  row_tuples : (row : Result) → IsRow row → tuples_of g p row ≡ 1
  row_tuples row ok = let e = ok.status in ground arith

  row_single :
      (progress : Progress) (row : Result) → IsRow row → single_after g p progress row ≡ true
  row_single progress row ok = let e = ok.status in ground arith

  row_comma :
      (row : Result) (buf : Bytes)
      → IsRow row
      → put_rows g p 1 true row 0 buf ≡ buf ++ (object_of row ++ codes ",")
  unfolding put_rows sprintf
  row_comma row buf ok =
      g.xbuf_xcat_lem _ (codes ",") [] refl
      ∙ ap (λ t. t ++ codes ",") (put_columns-row row buf ok)
      ∙ append_assoc buf (object_of row) (codes ",")

  abbrev written : Progress → Result → Bytes → ℕ → ℕ → Bool → Option (Progress × Bytes)
  written progress row buf tuples status single = some (
    record { items = (progress.items + tuples) % 2 ^ 32; status = status; single = single },
    put_rows g p tuples single row 0 (put_array g p progress row buf),
  )

  pub accepted-row :
      (progress : Progress) (row : Result) (buf : Bytes)
      → IsRow row
      → accepted g p progress row buf
        ≡ some (
          rows_done ((progress.items + 1) % 2 ^ 32),
          put_array g p progress row buf ++ (object_of row ++ codes ","),
        )
  unfolding write_result
  accepted-row progress row buf ok =
      let status = ok.status in
      let fields = ok.fields in
      let not_command : (result_status row == 1) ≡ false = ground arith in
      let has_row : (not (tuples_of g p row == 0) && not (nfields row == 0)) ≡ true =
        ground (arith, row_tuples row ok) in
      let taken : accepted g p progress row buf
          ≡ written progress row buf (tuples_of g p row) (result_status row)
              (single_after g p progress row) =
        rw not_command (rw has_row refl) in
      taken
      ∙ ap (λ t. written progress row buf t (result_status row) (single_after g p progress row))
          (row_tuples row ok)
      ∙ ap (λ t. written progress row buf 1 t (single_after g p progress row)) status
      ∙ ap (written progress row buf 1 9) (row_single progress row ok)
      ∙ ap (λ t. some (rows_done ((progress.items + 1) % 2 ^ 32), t))
          (row_comma row (put_array g p progress row buf) ok)

  abbrev pub then_all : List Result → Option (Progress × Bytes) → Option (Progress × Bytes)
  then_all results none = none
  then_all results (some (progress, buf)) = write_all g p progress results buf

  -- Behind the first row, the others are appended.
  pub write_all-rows :
      (items : ℕ) (rows rest : List Result) (buf : Bytes)
      → All IsRow rows
      → 0 < items
      → items + length rows < 2 ^ 32
      → write_all g p (rows_done items) (rows ++ rest) buf
        ≡ write_all g p (rows_done (items + length rows)) rest (buf ++ objects rows)
  write_all-rows items [] rest buf ok pos small =
      let same : items ≡ items + 0 = omega arith in
      ap (λ n. write_all g p (rows_done n) rest buf) same
      ∙ ap (write_all g p (rows_done (items + 0)) rest) (sym (append-nil buf))
  write_all-rows items (row ∷ rows) rest buf (ok, oks) pos small =
      let open_array : put_array g p (rows_done items) row buf ≡ buf = ground arith in
      let next : (items + 1) % 2 ^ 32 ≡ items + 1 = omega arith in
      let total : items + 1 + length rows ≡ items + length (row ∷ rows) = omega arith in
      ap (then_all (rows ++ rest)) (accepted-row (rows_done items) row buf ok)
      ∙ rw (open_array, next)
          (write_all-rows (items + 1) rows rest (buf ++ (object_of row ++ codes ",")) oks
              (omega arith) (omega arith)
            ∙ ap
                (λ n.
                  write_all g p (rows_done n) rest
                    ((buf ++ (object_of row ++ codes ",")) ++ objects rows))
                total
            ∙ ap (write_all g p (rows_done (items + length (row ∷ rows))) rest) (
                append_assoc buf _ _
                ∙ ap (λ t. buf ++ t) (append_assoc (object_of row) (codes ",") _)))

  abbrev pub last_done : ℕ → Progress
  last_done items = record { items = items; status = 2; single = true }

  -- The result that ends the rows makes a blank of the last comma.
  pub accepted-last :
      (items : ℕ) (last : Result) (buf : Bytes)
      → IsLast last
      → accepted g p (rows_done items) last (buf ++ codes ",")
        ≡ some (last_done items, buf ++ codes " ")
  unfolding write_result
  accepted-last items last buf ok =
      let e = ok.status in
      let tuples = ok.tuples in
      let not_command : (result_status last == 1) ≡ false = ground arith in
      let no_row : (not (tuples_of g p last == 0) && not (nfields last == 0)) ≡ false =
        ground arith in
      let ends : (result_status last == 2) ≡ true = ground arith in
      rw not_command (
        rw no_row (
          rw ends (
            rw (blank_last-comma buf) (
              ap (λ t. some (record { items = items; status = t; single = true }, buf ++ codes " "))
                e))))
