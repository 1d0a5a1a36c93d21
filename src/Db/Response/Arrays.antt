-- ===== src/Db/Response/Arrays.antt =====
-- The JSON document that `db_response` makes of rows in single-row mode, the mode that `db_send`
-- asks for.
use gwan_pg_rest_adapter.Prelude.{
  ℕ, suc, ◌+◌, ◌^◌, ◌≤◌, ◌<◌, ◌≡◌, refl, sym, ap, ◌∙◌, true, false, ltb, some, List, [], ◌∷◌, ◌++◌,
  append_assoc, map, take, Bytes, codes, All, length, arith, ◌==◌,
}
use gwan_pg_rest_adapter.Gwan.{Gwan}
use gwan_pg_rest_adapter.Gwan.Sprintf.{sprintf, decimal, num}
use gwan_pg_rest_adapter.Endpoint.{returned}
use gwan_pg_rest_adapter.Utils.Text.Laws.{comma_separated}
use gwan_pg_rest_adapter.Db.Libpq.{Libpq, State}
use gwan_pg_rest_adapter.Db.Response.Loop.{close_array, db_response, put_array}
use gwan_pg_rest_adapter.Db.Response.Stream.{Reads, Stream}
use gwan_pg_rest_adapter.Db.Response.Steps.{at, first}
use gwan_pg_rest_adapter.Db.Response.Written.{
  write_all, response_of, IsAccepted, db_response-write_all,
}
use gwan_pg_rest_adapter.Db.Response.OneByOne.{
  IsRow, IsLast, object_of, objects, rows_done, last_done, then_all, accepted-row, write_all-rows,
  accepted-last,
}

module _ (g : Gwan) (p : Libpq) where
  open p use {Conn, Result}

  objects-comma :
      (row : Result) (rows : List Result)
      → objects g p (row ∷ rows) ≡ comma_separated (map (object_of g p) (row ∷ rows)) ++ codes ","
  objects-comma row [] = refl
  objects-comma row (next ∷ rows) =
      ap (λ t. object_of g p row ++ (b',' ∷ t)) (objects-comma next rows)
      ∙ sym (append_assoc (object_of g p row) _ _)

  abbrev pub head : Bytes
  head = codes "{\"code\":9,\"result\":[ "

  put_array-first :
      (row : Result) (buf : Bytes) → IsRow g p row → put_array g p (first g p) row buf ≡ buf ++ head
  unfolding sprintf decimal
  put_array-first row buf ok =
      ap (λ n. g.xbuf_xcat buf (codes "{\"code\":%d,\"result\":[ ") (num n ∷ [])) ok.status
      ∙ g.xbuf_xcat_lem buf _ _ refl

  -- The array of the rows, as it stands before it is closed.
  abbrev pub array_of : List Result → Bytes
  array_of rows = head ++ (comma_separated (map (object_of g p) rows) ++ codes " ")

  rows_text :
      (row : Result) (rows : List Result) (buf : Bytes)
      → ((buf ++ head) ++ (object_of g p row ++ codes ",")) ++ objects g p rows
        ≡ (buf ++ (head ++ comma_separated (map (object_of g p) (row ∷ rows)))) ++ codes ","
  rows_text row rows buf =
      append_assoc (buf ++ head) _ _
      ∙ ap (λ t. (buf ++ head) ++ t)
          (append_assoc (object_of g p row) (codes ",") _ ∙ objects-comma row rows)
      ∙ sym (append_assoc (buf ++ head) _ _)
      ∙ ap (λ t. t ++ codes ",") (append_assoc buf head _)

  array_text :
      (rows : List Result) (buf : Bytes)
      → (buf ++ (head ++ comma_separated (map (object_of g p) rows))) ++ codes " "
        ≡ buf ++ array_of rows
  array_text rows buf =
      append_assoc buf _ _
      ∙ ap (λ t. buf ++ t)
          (append_assoc head (comma_separated (map (object_of g p) rows)) (codes " "))

  write_all-array :
      (row : Result) (rows : List Result) (last : Result) (buf : Bytes)
      → All (IsRow g p) (row ∷ rows)
      → IsLast g p last
      → suc (length rows) < 2 ^ 32
      → write_all g p (first g p) ((row ∷ rows) ++ last ∷ []) buf
        ≡ some (last_done g p (length (row ∷ rows)), buf ++ array_of (row ∷ rows))
  write_all-array row rows last buf (ok, oks) ends small =
      let total : 1 + length rows ≡ length (row ∷ rows) = omega arith in
      let before = (buf ++ head) ++ (object_of g p row ++ codes ",") in
      ap (then_all g p (rows ++ last ∷ [])) (accepted-row g p (first g p) row buf ok)
      ∙ ap
          (λ t.
            write_all g p (rows_done g p 1) (rows ++ last ∷ [])
              (t ++ (object_of g p row ++ codes ",")))
          (put_array-first row buf ok)
      ∙ write_all-rows g p 1 rows (last ∷ []) before oks (omega arith) (omega arith)
      ∙ ap (λ n. write_all g p (rows_done g p n) (last ∷ []) (before ++ objects g p rows)) total
      ∙ ap (write_all g p (rows_done g p (length (row ∷ rows))) (last ∷ []))
          (rows_text row rows buf)
      ∙ ap (then_all g p []) (accepted-last g p (length (row ∷ rows)) last _ ends)
      ∙ ap (λ t. some (last_done g p (length (row ∷ rows)), t)) (array_text (row ∷ rows) buf)

  rows-IsAccepted :
      (rows : List Result) (last : Result)
      → All (IsRow g p) rows
      → IsLast g p last
      → All (IsAccepted g p) (rows ++ last ∷ [])
  rows-IsAccepted [] last h ends = let e = ends.status in (ground arith, tt)
  rows-IsAccepted (row ∷ rows) last (ok, oks) ends =
      let e = ok.status in (ground arith, rows-IsAccepted rows last oks ends)

  -- The end of the document, and the response header.
  abbrev pub closing : ℕ → Bytes
  closing items = codes "],\"items\":" ++ (decimal items ++ codes "}")

  abbrev pub counter : ℕ → Bytes
  counter items = codes "X-items: " ++ (decimal items ++ codes "\r\n")

  abbrev pub answer : Bytes → Bytes → Conn → State p
  answer reply headers conn = record { reply = reply; headers = headers; conn = conn }

  close_array_lem :
      (items : ℕ) (buf : Bytes)
      → 0 < items
      → items < 2 ^ 31
      → close_array g p (last_done g p items) buf ≡ buf ++ closing items
  unfolding sprintf
  close_array_lem items buf pos small =
      let positive : ltb items (2 ^ 31) ≡ true = ground arith in
      let text : sprintf (codes "],\"items\":%d}") (num items ∷ []) ≡ some (closing items) =
        rw positive refl in
      let printed = g.xbuf_xcat_lem buf (codes "],\"items\":%d}") (num items ∷ []) text in
      let some_items : (items == 0) ≡ false = ground arith in rw some_items printed

  -- When the first wait succeeds and the results come as at least one and fewer than 2 ^ 31 rows in
  -- single-row mode and the result that ends them, each wait between them succeeding, then
  -- `db_response`, given as many steps as the stream takes, returns 200. In a row the first column
  -- is of text, without "json" in its name, and each other column is that too or has "json" in its
  -- name and no '%' in its value. The empty reply becomes the status 9, an object for each row in
  -- their order, with the values as the database gives them, and the number of rows, which is added
  -- to the response headers too.
  pub db_response-array :
      (headers : Bytes) (c c' d : Conn) (row : Result) (rows : List Result) (last : Result) {n : ℕ}
      (steps : ℕ)
      → Reads p c c'
      → Stream p c' ((row ∷ rows) ++ last ∷ []) n d
      → All (IsRow g p) (row ∷ rows)
      → IsLast g p last
      → length (row ∷ rows) < 2 ^ 31
      → n ≤ steps
      → let items = length (row ∷ rows) in
        db_response g p steps (at g p [] headers c)
        ≡ some (
            returned 200 (
              answer
                (array_of (row ∷ rows) ++ closing items)
                (headers ++ take 62 (counter items))
                d))
  unfolding sprintf
  db_response-array headers c c' d row rows last steps reads stream ok ends small h =
      let items = length (row ∷ rows) in
      let printed = g.s_snprintf 63 (codes "X-items: %u\r\n") (num items ∷ []) in
      db_response-write_all g p [] headers c c' d steps reads stream
        (rows-IsAccepted (row ∷ rows) last ok ends) h
      ∙ ap (λ o. some (response_of g p headers d o))
          (write_all-array row rows last [] ok ends (omega arith))
      ∙ ap (λ t. some (returned 200 (answer t (headers ++ printed) d)))
          (close_array_lem items (array_of (row ∷ rows)) (omega arith) small)
      ∙ ap
          (λ t.
            some (returned 200 (answer (array_of (row ∷ rows) ++ closing items) (headers ++ t) d)))
          (g.s_snprintf_lem 63 _ _ refl)
