-- ===== src/Csp/Servlets/Answers.antt =====
-- Whole requests, from the request to the JSON document of the reply.
use gwan_pg_rest_adapter.Prelude.{
  ℕ, ◌+◌, ◌^◌, ◌<◌, ◌≤◌, ◌≡◌, ◌∙◌, ap, refl, inl, inr, arith, All-map, map, true, none, some,
  append_assoc, List, [], ◌∷◌, ◌++◌, Bytes, codes, All, length, take,
}
use gwan_pg_rest_adapter.Gwan.{Gwan}
use gwan_pg_rest_adapter.Db.Libpq.{Libpq}
use gwan_pg_rest_adapter.Db.Send.Waits.{Writes}
use gwan_pg_rest_adapter.Db.Response.Loop.{response_within, or_undefined}
use gwan_pg_rest_adapter.Db.Response.Steps.{at}
use gwan_pg_rest_adapter.Db.Response.Stream.{Reads, Stream}
use gwan_pg_rest_adapter.Db.Response.Rows.{IsPlainFormat, member, member_by, members}
use gwan_pg_rest_adapter.Db.Response.{strstr_json}
use gwan_pg_rest_adapter.Utils.Text.Laws.{comma_separated}
use gwan_pg_rest_adapter.Db.Response.OneByOne.{IsRow, IsLast, object_of}
use gwan_pg_rest_adapter.Db.Response.Arrays.{
  head, array_of, closing, counter, answer, db_response-array,
}
use gwan_pg_rest_adapter.Endpoint.{returned}
use gwan_pg_rest_adapter.Utils.Validate.{strword}
use gwan_pg_rest_adapter.Csp.Action.{Request, Names, arg}
use gwan_pg_rest_adapter.Csp.Document.{get_query}
use gwan_pg_rest_adapter.Csp.Servlets.{document, main, http_get}
use gwan_pg_rest_adapter.Csp.Servlets.Runs.{main_get_document}

module _ (g : Gwan) (p : Libpq) where
  open p use {Conn, Result}
  open p use {result_status, nfields, fname, fformat, getvalue}

  -- A row of the query of `get_query` in single-row mode: the columns id, name, rev and json_doc,
  -- where the document has no '%' in it.
  pub record IsDocumentRow (row : Result) : Type 0 where
    pub status : result_status row ≡ 9
    pub fields : nfields row ≡ 4
    pub id : fname row 0 ≡ codes "id"
    pub name : fname row 1 ≡ codes "name"
    pub rev : fname row 2 ≡ codes "rev"
    pub json_doc : fname row 3 ≡ codes "json_doc"
    pub id_text : fformat row 0 ≡ 0
    pub name_text : fformat row 1 ≡ 0
    pub rev_text : fformat row 2 ≡ 0
    pub plain : IsPlainFormat (getvalue row 0 3)

  abbrev quoted_value : Bytes → Result → ℕ → Bytes
  quoted_value label row col = label ++ (getvalue row 0 col ++ codes "\"")

  -- {"id":"…","name":"…","rev":"…","doc":…}, with the values as the database gives them.
  abbrev pub document_of : Result → Bytes
  document_of row =
      codes "{"
      ++ (comma_separated (
            quoted_value (codes "\"id\":\"") row 0
            ∷ quoted_value (codes "\"name\":\"") row 1
            ∷ quoted_value (codes "\"rev\":\"") row 2
            ∷ (codes "\"doc\":" ++ getvalue row 0 3)
            ∷ [])
          ++ codes "}")

  abbrev pub documents : List Result → Bytes
  documents rows =
      codes "{\"code\":9,\"result\":[ "
      ++ (comma_separated (map document_of rows) ++ (codes " " ++ closing g p (length rows)))

  document-IsRow : (row : Result) → IsDocumentRow row → IsRow g p row
  unfolding strstr_json
  document-IsRow row ok =
      let plain = ok.plain in
      let many : 1 < nfields row = omega (arith, ok.fields) in
      record {
        status = ok.status;
        columns = 3;
        fields = ok.fields;
        text = (ap strstr_json ok.id, ok.id_text);
        others = (
          inl (ap strstr_json ok.name, ok.name_text),
          (
            inl (ap strstr_json ok.rev, ok.rev_text),
            (inr (codes "json_doc", (ap strstr_json ok.json_doc, many, plain)), tt),
          ),
        );
      }

  text_named :
      (row : Result) (col : ℕ) (label : Bytes)
      → fname row col ≡ label
      → strstr_json label ≡ none
      → member g p row 0 col
        ≡ b'"' ∷ (label ++ (codes "\":\"" ++ (getvalue row 0 col ++ codes "\"")))
  text_named row col label named plain =
      ap (member_by g p row 0 col) (ap strstr_json named ∙ plain)
      ∙ ap (λ n. b'"' ∷ (n ++ (codes "\":\"" ++ (getvalue row 0 col ++ codes "\"")))) named

  abbrev of_four : Bytes → Bytes → Bytes → Bytes → Bytes
  of_four a b c d = codes "{" ++ (comma_separated (a ∷ b ∷ c ∷ d ∷ []) ++ codes "}")

  object_of-document_of : (row : Result) → IsDocumentRow row → object_of g p row ≡ document_of row
  unfolding strstr_json
  object_of-document_of row ok =
      ap (λ n. codes "{" ++ (comma_separated (members g p row 0 n 0) ++ codes "}")) ok.fields
      ∙ ap (λ a. of_four a (member g p row 0 1) (member g p row 0 2) (member g p row 0 3))
          (text_named row 0 (codes "id") ok.id refl)
      ∙ ap
          (λ b.
            of_four (quoted_value (codes "\"id\":\"") row 0) b (member g p row 0 2)
              (member g p row 0 3))
          (text_named row 1 (codes "name") ok.name refl)
      ∙ ap
          (λ c.
            of_four (quoted_value (codes "\"id\":\"") row 0)
              (quoted_value (codes "\"name\":\"") row 1) c (member g p row 0 3))
          (text_named row 2 (codes "rev") ok.rev refl)
      ∙ ap
          (of_four (quoted_value (codes "\"id\":\"") row 0)
            (quoted_value (codes "\"name\":\"") row 1) (quoted_value (codes "\"rev\":\"") row 2))
          (ap (member_by g p row 0 3) (ap strstr_json ok.json_doc))

  map-document_of :
      (rows : List Result)
      → All IsDocumentRow rows
      → map (object_of g p) rows ≡ map document_of rows
  map-document_of [] h = refl
  map-document_of (row ∷ rows) (ok, oks) =
      ap (λ t. t ∷ map (object_of g p) rows) (object_of-document_of row ok)
      ∙ ap (λ t. document_of row ∷ t) (map-document_of rows oks)

  array_of-documents :
      (rows : List Result)
      → All IsDocumentRow rows
      → array_of g p rows ++ closing g p (length rows) ≡ documents rows
  array_of-documents rows ok =
      ap (λ t. (head g p ++ (comma_separated t ++ codes " ")) ++ closing g p (length rows))
        (map-document_of rows ok)
      ∙ append_assoc (head g p) (comma_separated (map document_of rows) ++ codes " ")
          (closing g p (length rows))
      ∙ ap (λ t. head g p ++ t)
          (append_assoc (comma_separated (map document_of rows)) (codes " ") _)

  -- A GET of "get" with a session, a collection and a document id that are words, on an empty
  -- reply: when every wait for the connection succeeds and fewer than four are needed to write the
  -- query of `get_query`, the waits for the response succeed too, and the database then delivers,
  -- in single-row mode, at least one and fewer than 2 ^ 31 rows of that query's columns id, name,
  -- rev and json_doc, whose documents have no '%', then the servlet, given as many steps as the
  -- stream takes, returns 200. Its reply is the status 9, an object of id, name, rev and doc for
  -- each row in their order, with the values as the database gives them, and the number of rows,
  -- which it adds to the response headers too.
  pub main_get_document-documents :
      (r : Request) (db : Names) (headers : Bytes) {c f : Conn} (i j : ℕ) (c' d : Conn)
      (row : Result) (rows : List Result) (last : Result) {n : ℕ} (steps : ℕ)
      → r.argv 0 ≡ some (codes "get")
      → strword (arg r 1) ≡ true
      → strword (arg r 2) ≡ true
      → Writes g p [] headers (get_query g (arg r 1) (arg r 2) db) c i j f
      → i + j < 4
      → Reads p f c'
      → Stream p c' ((row ∷ rows) ++ last ∷ []) n d
      → All IsDocumentRow (row ∷ rows)
      → IsLast g p last
      → length (row ∷ rows) < 2 ^ 31
      → n ≤ steps
      → main g p r (some db) (response_within g p steps) document http_get (at g p [] headers c)
        ≡ returned 200 (
            answer g p
              (documents (row ∷ rows))
              (headers ++ take 62 (counter g p (length (row ∷ rows))))
              d)
  unfolding response_within
  main_get_document-documents r db headers {c} {f} i j c' d row rows last steps cmd word1 word2 w
        few reads stream ok ends small h =
      let are_rows = All-map document-IsRow (row ∷ rows) ok in
      main_get_document g p r (response_within g p steps) db [] headers i j cmd word1 word2 w few
      ∙ ap (or_undefined g p) (
          db_response-array g p headers f c' d row rows last steps reads stream are_rows ends small
            h)
      ∙ ap
          (λ t.
            returned 200 (answer g p t (headers ++ take 62 (counter g p (length (row ∷ rows)))) d))
          (array_of-documents (row ∷ rows) ok)
