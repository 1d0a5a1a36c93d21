-- ===== src/Tests/Responses.antt =====
-- A database that delivers two rows one by one, and what the adapter answers.
use gwan_pg_rest_adapter.Prelude.{
  ℕ, suc, ◌≡◌, refl, true, false, Option, none, some, List, [], ◌∷◌, Bytes, codes, arith, ◌==◌,
  ◌||◌, get_elem?, str_eq, if◌then◌else◌,
}
use gwan_pg_rest_adapter.Db.Libpq.{Libpq, State, db_wait}
use gwan_pg_rest_adapter.Db.Send.Waits.{idle, done}
use gwan_pg_rest_adapter.Db.Send.{fail}
use gwan_pg_rest_adapter.Db.Response.{strstr_json, put_rows, put_columns, put_value}
use gwan_pg_rest_adapter.Db.Response.Refused.{from_pair, db_response-refused}
use gwan_pg_rest_adapter.Utils.Validate.{strword}
use gwan_pg_rest_adapter.Gwan.Sprintf.{decimal, sprintf}
use gwan_pg_rest_adapter.Db.Response.Loop.{Progress, write_result, db_response, response_within}
use gwan_pg_rest_adapter.Db.Response.Steps.{at, first}
use gwan_pg_rest_adapter.Db.Response.Stream.{Reads, settled, waits, Stream, end, item}
use gwan_pg_rest_adapter.Db.Response.Returns.{db_response-Ends}
use gwan_pg_rest_adapter.Db.Response.Written.{write_all}
use gwan_pg_rest_adapter.Db.Response.OneByOne.{IsRow, IsLast}
use gwan_pg_rest_adapter.Db.Response.Arrays.{answer, db_response-array}
use gwan_pg_rest_adapter.Endpoint.{Outcome, returned}
use gwan_pg_rest_adapter.Csp.Action.{Request}
use gwan_pg_rest_adapter.Csp.Document.{get_query}
use gwan_pg_rest_adapter.Csp.Servlets.{document, main, http_get}
use gwan_pg_rest_adapter.Csp.Servlets.Answers.{IsDocumentRow, main_get_document-documents}
use gwan_pg_rest_adapter.Tests.Server.{server, names}

-- The results: two rows, and the one that ends them.
data Delivery : Type 0 where
  row last broken : Delivery

abbrev delivered : ℕ → Option Delivery
delivered c = if c == 1 || c == 3 then some row else if c == 4 then some last else none

abbrev status : Delivery → ℕ
status row = 9
status last = 2
status broken = 7

abbrev tuples : Delivery → ℕ
tuples row = 1
tuples last = 0
tuples broken = 0

-- The connection counts its calls; it is busy after the first row.
abbrev delivering : (ℕ → Option Delivery) → Libpq
delivering results = record {
  Conn = ℕ;
  Result = Delivery;
  dispatch = λ c flags. (flags, suc c);
  is_busy = λ c. c == 2;
  send_query = λ c query. (true, c);
  set_single_row_mode = λ c. c;
  flush = λ c. (false, c);
  consume_input = λ c. c;
  get_result = λ c. (results c, suc c);
  server_version = λ c. 90400;
  error_message = λ c. codes "boom";
  result_status = status;
  nfields = λ r. 1;
  ntuples = tuples;
  fname = λ r i. codes "id";
  fformat = λ r i. 0;
  getisnull = λ r i j. false;
  getvalue = λ r i j. codes "1";
}

abbrev database : Libpq
database = delivering delivered

reads : (c : ℕ) → Reads database c (suc c)
unfolding db_wait
reads c = (2, suc c, (λ e. omega arith), refl, refl)

stream : Stream database 1 (row ∷ row ∷ last ∷ []) 8 6
stream =
    item refl (waits refl (reads 2) (settled refl))
      (item refl (settled refl) (item refl (settled refl) (end refl)))

row-IsRow : IsRow server database row
unfolding strstr_json
row-IsRow = record { status = refl; columns = 0; fields = refl; text = (refl, refl); others = tt }

last-IsLast : IsLast server database last
last-IsLast = record { status = refl; tuples = refl }

abbrev reply : Bytes
reply = codes "{\"code\":9,\"result\":[ {\"id\":\"1\"},{\"id\":\"1\"} ],\"items\":2}"

db_response-Ends_example :
    (out : Outcome (State database)) × (db_response server database 8 (at server database [] [] 0)
      ≡ some out)
db_response-Ends_example =
    db_response-Ends server database [] [] 0 1 8 (reads 0) stream (omega arith)

db_response-array_example :
    db_response server database 8 (at server database [] [] 0)
    ≡ some (returned 200 (answer server database reply (codes "X-items: 2\r\n") 6))
unfolding decimal strstr_json
db_response-array_example =
    db_response-array server database [] 0 1 6 row (row ∷ []) last 8 (reads 0) stream
      (row-IsRow, (row-IsRow, tt)) last-IsLast (omega arith) (omega arith)

abbrev args : List Bytes
args = codes "get" ∷ codes "books" ∷ codes "9c5b-94b1" ∷ []

abbrev get_request : Request
get_request = record { argc = 3; argv = λ i. get_elem? args i; entity = none }

-- A database that answers only the query of that request, with one document.
abbrev document_query : Bytes
document_query =
    codes
      "SELECT id, name, xmin AS rev, document AS json_doc FROM db.public.books_collection where id = '9c5b-94b1';"

abbrev column_names : List Bytes
column_names = codes "id" ∷ codes "name" ∷ codes "rev" ∷ codes "json_doc" ∷ []

abbrev column_values : List Bytes
column_values = codes "9c5b-94b1" ∷ codes "a" ∷ codes "7" ∷ codes "{\"title\":\"b\"}" ∷ []

abbrev or_nothing : Option Bytes → Bytes
or_nothing none = []
or_nothing (some s) = s

abbrev found : ℕ → Option Delivery
found c = if c == 1 then some row else if c == 3 then some last else none

abbrev queried : Libpq
queried = record {
  Conn = ℕ × Bytes;
  Result = Delivery;
  dispatch = λ c flags. (flags, (suc c.0, c.1));
  is_busy = λ c. c.0 == 2;
  send_query = λ c query. (true, (c.0, query));
  set_single_row_mode = λ c. c;
  flush = λ c. (false, c);
  consume_input = λ c. c;
  get_result = λ c. (if str_eq c.1 document_query then found c.0 else none, (suc c.0, c.1));
  server_version = λ c. 90400;
  error_message = λ c. codes "boom";
  result_status = status;
  nfields = λ r. 4;
  ntuples = tuples;
  fname = λ r i. or_nothing (get_elem? column_names i);
  fformat = λ r i. 0;
  getisnull = λ r i j. false;
  getvalue = λ r i j. or_nothing (get_elem? column_values j);
}

queried-Reads : (c : ℕ) → Reads queried (c, document_query) (suc c, document_query)
unfolding db_wait
queried-Reads c = (2, (suc c, document_query), (λ e. omega arith), refl, refl)

queried-Stream : Stream queried (1, document_query) (row ∷ last ∷ []) 6 (5, document_query)
queried-Stream =
    item refl (waits refl (queried-Reads 2) (settled refl)) (item refl (settled refl) (end refl))

row-IsDocumentRow : IsDocumentRow server queried row
row-IsDocumentRow = record {
  status = refl;
  fields = refl;
  id = refl;
  name = refl;
  rev = refl;
  json_doc = refl;
  id_text = refl;
  name_text = refl;
  rev_text = refl;
  plain = ground arith;
}

queried_last : IsLast server queried last
queried_last = record { status = refl; tuples = refl }

abbrev document_reply : Bytes
document_reply =
    codes
      "{\"code\":9,\"result\":[ {\"id\":\"9c5b-94b1\",\"name\":\"a\",\"rev\":\"7\",\"doc\":{\"title\":\"b\"}} ],\"items\":1}"

main_get_document-documents_example :
    main server queried get_request
      (some names)
      (response_within server queried 6)
      document
      http_get
      (at server queried [] [] (0, []))
    ≡ returned 200
        (answer server queried document_reply (codes "X-items: 1\r\n") (5, document_query))
unfolding decimal strword get_query sprintf
main_get_document-documents_example =
    main_get_document-documents server queried get_request names [] 0 0 (1, document_query)
      (5, document_query) row [] last 6 refl refl refl
      ((0, []), (0, document_query), false, (0, document_query), idle refl, refl, refl, done)
      (omega arith) (queried-Reads 0) queried-Stream (row-IsDocumentRow, tt) queried_last
      (omega arith) (omega arith)

-- A row, and then an error.
abbrev breaking : ℕ → Option Delivery
breaking c = if c == 1 then some row else if c == 3 then some broken else none

abbrev failing : Libpq
failing = delivering breaking

failing-Reads : (c : ℕ) → Reads failing c (suc c)
unfolding db_wait
failing-Reads c = (2, suc c, (λ e. omega arith), refl, refl)

failing-Stream : Stream failing 1 (row ∷ broken ∷ []) 6 5
failing-Stream =
    item refl (waits refl (failing-Reads 2) (settled refl)) (item refl (settled refl) (end refl))

abbrev begun : Bytes
begun = codes "{\"code\":9,\"result\":[ {\"id\":\"1\"},"

abbrev one_row : Progress
one_row = record { items = 1; status = 9; single = true }

row_written : write_all server failing (first server failing) (row ∷ []) [] ≡ some (one_row, begun)
unfolding write_result put_rows put_columns put_value strstr_json sprintf decimal
row_written = refl

db_response-refused_example :
    db_response server failing 6 (at server failing [] [] 0)
    ≡ some (
        from_pair server failing
          (fail server failing 400 (some (codes "boom")) (at server failing [] [] 5)))
db_response-refused_example =
    db_response-refused server failing [] [] 0 1 5 (row ∷ []) broken 6 one_row begun
      (failing-Reads 0) failing-Stream (refl, tt) row_written
      (record { command = refl; tuples = refl }) (omega arith)
