-- ===== src/Tests/Requests.antt =====
-- Requests through the endpoints, the choice of an endpoint and the connection.
use gwan_pg_rest_adapter.Prelude.{
  ℕ, ◌+◌, ◌<◌, ◌≡◌, ◌⊎◌, refl, ap, true, Option, none, some, List, [], ◌∷◌, Bytes, codes, All,
  arith, length, c_str, get_elem?,
}
use gwan_pg_rest_adapter.Sql.{tokens, literal, stop}
use gwan_pg_rest_adapter.Utils.UrlDecode.{url_decode}
use gwan_pg_rest_adapter.Utils.Validate.{strword, is_string}
use gwan_pg_rest_adapter.Utils.Validate.Accepts.{IsWordByte}
use gwan_pg_rest_adapter.Endpoint.{Outcome, returned, Entry, Call, exec_endpoint}
use gwan_pg_rest_adapter.Endpoint.Choice.{
  here, there, exec_endpoint-IsFirst, exec_endpoint_unmatched,
}
use gwan_pg_rest_adapter.Db.Libpq.{State, db_wait}
use gwan_pg_rest_adapter.Db.Send.{db_send, fail}
use gwan_pg_rest_adapter.Db.Send.Waits.{
  Writes, Idles, Ready, idle, turn, done, again, at, db_send_early, db_send_late,
}
use gwan_pg_rest_adapter.Csp.Action.{Request, Names, query}
use gwan_pg_rest_adapter.Csp.Table.{IsPlainNames, NoDash}
use gwan_pg_rest_adapter.Csp.Document.{
  get_query, getbyname_query, delete_query, get_document, getbyname_document, delete_document,
}
use gwan_pg_rest_adapter.Csp.Document.Comments.{delete_document_commented}
use gwan_pg_rest_adapter.Csp.Document.Reads.{
  get_document-tokens, delete_document-tokens, getbyname_document-tokens,
}
use gwan_pg_rest_adapter.Csp.Servlets.{document, error, main, http_get}
use gwan_pg_rest_adapter.Csp.Servlets.Runs.{main_unauthorized}
use gwan_pg_rest_adapter.Tests.Server.{server, connection, names}

abbrev argv_of : List Bytes → ℕ → Option Bytes
argv_of args i = get_elem? args i

abbrev request : List Bytes → Request
request args = record { argc = length args; argv = argv_of args; entity = some (codes "{}") }

abbrev books : Bytes
books = codes "books"

abbrev uuid : Bytes
uuid = codes "9c5b-94b1"

names-IsPlainNames : IsPlainNames names
names-IsPlainNames = record { name = ground arith; schema = ground arith }

abbrev get_request : Request
get_request = request (codes "get" ∷ books ∷ uuid ∷ [])

get_document_runs :
    get_document server get_request ≡ query (get_query server (some books) (some uuid))
unfolding get_document strword
get_document_runs = refl

get_document-tokens_example :
    (collection : Bytes) × (id : Bytes) × (some books ≡ some collection)
    × (some uuid ≡ some id)
    × All IsWordByte collection
    × All IsWordByte id
    × (NoDash collection
        → tokens (get_query server (some books) (some uuid) names) ≡ literal id ∷ stop ∷ [])
get_document-tokens_example =
    get_document-tokens server names names-IsPlainNames get_request
      (get_query server (some books) (some uuid)) get_document_runs

abbrev delete_request : Request
delete_request = request (books ∷ uuid ∷ [])

delete_document_runs :
    delete_document server delete_request ≡ query (delete_query server (some books) (some uuid))
unfolding delete_document strword
delete_document_runs = refl

delete_document-tokens_example :
    (collection : Bytes) × (id : Bytes) × (some books ≡ some collection)
    × (some uuid ≡ some id)
    × All IsWordByte collection
    × All IsWordByte id
    × (NoDash collection
        → tokens (delete_query server (some books) (some uuid) names) ≡ literal id ∷ stop ∷ [])
delete_document-tokens_example =
    delete_document-tokens server names names-IsPlainNames delete_request
      (delete_query server (some books) (some uuid)) delete_document_runs

abbrev name_request : Request
name_request = request (codes "name" ∷ books ∷ codes "my%20book" ∷ [])

getbyname_document_runs :
    getbyname_document server name_request
    ≡ query (getbyname_query server (some books) (codes "my book"))
unfolding getbyname_document strword is_string url_decode
getbyname_document_runs = refl

getbyname_document-tokens_example :
    (collection : Bytes) × (name : Bytes) × (some books ≡ some collection)
    × (some (codes "my%20book") ≡ some name)
    × (length (url_decode name) < 256)
    × (NoDash collection
        → tokens (getbyname_query server (some books) (codes "my book") names)
          ≡ literal (c_str (url_decode name)) ∷ stop ∷ [])
getbyname_document-tokens_example =
    getbyname_document-tokens server names names-IsPlainNames name_request
      (getbyname_query server (some books) (codes "my book")) getbyname_document_runs

abbrev commented_request : Request
commented_request = request (codes "books--" ∷ codes "1" ∷ [])

delete_document_commented_example :
    (text : Names → Bytes) × (delete_document server commented_request ≡ query text)
    × (tokens (text names) ≡ [])
delete_document_commented_example =
    delete_document_commented server names names-IsPlainNames commented_request books (codes "1")
      refl refl books-word books-NoDash (one_digit, tt)
  where
    books-word : All IsWordByte books
    books-word = ground arith

    books-NoDash : NoDash books
    books-NoDash = ground arith

    one_digit : IsWordByte b'1'
    one_digit = ground arith

-- The servlet of documents, without a session and with one.
abbrev answer : State (connection 3) → Outcome (State (connection 3))
answer s = returned 200 s

abbrev start : State (connection 3)
start = record { reply = []; headers = []; conn = 0 }

main_unauthorized_example :
    let out = main server (connection 3) get_request none answer document http_get start in
    (out ≡ error server (connection 3) 401 (codes "unauthorized access") start)
    ⊎ (out ≡ error server (connection 3) 404 (codes "endpoint not found") start)
    ⊎ (out ≡ error server (connection 3) 405 (codes "method not allowed") start)
main_unauthorized_example =
    main_unauthorized server (connection 3) get_request answer document http_get start

-- From its first use the connection is busy for two waits, and writing takes one or two more.
ready : (limit c : ℕ) → Ready (connection limit) c (c + 1)
unfolding db_wait
ready limit c = (4, ground arith, ap (λ n. (4, n)) (omega arith))

idles : (limit : ℕ) → Idles (connection limit) 0 2 2
idles limit = turn refl (ready limit 0) (turn refl (ready limit 1) (idle refl))

Writes-early : (text : Bytes) → Writes server (connection 3) [] [] text 0 2 1 3
Writes-early text = (2, 2, true, 2, idles 3, refl, refl, again (ready 3 2) refl done)

Writes-late : (text : Bytes) → Writes server (connection 4) [] [] text 0 2 2 4
Writes-late text =
    (2, 2, true, 2, idles 4, refl, refl, again (ready 4 2) refl (again (ready 4 3) refl done))

db_send_early_example :
    db_send server (connection 3) (codes "SELECT 1;") (at server (connection 3) [] [] 0)
    ≡ (0, at server (connection 3) [] [] 3)
db_send_early_example =
    db_send_early server (connection 3) [] [] (codes "SELECT 1;") 2 1
      (Writes-early (codes "SELECT 1;")) (omega arith)

db_send_late_example :
    db_send server (connection 4) (codes "SELECT 1;") (at server (connection 4) [] [] 0)
    ≡ fail server
        (connection 4)
        429
        (some (codes "failed to write query"))
        (at server (connection 4) [] [] 4)
db_send_late_example =
    db_send_late server (connection 4) [] [] (codes "SELECT 1;") 2 2
      (Writes-late (codes "SELECT 1;")) (omega arith)

-- A table of two entries on a state that counts.
abbrev refuse : ℕ → Bytes → ℕ → Outcome ℕ
refuse code message s = returned code s

abbrev respond : ℕ → Outcome ℕ
respond s = returned 200 s

abbrev get_call : Call
get_call = record { method = 1; cmd = some (codes "list"); session = true }

abbrev first_entry : Entry ℕ
first_entry = record {
  method = 1;
  cmd = some (codes "get");
  endpoint = λ s. returned 0 s;
  flags = 0;
}

abbrev list_entry : Entry ℕ
list_entry = record {
  method = 1;
  cmd = some (codes "list");
  endpoint = λ s. returned 0 (s + 1);
  flags = 0;
}

exec_endpoint-IsFirst_example :
    exec_endpoint refuse respond get_call (first_entry ∷ list_entry ∷ []) 0 ≡ returned 200 1
exec_endpoint-IsFirst_example =
    exec_endpoint-IsFirst refuse respond get_call 0 (there refl (here refl))

exec_endpoint_unmatched_example :
    exec_endpoint refuse respond get_call (first_entry ∷ []) 0 ≡ returned 404 0
exec_endpoint_unmatched_example =
    exec_endpoint_unmatched refuse respond get_call (first_entry ∷ []) 0 (refl, tt)
