-- ===== src/Tests/Queries.antt =====
-- Requests for pages of documents.
use gwan_pg_rest_adapter.Prelude.{
  ◌≡◌, refl, some, none, List, [], ◌∷◌, Bytes, codes, All, arith, get_elem?,
}
use gwan_pg_rest_adapter.Sql.{tokens, stop}
use gwan_pg_rest_adapter.Utils.Validate.{strword}
use gwan_pg_rest_adapter.Utils.Validate.Accepts.{IsWordByte}
use gwan_pg_rest_adapter.Utils.Atoi.{atoi}
use gwan_pg_rest_adapter.Csp.Action.{Request, query}
use gwan_pg_rest_adapter.Csp.Table.{IsPlainNames, NoDash}
use gwan_pg_rest_adapter.Csp.Document.{list_document, list_query, all_document, all_query}
use gwan_pg_rest_adapter.Csp.Document.Pages.{list_document-tokens}
use gwan_pg_rest_adapter.Tests.Server.{server, names}

names-IsPlainNames : IsPlainNames names
names-IsPlainNames = record { name = ground arith; schema = ground arith }

abbrev args : List Bytes
args = codes "list" ∷ codes "books" ∷ codes "10" ∷ []

abbrev page_request : Request
page_request = record { argc = 3; argv = λ i. get_elem? args i; entity = none }

list_document_runs :
    list_document server page_request ≡ query (list_query server (some (codes "books")) 10 0)
unfolding list_document strword atoi
list_document_runs = refl

list_document-tokens_example :
    (collection : Bytes) × (some (codes "books") ≡ some collection)
    × All IsWordByte collection
    × (NoDash collection → tokens (list_query server (some (codes "books")) 10 0 names) ≡ stop ∷ [])
list_document-tokens_example =
    list_document-tokens server names names-IsPlainNames page_request
      (list_query server (some (codes "books")) 10 0) list_document_runs

all_document_runs :
    all_document server page_request ≡ query (all_query server (some (codes "books")) 10 0)
unfolding all_document strword atoi
all_document_runs = refl
