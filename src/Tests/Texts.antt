-- ===== src/Tests/Texts.antt =====
-- The helpers of libraries/postrest/utils.c, error replies and graphs.
use Prim.Native.Nat.{max}
use gwan_pg_rest_adapter.Prelude.{
  ◌⊎◌, ◌≤◌, ◌<◌, ℕ, ◌≤◌, ◌≡◌, ◌↔◌, refl, Bool, true, false, none, some, List, [], ◌∷◌, Bytes, codes,
  All, arith, length, ltb, get_elem?,
}
use gwan_pg_rest_adapter.Gwan.{jsn_array, jsn_node}
use gwan_pg_rest_adapter.Utils.Validate.{strword, is_string, is_uuid}
use gwan_pg_rest_adapter.Utils.Validate.Accepts.{
  IsWordByte, Consists, strword_iff, is_uuid-eq-false,
}
use gwan_pg_rest_adapter.Utils.UrlDecode.{url_decode}
use gwan_pg_rest_adapter.Utils.UrlDecode.RoundTrip.{url_encode, url_decode-url_encode}
use gwan_pg_rest_adapter.Utils.Text.{unquote, strjoin, string_to_lowercase}
use gwan_pg_rest_adapter.Utils.Text.Laws.{strjoin_lem}
use gwan_pg_rest_adapter.Utils.Headers.{Header, split_colon, get_headers}
use gwan_pg_rest_adapter.Utils.Headers.Bounds.{IsStored, get_headers-IsStored}
use gwan_pg_rest_adapter.Reply.{db_error}
use gwan_pg_rest_adapter.Reply.Laws.{pieces, error_pieces, db_error-pieces}
use gwan_pg_rest_adapter.Csp.Action.{Request, query}
use gwan_pg_rest_adapter.Csp.Graph.{
  get_adjacent, adjacent_query, traverse, traverse_query, get_node, node_query,
}
use gwan_pg_rest_adapter.Csp.Graph.Edges.{create_edge, insert_query, delete_edge, delete_query}
use gwan_pg_rest_adapter.Csp.Graph.Rejects.{IsNested, create_edge_refuses}
use gwan_pg_rest_adapter.Tests.Server.{server}

strword_iff_example :
    (strword (some (codes "a-b")) ≡ true) ↔ Consists IsWordByte (some (codes "a-b"))
strword_iff_example = strword_iff (some (codes "a-b"))

is_uuid-eq-false_example : is_uuid (some (codes "123e4567-e89b-12d3-a456-426614174000")) ≡ false
is_uuid-eq-false_example = is_uuid-eq-false (some (codes "123e4567-e89b-12d3-a456-426614174000"))

-- An encoder that escapes the blank and the percent sign.
abbrev keep : ℕ → Bool
keep c = ltb 37 c

url_decode-url_encode_example : url_decode (url_encode keep (codes "a b%")) ≡ codes "a b%"
url_decode-url_encode_example = url_decode-url_encode keep (codes "a b%") refl (ground arith)

strjoin_lem_example :
    strjoin server [] (codes "a" ∷ codes "b" ∷ []) b'(' b')' b';' ≡ some (codes "(a,b)")
strjoin_lem_example =
    strjoin_lem server [] (codes "a") (codes "b" ∷ []) b'(' b')' b';' (ground arith) (ground arith)

abbrev lines : Bytes
lines = codes "Host: a\r\nX-Y: b\r\n\r\n"

abbrev headers : List Header
headers =
    record { name = codes "host"; value = codes "a" }
    ∷ record { name = codes "x-y"; value = codes "b" }
    ∷ []

lines-headers : get_headers lines 20 ≡ some headers
unfolding get_headers split_colon string_to_lowercase
lines-headers = refl

get_headers-IsStored_example : All IsStored headers × (length headers ≤ max 1 20)
get_headers-IsStored_example = get_headers-IsStored lines 20 headers lines-headers

db_error-pieces_example :
    (text : Bytes) × (((422 < 600)
        × (db_error server [] 422 (some (codes "bad \"name\"")) ≡ (422, text))
        × (pieces text
            ≡ error_pieces 422 (unquote (codes "Bad Request")) (unquote (codes "bad \"name\"")) 0))
      ⊎ ((600 ≤ 422)
          × (db_error server [] 422 (some (codes "bad \"name\"")) ≡ (400, text))
          × (pieces text
              ≡ error_pieces 400
                  (unquote (codes "Bad Request"))
                  (unquote (codes "bad \"name\""))
                  422)))
db_error-pieces_example = db_error-pieces server [] 422 (codes "bad \"name\"") (omega arith)

abbrev request : List Bytes → Request
request args = record {
  argc = length args;
  argv = λ i. get_elem? args i;
  entity = some (codes "{}");
}

abbrev adjacent_request : Request
adjacent_request = request (codes "adjacent" ∷ codes "g" ∷ codes "null" ∷ codes "likes" ∷ [])

get_adjacent_runs :
    get_adjacent server adjacent_request
    ≡ query (adjacent_query server (some (codes "g")) none (some (codes "likes")))
unfolding get_adjacent strword is_string
get_adjacent_runs = refl

abbrev traverse_request : Request
traverse_request =
    request (codes "traverse" ∷ codes "g" ∷ codes "null" ∷ codes "null" ∷ codes "likes" ∷ [])

traverse_runs :
    traverse server traverse_request
    ≡ query (traverse_query server (some (codes "g")) none none (some (codes "likes")))
unfolding traverse strword
traverse_runs = refl

abbrev node_request : Request
node_request = request (codes "node" ∷ codes "g" ∷ codes "likes" ∷ [])

get_node_runs :
    get_node server node_request
    ≡ query (node_query server (some (codes "g")) (some (codes "likes")))
unfolding get_node strword is_string
get_node_runs = refl

abbrev edge_request : Request
edge_request = request (codes "edge" ∷ codes "g" ∷ [])

create_edge_runs :
    create_edge server edge_request
    ≡ query (insert_query server (some (codes "g")) (some []) (some jsn_array) (some jsn_array))
unfolding create_edge strword
create_edge_runs = refl

create_edge_refuses_example :
    (json : server.Jsn) × (some jsn_node ≡ some json) × IsNested server (some jsn_array)
create_edge_refuses_example =
    create_edge_refuses server edge_request
      (insert_query server (some (codes "g")) (some []) (some jsn_array) (some jsn_array))
      create_edge_runs

delete_edge_runs :
    delete_edge server edge_request
    ≡ query (
        delete_query server (some (codes "g")) (some (codes "%")) (some jsn_array) (some jsn_array))
unfolding delete_edge strword
delete_edge_runs = refl
