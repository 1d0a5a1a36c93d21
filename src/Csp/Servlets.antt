-- ===== src/Csp/Servlets.antt =====
-- The `main` of each servlet of csp/, its table of endpoints given to `exec_endpoint`.
pub mod Runs
pub mod Answers
use gwan_pg_rest_adapter.Prelude.{
  ℕ, ◌≡◌, refl, Bool, true, false, Option, none, some, List, [], ◌∷◌, Bytes, codes, All,
}
use gwan_pg_rest_adapter.Gwan.{Gwan}
use gwan_pg_rest_adapter.Db.Libpq.{Libpq, State}
use gwan_pg_rest_adapter.Db.Send.{fail}
use gwan_pg_rest_adapter.Endpoint.{Outcome, returned, Entry, Call, exec_endpoint}
use gwan_pg_rest_adapter.Endpoint.Choice.{IsRefusal, exec_endpoint-IsRefusal}
use gwan_pg_rest_adapter.Csp.Action.{Request, Names, Action, perform, arg}
use gwan_pg_rest_adapter.Csp.Document.{
  get_document, getbyname_document, all_document, list_document, find_document, delete_document,
}
use gwan_pg_rest_adapter.Csp.Document.Write.{create_document, set_document, update_document}
use gwan_pg_rest_adapter.Csp.Collection.{
  get_collection, update_collection, create_collection, delete_collection,
}
use gwan_pg_rest_adapter.Csp.Index.{get_index, update_index, create_index, delete_index}
use gwan_pg_rest_adapter.Csp.Graph.{get_node, get_adjacent, traverse}
use gwan_pg_rest_adapter.Csp.Graph.Edges.{create_edge, delete_edge}
use gwan_pg_rest_adapter.Csp.Graph.Tables.{create_graph, delete_graph}
use gwan_pg_rest_adapter.Csp.Database.{
  get_list, get_tables, get_stats, get_users, get_grants, get_active, get_version, create_database,
  shutdown_database, delete_database,
}
use gwan_pg_rest_adapter.Csp.Database.Vacuum.{vacuum_database}
use gwan_pg_rest_adapter.Csp.Query.{get_query, post_query}

-- The numbers of the methods in include/gwan.h.
abbrev pub http_get : ℕ
http_get = 1

abbrev pub http_post : ℕ
http_post = 3

abbrev pub http_put : ℕ
http_put = 4

abbrev pub http_delete : ℕ
http_delete = 5

-- The servlets, one for each file of csp/ that is modelled.
pub data Servlet : Type 0 where
  document collection index graph database query : Servlet

module _ (g : Gwan) (p : Libpq) where
  -- `db_error` on the reply.
  abbrev pub error : ℕ → Bytes → State p → Outcome (State p)
  error code message s = let (status, s') = fail g p code (some message) s in returned status s'

-- A request with the method of its line, and the session's names when `db_session` found one.
module _ (g : Gwan) (p : Libpq) (r : Request) (db : Option Names) where
  -- An entry without flags.
  abbrev entry : ℕ → Option Bytes → Action → Entry (State p)
  entry method cmd action = record {
    method = method;
    cmd = cmd;
    endpoint = perform g p action db;
    flags = 0;
  }

  abbrev version_entry : Entry (State p)
  version_entry = record {
    method = http_get;
    cmd = some (codes "version");
    endpoint = λ s. perform g p (get_version g (p.server_version s.conn) r) db s;
    flags = 0;
  }

  -- `EndpointEntry endpoints[]` of each `main`.
  unfoldable pub endpoints : Servlet → List (Entry (State p))
  endpoints document =
      entry http_get (some (codes "get")) (get_document g r)
      ∷ entry http_get (some (codes "name")) (getbyname_document g r)
      ∷ entry http_get (some (codes "list")) (list_document g r)
      ∷ entry http_get (some (codes "all")) (all_document g r)
      ∷ entry http_put none (update_document g r)
      ∷ entry http_post (some (codes "create")) (create_document g r)
      ∷ entry http_post (some (codes "find")) (find_document g r)
      ∷ entry http_post (some (codes "set")) (set_document g r)
      ∷ entry http_delete none (delete_document g r)
      ∷ []
  endpoints collection =
      entry http_get none (get_collection r)
      ∷ entry http_put none (update_collection r)
      ∷ entry http_post none (create_collection g r)
      ∷ entry http_delete none (delete_collection g r)
      ∷ []
  endpoints index =
      entry http_get none (get_index r)
      ∷ entry http_put none (update_index r)
      ∷ entry http_post none (create_index g r)
      ∷ entry http_delete none (delete_index g r)
      ∷ []
  endpoints graph =
      entry http_get (some (codes "adjacent")) (get_adjacent g r)
      ∷ entry http_get (some (codes "traverse")) (traverse g r)
      ∷ entry http_get (some (codes "node")) (get_node g r)
      ∷ entry http_post (some (codes "graph")) (create_graph g r)
      ∷ entry http_post (some (codes "edge")) (create_edge g r)
      ∷ entry http_delete (some (codes "graph")) (delete_graph g r)
      ∷ entry http_delete (some (codes "edge")) (delete_edge g r)
      ∷ []
  endpoints database =
      entry http_get (some (codes "list")) (get_list r)
      ∷ entry http_get (some (codes "tables")) (get_tables g r)
      ∷ entry http_get (some (codes "stats")) (get_stats r)
      ∷ entry http_get (some (codes "users")) (get_users r)
      ∷ entry http_get (some (codes "grants")) (get_grants r)
      ∷ entry http_get (some (codes "active")) (get_active g r)
      ∷ version_entry
      ∷ entry http_put (some (codes "vacuum")) (vacuum_database g r)
      ∷ entry http_put (some (codes "shutdown")) (shutdown_database g r)
      ∷ entry http_post none (create_database g r)
      ∷ entry http_delete none (delete_database g r)
      ∷ []
  endpoints query = entry http_get none (get_query g r) ∷ entry http_post none (post_query g r) ∷ []

  abbrev pub is_some : Option Names → Bool
  is_some none = false
  is_some (some _) = true

  -- `response` is `db_response`.
  unfoldable pub main : (State p → Outcome (State p)) → Servlet → ℕ → State p → Outcome (State p)
  unfolding endpoints
  main response servlet method s =
      exec_endpoint (error g p) response
        (record { method = method; cmd = r.argv 0; session = is_some db }) (endpoints servlet) s
