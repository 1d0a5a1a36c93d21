-- ===== src/Csp/Servlets/Runs.antt =====
-- Whole requests through the servlets' tables.
use Prim.Native.Nat.{bit_and}
use gwan_pg_rest_adapter.Prelude.{
  ℕ, ◌+◌, ◌<◌, ◌≡◌, ◌⊎◌, refl, true, Option, none, some, Bytes, codes, All,
}
use gwan_pg_rest_adapter.Gwan.{Gwan}
use gwan_pg_rest_adapter.Db.Libpq.{Libpq, State}
use gwan_pg_rest_adapter.Db.Send.Waits.{Writes, at, db_send_early}
use gwan_pg_rest_adapter.Endpoint.{Outcome, permit_unauth, exec_endpoint, choose}
use gwan_pg_rest_adapter.Endpoint.Choice.{exec_endpoint-IsRefusal}
use gwan_pg_rest_adapter.Utils.Validate.{strword}
use gwan_pg_rest_adapter.Csp.Action.{Request, Names, arg, perform}
use gwan_pg_rest_adapter.Csp.Document.{get_document, get_query}
use gwan_pg_rest_adapter.Csp.Servlets.{
  Servlet, document, collection, index, graph, database, query, endpoints, error, main, http_get,
}

module _ (g : Gwan) (p : Libpq) (r : Request) (response : State p → Outcome (State p)) where
  no_permit :
      (db : Option Names) (servlet : Servlet)
      → All (λ entry. bit_and entry.flags permit_unauth ≡ 0) (endpoints g p r db servlet)
  unfolding endpoints
  no_permit db document = (refl, (refl, (refl, (refl, (refl, (refl, (refl, (refl, (refl, tt)))))))))
  no_permit db collection = (refl, (refl, (refl, (refl, tt))))
  no_permit db index = (refl, (refl, (refl, (refl, tt))))
  no_permit db graph = (refl, (refl, (refl, (refl, (refl, (refl, (refl, tt)))))))
  no_permit db database =
      (refl, (refl, (refl, (refl, (refl, (refl, (refl, (refl, (refl, (refl, (refl, tt)))))))))))
  no_permit db query = (refl, (refl, tt))

  -- Without a session none of the servlets for documents, collections, indexes, graphs, databases
  -- and queries runs an endpoint: every request, whatever its method and arguments, is answered by
  -- an error on the reply, with 401, 404 or 405, and neither the connection nor the response
  -- headers change.
  pub main_unauthorized :
      (servlet : Servlet) (method : ℕ) (s : State p)
      → let out = main g p r none response servlet method s in
        (out ≡ error g p 401 (codes "unauthorized access") s)
        ⊎ (out ≡ error g p 404 (codes "endpoint not found") s)
        ⊎ (out ≡ error g p 405 (codes "method not allowed") s)
  unfolding main
  main_unauthorized servlet method s =
      exec_endpoint-IsRefusal (error g p) response _ (endpoints g p r none servlet) s refl
        (no_permit none servlet)

  -- A GET of "get" with a session, a collection and a document id that are words sends the query
  -- of `get_query` to the connection and then awaits the response, when every wait for the
  -- connection succeeds and there are fewer than four.
  pub main_get_document :
      (db : Names) (reply headers : Bytes) {c f : p.Conn} (i j : ℕ)
      → r.argv 0 ≡ some (codes "get")
      → strword (arg r 1) ≡ true
      → strword (arg r 2) ≡ true
      → Writes g p reply headers (get_query g (arg r 1) (arg r 2) db) c i j f
      → i + j < 4
      → main g p r (some db) response document http_get (at g p reply headers c)
        ≡ response (at g p reply headers f)
  unfolding main endpoints perform get_document exec_endpoint choose
  main_get_document db reply headers i j cmd word1 word2 w few =
      let sent = db_send_early g p reply headers (get_query g (arg r 1) (arg r 2) db) i j w few in
      rw (cmd, word1, word2) (rw sent refl)
