-- ===== src/Csp/Session/Main.antt =====
-- The servlet of sessions: its table of endpoints, run by `exec_endpoint` behind `db_session`.
use gwan_pg_rest_adapter.Prelude.{
  ℕ, zero, suc, ◌==◌, ◌≡◌, ◌≢◌, refl, Bool, true, false, Option, none, some, List, [], ◌∷◌, Bytes,
  codes, ltb, arith, inl, inr, Bool-cases,
}
use gwan_pg_rest_adapter.Gwan.{Gwan}
use gwan_pg_rest_adapter.Reply.{db_error}
use gwan_pg_rest_adapter.Endpoint.{
  Outcome, Entry, Call, permit_unauth, exec_endpoint, choose, respond_to,
}
use gwan_pg_rest_adapter.Session.{db_session}
use gwan_pg_rest_adapter.Session.Store.{Kv, Db}
use gwan_pg_rest_adapter.Csp.Action.{Request}
use gwan_pg_rest_adapter.Csp.Servlets.{http_get, http_post, http_delete}
use gwan_pg_rest_adapter.Csp.Session.{
  World, Server, fail, session_get, session_login, session_logout,
}
use gwan_pg_rest_adapter.Csp.Session.Login.{
  LoginEnd, enters, refuses, breaks, session_login-LoginEnd,
}

module _ (g : Gwan) (kv : Kv) where
  abbrev pub error : ℕ → Bytes → Server kv → Outcome (Server kv)
  error code message s = fail g kv code (some message) s

  -- `EndpointEntry endpoints[]` of `main`.
  abbrev entry : ℕ → ℕ → (Server kv → Outcome (Server kv)) → Entry (Server kv)
  entry method flags endpoint = record {
    method = method;
    cmd = none;
    endpoint = endpoint;
    flags = flags;
  }

  unfoldable pub endpoints : World → Request → Option Db → List (Entry (Server kv))
  endpoints w r db =
      entry http_get permit_unauth (session_get g kv w r)
      ∷ entry http_post permit_unauth (session_login g kv w r db)
      ∷ entry http_delete 0 (session_logout g kv)
      ∷ []

  abbrev is_some : Option Db → Bool
  is_some none = false
  is_some (some _) = true

  abbrev call_of : Request → ℕ → Option Db → Call
  call_of r method db = record { method = method; cmd = r.argv 0; session = is_some db }

  abbrev serve_with :
      (Server kv → Outcome (Server kv))
      → World
      → Request
      → ℕ
      → Option Db × kv.Table
      → Server kv
      → Outcome (Server kv)
  serve_with response w r method (db, sessions) s =
      exec_endpoint error response (call_of r method db) (endpoints w r db)
        (record s { sessions = sessions })

  -- `kept` and `auth` are what `db_session` reads; `response` is `db_response`.
  unfoldable pub main :
      (Server kv → Outcome (Server kv))
      → World
      → Request
      → ℕ
      → Option Bytes
      → Option (Bytes × Bytes)
      → Server kv
      → Outcome (Server kv)
  unfolding endpoints
  main response w r method kept auth s =
      serve_with response w r method (db_session kv g w.getms kept auth s.sessions) s

  responded :
      (response : Server kv → Outcome (Server kv)) (w : World) (s : Server kv) (call : Call)
      (out : Outcome (Server kv))
      → LoginEnd g kv w s out
      → LoginEnd g kv w s (respond_to error response call out)
  responded response w s call out (enters c link addr up e word1 word2) =
      enters c link addr up e word1 word2
  responded response w s call out (refuses zero reply error_status) = absurd (omega arith)
  responded response w s call out (refuses (suc status) reply error_status) =
      refuses (suc status) reply error_status
  responded response w s call out breaks = breaks

  responded_get :
      (response : Server kv → Outcome (Server kv)) (w : World) (r : Request) (s : Server kv)
      (call : Call)
      → respond_to error response call (session_get g kv w r s) ≡ session_get g kv w r s
  unfolding session_get db_error
  responded_get response w r s call = elim (Bool-cases (ltb r.argc 2)) [
    | inl few ↦ rw few refl
    | inr enough ↦ rw enough refl
  ]

  -- For a request without a session, whatever response the database would give: a GET ends as
  -- `session_get` does, a POST in a login, a DELETE is refused with 401, and every other method
  -- with 405.
  pub main_stranger :
      (response : Server kv → Outcome (Server kv)) (w : World) (r : Request) (kept : Option Bytes)
      (auth : Option (Bytes × Bytes)) (s : Server kv)
      → db_session kv g w.getms kept auth s.sessions ≡ (none, s.sessions)
      → (main response w r http_get kept auth s ≡ session_get g kv w r s)
        × LoginEnd g kv w s (main response w r http_post kept auth s)
        × (main response w r http_delete kept auth s ≡ error 401 (codes "unauthorized access") s)
        × ((method : ℕ)
            → method ≢ 1
            → method ≢ 3
            → method ≢ 5
            → main response w r method kept auth s ≡ error 405 (codes "method not allowed") s)
  unfolding main endpoints exec_endpoint choose session_get
  main_stranger response w r kept auth s e = (
    rw e (responded_get response w r s (call_of r http_get none)),
    rw e (responded response w s (call_of r http_post none) _ (session_login-LoginEnd g kv w r s)),
    rw e refl,
    λ method no_get no_post no_delete.
        let a : (1 == method) ≡ false = ground arith in
        let b : (3 == method) ≡ false = ground arith in
        let c : (5 == method) ≡ false = ground arith in rw (e, a, b, c) refl,
  )
