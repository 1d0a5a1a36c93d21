-- ===== src/Csp/Action.antt =====
-- What an endpoint of csp/*.c reads, and how it ends. Most endpoints check their arguments one by
-- one, ending with `return db_error(rep, code, message)` at the first that is wrong, or build a
-- query and end with `return db_send(db, rep, query.ptr)`.
use gwan_pg_rest_adapter.Prelude.{
  ℕ, ◌≡◌, refl, Bool, true, false, Option, none, some, [], ◌∷◌, ◌++◌, Bytes, codes, ltb, ◌==◌,
  if◌then◌else◌,
}
use gwan_pg_rest_adapter.Gwan.{Gwan}
use gwan_pg_rest_adapter.Gwan.Sprintf.{str, num}
use gwan_pg_rest_adapter.Db.Libpq.{Libpq, State}
use gwan_pg_rest_adapter.Db.Send.{db_send, fail}
use gwan_pg_rest_adapter.Endpoint.{Outcome, returned, undefined}

-- `argv` is what the server put into the array, null pointers included; the entity is
-- `get_env(argv, REQ_ENTITY)`.
pub record Request : Type 0 where
  pub argc : ℕ
  pub argv : ℕ → Option Bytes
  pub entity : Option Bytes

-- `char *a = 0; if(argc > i) a = argv[i];`
abbrev pub arg : Request → ℕ → Option Bytes
arg r i = if ltb i r.argc then r.argv i else none

-- The fields of `db_t` that go into queries.
pub record Names : Type 0 where
  pub name : Bytes
  pub schema : Bytes

-- `status`: a status without a reply. `respond`: a status, and a reply changed by the endpoint
-- itself. `query_headers`: a query, and the response headers that are added when `db_send` has
-- returned 0. `crash`: a write past the end of a local buffer, or a read through a null pointer.
pub data Action : Type 0 where
  reject : ℕ → Bytes → Action
  query : (Names → Bytes) → Action
  status : ℕ → Action
  respond : ℕ → (Bytes → Bytes) → Action
  query_headers : (Names → Bytes) → Bytes → Action
  crash : Action

-- An endpoint that ends in a query has passed its checks.
pub guard-inv :
    (wrong : Bool) (code : ℕ) (message : Bytes) {k : Action} {text : Names → Bytes}
    → (if wrong then reject code message else k) ≡ query text
    → (wrong ≡ false) × (k ≡ query text)
guard-inv true code message h = cc
guard-inv false code message h = (refl, h)

pub query-inj : {s t : Names → Bytes} → query s ≡ query t → t ≡ s
query-inj h = cc

module _ (g : Gwan) where
  -- The macro `ReplyJsError` of include/postrest/db.h.
  unfoldable pub reply_js_error : ℕ → Bytes → Bytes → Bytes
  reply_js_error code details reply =
      g.xbuf_xcat reply
        (codes "{\"code\":%d,\"error\":\"%s\",\"message\":\"%s\",\"details\":\"%s\"}")
        (num code
          ∷ str (some (g.http_status code))
          ∷ str (some (g.http_error code))
          ∷ str (some details)
          ∷ [])

module _ (g : Gwan) (p : Libpq) where
  abbrev from_pair : ℕ × State p → Outcome (State p)
  from_pair (code, s) = returned code s

  abbrev add_headers : Bytes → ℕ × State p → Outcome (State p)
  add_headers lines (code, s) =
      returned code (if code == 0 then record s { headers = s.headers ++ lines } else s)

  -- Without a session `db` is a null pointer, and a query reads through it.
  unfoldable pub perform : Action → Option Names → State p → Outcome (State p)
  perform (reject code message) db s = from_pair (fail g p code (some message) s)
  perform (query text) none s = undefined
  perform (query text) (some db) s = from_pair (db_send g p (text db) s)
  perform (status code) db s = returned code s
  perform (respond code change) db s = returned code (record s { reply = change s.reply })
  perform (query_headers text lines) none s = undefined
  perform (query_headers text lines) (some db) s = add_headers lines (db_send g p (text db) s)
  perform crash db s = undefined
