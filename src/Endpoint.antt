-- ===== src/Endpoint.antt =====
-- `exec_endpoint` of libraries/postrest/utils.c: the choice of an endpoint for a request. It is
-- generic in the state `S` that endpoints change.
pub mod Choice
use Prim.Native.Nat.{bit_and}
use gwan_pg_rest_adapter.Prelude.{
  ℕ, zero, suc, Bool, true, false, not, ◌&&◌, ◌||◌, Option, none, some, List, [], ◌∷◌, Bytes, codes,
  ◌==◌, str_eq, if◌then◌else◌,
}

-- How an endpoint ends: with the HTTP status or 0, or in undefined behaviour.
pub data Outcome (S : Type 0) : Type 0 where
  returned : ℕ → S → Outcome S
  undefined : Outcome S

-- `EndpointEntry`; a null `cmd` takes every command.
pub record Entry (S : Type 0) : Type 0 where
  pub method : ℕ
  pub cmd : Option Bytes
  pub endpoint : S → Outcome S
  pub flags : ℕ

-- `EP_PERMIT_UNAUTH`
abbrev pub permit_unauth : ℕ
permit_unauth = 1

-- What `exec_endpoint` reads from the request: the method, `argv[0]`, and whether `db_session`
-- found a session.
pub record Call : Type 0 where
  pub method : ℕ
  pub cmd : Option Bytes
  pub session : Bool

-- `cmd && cmd[0] && strcmp(cmd,entry->cmd) == 0`
abbrev pub same_cmd : Bytes → Option Bytes → Bool
same_cmd name none = false
same_cmd name (some []) = false
same_cmd name (some (c ∷ cmd)) = str_eq (c ∷ cmd) name

abbrev pub takes_cmd : Option Bytes → Option Bytes → Bool
takes_cmd none cmd = true
takes_cmd (some name) cmd = same_cmd name cmd

-- `db_error` on the reply, and `db_response`.
module _ {S : Type 0} (error : ℕ → Bytes → S → Outcome S) (response : S → Outcome S)
    (call : Call) where
  abbrev pub is_match : Entry S → Bool
  is_match entry = entry.method == call.method && takes_cmd entry.cmd call.cmd

  -- `if(!http_error) http_error = db_response(db,rep,argv);`
  abbrev pub respond_to : Outcome S → Outcome S
  respond_to (returned zero s) = response s
  respond_to (returned (suc code) s) = returned (suc code) s
  respond_to undefined = undefined

  abbrev pub serve : Entry S → S → Outcome S
  serve entry s =
      if not call.session && bit_and entry.flags permit_unauth == 0
      then error 401 (codes "unauthorized access") s
      else respond_to (entry.endpoint s)

  -- The loop, with `method_allowed`.
  unfoldable pub choose : Bool → List (Entry S) → S → Outcome S
  choose method_allowed [] s =
      if not method_allowed
      then error 405 (codes "method not allowed") s
      else error 404 (codes "endpoint not found") s
  choose method_allowed (entry ∷ entries) s =
      let rest = choose (method_allowed || entry.method == call.method) entries s in
      if is_match entry then serve entry s else rest

  unfoldable pub exec_endpoint : List (Entry S) → S → Outcome S
  unfolding choose
  exec_endpoint entries s = choose false entries s
