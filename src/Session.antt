-- ===== src/Session.antt =====
-- The sessions of libraries/postrest/db.c: their table, the lookup and refresh by `db_session`,
-- and the removal of idle ones by `check_session` and `db_timer_cb`.
pub mod Store
pub mod Expiry
pub mod Sweep
pub mod Life
pub mod Close
use gwan_pg_rest_adapter.Prelude.{
  ℕ, ◌+◌, ◌-◌, ◌*◌, ◌%◌, ◌^◌, Bool, Option, none, some, List, [], ◌∷◌, Bytes, codes, leb,
  if◌then◌else◌,
}
use gwan_pg_rest_adapter.Gwan.{Gwan}
use gwan_pg_rest_adapter.Gwan.Sprintf.{str}
use gwan_pg_rest_adapter.Session.Store.{Kv, Db}

-- `DB_SESSION_TIMEOUT`, in milliseconds.
abbrev pub session_timeout : ℕ
session_timeout = 300 * 1000

-- `db->timeout = db->timestamp + DB_SESSION_TIMEOUT`, of a u64 into a u32
unfoldable pub deadline : ℕ → ℕ
deadline timestamp = (timestamp + session_timeout) % 2 ^ 64 % 2 ^ 32

-- `s32 timeout = db->timeout - now; if(timeout < 0)`: the difference is taken in 64 bits and its
-- low 32 bits are read as a signed number.
unfoldable pub is_expired : ℕ → ℕ → Bool
is_expired timeout now = leb (2 ^ 31) ((timeout + 2 ^ 64 - now) % 2 ^ 64 % 2 ^ 32)

-- The session of a new connection, as csp/session.c puts it into the table.
abbrev pub new_session : ℕ → Bytes → Bytes → Db
new_session now name schema = record {
  timestamp = now;
  timeout = deadline now;
  name = name;
  schema = schema;
}

module _ (kv : Kv) where
  open kv use {Table, get, add, del, entries}

  -- `check_session` on one item of the table
  unfoldable pub check_session : ℕ → Bytes × Db → Table → Table
  check_session now (key, db) sessions =
      if is_expired db.timeout now then del sessions key else sessions

  -- `kv_do(server->sessions, 0, 0, check_session, …)` visits all items, all at one time here.
  check_all : ℕ → List (Bytes × Db) → Table → Table
  check_all now [] sessions = sessions
  check_all now (item ∷ items) sessions = check_all now items (check_session now item sessions)

  unfoldable pub db_timer_cb : ℕ → Table → Table
  unfolding check_all
  db_timer_cb now sessions = check_all now (entries sessions) sessions

  -- The update of a session that was found.
  abbrev pub refreshed : ℕ → Db → Db
  refreshed now db = record db { timestamp = now; timeout = deadline now }

  abbrev pub found_session : ℕ → Bytes → Option Db → Table → Option Db × Table
  found_session now key none sessions = (none, sessions)
  found_session now key (some db) sessions =
      (some (refreshed now db), add sessions key (refreshed now db))

  -- The key under which the request's session is stored: the one kept with the connection, or
  -- else "user:password" of its Basic authorization.
  abbrev pub session_key : Gwan → Option Bytes → Option (Bytes × Bytes) → Option Bytes
  session_key g (some kept) auth = some kept
  session_key g none none = none
  session_key g none (some (user, password)) =
      some (g.s_snprintf 127 (codes "%s:%s") (str (some user) ∷ str (some password) ∷ []))

  abbrev pub keyed_session : ℕ → Option Bytes → Table → Option Db × Table
  keyed_session now none sessions = (none, sessions)
  keyed_session now (some key) sessions = found_session now key (get sessions key) sessions

  -- `db_session` between two events of the timer: the session of the request, if there is one,
  -- with its time-out renewed in the table.
  unfoldable pub db_session :
      Gwan → ℕ → Option Bytes → Option (Bytes × Bytes) → Table → Option Db × Table
  db_session g now kept auth sessions = keyed_session now (session_key g kept auth) sessions
