-- ===== src/Session/Life.antt =====
-- The table of sessions over time: logins, requests, and the timer that sweeps it.
pub mod Kept
pub mod Refines
use gwan_pg_rest_adapter.Prelude.{
  ℕ, ◌+◌, ◌*◌, ◌^◌, ◌≤◌, ◌<◌, ◌≡◌, refl, sym, subst, ap, ◌∙◌, Bool, true, false, Option, none, some,
  List, [], ◌∷◌, Bytes, str_eq, str_eq→eq, ltb, arith, inl, inr, Bool-cases, Option-cases,
  if◌then◌else◌,
}
use gwan_pg_rest_adapter.Gwan.{Gwan}
use gwan_pg_rest_adapter.Session.{
  is_expired, deadline, db_timer_cb, db_session, found_session, session_key, refreshed, new_session,
}
use gwan_pg_rest_adapter.Session.Store.{Kv, Db}
use gwan_pg_rest_adapter.Session.Expiry.{is_expired_iff}
use gwan_pg_rest_adapter.Session.Sweep.{get-db_timer_cb}

-- A login that stores a session for a connection's name and a schema, a request with the key that
-- its connection kept or with its Basic authorization, the timer, and the clock.
pub data Event : Type 0 where
  logs_in : Bytes → Bytes → Bytes → Event
  asks : Option Bytes → Option (Bytes × Bytes) → Event
  sweeps : Event
  passes : ℕ → Event

-- The reference: when the session of a key was used last, if it has one.
module _ (kv : Kv) (g : Gwan) where
  abbrev pub touch : ℕ → Bytes → Option Bytes → Option ℕ → Option ℕ
  touch now k none used = used
  touch now k (some key) none = none
  touch now k (some key) (some at) = if str_eq key k then some now else some at

  abbrev outlive : ℕ → Option ℕ → Option ℕ
  outlive now none = none
  outlive now (some at) = if ltb (at + 300 * 1000) now then none else some at

  abbrev pub used_after : Event → ℕ → Bytes → Option ℕ → Option ℕ
  used_after (logs_in key name schema) now k used = if str_eq key k then some now else used
  used_after (asks kept auth) now k used = touch now k (session_key kv g kept auth) used
  used_after sweeps now k used = outlive now used
  used_after (passes later) now k used = used

  abbrev pub clock_after : Event → ℕ → ℕ
  clock_after (logs_in key name schema) now = now
  clock_after (asks kept auth) now = now
  clock_after sweeps now = now
  clock_after (passes later) now = later

  -- The whole history of a key.
  abbrev pub used_in : List Event → ℕ → Bytes → Option ℕ → Option ℕ
  used_in [] now k used = used
  used_in (event ∷ events) now k used =
      used_in events (clock_after event now) k (used_after event now k used)

module _ (kv : Kv) (g : Gwan) where
  open kv use {Table, get, add}

  -- The table, the time in milliseconds, and when the timer was called last.
  pub record Life : Type 0 where
    pub sessions : Table
    pub now : ℕ
    pub swept : ℕ

  -- What the code does in an event.
  abbrev pub after : Event → Life → Life
  after (logs_in key name schema) l = record l {
    sessions = add l.sessions key (new_session l.now name schema);
  }
  after (asks kept auth) l = record l { sessions = (db_session kv g l.now kept auth l.sessions).1 }
  after sweeps l = record l { sessions = db_timer_cb kv l.now l.sessions; swept = l.now }
  after (passes later) l = record l { now = later }

  abbrev pub after_all : List Event → Life → Life
  after_all [] l = l
  after_all (event ∷ events) l = after_all events (after event l)

  -- The clock goes on, below 2^63, and the timer is called at least once in 2^31 milliseconds.
  abbrev pub IsTimely : Event → Life → Type 0
  IsTimely (logs_in key name schema) l = Unit
  IsTimely (asks kept auth) l = Unit
  IsTimely sweeps l = Unit
  IsTimely (passes later) l = (l.now ≤ later) × (later < 2 ^ 63) × (later ≤ l.swept + 2 ^ 31)

  abbrev pub AreTimely : List Event → Life → Type 0
  AreTimely [] l = Unit
  AreTimely (event ∷ events) l = IsTimely event l × AreTimely events (after event l)

  -- A session's deadline is that of its last use, which is not in the future and at most 300
  -- seconds before the last call of the timer.
  pub record IsLive (now swept : ℕ) (db : Db) : Type 0 where
    pub timeout : db.timeout ≡ deadline db.timestamp
    pub before : db.timestamp ≤ now
    pub recent : swept ≤ db.timestamp + 300 * 1000

  pub record IsKept (l : Life) : Type 0 where
    pub live : (k : Bytes) (db : Db) → get l.sessions k ≡ some db → IsLive l.now l.swept db
    pub swept : l.swept ≤ l.now
    pub bound : l.now ≤ l.swept + 2 ^ 31
    pub small : l.now < 2 ^ 63

  abbrev pub stamp_of : Option Db → Option ℕ
  stamp_of none = none
  stamp_of (some db) = some db.timestamp

  -- When the session of a key was used last.
  abbrev pub used : Life → Bytes → Option ℕ
  used l k = stamp_of (get l.sessions k)
