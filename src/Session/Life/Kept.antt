-- ===== src/Session/Life/Kept.antt =====
-- The invariant of the table of sessions.
use gwan_pg_rest_adapter.Prelude.{
  ℕ, ◌+◌, ◌*◌, ◌≤◌, ◌≡◌, refl, subst, ◌∙◌, Option, none, some, List, [], ◌∷◌, Bytes, str_eq, ltb,
  arith, inl, inr, Bool-cases, Option-cases, if◌then◌else◌,
}
use gwan_pg_rest_adapter.Gwan.{Gwan}
use gwan_pg_rest_adapter.Session.{
  is_expired, deadline, db_timer_cb, db_session, found_session, session_key, refreshed, new_session,
}
use gwan_pg_rest_adapter.Session.Store.{Kv, Db}
use gwan_pg_rest_adapter.Session.Expiry.{is_expired_iff}
use gwan_pg_rest_adapter.Session.Sweep.{get-db_timer_cb}
use gwan_pg_rest_adapter.Session.Life.{
  Event, logs_in, asks, sweeps, passes, Life, after, after_all, IsTimely, AreTimely, IsLive, IsKept,
}

module _ (kv : Kv) (g : Gwan) where
  open kv use {Table, get, add}

  new_session-IsLive :
      (now swept : ℕ) (name schema : Bytes)
      → swept ≤ now
      → IsLive kv g now swept (new_session now name schema)
  new_session-IsLive now swept name schema h = record {
    timeout = refl;
    before = omega arith;
    recent = omega arith;
  }

  add-IsLive :
      (l : Life kv g) (key : Bytes) (v : Db)
      → IsKept kv g l
      → IsLive kv g l.now l.swept v
      → (k : Bytes) (db : Db) → get (add l.sessions key v) k ≡ some db
      → IsLive kv g l.now l.swept db
  add-IsLive l key v kept fresh k db e = elim (Bool-cases (str_eq key k)) [
    | inl same ↦
        let h : v ≡ db = cc (rw (kv.get-add l.sessions key k v, same) at e) in
        subst (IsLive kv g l.now l.swept) h fresh
    | inr other ↦ kept.live k db (rw (kv.get-add l.sessions key k v, other) at e)
  ]

  -- What a request leaves in the table.
  pub found-get :
      (now : ℕ) (key : Bytes) (t : Table) (o : Option Db) (k : Bytes)
      → get t key ≡ o
      → get (found_session kv now key o t).1 k ≡ elim o [
        | none ↦ get t k
        | some db ↦ if str_eq key k then some (refreshed kv now db) else get t k
      ]
  found-get now key t none k e = refl
  found-get now key t (some db) k e = kv.get-add t key k (refreshed kv now db)

  found_session-IsLive :
      (l : Life kv g) (key : Bytes) (o : Option Db)
      → get l.sessions key ≡ o
      → IsKept kv g l
      → (k : Bytes) (db : Db) → get (found_session kv l.now key o l.sessions).1 k ≡ some db
      → IsLive kv g l.now l.swept db
  found_session-IsLive l key none e kept k db h = kept.live k db h
  found_session-IsLive l key (some v) e kept k db h =
      let s = kept.swept in
      let fresh : IsLive kv g l.now l.swept (refreshed kv l.now v) = record {
        timeout = refl;
        before = omega arith;
        recent = omega arith;
      } in
      add-IsLive l key (refreshed kv l.now v) kept fresh k db h

  db_session-IsLive :
      (l : Life kv g) (kept : Option Bytes) (auth : Option (Bytes × Bytes))
      → IsKept kv g l
      → (k : Bytes) (db : Db) → get (db_session kv g l.now kept auth l.sessions).1 k ≡ some db
      → IsLive kv g l.now l.swept db
  unfolding db_session
  db_session-IsLive l kept auth inv k db h = elim (Option-cases (session_key kv g kept auth)) [
    | inl e ↦ inv.live k db (rw e at h)
    | inr (key, e) ↦ found_session-IsLive l key (get l.sessions key) refl inv k db (rw e at h)
  ]

  -- The code's test of a live session is that of the reference.
  live_due :
      (l : Life kv g) (db : Db)
      → IsKept kv g l
      → IsLive kv g l.now l.swept db
      → is_expired db.timeout l.now ≡ ltb (db.timestamp + 300 * 1000) l.now
  live_due l db inv live =
      let before = live.before in
      let recent = live.recent in
      let bound = inv.bound in
      let (due, overdue) = is_expired_iff db.timestamp l.now inv.small before (omega arith) in
      rw live.timeout (elim (Bool-cases (is_expired (deadline db.timestamp) l.now)) [
        | inl expired ↦ rw expired (let h = due expired in ground arith)
        | inr alive ↦ elim (Bool-cases (ltb (db.timestamp + 300 * 1000) l.now)) [
          | inl late ↦ let h = overdue (ground arith) in cc
          | inr early ↦ rw (alive, early) refl
        ]
      ])

  pub swept-get :
      (l : Life kv g) (k : Bytes) (o : Option Db)
      → IsKept kv g l
      → get l.sessions k ≡ o
      → get (db_timer_cb kv l.now l.sessions) k ≡ elim o [
        | none ↦ none
        | some db ↦ if ltb (db.timestamp + 300 * 1000) l.now then none else some db
      ]
  swept-get l k none inv e = get-db_timer_cb kv l.now l.sessions k ∙ rw e refl
  swept-get l k (some db) inv e =
      get-db_timer_cb kv l.now l.sessions k ∙ rw (e, live_due l db inv (inv.live k db e)) refl

  -- A session that the timer leaves was there before, and is not expired.
  db_timer_cb-IsLive :
      (l : Life kv g)
      → IsKept kv g l
      → (k : Bytes) (db : Db) → get (db_timer_cb kv l.now l.sessions) k ≡ some db
      → IsLive kv g l.now l.now db
  db_timer_cb-IsLive l inv k db h = elim (Option-cases (get l.sessions k)) [
    | inl e ↦ cc (swept-get l k none inv e, h)
    | inr (v, e) ↦
        let live = inv.live k v e in
        elim (Bool-cases (ltb (v.timestamp + 300 * 1000) l.now)) [
          | inl late ↦ cc (rw late at (swept-get l k (some v) inv e), h)
          | inr early ↦
              let same : v ≡ db = cc (rw early at (swept-get l k (some v) inv e), h) in
              let before = live.before in
              subst (IsLive kv g l.now l.now) same
                (record { timeout = live.timeout; before = before; recent = ground arith })
        ]
  ]

  pub after-IsKept :
      (event : Event) (l : Life kv g)
      → IsKept kv g l
      → IsTimely kv g event l
      → IsKept kv g (after kv g event l)
  after-IsKept (logs_in key name schema) l inv h = record {
    live = add-IsLive l key _ inv (new_session-IsLive l.now l.swept name schema inv.swept);
    swept = inv.swept;
    bound = inv.bound;
    small = inv.small;
  }
  after-IsKept (asks kept auth) l inv h = record {
    live = db_session-IsLive l kept auth inv;
    swept = inv.swept;
    bound = inv.bound;
    small = inv.small;
  }
  after-IsKept sweeps l inv h = record {
    live = db_timer_cb-IsLive l inv;
    swept = omega arith;
    bound = omega arith;
    small = inv.small;
  }
  after-IsKept (passes later) l inv (on, small, soon) =
      let s = inv.swept in
      record {
        live = λ k db e.
            let live = inv.live k db e in
            let before = live.before in
            record { timeout = live.timeout; before = omega arith; recent = live.recent };
        swept = omega arith;
        bound = soon;
        small = small;
      }

  -- Whatever logins, requests and calls of the timer follow on a table where it holds, while the
  -- clock stays below 2^63 and the timer is called at least once in 2^31 milliseconds: every
  -- session's deadline is that of its last use, which is not in the future and at most 300 seconds
  -- before the last call of the timer.
  pub after_all-IsKept :
      (events : List Event) (l : Life kv g)
      → IsKept kv g l
      → AreTimely kv g events l
      → IsKept kv g (after_all kv g events l)
  after_all-IsKept [] l inv h = inv
  after_all-IsKept (event ∷ events) l inv (now, later) =
      after_all-IsKept events (after kv g event l) (after-IsKept event l inv now) later
