-- ===== src/Session/Life/Refines.antt =====
-- The table of sessions as a record of last uses.
use gwan_pg_rest_adapter.Prelude.{
  ℕ, ◌≡◌, refl, sym, subst, ap, ◌∙◌, false, Option, none, some, List, [], ◌∷◌, Bytes, str_eq,
  str_eq→eq, arith, inl, inr, Bool-cases, Option-cases,
}
use gwan_pg_rest_adapter.Gwan.{Gwan}
use gwan_pg_rest_adapter.Session.{db_session, found_session, session_key, refreshed}
use gwan_pg_rest_adapter.Session.Store.{Kv, Db}
use gwan_pg_rest_adapter.Session.Life.{
  Event, logs_in, asks, sweeps, passes, Life, after, after_all, AreTimely, IsKept, used, used_after,
  used_in, touch, stamp_of, clock_after,
}
use gwan_pg_rest_adapter.Session.Life.Kept.{swept-get, after-IsKept}

module _ (kv : Kv) (g : Gwan) where
  open kv use {get}

  -- Only the session of this key is stamped.
  touch-other :
      (now : ℕ) (key k : Bytes) (o : Option ℕ)
      → str_eq key k ≡ false
      → touch kv g now k (some key) o ≡ o
  touch-other now key k none e = refl
  touch-other now key k (some at) e = rw e refl

  asks-used :
      (l : Life kv g) (key : Bytes) (k : Bytes) (o : Option Db)
      → get l.sessions key ≡ o
      → stamp_of kv g (get (found_session kv l.now key o l.sessions).1 k)
        ≡ touch kv g l.now k (some key) (used kv g l k)
  asks-used l key k none e = elim (Bool-cases (str_eq key k)) [
    | inl same ↦
        let missing : get l.sessions k ≡ none =
          subst (λ j. get l.sessions j ≡ none) (str_eq→eq key k same) e in
        rw missing refl
    | inr other ↦ sym (touch-other l.now key k (used kv g l k) other)
  ]
  asks-used l key k (some db) e = elim (Bool-cases (str_eq key k)) [
    | inl same ↦
        let there : get l.sessions k ≡ some db =
          subst (λ j. get l.sessions j ≡ some db) (str_eq→eq key k same) e in
        rw (kv.get-add l.sessions key k (refreshed kv l.now db), same, there) (rw same refl)
    | inr other ↦
        rw (kv.get-add l.sessions key k (refreshed kv l.now db), other)
          (sym (touch-other l.now key k (used kv g l k) other))
  ]

  after-used :
      (event : Event) (l : Life kv g) (k : Bytes)
      → IsKept kv g l
      → used kv g (after kv g event l) k ≡ used_after kv g event l.now k (used kv g l k)
  unfolding db_session
  after-used (logs_in key name schema) l k inv =
      ap (stamp_of kv g) (kv.get-add l.sessions key k _) ∙ ground arith
  after-used (asks kept auth) l k inv = elim (Option-cases (session_key kv g kept auth)) [
    | inl e ↦ rw e refl
    | inr (key, e) ↦ rw e (asks-used l key k (get l.sessions key) refl)
  ]
  after-used sweeps l k inv = elim (Option-cases (get l.sessions k)) [
    | inl e ↦ ap (stamp_of kv g) (swept-get kv g l k none inv e) ∙ rw e refl
    | inr (db, e) ↦ ap (stamp_of kv g) (swept-get kv g l k (some db) inv e) ∙ rw e (ground arith)
  ]
  after-used (passes later) l k inv = refl

  clock-after :
      (event : Event) (l : Life kv g) → (after kv g event l).now ≡ clock_after kv g event l.now
  clock-after (logs_in key name schema) l = refl
  clock-after (asks kept auth) l = refl
  clock-after sweeps l = refl
  clock-after (passes later) l = refl

  -- On a table where the invariant holds, while the clock stays below 2^63 and the timer is called
  -- at least once in 2^31 milliseconds, the table refines the reference through every sequence of
  -- logins, requests and calls of the timer: which keys have a session, and when each was used
  -- last, is what the reference says, with no cut of times to 32 bits.
  pub after_all-used :
      (events : List Event) (l : Life kv g) (k : Bytes)
      → IsKept kv g l
      → AreTimely kv g events l
      → used kv g (after_all kv g events l) k ≡ used_in kv g events l.now k (used kv g l k)
  after_all-used [] l k inv h = refl
  after_all-used (event ∷ events) l k inv (now, later) =
      after_all-used events (after kv g event l) k (after-IsKept kv g event l inv now) later
      ∙ ap (λ t. used_in kv g events t k (used kv g (after kv g event l) k)) (clock-after event l)
      ∙ ap (used_in kv g events (clock_after kv g event l.now) k) (after-used event l k inv)
