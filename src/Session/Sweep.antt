-- ===== src/Session/Sweep.antt =====
-- What the timer removes from the table of sessions, and what a lookup keeps in it.
use gwan_pg_rest_adapter.Prelude.{
  ℕ, ◌+◌, ◌*◌, ◌^◌, ◌≤◌, ◌<◌, ◌≡◌, refl, ◌∙◌, Bool, true, false, ◌&&◌, ◌||◌, Option, none, some,
  List, [], ◌∷◌, Bytes, All, str_eq, str_eq→eq, str_eq_refl, arith, inl, inr, Bool-cases,
  if◌then◌else◌,
}
use gwan_pg_rest_adapter.Gwan.{Gwan}
use gwan_pg_rest_adapter.Session.{
  is_expired, check_session, check_all, db_timer_cb, db_session, session_key, refreshed,
}
use gwan_pg_rest_adapter.Session.Store.{Kv, Db, IsListed}
use gwan_pg_rest_adapter.Session.Expiry.{deadline_fresh}

-- The visited items hold an expired session of this key.
abbrev has_expired : ℕ → Bytes → List (Bytes × Db) → Bool
has_expired now j [] = false
has_expired now j ((k, db) ∷ items) =
    (str_eq k j && is_expired db.timeout now) || has_expired now j items

module _ (kv : Kv) where
  open kv use {Table, get, add, entries}

  get-check_all :
      (now : ℕ) (items : List (Bytes × Db)) (t : Table) (j : Bytes)
      → get (check_all kv now items t) j ≡ (if has_expired now j items then none else get t j)
  unfolding check_all check_session
  get-check_all now [] t j = refl
  get-check_all now ((k, db) ∷ items) t j =
      ground (arith, get-check_all now items (check_session kv now (k, db) t) j, kv.get-del t k j)

  -- Where the items are those of the table, the key's own session decides.
  expired_of_has_expired :
      (now : ℕ) (j : Bytes) (db : Db) (t : Table) (items : List (Bytes × Db))
      → get t j ≡ some db
      → All (λ item. get t item.0 ≡ some item.1) items
      → has_expired now j items ≡ true
      → is_expired db.timeout now ≡ true
  expired_of_has_expired now j db t [] found sound h = cc
  expired_of_has_expired now j db t ((k, db') ∷ items) found (here, sound) h =
      elim (Bool-cases (str_eq k j)) [
        | inl same ↦
            let e : db' ≡ db = cc (str_eq→eq k j same, here, found) in
            ground (arith, expired_of_has_expired now j db t items found sound)
        | inr other ↦ expired_of_has_expired now j db t items found sound (rw other at h)
      ]

  has_expired_of_expired :
      (now : ℕ) (j : Bytes) (db : Db) (items : List (Bytes × Db))
      → IsListed j db items
      → is_expired db.timeout now ≡ true
      → has_expired now j items ≡ true
  has_expired_of_expired now j db [] m h = absurd m
  has_expired_of_expired now j db ((k, db') ∷ items) (inl (same, value)) h =
      let e : str_eq k j ≡ true = rw same (str_eq_refl j) in rw (e, value, h)
  has_expired_of_expired now j db ((k, db') ∷ items) (inr m) h =
      ground (arith, has_expired_of_expired now j db items m h)

  -- The timer removes exactly the expired sessions: one that is there before stays if and only if
  -- it is not expired, unchanged, and none appears.
  pub get-db_timer_cb :
      (now : ℕ) (t : Table) (j : Bytes)
      → get (db_timer_cb kv now t) j ≡ elim (get t j) [
        | none ↦ none
        | some db ↦ if is_expired db.timeout now then none else some db
      ]
  unfolding db_timer_cb
  get-db_timer_cb now t j = get-check_all now (entries t) t j ∙ decided (get t j) refl
    where
      decided :
          (found : Option Db)
          → get t j ≡ found
          → (if has_expired now j (entries t) then none else get t j) ≡ elim found [
            | none ↦ none
            | some db ↦ if is_expired db.timeout now then none else some db
          ]
      decided none e = ground arith
      decided (some db) e = ground (
        arith,
        expired_of_has_expired now j db t (entries t) e (kv.entries_sound t),
        has_expired_of_expired now j db (entries t) (kv.entries_complete t j db e),
      )

  -- `db_session` finds exactly what the table holds under the request's key. The session found is
  -- stamped with the time, in the table too, and the timer leaves it alone for the next 300
  -- seconds; no other session changes.
  pub db_session_refreshes :
      (g : Gwan) (now later : ℕ) (kept : Option Bytes) (auth : Option (Bytes × Bytes)) (t : Table)
      (key : Bytes) (db : Db)
      → session_key kv g kept auth ≡ some key
      → get t key ≡ some db
      → now ≤ later
      → later ≤ now + 300 * 1000
      → later < 2 ^ 63
      → let (found, t') = db_session kv g now kept auth t in
        (found ≡ some (refreshed kv now db))
        × (get (db_timer_cb kv later t') key ≡ found)
        × ((j : Bytes) → str_eq key j ≡ false → get t' j ≡ get t j)
  unfolding db_session
  db_session_refreshes g now later kept auth t key db e f before soon small =
      let fresh = deadline_fresh now later small before soon in
      let stored : get (add t key (refreshed kv now db)) key ≡ some (refreshed kv now db) =
        rw (kv.get-add t key key (refreshed kv now db), str_eq_refl key) refl in
      rw e (
        rw f (
          refl,
          rw (get-db_timer_cb later (add t key (refreshed kv now db)) key) (rw stored (rw fresh)),
          λ j other. rw (kv.get-add t key j (refreshed kv now db), other) refl,
        ))
