-- ===== src/Csp/Session/Found.antt =====
-- A request with the authorization that a login returned.
use gwan_pg_rest_adapter.Prelude.{
  ℕ, zero, suc, ◌<◌, ◌≤◌, ◌≡◌, refl, sym, subst, ap, ◌∙◌, none, some, [], ◌∷◌, ◌++◌, Bytes, codes,
  arith, length, take, append-nil, str_eq_refl,
}
use gwan_pg_rest_adapter.Gwan.{Gwan}
use gwan_pg_rest_adapter.Gwan.Sprintf.{sprintf, str}
use gwan_pg_rest_adapter.Endpoint.{Outcome, returned}
use gwan_pg_rest_adapter.Session.{db_session, session_key, refreshed, keyed_session}
use gwan_pg_rest_adapter.Session.Store.{Kv, Db}
use gwan_pg_rest_adapter.Session.Life.{logs_in, after}
use gwan_pg_rest_adapter.Csp.Action.{Request}
use gwan_pg_rest_adapter.Csp.Session.{World, Server, session_login, key_of, opened}
use gwan_pg_rest_adapter.Csp.Session.Login.{
  LoginEnd, enters, refuses, breaks, session_login-LoginEnd,
}

take_all : (n : ℕ) (s : Bytes) → length s ≤ n → take n s ≡ s
take_all zero [] h = refl
take_all (suc n) [] h = refl
take_all zero (c ∷ s) h = absurd (omega arith)
take_all (suc n) (c ∷ s) h = ap (λ t. c ∷ t) (take_all n s (omega arith))

module _ (g : Gwan) (kv : Kv) where
  -- The key that a Basic authorization of a user and a password stands for.
  basic_key :
      (user password : Bytes)
      → length (user ++ b':' ∷ password) < 127
      → session_key kv g none (some (user, password)) ≡ some (user ++ b':' ∷ password)
  unfolding sprintf
  basic_key user password h = ap some (
      g.s_snprintf_lem 127 (codes "%s:%s") _ refl
      ∙ ap (λ t. take 126 (user ++ b':' ∷ t)) (append-nil password)
      ∙ take_all 126 (user ++ b':' ∷ password) (omega arith))

  -- A session that the table holds under the key is found.
  basic_found :
      (t : kv.Table) (db : Db) (later : ℕ) (key user password : Bytes)
      → user ++ b':' ∷ password ≡ key
      → length key < 127
      → (db_session kv g later none (some (user, password)) (kv.add t key db)).0
        ≡ some (refreshed kv later db)
  unfolding db_session
  basic_found t db later key user password e h =
      let named : session_key kv g none (some (user, password)) ≡ some key =
        basic_key user password (subst (λ k. length k < 127) (sym e) h) ∙ ap some e in
      let stored : kv.get (kv.add t key db) key ≡ some db =
        rw (kv.get-add t key key db, str_eq_refl key) refl in
      ap (λ k. (keyed_session kv later k (kv.add t key db)).0) named ∙ rw stored refl

  -- What a login leaves for its client.
  pub record Opens (w : World) (s s' : Server kv) : Type 0 where
    pub key : Bytes
    pub db : Db
    pub told :
        s'.reply
        ≡ g.xbuf_xcat s.reply (codes "{\"authorization\":\"Basic %B\"}") (str (some key) ∷ [])
    pub used : db.timestamp ≡ w.getms
    pub schema : Bytes
    pub added :
        s'.sessions
        ≡ (after kv g
            (logs_in key db.name schema)
            (record { sessions = s.sessions; now = w.getms; swept = w.getms })).sessions
    pub found :
        (later : ℕ) (user password : Bytes)
        → user ++ b':' ∷ password ≡ key
        → length key < 127
        → (db_session kv g later none (some (user, password)) s'.sessions).0
          ≡ some (refreshed kv later db)

  end-Opens :
      (w : World) (s s' : Server kv) (out : Outcome (Server kv))
      → LoginEnd g kv w s out
      → out ≡ returned 230 s'
      → Opens w s s'
  end-Opens w s s' out (enters c link addr up e word1 word2) h =
      let key = key_of g kv w c addr in
      let db = opened g kv w c link in
      subst (Opens w s) (cc) (record {
        key = key;
        db = db;
        told = refl;
        used = refl;
        schema = db.schema;
        added = refl;
        found = λ later user password e' fits.
            basic_found s.sessions db later key user password e' fits;
      })
  end-Opens w s s' out (refuses status reply error) h =
      let e : status ≡ 230 = cc in absurd (omega arith)
  end-Opens w s s' out breaks h = cc

  -- When a login returns 230, its reply has the key of a session that was last used at the time of
  -- the login, and the table of sessions changes as in the event of that login in Session/Life. On
  -- the table that it leaves, every request on a connection that keeps no key, whose Basic
  -- authorization is that key, of at most 126 bytes, finds the session and gives it a new time-out.
  pub session_login-Opens :
      (w : World) (r : Request) (s s' : Server kv)
      → session_login g kv w r none s ≡ returned 230 s'
      → Opens w s s'
  session_login-Opens w r s s' h = end-Opens w s s' _ (session_login-LoginEnd g kv w r s) h
