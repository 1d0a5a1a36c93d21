-- ===== src/Start/Urls.antt =====
-- Where a login connects to, with the configuration of init.c.
use gwan_pg_rest_adapter.Prelude.{◌≡◌, ap, refl, none, some, ◌++◌, true, Bytes, codes, take}
use gwan_pg_rest_adapter.Gwan.{Gwan, is_string_type}
use gwan_pg_rest_adapter.Gwan.Sprintf.{sprintf}
use gwan_pg_rest_adapter.Session.Store.{Kv}
use gwan_pg_rest_adapter.Csp.Session.{
  World, Credentials, Server, connect_with, open_session, session_login,
}
use gwan_pg_rest_adapter.Csp.Action.{Request}
use gwan_pg_rest_adapter.Start.{init_config, config_get}

-- The URL of a database, with every part as it is.
abbrev pub url_of : (user password host database : Bytes) → Bytes
url_of user password host database =
    codes "postgres://"
    ++ (user ++ (codes ":" ++ (password ++ (codes "@" ++ (host ++ (codes "/" ++ database))))))

module _ (g : Gwan) (kv : Kv) where
  -- The credentials of an entity without a database and a schema.
  abbrev pub defaults : (user password : Bytes) → Credentials
  defaults user password = record {
    username = some user;
    password = some password;
    database = some (codes "postgres");
    schema = some (codes "public");
  }

  -- The connection string is the URL, cut to 126 bytes.
  connect_with-url_of :
      (w : World) (user password host : Bytes) (s : Server kv)
      → connect_with g kv w host (codes "postgres://%s:%s@%s/%s") (defaults user password) s
        ≡ open_session g kv w
            (defaults user password)
            (w.connect (take 126 (url_of user password host (codes "postgres"))))
            s
  unfolding sprintf
  connect_with-url_of w user password host s =
      ap (λ t. open_session g kv w (defaults user password) (w.connect t) s)
        (g.s_snprintf_lem 127 (codes "postgres://%s:%s@%s/%s") _ refl)

  -- With the configuration of init.c, a login whose entity has strings for the user and the
  -- password and neither a database nor a schema goes on with a connection to the URL of that user
  -- and password at 127.0.0.1:5432 and the database "postgres", cut to 126 bytes; neither the user
  -- nor the password is escaped in it.
  pub session_login-url_of :
      (w : World) (r : Request) (s : Server kv) (entity user password : Bytes)
      (json name pass : g.Jsn)
      → w.dbhost ≡ config_get init_config (codes "dbhost")
      → w.dbconn ≡ config_get init_config (codes "dbconn")
      → r.entity ≡ some entity
      → g.jsn_frtext (some entity) ≡ some json
      → g.jsn_byname json (codes "username") ≡ some name
      → g.jsn_byname json (codes "password") ≡ some pass
      → g.jsn_byname json (codes "database") ≡ none
      → g.jsn_byname json (codes "schema") ≡ none
      → is_string_type (g.type name) ≡ true
      → is_string_type (g.type pass) ≡ true
      → g.string name ≡ some user
      → g.string pass ≡ some password
      → session_login g kv w r none s
        ≡ open_session g kv w
            (defaults user password)
            (w.connect
              (take 126 (url_of user password (codes "127.0.0.1:5432") (codes "postgres"))))
            s
  unfolding session_login
  session_login-url_of w r s entity user password json name pass host format e1 e2 e3 e4 e5 e6 t1 t2
        s1 s2 =
      rw (host, e1)
        (rw e2 (
          rw (e3, e4, e5, e6)
            (rw (t1, t2)
              (rw (format, s1, s2)
                (connect_with-url_of w user password (codes "127.0.0.1:5432") s)))))
