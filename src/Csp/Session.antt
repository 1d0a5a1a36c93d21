-- ===== src/Csp/Session.antt =====
-- csp/session.c: who a client is. A client logs in to the database, and gets the key of its session
-- for the Basic authorization of later requests.
pub mod Login
pub mod Found
pub mod Main
use gwan_pg_rest_adapter.Prelude.{
  ℕ, zero, suc, ◌+◌, ◌*◌, ◌%◌, ◌^◌, Bool, true, false, not, ◌&&◌, ◌||◌, Option, none, some, List,
  [], ◌∷◌, Bytes, codes, ltb, if◌then◌else◌,
}
use gwan_pg_rest_adapter.Gwan.{Gwan, is_string_type}
use gwan_pg_rest_adapter.Gwan.Sprintf.{str, num}
use gwan_pg_rest_adapter.Reply.{db_error, bad_request}
use gwan_pg_rest_adapter.Utils.Validate.{strword}
use gwan_pg_rest_adapter.Utils.Headers.{Header, get_headers, get_header_value}
use gwan_pg_rest_adapter.Endpoint.{Outcome, returned, undefined}
use gwan_pg_rest_adapter.Session.{new_session}
use gwan_pg_rest_adapter.Session.Store.{Kv, Db}
use gwan_pg_rest_adapter.Csp.Action.{Request, arg}

-- What `inet_pton` makes of a text: an address, no address (0), or an error (-1).
pub data Address : Type 0 where
  address : ℕ → Address
  invalid failure : Address

-- What a login reads besides its request: the configuration, the clock, the generator of numbers
-- and the C library, and libpq's blocking connection (their code is not in the repository).
pub record World : Type 1 where
  pub Link : Type 0
  pub connect : Bytes → Link
  -- `PQstatus(conn) == CONNECTION_OK && PQsetnonblocking(conn, 1) == 0`
  pub is_connected : Link → Bool
  pub db_name : Link → Bytes
  pub error_message : Link → Bytes
  pub dbhost : Option Bytes
  pub dbconn : Option Bytes
  pub inet_pton : Option Bytes → Address
  pub getms : ℕ
  pub sw_rand : ℕ
  -- the whole request, `argv[-1]` and `SESSION_ID`
  pub req : Bytes
  pub client : Option Bytes
  pub session_id : ℕ

-- What the servlet changes: the reply and the table of sessions.
module _ (kv : Kv) where
  pub record Server : Type 0 where
    pub reply : Bytes
    pub sessions : kv.Table

-- The checked entity.
pub record Credentials : Type 0 where
  pub username : Option Bytes
  pub password : Option Bytes
  pub database : Option Bytes
  pub schema : Option Bytes

module _ (g : Gwan) (kv : Kv) where
  open g use {Jsn, xbuf_xcat, s_snprintf, jsn_frtext, jsn_byname, type, string}

  -- `return db_error(rep, code, message)`
  abbrev pub fail : ℕ → Option Bytes → Server kv → Outcome (Server kv)
  fail code message s =
      let (status, reply) = db_error g s.reply code message in
      returned status (record s { reply = reply })

  -- `db_error(rep, 400, message);` without a `return`
  abbrev report : Bool → Bytes → Bytes → Bytes
  report wrong message reply = if wrong then (db_error g reply 400 (some message)).1 else reply

  unfoldable pub session_get : World → Request → Server kv → Outcome (Server kv)
  session_get w r s =
      if ltb r.argc 2
      then fail 400 (some (codes "to few parameters")) s
      else returned 200 (record s {
        reply =
            xbuf_xcat
              (report (not (strword (r.argv 1))) (codes "[user] name must be a word <string>") (
                report (not (strword (r.argv 0))) (codes "[database] name must be a word <string>")
                  s.reply))
              (codes "{\"ssid\":\"%x\"}") (num w.session_id ∷ []);
      })

  -- `!user || user->type != jsn_STRING`
  abbrev pub no_string : Option Jsn → Bool
  no_string none = true
  no_string (some node) = not (is_string_type (type node))

  -- `dbname && (dbname->type != jsn_STRING || !strword(dbname->string))`
  abbrev pub bad_word : Option Jsn → Bool
  bad_word none = false
  bad_word (some node) = not (is_string_type (type node)) || not (strword (string node))

  abbrev pub string_of : Option Jsn → Option Bytes
  string_of none = none
  string_of (some node) = string node

  -- `dbname ? dbname->string : "postgres"`
  abbrev pub string_or : Bytes → Option Jsn → Option Bytes
  string_or otherwise none = some otherwise
  string_or otherwise (some node) = string node

  -- `((u64)sw_rand(&rnd) << 32) + sa.sin_addr.s_addr`
  abbrev pub sid_of : World → ℕ → ℕ
  sid_of w addr = (w.sw_rand % 2 ^ 32 * 2 ^ 32 + addr) % 2 ^ 64

  abbrev pub key_of : World → Credentials → ℕ → Bytes
  key_of w c addr =
      s_snprintf 127 (codes "%s@%s:%llX")
        (str c.username ∷ str c.database ∷ num (sid_of w addr) ∷ [])

  -- `strdup(schema)`
  abbrev pub text_of : Option Bytes → Bytes
  text_of none = []
  text_of (some s) = s

  -- The session of a connection, as it is put into the table.
  abbrev pub opened : (w : World) → Credentials → w.Link → Db
  opened w c link = new_session w.getms (w.db_name link) (text_of c.schema)

  abbrev pub enter : (w : World) → Credentials → w.Link → Address → Server kv → Outcome (Server kv)
  enter w c link (address addr) s = returned 230 (record {
    reply =
        xbuf_xcat s.reply (codes "{\"authorization\":\"Basic %B\"}")
          (str (some (key_of w c addr)) ∷ []);
    sessions = kv.add s.sessions (key_of w c addr) (opened w c link);
  })
  enter w c link invalid s = fail 400 (some (codes "x-forwarded-for invalid address")) s
  enter w c link failure s = fail 500 none s

  -- `remote ? remote : argv[-1]`
  abbrev pub client_of : World → Option Bytes → Option Bytes
  client_of w none = w.client
  client_of w (some remote) = some remote

  abbrev pub enter_from :
      (w : World) → Credentials → w.Link → Option (List Header) → Server kv → Outcome (Server kv)
  enter_from w c link none s = undefined
  enter_from w c link (some headers) s =
      enter w c link
        (w.inet_pton (client_of w (get_header_value headers (codes "X-Forwarded-For")))) s

  abbrev pub turn_away : (w : World) → w.Link → Server kv → Outcome (Server kv)
  turn_away w link s =
      let (status, reply) = bad_request g s.reply 401 (w.error_message link) in
      returned 401 (record s { reply = reply })

  abbrev pub open_session : (w : World) → Credentials → w.Link → Server kv → Outcome (Server kv)
  open_session w c link s =
      if w.is_connected link
      then enter_from w c link (get_headers w.req 16) s
      else turn_away w link s

  -- The format of the connection string is a value of the configuration.
  abbrev pub connect_with :
      (w : World) → Bytes → Bytes → Credentials → Server kv → Outcome (Server kv)
  connect_with w host format c s =
      open_session w c
        (w.connect (
          s_snprintf 127 format
            (str c.username ∷ str c.password ∷ str (some host) ∷ str c.database ∷ [])))
        s

  abbrev pub connect_format :
      (w : World) → Bytes → Option Bytes → Credentials → Server kv → Outcome (Server kv)
  connect_format w host none c s = undefined
  connect_format w host (some format) c s = connect_with w host format c s

  abbrev pub check_nodes :
      (w : World) → Bytes → (user pass dbname sch : Option Jsn) → Server kv → Outcome (Server kv)
  check_nodes w host user pass dbname sch s =
      if no_string user
      then fail 400 (some (codes "[username] must be a <string>")) s
      else if no_string pass
      then fail 400 (some (codes "[password] must be a <string>")) s
      else if bad_word dbname
      then fail 400 (some (codes "[database] name must be a word <string>")) s
      else if bad_word sch
      then fail 400 (some (codes "[schema] name must be a word <string>")) s
      else connect_format w host w.dbconn
          (record {
            username = string_of user;
            password = string_of pass;
            database = string_or (codes "postgres") dbname;
            schema = string_or (codes "public") sch;
          })
          s

  abbrev pub check_entity : (w : World) → Bytes → Jsn → Server kv → Outcome (Server kv)
  check_entity w host json s =
      check_nodes w host (jsn_byname json (codes "username")) (jsn_byname json (codes "password"))
        (jsn_byname json (codes "database")) (jsn_byname json (codes "schema")) s

  abbrev pub check_json : (w : World) → Bytes → Option Jsn → Server kv → Outcome (Server kv)
  check_json w host none s = fail 400 (some (codes "failed to parse json")) s
  check_json w host (some json) s = check_entity w host json s

  abbrev pub check_text : (w : World) → Bytes → Option Bytes → Server kv → Outcome (Server kv)
  check_text w host none s = fail 400 (some (codes "missing request entity")) s
  check_text w host (some entity) s = check_json w host (jsn_frtext (some entity)) s

  abbrev pub login : (w : World) → Option Bytes → Request → Server kv → Outcome (Server kv)
  login w none r s = fail 502 (some (codes "missing database configuration")) s
  login w (some host) r s = check_text w host r.entity s

  -- `db` is the session of the request, if it has one.
  unfoldable pub session_login : World → Request → Option Db → Server kv → Outcome (Server kv)
  session_login w r (some db) s = returned 200 s
  session_login w r none s = login w w.dbhost r s

  -- `db_free` takes what `get_env(argv, US_SERVER_DATA)` gives, a `server_t *`, for the table of
  -- sessions, and `kv_del` works on it as on one.
  unfoldable pub db_free : Server kv → Outcome (Server kv)
  db_free s = undefined

  unfoldable pub session_logout : Server kv → Outcome (Server kv)
  unfolding db_free
  session_logout s =
      db_free (record s { reply = xbuf_xcat s.reply (codes "{\"authorization\":null}") [] })
