-- ===== src/Tests/Logins.antt =====
-- A login, and the life of a session.
use gwan_pg_rest_adapter.Prelude.{
  str_eq, ◌||◌, if◌then◌else◌, ℕ, ◌≡◌, ◌≢◌, refl, true, none, some, List, [], ◌∷◌, Bytes, codes,
  arith,
}
use gwan_pg_rest_adapter.Gwan.{Gwan, jsn_string, jsn_node}
use gwan_pg_rest_adapter.Gwan.Sprintf.{sprintf, hexadecimal}
use gwan_pg_rest_adapter.Utils.Validate.{strword}
use gwan_pg_rest_adapter.Utils.Headers.{get_headers}
use gwan_pg_rest_adapter.Endpoint.{Outcome, returned}
use gwan_pg_rest_adapter.Session.Store.{Db}
use gwan_pg_rest_adapter.Session.{deadline, db_session}
use gwan_pg_rest_adapter.Session.Life.{
  Event, logs_in, asks, sweeps, passes, Life, IsKept, after_all, used,
}
use gwan_pg_rest_adapter.Session.Life.Kept.{after_all-IsKept}
use gwan_pg_rest_adapter.Session.Life.Refines.{after_all-used}
use gwan_pg_rest_adapter.Csp.Action.{Request}
use gwan_pg_rest_adapter.Csp.Servlets.{http_get, http_post, http_delete}
use gwan_pg_rest_adapter.Csp.Session.{
  World, Server, address, session_login, session_get, open_session,
}
use gwan_pg_rest_adapter.Csp.Session.Login.{LoginEnd}
use gwan_pg_rest_adapter.Csp.Session.Found.{Opens, session_login-Opens}
use gwan_pg_rest_adapter.Csp.Session.Main.{main, error, main_stranger}
use gwan_pg_rest_adapter.Start.Urls.{defaults, session_login-url_of}
use gwan_pg_rest_adapter.Tests.Server.{server}
use gwan_pg_rest_adapter.Tests.Sessions.{table}

-- All fields of an entity are the string "a".
abbrev texts : Gwan
texts = record server { jsn_byname = λ json name. some jsn_string }

abbrev world : World
world = record {
  Link = Unit;
  connect = λ text. tt;
  is_connected = λ link. true;
  db_name = λ link. codes "a";
  error_message = λ link. [];
  dbhost = some (codes "127.0.0.1:5432");
  dbconn = some (codes "postgres://%s:%s@%s/%s");
  inet_pton = λ text. address 16777343;
  getms = 1000;
  sw_rand = 1;
  req = [];
  client = some (codes "127.0.0.1");
  session_id = 0;
}

abbrev login_request : Request
login_request = record { argc = 0; argv = λ i. none; entity = some (codes "{}") }

abbrev strangers : Server table
strangers = record { reply = []; sessions = [] }

abbrev key : Bytes
key = codes "a@a:10100007F"

abbrev session : Db
session = record { timestamp = 1000; timeout = 301000; name = codes "a"; schema = codes "a" }

abbrev members : Server table
members = record { reply = []; sessions = (key, session) ∷ [] }

login_runs : session_login texts table world login_request none strangers ≡ returned 230 members
unfolding session_login strword get_headers sprintf hexadecimal deadline
login_runs = refl

session_login-Opens_example : Opens texts table world strangers members
session_login-Opens_example =
    session_login-Opens texts table world login_request strangers members login_runs

abbrev answer : Server table → Outcome (Server table)
answer s = returned 200 s

main_stranger_example :
    (main texts table answer world login_request http_get none none strangers
      ≡ session_get texts table world login_request strangers)
    × LoginEnd texts table world strangers
        (main texts table answer world login_request http_post none none strangers)
    × (main texts table answer world login_request http_delete none none strangers
        ≡ error texts table 401 (codes "unauthorized access") strangers)
    × ((method : ℕ)
        → method ≢ 1
        → method ≢ 3
        → method ≢ 5
        → main texts table answer world login_request method none none strangers
          ≡ error texts table 405 (codes "method not allowed") strangers)
unfolding db_session
main_stranger_example =
    main_stranger texts table answer world login_request none none strangers refl

-- A login, a request after a second, and the timer after more than 300 seconds.
abbrev history : List Event
history =
    logs_in key (codes "a") (codes "a")
    ∷ passes 2000
    ∷ asks (some key) none
    ∷ passes 302001
    ∷ sweeps
    ∷ []

abbrev start : Life table server
start = record { sessions = []; now = 1000; swept = 1000 }

start-IsKept : IsKept table server start
start-IsKept = record {
  live = λ k db e. cc;
  swept = omega arith;
  bound = omega arith;
  small = omega arith;
}

after_all-IsKept_example : IsKept table server (after_all table server history start)
after_all-IsKept_example = after_all-IsKept table server history start start-IsKept (
  tt,
  (
    (omega arith, omega arith, omega arith),
    (tt, ((omega arith, omega arith, omega arith), (tt, tt))),
  ),
)

after_all-used_example : used table server (after_all table server history start) key ≡ none
after_all-used_example = after_all-used table server history start key start-IsKept (
  tt,
  (
    (omega arith, omega arith, omega arith),
    (tt, ((omega arith, omega arith, omega arith), (tt, tt))),
  ),
)

-- An entity with a user and a password only.
abbrev pair : Gwan
pair = record server {
  jsn_byname = λ json name.
      if str_eq name (codes "username") || str_eq name (codes "password")
      then some jsn_string
      else none;
}

session_login-url_of_example :
    session_login pair table world login_request none strangers
    ≡ open_session pair table world (defaults pair table (codes "a") (codes "a")) tt strangers
session_login-url_of_example =
    session_login-url_of pair table world login_request strangers (codes "{}") (codes "a")
      (codes "a") jsn_node jsn_string jsn_string refl refl refl refl refl refl refl refl refl refl
      refl refl
