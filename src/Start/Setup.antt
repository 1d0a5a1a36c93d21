-- ===== src/Start/Setup.antt =====
-- The setup at the start of the server: `main` of init.c, and `init` of handlers/main.c.
use gwan_pg_rest_adapter.Prelude.{
  ℕ, ◌≡◌, refl, Bool, true, false, Option, none, some, Bytes, codes, if◌then◌else◌,
}
use gwan_pg_rest_adapter.Start.{Config, init_config, config_get}

-- `server_t`: whether it has a table of sessions, its configuration, and whether that has the entry
-- `evbase`, whose value is a base of libevent.
pub record ServerData : Type 0 where
  pub has_sessions : Bool
  pub config : Option Config
  pub has_evbase : Bool

-- What the server keeps: the character that stands for '?' in a query, if there is a pointer to it,
-- the server data, the handler's states, and the period of the timer of sessions in seconds.
pub record Settings : Type 0 where
  pub query_char : Option ℕ
  pub server : Option ServerData
  pub states : ℕ
  pub sessions_timer : Option ℕ

abbrev pub set_char : Option ℕ → Option ℕ
set_char none = none
set_char (some c) = some b'_'

unfoldable pub init_main : Settings → Settings
init_main s = record s {
  query_char = set_char s.query_char;
  server = some (record { has_sessions = true; config = some init_config; has_evbase = false });
}

-- The process exits with the negative of a code, or the handler is set up.
pub data Started : Type 0 where
  exits : ℕ → Started
  runs : Settings → Started

abbrev pub with_config : Settings → ServerData → Option Config → Started
with_config s server none = exits 3
with_config s server (some config) = runs (record s {
  server = some (record server { has_evbase = true });
  states = 0xffffffff;
  sessions_timer = some 1;
})

abbrev pub with_server : Settings → Option ServerData → Started
with_server s none = exits 1
with_server s (some server) =
    if server.has_sessions then with_config s server server.config else exits 2

unfoldable pub handler_init : Settings → Started
handler_init s = with_server s s.server

-- Where a login looks the host and the format up.
abbrev setting : Started → Bytes → Option Bytes
setting (exits code) key = none
setting (runs s) key = elim s.server [
  | none ↦ none
  | some server ↦ elim server.config [ none ↦ none | some config ↦ config_get config key ]
]

-- Whatever the server's settings are, after init.c the handler is set up for all states, with the
-- timer of sessions at one second and the host and the format of connections in the configuration.
pub handler_init-init_main :
    (s : Settings)
    → (s' : Settings) × (handler_init (init_main s) ≡ runs s')
      × (s'.states ≡ 0xffffffff)
      × (s'.sessions_timer ≡ some 1)
      × (setting (runs s') (codes "dbhost") ≡ some (codes "127.0.0.1:5432"))
      × (setting (runs s') (codes "dbconn") ≡ some (codes "postgres://%s:%s@%s/%s"))
unfolding init_main handler_init
handler_init-init_main s = (_, refl, refl, refl, refl, refl)
