-- ===== src/Start.antt =====
-- init.c, which sets the server data up, and handlers/main.c, which G-WAN calls at each stage of a
-- request.
pub mod Urls
pub mod Setup
use gwan_pg_rest_adapter.Prelude.{
  ℕ, Bool, true, false, Option, none, some, List, [], ◌∷◌, ◌++◌, Bytes, codes, str_eq, take, ◌==◌,
  ◌&&◌, if◌then◌else◌,
}
use gwan_pg_rest_adapter.Gwan.{Gwan}

-- `server->config`, the entries that were added last in front.
abbrev pub Config : Type 0
Config = List (Bytes × Bytes)

-- `kv_get(server->config, key, …)`
abbrev pub config_get : Config → Bytes → Option Bytes
config_get [] key = none
config_get ((k, v) ∷ config) key =
    let rest = config_get config key in if str_eq k key then some v else rest

-- What `main` of init.c adds to the empty configuration.
abbrev pub init_config : Config
init_config =
    (codes "dbconn", codes "postgres://%s:%s@%s/%s") ∷ (codes "dbhost", codes "127.0.0.1:5432") ∷ []

-- The states of `enum HANDLER_ACT` in which the handler does something.
abbrev pub hdl_after_read : ℕ
hdl_after_read = 3

abbrev pub hdl_after_parse : ℕ
hdl_after_parse = 5

-- What the handler changes: the reply and the type of its content.
pub record Stage : Type 0 where
  pub reply : Bytes
  pub mime : Bytes

abbrev pub redirect : Bytes
redirect =
    codes
      "HTTP/1.1 301 Moved Permanently\r\nContent-type: text/html\r\nLocation: index.html\r\n\r\n<html><head><title>Redirect</title></head><body>Click <a href=\"index.html\">here</a>.</body></html>"

-- `api ? ".json" : …`
abbrev pub reply_type : Option Bytes → Bytes → Bytes
reply_type none mime = mime
reply_type (some api) mime = codes ".json"

-- The handler's `main`, on the request and the query string.
unfoldable pub handle_stage : Gwan → ℕ → Bytes → Option Bytes → Stage → ℕ × Stage
handle_stage g state request api s =
    if state == hdl_after_read && str_eq (take 6 request) (codes "GET / ")
    then (2, record s { reply = g.xbuf_xcat s.reply redirect [] })
    else if state == hdl_after_parse
    then (255, record s { mime = reply_type api s.mime })
    else (255, s)
