-- ===== src/Session/Close.antt =====
-- `db_close` and `db_isConnected` of libraries/postrest/db.c, which end a session and test its
-- connection.
use gwan_pg_rest_adapter.Prelude.{ℕ, Bool, false, Option, none, some, Bytes, ◌==◌}
use gwan_pg_rest_adapter.Endpoint.{Outcome, returned, undefined}

-- `ssid` is what `US_REQUEST_DATA` holds. The server data, a `server_t *`, is then read as the table
-- of sessions.
unfoldable pub db_close : {S : Type 0} → Option Bytes → S → Outcome S
db_close none s = returned 0 s
db_close (some ssid) s = undefined

-- The socket has just been added to both sets, so the first test never fails. The argument is what
-- `getsockopt` stores as the pending error, `none` when it fails.
unfoldable pub db_is_connected : Option ℕ → Bool
db_is_connected none = false
db_is_connected (some err) = err == 0
