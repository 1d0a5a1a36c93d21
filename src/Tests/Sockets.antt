-- ===== src/Tests/Sockets.antt =====
-- A library for the websocket, and a connection from its handshake to its end.
use gwan_pg_rest_adapter.Prelude.{
  ℕ, zero, suc, ◌≡◌, refl, Bool, true, false, ◌&&◌, Option, none, some, List, [], ◌∷◌, ◌++◌, Bytes,
  codes, take, arith, ◌==◌, if◌then◌else◌,
}
use gwan_pg_rest_adapter.Gwan.Sprintf.{str}
use gwan_pg_rest_adapter.Ws.{Library, Connection, serve_all}
use gwan_pg_rest_adapter.Ws.Life.{streaming, serve_all-handshake}
use gwan_pg_rest_adapter.Tests.Server.{server}

abbrev begins_with : Bytes → Bytes → Bool
begins_with text [] = true
begins_with [] (c ∷ start) = false
begins_with (d ∷ text) (c ∷ start) = d == c && begins_with text start

abbrev offset_from : ℕ → Bytes → Bytes → Option ℕ
offset_from i [] start = none
offset_from i (c ∷ text) start =
    let rest = offset_from (suc i) text start in
    if begins_with (c ∷ text) start then some i else rest

abbrev library : Library
library = record { xbuf_findstr = offset_from 0; sha1 = take 20 }

abbrev upgrade_request : Bytes
upgrade_request =
    codes
      "GET / HTTP/1.1\r\nUpgrade: websocket\r\nSec-WebSocket-Key: dGhlIHNhbXBsZSBub25jZQ==\r\n\r\n"

abbrev fresh_connection : Connection
fresh_connection = record { reply = []; request_data = 0 }

abbrev silence : ℕ → List Bytes
silence zero = []
silence (suc n) = [] ∷ silence n

serve_all-handshake_example :
    serve_all server library (upgrade_request ∷ silence 19) fresh_connection ≡ (
      1001 ∷ streaming 18,
      record {
        reply =
            server.xbuf_xcat []
              (codes
                "HTTP/1.1 101 Switching Protocols\r\nUpgrade: websocket\r\nConnection: Upgrade\r\nSec-WebSocket-Accept: %20B\r\n\r\n")
              (str (some (codes "dGhlIHNhbXBsZSBub25j")) ∷ [])
            ++ 0 ∷ 255 ∷ [];
        request_data = 0;
      },
    )
serve_all-handshake_example =
    serve_all-handshake server library (codes "GET / HTTP/1.1\r\nUpgrade: websocket")
      (codes "dGhlIHNhbXBsZSBub25jZQ==") (codes "\r\n\r\n") (silence 19) fresh_connection 14 refl
      refl refl refl (ground arith) (ground arith) refl
