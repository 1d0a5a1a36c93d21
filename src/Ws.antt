-- ===== src/Ws.antt =====
-- libraries/ws.c, the body of a script that takes a connection over for a websocket, lets it stream
-- and closes it.
pub mod Life
use gwan_pg_rest_adapter.Prelude.{
  ℕ, zero, suc, ◌+◌, ◌-◌, ◌*◌, ◌%◌, ◌^◌, Bool, ◌&&◌, Option, none, some, List, [], ◌∷◌, ◌++◌, Bytes,
  codes, c_str, ltb, leb, length, take, drop, ◌==◌, if◌then◌else◌,
}
use gwan_pg_rest_adapter.Gwan.{Gwan}
use gwan_pg_rest_adapter.Gwan.Sprintf.{str}

-- Functions of include/gwan.h and include/xbuffer.h that only this script calls: where a text stands
-- first in a buffer, and the twenty bytes of SHA-1.
pub record Library : Type 0 where
  pub xbuf_findstr : Bytes → Bytes → Option ℕ
  pub sha1 : Bytes → Bytes

-- The reply, and the number that `pdata[0]` is used for.
pub record Connection : Type 0 where
  pub reply : Bytes
  pub request_data : ℕ

abbrev pub rc_noheaders : ℕ
rc_noheaders = 1

abbrev pub rc_streaming : ℕ
rc_streaming = 1000

abbrev pub upgrade_header : Bytes
upgrade_header = codes "\r\nUpgrade: websocket\r\n"

abbrev pub key_header : Bytes
key_header = codes "\r\nSec-WebSocket-Key: "

abbrev pub websocket_guid : Bytes
websocket_guid = codes "258EAFA5-E914-47DA-95CA-C5AB0DC85B11"

abbrev pub switching : Bytes
switching =
    codes
      "HTTP/1.1 101 Switching Protocols\r\nUpgrade: websocket\r\nConnection: Upgrade\r\nSec-WebSocket-Accept: %20B\r\n\r\n"

abbrev pub websocket_term : Bytes
websocket_term = 0x00 ∷ 0xff ∷ []

-- `strncpy` into a buffer, which is filled up with NULs.
abbrev pub strncpy : ℕ → Bytes → Bytes
strncpy zero s = []
strncpy (suc n) [] = 0 ∷ strncpy n []
strncpy (suc n) (c ∷ s) = c ∷ strncpy n s

abbrev pub key_compose : Bytes → Bytes
key_compose key = strncpy 24 (c_str key) ++ strncpy 36 websocket_guid

-- `(int)(pdata[0]) >= 20`
abbrev pub is_over : ℕ → Bool
is_over n = leb 20 (n % 2 ^ 32) && ltb (n % 2 ^ 32) (2 ^ 31)

abbrev pub refuse : Connection → ℕ × Connection
refuse s = (403, record s { reply = s.reply ++ codes "test" })

-- A call on a connection that was taken over.
abbrev pub stream : Connection → ℕ × Connection
stream s =
    if is_over s.request_data
    then (rc_noheaders, record { reply = s.reply ++ websocket_term; request_data = 0 })
    else (rc_noheaders + rc_streaming, s)

module _ (g : Gwan) (lib : Library) where
  abbrev pub accept : Connection → Bytes → ℕ × Connection
  accept s key = (
    rc_noheaders + rc_streaming,
    record {
      reply = g.xbuf_xcat s.reply switching (str (some (lib.sha1 (key_compose key))) ∷ []);
      request_data = 1;
    },
  )

  -- With the header of the key at an offset; what is left of the request is compared as `u32`.
  abbrev pub with_key : Bytes → Connection → Option ℕ → ℕ × Connection
  with_key request s none = refuse s
  with_key request s (some at) =
      let key = at + length key_header in
      if leb 23 ((length request + 2 ^ 32 - key) % 2 ^ 32)
      then accept s (drop key request)
      else refuse s

  abbrev pub with_upgrade : Bytes → Connection → Option ℕ → ℕ × Connection
  with_upgrade request s none = refuse s
  with_upgrade request s (some at) = with_key request s (lib.xbuf_findstr request key_header)

  -- One call of the script.
  unfoldable pub serve : Bytes → Connection → ℕ × Connection
  serve request s =
      if s.request_data == 0
      then with_upgrade request s (lib.xbuf_findstr request upgrade_header)
      else stream (record s { request_data = (s.request_data + 1) % 2 ^ 64 })

  -- The calls for a sequence of requests: what each returns, and the connection after them.
  unfoldable pub serve_all : List Bytes → Connection → List ℕ × Connection
  unfolding serve
  serve_all [] s = ([], s)
  serve_all (request ∷ requests) s =
      let (code, s') = serve request s in
      let (rest, s'') = serve_all requests s' in (code ∷ rest, s'')
