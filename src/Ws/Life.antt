-- ===== src/Ws/Life.antt =====
-- The life of a websocket: its handshake, the calls that stream, and the one that closes it.
use gwan_pg_rest_adapter.Prelude.{
  All, ◌≢◌, codes, c_str, length-append, ℕ, zero, suc, ◌+◌, ◌-◌, ◌%◌, ◌^◌, ◌<◌, ◌≡◌, refl, ap, ◌∙◌,
  true, false, some, List, [], ◌∷◌, ◌++◌, Bytes, length, drop, arith, ◌==◌, leb,
}
use gwan_pg_rest_adapter.Gwan.{Gwan}
use gwan_pg_rest_adapter.Gwan.Sprintf.{str}
use gwan_pg_rest_adapter.Utils.Headers.Lines.{c_str-append}
use gwan_pg_rest_adapter.Ws.{
  Library, Connection, rc_noheaders, rc_streaming, key_header, websocket_term, is_over, stream,
  key_compose, strncpy, websocket_guid, accept, switching, serve, serve_all,
}

-- The codes of calls that stream.
abbrev pub streaming : ℕ → List ℕ
streaming zero = 1 ∷ []
streaming (suc n) = 1001 ∷ streaming n

next_data : (d : ℕ) → d < 20 → (d + 1) % 2 ^ 64 ≡ suc d
next_data d h = omega arith

drop-append : (before t : Bytes) (n : ℕ) → drop (length before + n) (before ++ t) ≡ drop n t
drop-append [] t n = ap (λ k. drop k t) (zero_plus n)
  where
    zero_plus : (n : ℕ) → 0 + n ≡ n
    zero_plus n = omega arith
drop-append (c ∷ before) t n =
    ap (λ k. drop k (c ∷ (before ++ t))) (next before n) ∙ drop-append before t n
  where
    next : (before : Bytes) (n : ℕ) → length (c ∷ before) + n ≡ suc (length before + n)
    next before n = omega arith

strncpy-whole : (n : ℕ) (key rest : Bytes) → length key ≡ n → strncpy n (key ++ rest) ≡ key
strncpy-whole zero [] rest h = refl
strncpy-whole zero (c ∷ key) rest h = absurd (omega (arith, h))
strncpy-whole (suc n) [] rest h = absurd (omega (arith, h))
strncpy-whole (suc n) (c ∷ key) rest h =
    ap (λ t. c ∷ t) (strncpy-whole n key rest (omega (arith, h)))

-- What is hashed is the key and the GUID.
key_compose-key :
    (key behind : Bytes)
    → length key ≡ 24
    → All (λ c. c ≢ 0) key
    → key_compose (key ++ behind) ≡ key ++ websocket_guid
key_compose-key key behind size nonzero =
    ap (λ t. strncpy 24 t ++ websocket_guid) (c_str-append key behind nonzero)
    ∙ ap (λ t. t ++ websocket_guid) (strncpy-whole 24 key (c_str behind) size)

module _ (g : Gwan) (lib : Library) where
  serve_next :
      (request : Bytes) (s : Connection)
      → 0 < s.request_data
      → s.request_data < 20
      → serve g lib request s ≡ stream (record s { request_data = suc s.request_data })
  unfolding serve
  serve_next request s started h =
      let taken : (s.request_data == 0) ≡ false = ground arith in
      rw taken (ap (λ d. stream (record s { request_data = d })) (next_data s.request_data h))

  stream_on : (s : Connection) → s.request_data < 20 → stream s ≡ (rc_noheaders + rc_streaming, s)
  stream_on s h = let more : is_over s.request_data ≡ false = ground arith in rw more refl

  -- From the number `d` of calls on.
  serve_all-streaming :
      (requests : List Bytes) (s : Connection) (left : ℕ)
      → 0 < s.request_data
      → s.request_data + left ≡ 19
      → length requests ≡ suc left
      → serve_all g lib requests s
        ≡ (streaming left, record { reply = s.reply ++ websocket_term; request_data = 0 })
  unfolding serve_all
  serve_all-streaming [] s left started count size = absurd (omega (arith, size))
  serve_all-streaming (request ∷ []) s zero started count size =
      let last : s.request_data ≡ 19 = omega (arith, count) in
      let served : serve g lib request s
          ≡ (rc_noheaders, record { reply = s.reply ++ websocket_term; request_data = 0 }) =
        serve_next request s started (omega arith)
        ∙ ap (λ d. stream (record s { request_data = suc d })) last in
      rw served refl
  serve_all-streaming (request ∷ r ∷ requests) s zero started count size =
      absurd (omega (arith, size))
  serve_all-streaming (request ∷ requests) s (suc left) started count size =
      let next : Connection = record s { request_data = suc s.request_data } in
      let served : serve g lib request s ≡ (rc_noheaders + rc_streaming, next) =
        serve_next request s started (omega arith) ∙ stream_on next (omega arith) in
      let rest =
        serve_all-streaming requests next left (omega arith) (omega (arith, count))
          (omega (arith, size)) in
      rw (serve_all, served) (rw rest refl)

  -- A request with the header Upgrade, in which a key of 24 bytes without a NUL stands behind
  -- "Sec-WebSocket-Key: ", is answered on a fresh connection by the status line 101 and the headers
  -- of the handshake, with the SHA-1 of the key and the GUID behind it as the argument of their
  -- format. Of the next nineteen calls, whatever their requests are, eighteen stream and add
  -- nothing to the reply, and the last one adds the bytes 0 and 255, returns without streaming and
  -- frees the connection.
  pub serve_all-handshake :
      (before key behind : Bytes) (requests : List Bytes) (s : Connection) (at : ℕ)
      → let request = before ++ (codes "\r\nSec-WebSocket-Key: " ++ (key ++ behind)) in
        s.request_data ≡ 0
        → lib.xbuf_findstr request (codes "\r\nUpgrade: websocket\r\n") ≡ some at
        → lib.xbuf_findstr request (codes "\r\nSec-WebSocket-Key: ") ≡ some (length before)
        → length key ≡ 24
        → All (λ c. c ≢ 0) key
        → length request < 2 ^ 31
        → length requests ≡ 19
        → serve_all g lib (request ∷ requests) s ≡ (
          1001 ∷ streaming 18,
          record {
            reply =
                g.xbuf_xcat s.reply
                  (codes
                    "HTTP/1.1 101 Switching Protocols\r\nUpgrade: websocket\r\nConnection: Upgrade\r\nSec-WebSocket-Accept: %20B\r\n\r\n")
                  (str (some (lib.sha1 (key ++ codes "258EAFA5-E914-47DA-95CA-C5AB0DC85B11"))) ∷ [])
                ++ 0 ∷ 255 ∷ [];
            request_data = 0;
          },
        )
  unfolding serve_all serve
  serve_all-handshake before key behind requests s at fresh has_upgrade has_key size nonzero small
        count =
      let request = before ++ (key_header ++ (key ++ behind)) in
      let whole : length request ≡ length before + (21 + (24 + length behind)) = omega (
        arith,
        length-append before (key_header ++ (key ++ behind)),
        length-append key behind,
        size,
      ) in
      let first : (s.request_data == 0) ≡ true = ground arith in
      let enough : leb 23 ((length request + 2 ^ 32 - (length before + length key_header)) % 2 ^ 32)
          ≡ true =
        ground (arith, whole) in
      let told : key_compose (drop (length before + 21) request) ≡ key ++ websocket_guid =
        ap key_compose (drop-append before (key_header ++ (key ++ behind)) 21)
        ∙ key_compose-key key behind size nonzero in
      let opened : Connection = record {
        reply = g.xbuf_xcat s.reply switching (str (some (lib.sha1 (key ++ websocket_guid))) ∷ []);
        request_data = 1;
      } in
      let answered : accept g lib s (drop (length before + 21) request) ≡ (1001, opened) =
        ap
          (λ t. (
            1001,
            record {
              reply = g.xbuf_xcat s.reply switching (str (some (lib.sha1 t)) ∷ []);
              request_data = 1;
            },
          ))
          told in
      let served : serve g lib request s ≡ (1001, opened) =
        rw first (rw has_upgrade (rw has_key (rw enough answered))) in
      let rest = serve_all-streaming requests opened 18 (omega arith) (omega arith) count in
      rw (serve_all, served) (rw rest refl)
