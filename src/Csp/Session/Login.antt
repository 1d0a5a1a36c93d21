-- ===== src/Csp/Session/Login.antt =====
-- How a login ends, and what it leaves in the table of sessions.
use gwan_pg_rest_adapter.Prelude.{
  ℕ, ◌<◌, ◌≤◌, ◌≡◌, ◌⊎◌, refl, true, false, Option, none, some, [], ◌∷◌, Bytes, codes, All, arith,
  inl, inr, Bool-cases, Option-cases,
}
use gwan_pg_rest_adapter.Gwan.{Gwan}
use gwan_pg_rest_adapter.Gwan.Sprintf.{str}
use gwan_pg_rest_adapter.Reply.{db_error}
use gwan_pg_rest_adapter.Endpoint.{Outcome, returned, undefined}
use gwan_pg_rest_adapter.Utils.Validate.{strword}
use gwan_pg_rest_adapter.Utils.Headers.{get_headers, get_header_value}
use gwan_pg_rest_adapter.Utils.Headers.Bounds.{get_header_value_capital}
use gwan_pg_rest_adapter.Session.Store.{Kv}
use gwan_pg_rest_adapter.Csp.Action.{Request}
use gwan_pg_rest_adapter.Csp.Session.{
  World, Server, Credentials, Address, address, invalid, failure, fail, session_login, login,
  check_text, check_nodes, connect_format, open_session, enter_from, enter, key_of, opened,
  no_string, bad_word, string_or,
}

-- 'X-Forwarded-For' begins with a capital.
capital : ¬ (All (λ c. (c < b'A') ⊎ (b'Z' < c)) (codes "X-Forwarded-For"))
capital (h, hs) = ground arith

-- The header is never found, since the names that `get_headers` stores are in lower case.
forwarded_none :
    (req : Bytes) (headers : _)
    → get_headers req 16 ≡ some headers
    → get_header_value headers (codes "X-Forwarded-For") ≡ none
forwarded_none req headers e = get_header_value_capital req 16 headers _ e capital

postgres_word : strword (some (codes "postgres")) ≡ true
unfolding strword
postgres_word = refl

public_word : strword (some (codes "public")) ≡ true
unfolding strword
public_word = refl

module _ (g : Gwan) (kv : Kv) (w : World) where
  -- The ends of a login. `enters`: the connection stands, its client has an IPv4 address, and the
  -- database and the schema are words; the reply gets the key of the one session that is added.
  -- `refuses`: the table of sessions is as it was. `breaks`: undefined behaviour.
  pub data LoginEnd (s : Server kv) : Outcome (Server kv) → Type 0 where
    enters :
        (c : Credentials) (link : w.Link) (addr : ℕ)
        → w.is_connected link ≡ true
        → w.inet_pton w.client ≡ address addr
        → strword c.database ≡ true
        → strword c.schema ≡ true
        → LoginEnd s (
            returned 230 (record {
              reply =
                  g.xbuf_xcat s.reply
                    (codes "{\"authorization\":\"Basic %B\"}")
                    (str (some (key_of g kv w c addr)) ∷ []);
              sessions = kv.add s.sessions (key_of g kv w c addr) (opened g kv w c link);
            }))
    refuses :
        (status : ℕ) (reply : Bytes)
        → 400 ≤ status
        → LoginEnd s (returned status (record s { reply = reply }))
    breaks : LoginEnd s undefined

  -- An error of a status below 600.
  fail-LoginEnd :
      (code : ℕ) (message : Option Bytes) (s : Server kv)
      → code < 600
      → 400 ≤ code
      → LoginEnd s (fail g kv code message s)
  unfolding db_error
  fail-LoginEnd code none s h error = refuses _ _ (ground arith)
  fail-LoginEnd code (some message) s h error = refuses _ _ (ground arith)

  fail_400 : (message : Bytes) (s : Server kv) → LoginEnd s (fail g kv 400 (some message) s)
  fail_400 message s = fail-LoginEnd 400 (some message) s (omega arith) (omega arith)

  enter-LoginEnd :
      (c : Credentials) (link : w.Link) (client : Address) (s : Server kv)
      → w.is_connected link ≡ true
      → w.inet_pton w.client ≡ client
      → strword c.database ≡ true
      → strword c.schema ≡ true
      → LoginEnd s (enter g kv w c link client s)
  enter-LoginEnd c link (address addr) s up e word1 word2 = enters c link addr up e word1 word2
  enter-LoginEnd c link invalid s up e word1 word2 = fail_400 _ s
  enter-LoginEnd c link failure s up e word1 word2 =
      fail-LoginEnd 500 none s (omega arith) (omega arith)

  enter_from-LoginEnd :
      (c : Credentials) (link : w.Link) (headers : Option _) (s : Server kv)
      → get_headers w.req 16 ≡ headers
      → w.is_connected link ≡ true
      → strword c.database ≡ true
      → strword c.schema ≡ true
      → LoginEnd s (enter_from g kv w c link headers s)
  enter_from-LoginEnd c link none s e up word1 word2 = breaks
  enter_from-LoginEnd c link (some headers) s e up word1 word2 =
      rw (forwarded_none w.req headers e)
        (enter-LoginEnd c link (w.inet_pton w.client) s up refl word1 word2)

  open_session-LoginEnd :
      (c : Credentials) (link : w.Link) (s : Server kv)
      → strword c.database ≡ true
      → strword c.schema ≡ true
      → LoginEnd s (open_session g kv w c link s)
  open_session-LoginEnd c link s word1 word2 = elim (Bool-cases (w.is_connected link)) [
    | inl up ↦ rw up (enter_from-LoginEnd c link (get_headers w.req 16) s refl up word1 word2)
    | inr down ↦ rw down (refuses 401 _ (omega arith))
  ]

  connect_format-LoginEnd :
      (host : Bytes) (format : Option Bytes) (c : Credentials) (s : Server kv)
      → strword c.database ≡ true
      → strword c.schema ≡ true
      → LoginEnd s (connect_format g kv w host format c s)
  connect_format-LoginEnd host none c s word1 word2 = breaks
  connect_format-LoginEnd host (some format) c s word1 word2 =
      open_session-LoginEnd c _ s word1 word2

  -- A name that passed its check, or the one taken when it is missing.
  word_or :
      (otherwise : Bytes) (node : Option g.Jsn)
      → strword (some otherwise) ≡ true
      → bad_word g kv node ≡ false
      → strword (string_or g kv otherwise node) ≡ true
  word_or otherwise none word h = word
  word_or otherwise (some node) word h = ground arith

  check_nodes-LoginEnd :
      (host : Bytes) (user pass dbname sch : Option g.Jsn) (s : Server kv)
      → LoginEnd s (check_nodes g kv w host user pass dbname sch s)
  check_nodes-LoginEnd host user pass dbname sch s = elim (Bool-cases (no_string g kv user)) [
    | inl wrong ↦ rw wrong (fail_400 _ s)
    | inr has_user ↦ elim (Bool-cases (no_string g kv pass)) [
      | inl wrong ↦ rw (has_user, wrong) (fail_400 _ s)
      | inr has_pass ↦ elim (Bool-cases (bad_word g kv dbname)) [
        | inl wrong ↦ rw (has_user, has_pass, wrong) (fail_400 _ s)
        | inr word1 ↦ elim (Bool-cases (bad_word g kv sch)) [
          | inl wrong ↦ rw (has_user, has_pass, word1, wrong) (fail_400 _ s)
          | inr word2 ↦
              rw (has_user, has_pass, word1, word2)
                (connect_format-LoginEnd host w.dbconn _ s
                  (word_or (codes "postgres") dbname postgres_word word1)
                  (word_or (codes "public") sch public_word word2))
        ]
      ]
    ]
  ]

  check_text-LoginEnd :
      (host : Bytes) (entity : Option Bytes) (s : Server kv)
      → LoginEnd s (check_text g kv w host entity s)
  check_text-LoginEnd host none s = fail_400 _ s
  check_text-LoginEnd host (some entity) s = elim (Option-cases (g.jsn_frtext (some entity))) [
    | inl e ↦ rw e (fail_400 _ s)
    | inr (json, e) ↦ rw e (check_nodes-LoginEnd host _ _ _ _ s)
  ]

  login-LoginEnd :
      (host : Option Bytes) (r : Request) (s : Server kv) → LoginEnd s (login g kv w host r s)
  login-LoginEnd none r s = fail-LoginEnd 502 _ s (omega arith) (omega arith)
  login-LoginEnd (some host) r s = check_text-LoginEnd host r.entity s

  -- A login whose request has no session ends in one of these ways, whatever the request and its
  -- headers are: it adds exactly one session, for a connection that stands, with the time as its
  -- last use, under a key made of the address of the connection's own client, and returns 230 with
  -- that key; or the table of sessions stays as it was, with a status from 400 on; or it is undefined.
  pub session_login-LoginEnd :
      (r : Request) (s : Server kv) → LoginEnd s (session_login g kv w r none s)
  unfolding session_login
  session_login-LoginEnd r s = login-LoginEnd w.dbhost r s
