-- ===== src/Csp/Hawk.antt =====
-- csp/hawk.c and csp/oauth.c: the same reader of Hawk authorizations, and the endpoints around it.
-- A text is read in place: a token is a pointer into the header, ended by a NUL that is written
-- there, always behind the tokens read before.
pub mod Parse
pub mod Requests
use gwan_pg_rest_adapter.Prelude.{
  ℕ, Bool, true, false, Option, none, some, List, [], ◌∷◌, Bytes, codes, length, ltb, ◌==◌,
  if◌then◌else◌,
}
use gwan_pg_rest_adapter.Gwan.{Gwan}
use gwan_pg_rest_adapter.Reply.{db_error}
use gwan_pg_rest_adapter.Endpoint.{
  Outcome, returned, undefined, Entry, Call, permit_unauth, exec_endpoint,
}
use gwan_pg_rest_adapter.Utils.Headers.{Header, get_headers, get_header_value}
use gwan_pg_rest_adapter.Csp.Action.{Request}
use gwan_pg_rest_adapter.Csp.Servlets.{http_get, http_post}

-- What a token points at: a null pointer, a text, or a text from a comma on, where the NUL that was
-- to end it stands in front of it.
pub data Token : Type 0 where
  missing : Token
  text overruns : Bytes → Token

-- What follows `s` at the start of a text.
unfoldable pub strip : Bytes → Bytes → Option Bytes
strip [] t = some t
strip (c ∷ s) [] = none
strip (c ∷ s) (d ∷ t) = let rest = strip s t in if c == d then rest else none

-- `strstr`: what follows the first `s` in a text.
unfoldable pub strstr : Bytes → Bytes → Option Bytes
unfolding strip
strstr s [] = strip s []
strstr s (d ∷ t) = elim (strip s (d ∷ t)) [ none ↦ strstr s t | some rest ↦ some rest ]

-- `strchr(token, ',')`: what stands before the comma and behind it.
unfoldable pub split_comma : Bytes → Option (Bytes × Bytes)
split_comma [] = none
split_comma (c ∷ s) = elim (c == b',') [
  | true ↦ some ([], s)
  | false ↦ elim (split_comma s) [ none ↦ none | some (v, rest) ↦ some (c ∷ v, rest) ]
]

-- `*(str-1) = 0` on the bytes of a token before `str`.
abbrev pub drop_last : Bytes → Bytes
drop_last [] = []
drop_last (c ∷ []) = []
drop_last (c ∷ d ∷ s) = c ∷ drop_last (d ∷ s)

abbrev pub bare_token : Bytes → Option (Bytes × Bytes) → Token × Option Bytes
bare_token t none = (text t, none)
bare_token t (some (v, rest)) = (text v, some rest)

abbrev pub quoted_token : Bytes → Option (Bytes × Bytes) → Token × Option Bytes
quoted_token t none = (text (drop_last t), none)
quoted_token t (some ([], rest)) = (overruns (b',' ∷ rest), some rest)
quoted_token t (some (c ∷ v, rest)) = (text (drop_last (c ∷ v)), some rest)

-- From behind the name of a token on.
abbrev pub read_value : Bytes → Token × Option Bytes
read_value [] = (text [], none)
read_value (c ∷ t) =
    let plain = bare_token (c ∷ t) (split_comma (c ∷ t)) in
    if c == b'"' then quoted_token t (split_comma t) else plain

abbrev pub read_found : Bytes → Option Bytes → Token × Option Bytes
read_found p none = (missing, some p)
read_found p (some rest) = read_value rest

-- The token and the new `*p`.
unfoldable pub hawk_parse_token : Bytes → Option Bytes → Token × Option Bytes
unfolding strstr split_comma
hawk_parse_token s none = (missing, none)
hawk_parse_token s (some p) =
    if ltb (length s) 2 then (missing, some p) else read_found p (strstr s p)

-- The fields of `struct hawk_artifacts` that are read from the authorization.
pub record Artifacts : Type 0 where
  pub id : Token
  pub ts : Token
  pub nonce : Token
  pub ext : Token
  pub mac : Token

-- `refused`: 0 is returned. `untouched`: 1, and no field is set.
pub data Parsed : Type 0 where
  refused untouched : Parsed
  parsed : Artifacts → Parsed

abbrev pub parse_tokens : Bytes → Artifacts
parse_tokens p =
    let (id, p1) = hawk_parse_token (codes "id=") (some p) in
    let (ts, p2) = hawk_parse_token (codes "ts=") p1 in
    let (nonce, p3) = hawk_parse_token (codes "nonce=") p2 in
    let (ext, p4) = hawk_parse_token (codes "ext=") p3 in
    let (mac, p5) = hawk_parse_token (codes "mac=") p4 in
    record { id = id; ts = ts; nonce = nonce; ext = ext; mac = mac }

-- Behind "Hawk", the byte that is overwritten and the tokens.
abbrev pub parse_rest : Option Bytes → Parsed
parse_rest none = refused
parse_rest (some []) = untouched
parse_rest (some (c ∷ p)) = parsed (parse_tokens p)

unfoldable pub hawk_parse_artifacts : Bytes → Parsed
unfolding strip hawk_parse_token
hawk_parse_artifacts authorization = parse_rest (strip (codes "Hawk") authorization)

abbrev pub status_of : Parsed → ℕ
status_of refused = 400
status_of untouched = 200
status_of (parsed artifacts) = 200

abbrev pub authorize : Option Bytes → ℕ
authorize none = 400
authorize (some authorization) = status_of (hawk_parse_artifacts authorization)

abbrev pub check_headers : Option (List Header) → Bytes → Outcome Bytes
check_headers none reply = undefined
check_headers (some headers) reply =
    returned (authorize (get_header_value headers (codes "authorization"))) reply

-- The endpoints change the reply at most; the artifacts are only printed.
unfoldable pub get_all : Bytes → Bytes → Outcome Bytes
unfolding hawk_parse_artifacts
get_all req reply = check_headers (get_headers req 24) reply

unfoldable pub get_authorize : Bytes → Outcome Bytes
get_authorize reply = returned 202 reply

-- The servlets of csp/hawk.c and csp/oauth.c.
pub data Servlet : Type 0 where
  hawk oauth : Servlet

-- The method of the entry "token".
abbrev pub token_method : Servlet → ℕ
token_method hawk = http_get
token_method oauth = http_post

module _ (g : Gwan) where
  unfoldable pub get_token : Bytes → Outcome Bytes
  get_token reply = returned 230 (g.xbuf_xcat reply (codes "{\"token\":\"1234ABCDEF\"}") [])

  abbrev pub error : ℕ → Bytes → Bytes → Outcome Bytes
  error code message reply =
      let (status, reply') = db_error g reply code (some message) in returned status reply'

  abbrev pub entry : ℕ → Option Bytes → (Bytes → Outcome Bytes) → Entry Bytes
  entry method cmd endpoint = record {
    method = method;
    cmd = cmd;
    endpoint = endpoint;
    flags = permit_unauth;
  }

  unfoldable pub endpoints : Servlet → Bytes → List (Entry Bytes)
  endpoints servlet req =
      entry http_get (some (codes "authorize")) get_authorize
      ∷ entry (token_method servlet) (some (codes "token")) get_token
      ∷ entry http_get none (get_all req)
      ∷ []

  -- `response` is `db_response`, and `session` whether `db_session` found one.
  unfoldable pub main :
      (Bytes → Outcome Bytes) → Servlet → Bytes → Request → Bool → ℕ → Bytes → Outcome Bytes
  unfolding endpoints
  main response servlet req r session method reply =
      exec_endpoint error response (record { method = method; cmd = r.argv 0; session = session })
        (endpoints servlet req) reply
