-- ===== src/Csp/Hawk/Requests.antt =====
-- Requests to the servlets of csp/hawk.c and csp/oauth.c that name no endpoint.
use gwan_pg_rest_adapter.Prelude.{
  ℕ, ◌≡◌, ◌≢◌, ◌<◌, ap, Bool, none, Bool-cases, inl, inr, ◌∷◌, ◌++◌, Bytes, All, length,
}
use gwan_pg_rest_adapter.Gwan.{Gwan}
use gwan_pg_rest_adapter.Endpoint.{
  Outcome, undefined, exec_endpoint, choose, respond_to, serve, Call,
}
use gwan_pg_rest_adapter.Utils.Headers.RoundTrip.{IsNameByte}
use gwan_pg_rest_adapter.Utils.Headers.NoColon.{IsBlank, get_headers_no_colon_blank}
use gwan_pg_rest_adapter.Csp.Action.{Request}
use gwan_pg_rest_adapter.Csp.Servlets.{http_get}
use gwan_pg_rest_adapter.Csp.Hawk.{
  Servlet, hawk, oauth, main, endpoints, entry, error, get_all, check_headers,
}

-- The text of a request: a request line, a header's name, blanks, and its value and what follows.
abbrev pub request : Bytes → Bytes → Bytes → ℕ → Bytes → Bytes
request line name blanks v rest = line ++ 13 ∷ 10 ∷ (name ++ b':' ∷ (blanks ++ v ∷ rest))

module _ (g : Gwan) (response : Bytes → Outcome Bytes) where
  served :
      (call : Call) (endpoint : Bytes → Outcome Bytes) (reply : Bytes)
      → endpoint reply ≡ undefined
      → serve (error g) response call (entry g http_get none endpoint) reply ≡ undefined
  served call endpoint reply e = elim (Bool-cases call.session) [
    | inl member ↦ rw member (ap (respond_to (error g) response call) e)
    | inr stranger ↦ rw stranger (ap (respond_to (error g) response call) e)
  ]

-- A GET without a command, whose text is a request line of at least two bytes without a colon and
-- then a header with a name and, behind any blanks, a value, none of them with a NUL or a CR up to
-- the value: both servlets read its headers, with a session or without, and are undefined, since
-- `get_headers` takes the request line for a header.
pub main-request_line :
    (g : Gwan) (response : Bytes → Outcome Bytes) (servlet : Servlet) (r : Request) (session : Bool)
    (reply : Bytes) (c : ℕ) (w name blanks : Bytes) (v : ℕ) (rest : Bytes)
    → r.argv 0 ≡ none
    → All IsNameByte (c ∷ w)
    → 0 < length w
    → All IsNameByte name
    → All IsBlank blanks
    → (v ≢ 0) × (v ≢ b' ') × (v ≢ 9)
    → main g response servlet (request (c ∷ w) name blanks v rest) r session http_get reply
      ≡ undefined
unfolding main endpoints exec_endpoint choose get_all
main-request_line g response hawk r session reply c w name blanks v rest cmd line long named bs
      given =
    let e =
      ap (λ o. check_headers o reply)
        (get_headers_no_colon_blank c w name blanks v rest 24 line long named bs given) in
    rw cmd (
      served g response (record { method = http_get; cmd = none; session = session })
        (get_all (request (c ∷ w) name blanks v rest)) reply e)
main-request_line g response oauth r session reply c w name blanks v rest cmd line long named bs
      given =
    let e =
      ap (λ o. check_headers o reply)
        (get_headers_no_colon_blank c w name blanks v rest 24 line long named bs given) in
    rw cmd (
      served g response (record { method = http_get; cmd = none; session = session })
        (get_all (request (c ∷ w) name blanks v rest)) reply e)
