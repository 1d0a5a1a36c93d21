-- ===== src/Tests/Headers.antt =====
-- Headers that are read back, and a request on which reading is undefined.
use gwan_pg_rest_adapter.Prelude.{◌≡◌, some, none, [], ◌∷◌, codes, All, arith}
use gwan_pg_rest_adapter.Utils.Headers.{get_headers}
use gwan_pg_rest_adapter.Utils.Headers.RoundTrip.{
  Field, IsField, IsNameByte, stored, get_headers-print,
}
use gwan_pg_rest_adapter.Utils.Headers.NoColon.{get_headers_no_colon}

abbrev host : Field
host = record { first = b'H'; name = codes "ost"; start = b'a'; value = codes ".org" }

host-IsField : IsField host
host-IsField = record { name = ground arith; value = ground arith; no_blank = ground arith }

get_headers-print_example : get_headers (codes "Host: a.org\r\n\r\n") 24 ≡ some (stored host ∷ [])
get_headers-print_example =
    get_headers-print (host ∷ []) 24 (host-IsField, tt) (omega arith) (omega arith)

get_headers_no_colon_example : get_headers (codes "GET /a\r\nHost:b\r\n\r\n") 24 ≡ none
get_headers_no_colon_example =
    get_headers_no_colon b'G' (codes "ET /a") (codes "Host") b'b' (codes "\r\n\r\n") 24 request_line
      (omega arith) (ground arith) (ground arith)
  where
    request_line : All IsNameByte (codes "GET /a")
    request_line = ground arith
