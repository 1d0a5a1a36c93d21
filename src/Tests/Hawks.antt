-- ===== src/Tests/Hawks.antt =====
-- A Hawk authorization and a request that carries it.
use gwan_pg_rest_adapter.Prelude.{◌≡◌, refl, false, none, [], Bytes, codes, arith}
use gwan_pg_rest_adapter.Endpoint.{Outcome, returned, undefined}
use gwan_pg_rest_adapter.Csp.Action.{Request}
use gwan_pg_rest_adapter.Csp.Servlets.{http_get}
use gwan_pg_rest_adapter.Csp.Hawk.{text, parsed, oauth, main, hawk_parse_artifacts}
use gwan_pg_rest_adapter.Csp.Hawk.Parse.{hawk_parse_artifacts-print}
use gwan_pg_rest_adapter.Csp.Hawk.Requests.{main-request_line}
use gwan_pg_rest_adapter.Tests.Server.{server}

hawk_parse_artifacts-print_example :
    hawk_parse_artifacts
      (codes "Hawk id=\"dh\", ts=\"144\", nonce=\"fa\", ext=\"a\"b\", mac=\"yq=\"")
    ≡ parsed (record {
      id = text (codes "dh");
      ts = text (codes "144");
      nonce = text (codes "fa");
      ext = text (codes "a\"b");
      mac = text (codes "yq=");
    })
hawk_parse_artifacts-print_example =
    hawk_parse_artifacts-print (codes "dh") (codes "144") (codes "fa") (codes "a\"b") (codes "yq=")
      (ground arith) (ground arith) (ground arith) (ground arith) (ground arith)

abbrev bare : Request
bare = record { argc = 0; argv = λ i. none; entity = none }

abbrev answer : Bytes → Outcome Bytes
answer reply = returned 200 reply

main-request_line_example :
    main server answer oauth
      (codes "GET /?oauth HTTP/1.1\r\nHost: a.org\r\nAuthorization: Hawk id=\"1\"\r\n\r\n")
      bare
      false
      http_get
      []
    ≡ undefined
main-request_line_example =
    main-request_line server answer oauth bare false [] b'G' (codes "ET /?oauth HTTP/1.1")
      (codes "Host") (codes " ") b'a' (codes ".org\r\nAuthorization: Hawk id=\"1\"\r\n\r\n") refl
      (ground arith) (omega arith) (ground arith) (ground arith) (ground arith)
