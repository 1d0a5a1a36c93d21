-- ===== src/Reply.antt =====
-- Error replies: `db_error` of libraries/postrest/db.c and `bad_request` of
-- libraries/postrest/utils.c.
pub mod Laws
use gwan_pg_rest_adapter.Prelude.{
  ℕ, Option, none, some, [], ◌∷◌, ◌++◌, Bytes, codes, ltb, if◌then◌else◌, length,
}
use gwan_pg_rest_adapter.Gwan.{Gwan}
use gwan_pg_rest_adapter.Gwan.Sprintf.{str, num}
use gwan_pg_rest_adapter.Utils.Text.{unquote}

-- `status = code < 600 ? code : HTTP_400_BAD_REQUEST` and then `code = status != code ? code : 0`
abbrev pub status_of : ℕ → ℕ
status_of code = if ltb code 600 then code else 400

abbrev pub code_of : ℕ → ℕ
code_of code = if ltb code 600 then 0 else code

abbrev pub error_format : Bytes
error_format = codes "{\"status\":%d,\"error\":\"%s\",\"message\":\"%s\",\"code\":%d}"

module _ (g : Gwan) where
  open g use {xbuf_xcat, http_status, errno}

  -- The status that is returned, and the reply with the error appended.
  unfoldable pub db_error : Bytes → ℕ → Option Bytes → ℕ × Bytes
  db_error reply code (some message) = (
    status_of code,
    xbuf_xcat reply error_format (
        num (status_of code)
        ∷ str (some (unquote (http_status (status_of code))))
        ∷ str (some (unquote message))
        ∷ num (code_of code)
        ∷ []),
  )
  db_error reply code none = (
    status_of code,
    xbuf_xcat reply (codes "{\"status\":%d,\"error\":\"%s\",\"message\":\"%m\",\"code\":%d}") (
        num (status_of code)
        ∷ str (some (unquote (http_status (status_of code))))
        ∷ num errno
        ∷ num errno
        ∷ []),
  )

  -- The body of `bad_request`.
  unfoldable pub bad_request_body : ℕ → Bytes → Bytes
  bad_request_body code message = xbuf_xcat [] error_format (
      num (status_of code)
      ∷ str (some (http_status (status_of code)))
      ∷ str (some (unquote message))
      ∷ num (code_of code)
      ∷ [])

  -- The status, which is also stored in the server's HTTP_CODE, and the reply with the raw HTTP
  -- answer behind it.
  unfoldable pub bad_request : Bytes → ℕ → Bytes → ℕ × Bytes
  unfolding bad_request_body
  bad_request reply code message =
      let body = bad_request_body code message in
      (
        status_of code,
        reply
            ++ xbuf_xcat []
                (codes
                  "HTTP/1.1 %s\r\nContent-type: application/json\r\nContent-Length: %d\r\n\r\n%s")
                (str (some (http_status (status_of code)))
                  ∷ num (length body)
                  ∷ str (some body)
                  ∷ []),
      )
