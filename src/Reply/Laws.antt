-- ===== src/Reply/Laws.antt =====
-- What an error reply says.
use gwan_pg_rest_adapter.Prelude.{
  ℕ, ◌^◌, ◌<◌, ◌≤◌, ◌≡◌, ◌≢◌, ◌⊎◌, inl, inr, ◌∙◌, refl, sym, append_assoc, ap, Bool-cases, false,
  Option, some, List, [], ◌∷◌, ◌==◌, ltb, if◌then◌else◌, All, All-map, arith, Bytes, codes, ◌++◌,
}
use gwan_pg_rest_adapter.Gwan.{Gwan}
use gwan_pg_rest_adapter.Gwan.Sprintf.{decimal, sprintf, format, prepend, format_int, num, str}
use gwan_pg_rest_adapter.Gwan.Sprintf.Decimal.{IsDigitByte, decimal-IsDigitByte}
use gwan_pg_rest_adapter.Utils.Text.{unquote}
use gwan_pg_rest_adapter.Utils.Text.Laws.{unquote-IsUnquoted}
use gwan_pg_rest_adapter.Reply.{error_format, db_error}

-- What stands between the double quotes of a text.
abbrev with_front : ℕ → List Bytes → List Bytes
with_front c [] = (c ∷ []) ∷ []
with_front c (w ∷ ws) = (c ∷ w) ∷ ws

abbrev pub pieces : Bytes → List Bytes
pieces [] = [] ∷ []
pieces (c ∷ s) = let rest = pieces s in if c == b'"' then [] ∷ rest else with_front c rest

pieces-append :
    (w rest : Bytes) → All (λ c. c ≢ b'"') w → pieces (w ++ b'"' ∷ rest) ≡ w ∷ pieces rest
pieces-append [] rest h = refl
pieces-append (c ∷ w) rest (h, hs) =
    let other : (c == b'"') ≡ false = ground arith in
    rw other (ap (with_front c) (pieces-append w rest hs))

pieces-end :
    (w rest : Bytes)
    → All (λ c. c ≢ b'"') w
    → pieces rest ≡ rest ∷ []
    → pieces (w ++ rest) ≡ (w ++ rest) ∷ []
pieces-end [] rest h e = e
pieces-end (c ∷ w) rest (h, hs) e =
    let other : (c == b'"') ≡ false = ground arith in
    rw other (ap (with_front c) (pieces-end w rest hs e))

digits_other : (n : ℕ) → All (λ c. c ≢ b'"') (decimal n)
digits_other n =
    All-map (λ c (h : IsDigitByte c). λ e. omega (arith, h.0, h.1, e)) (decimal n)
      (decimal-IsDigitByte n)

-- The bytes of a format in front of a conversion.
abbrev spelled : Bytes → Option Bytes → Option Bytes
spelled [] o = o
spelled (c ∷ w) o = prepend (c ∷ []) (spelled w o)

-- {"status":…,"error":"…","message":"…","code":…}
abbrev pub error_pieces : ℕ → Bytes → Bytes → ℕ → List Bytes
error_pieces status phrase message code =
    codes "{"
    ∷ codes "status"
    ∷ (b':' ∷ (decimal status ++ codes ","))
    ∷ codes "error"
    ∷ codes ":"
    ∷ phrase
    ∷ codes ","
    ∷ codes "message"
    ∷ codes ":"
    ∷ message
    ∷ codes ","
    ∷ codes "code"
    ∷ (b':' ∷ (decimal code ++ codes "}"))
    ∷ []

abbrev error_text : ℕ → Bytes → Bytes → ℕ → Bytes
error_text status phrase message code =
    codes "{\"status\":"
    ++ (decimal status
        ++ (codes ",\"error\":\""
            ++ (phrase
                ++ (codes "\",\"message\":\""
                    ++ (message ++ (codes "\",\"code\":" ++ (decimal code ++ codes "}")))))))

error_text-pieces :
    (status : ℕ) (phrase message : Bytes) (code : ℕ)
    → All (λ c. c ≢ b'"') phrase
    → All (λ c. c ≢ b'"') message
    → pieces (error_text status phrase message code) ≡ error_pieces status phrase message code
error_text-pieces status phrase message code h k =
    let last = b':' ∷ (decimal code ++ codes "}") in
    let behind_message = codes ",\"code\":" ++ (decimal code ++ codes "}") in
    let behind_phrase = codes ",\"message\":\"" ++ (message ++ b'"' ∷ behind_message) in
    let behind_status = codes "error\":\"" ++ (phrase ++ b'"' ∷ behind_phrase) in
    ap (λ t. codes "{" ∷ codes "status" ∷ pieces (b':' ∷ t))
      (sym (append_assoc (decimal status) (codes ",") (b'"' ∷ behind_status)))
    ∙ ap (λ ps. codes "{" ∷ codes "status" ∷ ps)
        (pieces-append (b':' ∷ (decimal status ++ codes ",")) behind_status
          (ground arith, comma (decimal status) (digits_other status)))
    ∙ ap
        (λ ps.
          codes "{"
          ∷ codes "status"
          ∷ (b':' ∷ (decimal status ++ codes ","))
          ∷ codes "error"
          ∷ codes ":"
          ∷ ps)
        (pieces-append phrase behind_phrase h)
    ∙ ap
        (λ ps.
          codes "{"
          ∷ codes "status"
          ∷ (b':' ∷ (decimal status ++ codes ","))
          ∷ codes "error"
          ∷ codes ":"
          ∷ phrase
          ∷ codes ","
          ∷ codes "message"
          ∷ codes ":"
          ∷ ps)
        (pieces-append message behind_message k)
    ∙ ap
        (λ ps.
          codes "{"
          ∷ codes "status"
          ∷ (b':' ∷ (decimal status ++ codes ","))
          ∷ codes "error"
          ∷ codes ":"
          ∷ phrase
          ∷ codes ","
          ∷ codes "message"
          ∷ codes ":"
          ∷ message
          ∷ codes ","
          ∷ codes "code"
          ∷ ps)
        (pieces-end (b':' ∷ decimal code) (codes "}") (ground arith, digits_other code) refl)
  where
    comma : (w : Bytes) → All (λ c. c ≢ b'"') w → All (λ c. c ≢ b'"') (w ++ codes ",")
    comma [] e = (ground arith, tt)
    comma (c ∷ w) (e, es) = (e, comma w es)

module _ (g : Gwan) where
  open g use {http_status, xbuf_xcat, xbuf_xcat_lem}

  error_format-printed :
      (reply : Bytes) (status : ℕ) (phrase message : Bytes) (code : ℕ)
      → status < 2 ^ 31
      → code < 2 ^ 31
      → xbuf_xcat reply error_format
          (num status ∷ str (some phrase) ∷ str (some message) ∷ num code ∷ [])
        ≡ reply ++ error_text status phrase message code
  unfolding sprintf format
  error_format-printed reply status phrase message code h k =
      let text : sprintf error_format
            (num status ∷ str (some phrase) ∷ str (some message) ∷ num code ∷ [])
          ≡ some (error_text status phrase message code) =
        ap (spelled (codes "{\"status\":")) (
          format_int status (codes ",\"error\":\"%s\",\"message\":\"%s\",\"code\":%d}")
            (str (some phrase) ∷ str (some message) ∷ num code ∷ []) h)
        ∙ ap
            (λ o. spelled (codes "{\"status\":") (
              prepend (decimal status) (
                spelled (codes ",\"error\":\"") (
                  prepend phrase (
                    spelled (codes "\",\"message\":\"")
                      (prepend message (spelled (codes "\",\"code\":") o)))))))
            (format_int code (codes "}") [] k) in
      xbuf_xcat_lem reply _ _ text

  -- For a code that is a non-negative int, `db_error` with a message appends a text to the reply in
  -- which exactly twelve double quotes stand: between them are the names status, error, message and
  -- code of one object, the unquoted reason phrase and the unquoted message, whatever they were. A
  -- code below 600 is the status, and the code 0; from 600 on the status is 400, and the code the
  -- one given. The status is returned.
  pub db_error-pieces :
      (reply : Bytes) (code : ℕ) (message : Bytes)
      → code < 2 ^ 31
      → (text : Bytes) × (((code < 600)
            × (db_error g reply code (some message) ≡ (code, reply ++ text))
            × (pieces text ≡ error_pieces code (unquote (http_status code)) (unquote message) 0))
          ⊎ ((600 ≤ code)
              × (db_error g reply code (some message) ≡ (400, reply ++ text))
              × (pieces text
                  ≡ error_pieces 400 (unquote (http_status 400)) (unquote message) code)))
  unfolding db_error
  db_error-pieces reply code message h = elim (Bool-cases (ltb code 600)) [
    | inl low ↦
        let phrase = unquote (http_status code) in
        (
          error_text code phrase (unquote message) 0,
          inl (
            ground arith,
            rw low (
                ap (λ r. (code, r))
                  (error_format-printed reply code phrase (unquote message) 0 h (omega arith))),
            error_text-pieces code phrase (unquote message) 0 (no_quote (http_status code))
                (no_quote message),
          ),
        )
    | inr high ↦
        let phrase = unquote (http_status 400) in
        (
          error_text 400 phrase (unquote message) code,
          inr (
            ground arith,
            rw high (
                ap (λ r. (400, r))
                  (error_format-printed reply 400 phrase (unquote message) code (omega arith) h)),
            error_text-pieces 400 phrase (unquote message) code (no_quote (http_status 400))
                (no_quote message),
          ),
        )
  ]
    where
      no_quote : (s : Bytes) → All (λ c. c ≢ b'"') (unquote s)
      no_quote s = All-map (λ c e. e.2) (unquote s) (unquote-IsUnquoted s)
