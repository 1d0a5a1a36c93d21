-- ===== src/Csp/Document/Reads.antt =====
-- How the database reads the queries of csp/document.c.
use gwan_pg_rest_adapter.Prelude.{
  ◌<◌, ◌≡◌, refl, ap, ◌∙◌, subst, true, Option, none, some, [], ◌∷◌, Bytes, All, length, c_str,
  arith,
}
use gwan_pg_rest_adapter.Gwan.{Gwan}
use gwan_pg_rest_adapter.Gwan.Sprintf.{sprintf}
use gwan_pg_rest_adapter.Sql.{tokens, literal, stop}
use gwan_pg_rest_adapter.Sql.Scan.{IsPlain, IsUnquoted, scan_quoted}
use gwan_pg_rest_adapter.Utils.Validate.{strword, is_string}
use gwan_pg_rest_adapter.Utils.Validate.Accepts.{IsWordByte, IsStringByte, is_string_iff}
use gwan_pg_rest_adapter.Csp.Action.{Request, Names, query, arg}
use gwan_pg_rest_adapter.Utils.UrlDecode.{url_decode}
use gwan_pg_rest_adapter.Csp.Table.{
  IsPlainNames, NoDash, scan_table, strword-some, is_string-some, word-IsPlain, word-IsUnquoted,
  string-IsUnquoted, Consists-All,
}
use gwan_pg_rest_adapter.Csp.Document.{
  get_query, getbyname_query, delete_query, get_document, getbyname_document, delete_document,
  decode_name, named,
}

module _ (g : Gwan) (db : Names) (plain_db : IsPlainNames db) where
  get_query-tokens :
      (collection uuid : Bytes)
      → All IsPlain collection
      → All IsUnquoted uuid
      → tokens (get_query g (some collection) (some uuid) db) ≡ literal uuid ∷ stop ∷ []
  unfolding get_query sprintf tokens
  get_query-tokens collection uuid plain unquoted =
      ap tokens (g.xbuf_xcat_lem [] _ _ refl)
      ∙ scan_table db collection _ plain_db plain
      ∙ scan_quoted uuid [] _ unquoted

  delete_query-tokens :
      (collection uuid : Bytes)
      → All IsPlain collection
      → All IsUnquoted uuid
      → tokens (delete_query g (some collection) (some uuid) db) ≡ literal uuid ∷ stop ∷ []
  unfolding delete_query sprintf tokens
  delete_query-tokens collection uuid plain unquoted =
      ap tokens (g.xbuf_xcat_lem [] _ _ refl)
      ∙ scan_table db collection _ plain_db plain
      ∙ scan_quoted uuid [] _ unquoted

  get_document-inv :
      (r : Request) (text : Names → Bytes)
      → get_document g r ≡ query text
      → (strword (arg r 1) ≡ true)
        × (strword (arg r 2) ≡ true)
        × (text ≡ get_query g (arg r 1) (arg r 2))
  unfolding get_document
  get_document-inv r text h = ground arith

  -- The query of `get_document` has one string literal, the document id of the request, and is one
  -- statement, whatever the request, when its collection has no '-' and the names of the session
  -- are plain. Both are words.
  pub get_document-tokens :
      (r : Request) (text : Names → Bytes)
      → get_document g r ≡ query text
      → (collection : Bytes) × (uuid : Bytes) × (arg r 1 ≡ some collection)
        × (arg r 2 ≡ some uuid)
        × All IsWordByte collection
        × All IsWordByte uuid
        × (NoDash collection → tokens (text db) ≡ literal uuid ∷ stop ∷ [])
  get_document-tokens r text h =
      let (w1, w2, e) = get_document-inv r text h in
      let (collection, e1, h1) = strword-some (arg r 1) w1 in
      let (uuid, e2, h2) = strword-some (arg r 2) w2 in
      (
        collection,
        uuid,
        e1,
        e2,
        h1,
        h2,
        λ no_dash. rw e (
            rw e1 (
              rw e2 (
                get_query-tokens collection uuid (word-IsPlain collection h1 no_dash)
                  (word-IsUnquoted uuid h2)))),
      )

  delete_document-inv :
      (r : Request) (text : Names → Bytes)
      → delete_document g r ≡ query text
      → (strword (arg r 0) ≡ true)
        × (strword (arg r 1) ≡ true)
        × (text ≡ delete_query g (arg r 0) (arg r 1))
  unfolding delete_document
  delete_document-inv r text h = ground arith

  -- The query of `delete_document` has one string literal, the document id of the request, and is
  -- one statement, whatever the request, when its collection has no '-' and the names of the session
  -- are plain. Both are words.
  pub delete_document-tokens :
      (r : Request) (text : Names → Bytes)
      → delete_document g r ≡ query text
      → (collection : Bytes) × (uuid : Bytes) × (arg r 0 ≡ some collection)
        × (arg r 1 ≡ some uuid)
        × All IsWordByte collection
        × All IsWordByte uuid
        × (NoDash collection → tokens (text db) ≡ literal uuid ∷ stop ∷ [])
  delete_document-tokens r text h =
      let (w1, w2, e) = delete_document-inv r text h in
      let (collection, e1, h1) = strword-some (arg r 0) w1 in
      let (uuid, e2, h2) = strword-some (arg r 1) w2 in
      (
        collection,
        uuid,
        e1,
        e2,
        h1,
        h2,
        λ no_dash. rw e (
            rw e1 (
              rw e2 (
                delete_query-tokens collection uuid (word-IsPlain collection h1 no_dash)
                  (word-IsUnquoted uuid h2)))),
      )

  getbyname_query-tokens :
      (collection name : Bytes)
      → All IsPlain collection
      → All IsUnquoted name
      → tokens (getbyname_query g (some collection) name db) ≡ literal name ∷ stop ∷ []
  unfolding getbyname_query sprintf tokens
  getbyname_query-tokens collection name plain unquoted =
      ap tokens (g.xbuf_xcat_lem [] _ _ refl)
      ∙ scan_table db collection _ plain_db plain
      ∙ scan_quoted name [] _ unquoted

  getbyname_document-inv :
      (r : Request) (text : Names → Bytes)
      → getbyname_document g r ≡ query text
      → (strword (arg r 1) ≡ true)
        × (is_string (arg r 2) ≡ true)
        × (named g (arg r 1) (decode_name g (arg r 2)) ≡ query text)
  unfolding getbyname_document
  getbyname_document-inv r text h = ground arith

  named-inv :
      (collection : Option Bytes) (decoded : Option Bytes) (text : Names → Bytes)
      → named g collection decoded ≡ query text
      → (s : Bytes) × (decoded ≡ some s)
        × (is_string (some s) ≡ true)
        × (text ≡ getbyname_query g collection s)
  named-inv collection none text h = cc
  named-inv collection (some s) text h = (s, refl, ground arith, ground arith)

  decode_name-inv :
      (name s : Bytes)
      → decode_name g (some name) ≡ some s
      → (length (url_decode name) < 256) × (s ≡ c_str (url_decode name))
  decode_name-inv name s h = ground arith

  -- The query of `getbyname_document` has one string literal, the name of the request after
  -- percent-decoding, and is one statement, whatever the request, when its collection has no '-'
  -- and the names of the session are plain. The decoded name fits its buffer.
  pub getbyname_document-tokens :
      (r : Request) (text : Names → Bytes)
      → getbyname_document g r ≡ query text
      → (collection : Bytes) × (name : Bytes) × (arg r 1 ≡ some collection)
        × (arg r 2 ≡ some name)
        × (length (url_decode name) < 256)
        × (NoDash collection → tokens (text db) ≡ literal (c_str (url_decode name)) ∷ stop ∷ [])
  getbyname_document-tokens r text h =
      let (w1, w2, e) = getbyname_document-inv r text h in
      let (collection, e1, h1) = strword-some (arg r 1) w1 in
      let (name, e2, h2) = is_string-some (arg r 2) w2 in
      let (s, decoded, ok, is_text) = named-inv (arg r 1) (decode_name g (arg r 2)) text e in
      let (fits, same) =
        decode_name-inv name s (subst (λ o. decode_name g o ≡ some s) e2 decoded) in
      (
        collection,
        name,
        e1,
        e2,
        fits,
        λ no_dash. rw is_text (
            rw e1 (
              getbyname_query-tokens collection s (word-IsPlain collection h1 no_dash)
                (string-IsUnquoted s (Consists-All IsStringByte s ((is_string_iff (some s)).0 ok)))
              ∙ ap (λ n. literal n ∷ stop ∷ []) same)),
      )
