-- ===== src/Csp/Document/Pages.antt =====
-- The queries of csp/document.c that list documents, with their limit and offset.
use gwan_pg_rest_adapter.Prelude.{
  ℕ, ◌≡◌, refl, sym, ap, ◌∙◌, not, some, [], ◌∷◌, ◌++◌, append_assoc, append-nil, Bytes, codes, All,
  All-map, arith, ◌==◌, if◌then◌else◌, inl, inr, Bool-cases,
}
use gwan_pg_rest_adapter.Gwan.{Gwan}
use gwan_pg_rest_adapter.Gwan.Sprintf.{sprintf, decimal, num}
use gwan_pg_rest_adapter.Gwan.Sprintf.Decimal.{decimal-IsDigitByte}
use gwan_pg_rest_adapter.Sql.{scan, normal, tokens, stop}
use gwan_pg_rest_adapter.Sql.Scan.{IsPlain, scan_plain}
use gwan_pg_rest_adapter.Utils.Validate.{strword}
use gwan_pg_rest_adapter.Utils.Validate.Accepts.{IsWordByte}
use gwan_pg_rest_adapter.Csp.Action.{Request, Names, query, arg, guard-inv, query-inj}
use gwan_pg_rest_adapter.Csp.Table.{IsPlainNames, NoDash, scan_table, strword-some, word-IsPlain}
use gwan_pg_rest_adapter.Csp.Document.{
  put_page, all_query, list_query, all_document, list_document, number,
}

-- What a limit and an offset add.
abbrev clause : Bytes → ℕ → Bytes
clause word n = if n == 0 then [] else word ++ decimal n

abbrev page : ℕ → ℕ → Bytes
page limit offset =
    clause (codes " LIMIT ") limit ++ (clause (codes " OFFSET ") offset ++ codes ";")

decimal-IsPlain : (n : ℕ) → All IsPlain (decimal n)
decimal-IsPlain n = All-map (λ c h. ground arith) (decimal n) (decimal-IsDigitByte n)

scan-clause :
    (word rest : Bytes) (n : ℕ)
    → All IsPlain word
    → scan normal (clause word n ++ rest) ≡ scan normal rest
scan-clause word rest n h = elim (Bool-cases (n == 0)) [
  | inl none ↦ rw none refl
  | inr given ↦ rw given (
      rw (append_assoc word)
        (scan_plain word _ h ∙ scan_plain (decimal n) rest (decimal-IsPlain n)))
]

scan-page : (limit offset : ℕ) → scan normal (page limit offset) ≡ stop ∷ []
unfolding scan
scan-page limit offset =
    scan-clause (codes " LIMIT ") _ limit (ground arith)
    ∙ scan-clause (codes " OFFSET ") _ offset (ground arith)

module _ (g : Gwan) (db : Names) (plain_db : IsPlainNames db) where
  put_number :
      (buf fmt : Bytes) (n : ℕ) (word : Bytes)
      → sprintf fmt (num n ∷ []) ≡ some (word ++ decimal n)
      → (if n == 0 then buf else g.xbuf_xcat buf fmt (num n ∷ [])) ≡ buf ++ clause word n
  put_number buf fmt n word e = elim (Bool-cases (n == 0)) [
    | inl none ↦ rw none (sym (append-nil buf))
    | inr given ↦ rw given (g.xbuf_xcat_lem buf fmt (num n ∷ []) e)
  ]

  put_page_lem :
      (limit offset : ℕ) (buf : Bytes) → put_page g limit offset buf ≡ buf ++ page limit offset
  unfolding put_page sprintf
  put_page_lem limit offset buf =
      let limited =
        put_number buf (codes " LIMIT %u") limit (codes " LIMIT ")
          (ap (λ d. some (codes " LIMIT " ++ d)) (append-nil (decimal limit))) in
      let paged =
        put_number _ (codes " OFFSET %u") offset (codes " OFFSET ")
          (ap (λ d. some (codes " OFFSET " ++ d)) (append-nil (decimal offset))) in
      g.xbuf_xcat_lem _ (codes ";") [] refl
      ∙ ap (λ t. t ++ codes ";") (paged ∙ ap (λ t. t ++ clause (codes " OFFSET ") offset) limited)
      ∙ append_assoc (buf ++ clause (codes " LIMIT ") limit) _ _
      ∙ append_assoc buf _ _

  scan_table_page :
      (collection : Bytes) (limit offset : ℕ)
      → All IsPlain collection
      → scan normal (
          (db.name ++ b'.' ∷ (db.schema ++ b'.' ∷ (collection ++ codes "_collection")))
          ++ page limit offset)
        ≡ stop ∷ []
  unfolding scan
  scan_table_page collection limit offset plain = rw (append_assoc db.name) (
      rw (append_assoc db.schema) (
        rw (append_assoc collection)
          (scan_table db collection _ plain_db plain ∙ scan-page limit offset)))

  list_query-tokens :
      (collection : Bytes) (limit offset : ℕ)
      → All IsPlain collection
      → tokens (list_query g (some collection) limit offset db) ≡ stop ∷ []
  unfolding list_query sprintf tokens
  list_query-tokens collection limit offset plain =
      ap tokens (
        put_page_lem limit offset _
        ∙ ap (λ t. t ++ page limit offset) (g.xbuf_xcat_lem [] _ _ refl))
      ∙ scan_table_page collection limit offset plain

  all_query-tokens :
      (collection : Bytes) (limit offset : ℕ)
      → All IsPlain collection
      → tokens (all_query g (some collection) limit offset db) ≡ stop ∷ []
  unfolding all_query sprintf tokens
  all_query-tokens collection limit offset plain =
      ap tokens (
        put_page_lem limit offset _
        ∙ ap (λ t. t ++ page limit offset) (g.xbuf_xcat_lem [] _ _ refl))
      ∙ scan_table_page collection limit offset plain

  -- The query of `list_document` has no string literal and is one statement, whatever the request
  -- with its limit and its offset, when its collection, a word, has no '-' and the names of the
  -- session are plain.
  pub list_document-tokens :
      (r : Request) (text : Names → Bytes)
      → list_document g r ≡ query text
      → (collection : Bytes) × (arg r 1 ≡ some collection)
        × All IsWordByte collection
        × (NoDash collection → tokens (text db) ≡ stop ∷ [])
  unfolding list_document
  list_document-tokens r text h =
      let (word, h1) = guard-inv (not (strword (arg r 1))) _ _ h in
      let (collection, e, w) = strword-some (arg r 1) (ground arith) in
      let list = list_query-tokens collection (number g (arg r 2)) (number g (arg r 3)) in
      (
        collection,
        e,
        w,
        λ no_dash. rw (query-inj h1) (rw e (list (word-IsPlain collection w no_dash))),
      )

  -- The same of `all_document`: no string literal and one statement, whatever the request with its
  -- limit and its offset, when its collection, a word, has no '-' and the names of the session are
  -- plain.
  pub all_document-tokens :
      (r : Request) (text : Names → Bytes)
      → all_document g r ≡ query text
      → (collection : Bytes) × (arg r 1 ≡ some collection)
        × All IsWordByte collection
        × (NoDash collection → tokens (text db) ≡ stop ∷ [])
  unfolding all_document
  all_document-tokens r text h =
      let (word, h1) = guard-inv (not (strword (arg r 1))) _ _ h in
      let (collection, e, w) = strword-some (arg r 1) (ground arith) in
      let all = all_query-tokens collection (number g (arg r 2)) (number g (arg r 3)) in
      (
        collection,
        e,
        w,
        λ no_dash. rw (query-inj h1) (rw e (all (word-IsPlain collection w no_dash))),
      )
