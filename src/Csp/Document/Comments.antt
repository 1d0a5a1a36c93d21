-- ===== src/Csp/Document/Comments.antt =====
-- A comment in a query of csp/document.c, from the name of the collection.
use gwan_pg_rest_adapter.Prelude.{
  ℕ, ◌≡◌, ◌≢◌, refl, ap, ◌∙◌, inl, some, [], ◌∷◌, ◌++◌, append_assoc, Bytes, All, All-map, arith,
}
use gwan_pg_rest_adapter.Gwan.{Gwan}
use gwan_pg_rest_adapter.Gwan.Sprintf.{sprintf}
use gwan_pg_rest_adapter.Sql.{tokens}
use gwan_pg_rest_adapter.Sql.Scan.{IsPlain, scan_comment_append}
use gwan_pg_rest_adapter.Utils.Validate.Accepts.{IsWordByte, Consists, strword_iff}
use gwan_pg_rest_adapter.Csp.Action.{Request, Names, query, arg}
use gwan_pg_rest_adapter.Csp.Table.{IsPlainNames, NoDash, scan_table, word-IsPlain, Consists-All}
use gwan_pg_rest_adapter.Csp.Document.{delete_query, delete_document}

module _ (g : Gwan) (db : Names) (plain_db : IsPlainNames db) where
  IsWordByte-one_line : (c : ℕ) → IsWordByte c → c ≢ 10
  IsWordByte-one_line c h = ground arith

  dashed-Consists :
      (w : Bytes) → All IsWordByte w → Consists IsWordByte (some (w ++ b'-' ∷ b'-' ∷ []))
  dashed-Consists [] h = (inl refl, (inl refl, tt))
  dashed-Consists (c ∷ w) (h, hs) = (h, dashed w hs)
    where
      dashed : (w : Bytes) → All IsWordByte w → All IsWordByte (w ++ b'-' ∷ b'-' ∷ [])
      dashed [] k = (inl refl, (inl refl, tt))
      dashed (d ∷ v) (k, ks) = (k, dashed v ks)

  commented_query :
      (w uuid : Bytes)
      → All IsPlain w
      → All IsWordByte uuid
      → tokens (delete_query g (some (w ++ b'-' ∷ b'-' ∷ [])) (some uuid) db) ≡ []
  unfolding delete_query sprintf tokens
  commented_query w uuid plain word =
      ap tokens (g.xbuf_xcat_lem [] _ _ refl)
      ∙ rw (append_assoc w) (
          scan_table db w _ plain_db plain
          ∙ scan_comment_append uuid _ (All-map IsWordByte-one_line uuid word))

  -- A collection of a word without '-' and two dashes passes the check of `delete_document`, with
  -- any word as the document id, and comments out the rest of its query when the names of the
  -- session are plain: no literal and no end of the statement is read.
  pub delete_document_commented :
      (r : Request) (w uuid : Bytes)
      → arg r 0 ≡ some (w ++ b'-' ∷ b'-' ∷ [])
      → arg r 1 ≡ some uuid
      → All IsWordByte w
      → NoDash w
      → Consists IsWordByte (some uuid)
      → (text : Names → Bytes) × (delete_document g r ≡ query text) × (tokens (text db) ≡ [])
  unfolding delete_document
  delete_document_commented r w uuid e1 e2 h no_dash k =
      let ok1 = (strword_iff (some (w ++ b'-' ∷ b'-' ∷ []))).1 (dashed-Consists w h) in
      let ok2 = (strword_iff (some uuid)).1 k in
      (
        delete_query g (some (w ++ b'-' ∷ b'-' ∷ [])) (some uuid),
        rw (e1, e2, ok1, ok2),
        commented_query w uuid (word-IsPlain w h no_dash) (Consists-All IsWordByte uuid k),
      )
