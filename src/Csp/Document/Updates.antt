-- ===== src/Csp/Document/Updates.antt =====
-- What `set_document` of csp/document.c does with a name and a document.
use gwan_pg_rest_adapter.Prelude.{◌≡◌, refl, some, Option, [], ◌++◌, Bytes, codes}
use gwan_pg_rest_adapter.Gwan.{Gwan}
use gwan_pg_rest_adapter.Gwan.Sprintf.{sprintf}
use gwan_pg_rest_adapter.Csp.Action.{Names}
use gwan_pg_rest_adapter.Csp.Document.Write.{set_query}

module _ (g : Gwan) where
  open g use {Jsn, jsn_totext, string}

  -- With a name and a document, the query of `set_document` compares the id with the text of the
  -- document, and the id of the request is not in it.
  pub set_query_misplaced :
      (collection : Bytes) (uuid : Option Bytes) (name document : Jsn) (text : Bytes) (db : Names)
      → string name ≡ some text
      → set_query g (some collection) uuid (some name) (some document) db
        ≡ codes "UPDATE "
          ++ (db.name
              ++ (codes "."
                  ++ (db.schema
                      ++ (codes "."
                          ++ (collection
                              ++ (codes "_collection SET (name, document) = ('"
                                  ++ (text
                                      ++ (codes "') WHERE id = '"
                                          ++ (jsn_totext [] (some document)
                                              ++ codes "' RETURNING id, xmin AS rev;")))))))))
  unfolding set_query sprintf
  set_query_misplaced collection uuid name document text db e =
      rw (set_query, e) (g.xbuf_xcat_lem [] _ _ refl)
