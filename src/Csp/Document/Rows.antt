-- ===== src/Csp/Document/Rows.antt =====
-- The rows that `create_document` of csp/document.c inserts for an array of documents.
use gwan_pg_rest_adapter.Prelude.{
  ◌≡◌, refl, sym, ap, ◌∙◌, Option, none, some, List, [], ◌∷◌, ◌++◌, append_assoc, append-nil, map,
  Bytes, codes,
}
use gwan_pg_rest_adapter.Gwan.{Gwan}
use gwan_pg_rest_adapter.Gwan.Sprintf.{sprintf}
use gwan_pg_rest_adapter.Utils.Text.Laws.{comma_separated}
use gwan_pg_rest_adapter.Csp.Action.{Names}
use gwan_pg_rest_adapter.Csp.Document.Write.{
  string_of, document_of, put_item, put_values, insert_many,
}

module _ (g : Gwan) where
  open g use {Jsn, jsn_byname, jsn_totext, items}

  -- A row with its name, NULL without one, and the text of its document.
  abbrev row : Option Bytes → Option Jsn → Bytes
  row none document = codes "(NULL,'" ++ (jsn_totext [] document ++ codes "')")
  row (some name) document =
      codes "('" ++ (name ++ (codes "','" ++ (jsn_totext [] document ++ codes "')")))

  -- The row of an item: an item with a `_name` holds its document in `_json`, another is it.
  abbrev pub row_of : Jsn → Bytes
  row_of item =
      let name = jsn_byname item (codes "_name") in row (string_of g name) (document_of g item name)

  put_item_lem :
      (buf : Bytes) (name : Option Bytes) (document : Option Jsn)
      → put_item g buf name document ≡ buf ++ row name document
  unfolding sprintf
  put_item_lem buf none document = g.xbuf_xcat_lem buf _ _ refl
  put_item_lem buf (some name) document = g.xbuf_xcat_lem buf _ _ refl

  put_values_lem :
      (list : List Jsn) (buf : Bytes)
      → put_values g buf list ≡ buf ++ comma_separated (map row_of list)
  unfolding put_values sprintf
  put_values_lem [] buf = sym (append-nil buf)
  put_values_lem (item ∷ []) buf = put_item_lem buf _ _
  put_values_lem (item ∷ next ∷ list) buf =
      put_values_lem (next ∷ list) _
      ∙ ap (λ t. t ++ comma_separated (map row_of (next ∷ list)))
          (g.xbuf_xcat_lem _ (codes ",") [] refl ∙ ap (λ t. t ++ codes ",") (put_item_lem buf _ _))
      ∙ append_assoc (buf ++ row_of item) (codes ",") _
      ∙ append_assoc buf (row_of item) _

  -- For an array of documents the query of `create_document` inserts one row for each item, in
  -- their order and separated by commas.
  pub insert_many_lem :
      (collection : Bytes) (documents : Jsn) (db : Names)
      → insert_many g (some collection) documents db
        ≡ (codes "INSERT INTO "
            ++ (db.name
                ++ (codes "."
                    ++ (db.schema
                        ++ (codes "."
                            ++ (collection ++ codes "_collection(name,document) VALUES "))))))
          ++ comma_separated (map row_of (items documents))
  unfolding insert_many sprintf
  insert_many_lem collection documents db =
      put_values_lem (items documents) _
      ∙ ap (λ t. t ++ comma_separated (map row_of (items documents))) (g.xbuf_xcat_lem [] _ _ refl)
