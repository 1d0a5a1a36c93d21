-- ===== src/Csp/Index.antt =====
-- csp/index.c: indexes on the fields of a collection's documents.
use gwan_pg_rest_adapter.Prelude.{
  not, ◌||◌, Option, none, some, [], ◌∷◌, Bytes, codes, if◌then◌else◌,
}
use gwan_pg_rest_adapter.Gwan.{Gwan, is_string_type}
use gwan_pg_rest_adapter.Gwan.Sprintf.{str}
use gwan_pg_rest_adapter.Utils.Validate.{strword}
use gwan_pg_rest_adapter.Csp.Action.{
  Request, Names, Action, reject, respond, query, status, reply_js_error,
}
use gwan_pg_rest_adapter.Csp.Document.{collection_message}
use gwan_pg_rest_adapter.Csp.Collection.{drop_with}

unfoldable pub get_index : Request → Action
get_index r = status 501

unfoldable pub update_index : Request → Action
update_index r = status 501

module _ (g : Gwan) where
  open g use {Jsn, xbuf_xcat, s_snprintf, jsn_frtext, jsn_byname, type, string, memory}

  abbrev index_name : Option Bytes → Option Bytes → Names → Bytes
  index_name collection field db =
      s_snprintf 127 (codes "%s_%s_%s_%s_idx")
        (str (some db.name) ∷ str (some db.schema) ∷ str collection ∷ str field ∷ [])

  unfoldable pub drop_query : Option Bytes → Option Bytes → Bytes → Names → Bytes
  drop_query collection field method db =
      xbuf_xcat [] (codes "DROP INDEX IF EXISTS %s %s;")
        (str (some (index_name collection field db)) ∷ str (some method) ∷ [])

  unfoldable pub delete_index : Request → Action
  delete_index r =
      if not (strword (r.argv 0))
      then reject 422 collection_message
      else if not (strword (r.argv 1))
      then reject 422 (codes "[index] name must be a word <string>")
      else drop_with g (drop_query (r.argv 0) (r.argv 1)) r.entity (jsn_frtext r.entity)

  -- The name of the index is printed from the node `field`, not from its string.
  unfoldable pub create_query : Option Bytes → Jsn → Names → Bytes
  create_query collection field db =
      xbuf_xcat []
        (codes "CREATE INDEX CONCURRENTLY %s ON %s.%s.%s_collection USING GIN ((document->'%s'));")
        (str (some (index_name collection (memory field) db))
          ∷ str (some db.name)
          ∷ str (some db.schema)
          ∷ str collection
          ∷ str (string field)
          ∷ [])

  abbrev create_on : Option Bytes → Option Jsn → Action
  create_on collection none =
      respond 400 (reply_js_error g 400 (codes "[field] must be a word <string>"))
  create_on collection (some field) =
      if not (is_string_type (type field)) || not (strword (string field))
      then respond 400 (reply_js_error g 400 (codes "[field] must be a word <string>"))
      else query (create_query collection field)

  unfoldable pub create_index : Request → Action
  create_index r =
      if not (strword (r.argv 0))
      then reject 422 collection_message
      else elim (jsn_frtext r.entity) [
        | none ↦ reject 400 (codes "failed to parse json")
        | some json ↦ create_on (r.argv 0) (jsn_byname json (codes "field"))
      ]
