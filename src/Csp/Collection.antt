-- ===== src/Csp/Collection.antt =====
-- csp/collection.c: the tables that hold the documents of a collection.
use gwan_pg_rest_adapter.Prelude.{
  Bool, false, not, ◌||◌, Option, none, some, [], ◌∷◌, Bytes, codes, if◌then◌else◌,
}
use gwan_pg_rest_adapter.Gwan.{Gwan, is_string_type, is_true_type}
use gwan_pg_rest_adapter.Gwan.Sprintf.{str}
use gwan_pg_rest_adapter.Utils.Validate.{strword}
use gwan_pg_rest_adapter.Csp.Action.{Request, Names, Action, reject, query, status, arg}
use gwan_pg_rest_adapter.Csp.Document.{collection_message}

unfoldable pub get_collection : Request → Action
get_collection r = status 501

unfoldable pub update_collection : Request → Action
update_collection r = status 501

module _ (g : Gwan) where
  open g use {Jsn, xbuf_xcat, s_snprintf, jsn_frtext, jsn_byname, type, string}

  -- `attr && attr->type == jsn_TRUE`
  abbrev pub is_set : Option Jsn → Bool
  is_set none = false
  is_set (some attr) = is_true_type (type attr)

  -- `drop_method` of a parsed entity: RESTRICT wins over CASCADE.
  abbrev pub drop_method : Jsn → Bytes
  drop_method json =
      if is_set (jsn_byname json (codes "restrict"))
      then codes "RESTRICT"
      else if is_set (jsn_byname json (codes "cascade"))
      then codes "CASCADE"
      else []

  unfoldable pub drop_query : Option Bytes → Bytes → Names → Bytes
  drop_query collection method db =
      xbuf_xcat [] (codes "DROP TABLE IF EXISTS %s.%s.%s_document_collection %s;")
        (str (some db.name) ∷ str (some db.schema) ∷ str collection ∷ str (some method) ∷ [])

  -- `if(entity)`, and then what its text parses to.
  abbrev pub drop_with : (Bytes → Names → Bytes) → Option Bytes → Option Jsn → Action
  drop_with text none json = query (text [])
  drop_with text (some entity) none = reject 400 (codes "failed to parse json")
  drop_with text (some entity) (some json) = query (text (drop_method json))

  unfoldable pub delete_collection : Request → Action
  delete_collection r =
      if not (strword (arg r 0))
      then reject 422 collection_message
      else drop_with (drop_query (arg r 0)) r.entity (jsn_frtext r.entity)

  abbrev index_name : Option Bytes → Names → Bytes
  index_name collection db =
      s_snprintf 127 (codes "%s_%s_%s_idx")
        (str (some db.name) ∷ str (some db.schema) ∷ str collection ∷ [])

  -- The three statements of the query, each appended to the buffer.
  unfoldable pub create_query : Option Bytes → Option Bytes → Names → Bytes
  create_query collection index db =
      let table =
        xbuf_xcat []
          (codes
            "CREATE TABLE IF NOT EXISTS %s.%s.%s_document_collection (id uuid PRIMARY KEY DEFAULT gen_random_uuid(), name text, document jsonb NOT NULL);")
          (str (some db.name) ∷ str (some db.schema) ∷ str collection ∷ []) in
      let indexed =
        xbuf_xcat table
          (codes
            "CREATE INDEX document_%s ON %s.%s.%s_document_collection USING GIN (document %s);")
          (str (some (index_name collection db))
            ∷ str (some db.name)
            ∷ str (some db.schema)
            ∷ str collection
            ∷ str index
            ∷ []) in
      xbuf_xcat indexed
        (codes "CREATE INDEX name_%s ON %s.%s.%s_document_collection(name) WHERE name IS NOT NULL;")
        (str (some (index_name collection db))
          ∷ str (some db.name)
          ∷ str (some db.schema)
          ∷ str collection
          ∷ str index
          ∷ [])

  -- `idx` of the entity: a word, when it is there.
  abbrev create_indexed : Option Bytes → Option Jsn → Action
  create_indexed collection none = query (create_query collection (some (codes "jsonb_path_ops")))
  create_indexed collection (some idx) =
      if not (is_string_type (type idx)) || not (strword (string idx))
      then reject 400 (codes "[index] must be a word <string>")
      else query (create_query collection (string idx))

  abbrev create_with : Option Bytes → Option Bytes → Option Jsn → Action
  create_with collection none json = create_indexed collection none
  create_with collection (some entity) none = reject 400 (codes "failed to parse json")
  create_with collection (some entity) (some json) =
      create_indexed collection (jsn_byname json (codes "index"))

  unfoldable pub create_collection : Request → Action
  create_collection r =
      if not (strword (arg r 0))
      then reject 422 collection_message
      else create_with (arg r 0) r.entity (jsn_frtext r.entity)
