-- ===== src/Csp/Document/Write.antt =====
-- The endpoints of csp/document.c that write documents: create, set and update.
use gwan_pg_rest_adapter.Prelude.{
  Bool, true, false, not, ◌&&◌, Option, none, some, List, [], ◌∷◌, Bytes, codes, if◌then◌else◌,
}
use gwan_pg_rest_adapter.Gwan.{Gwan, is_string_type, is_node_type, is_array_type}
use gwan_pg_rest_adapter.Gwan.Sprintf.{Arg, str}
use gwan_pg_rest_adapter.Utils.Validate.{strword}
use gwan_pg_rest_adapter.Csp.Action.{Request, Names, Action, reject, query, arg}
use gwan_pg_rest_adapter.Csp.Document.{collection_message, uuid_message}

module _ (g : Gwan) where
  open g use {Jsn, xbuf_xcat, jsn_frtext, jsn_byname, items, jsn_totext, type, string}

  -- `node->string` of a node that was found.
  abbrev pub string_of : Option Jsn → Option Bytes
  string_of none = none
  string_of (some node) = string node

  -- `db->name, db->schema, collection` and the arguments behind them.
  abbrev table_args : Names → Option Bytes → List Arg → List Arg
  table_args db collection args = str (some db.name) ∷ str (some db.schema) ∷ str collection ∷ args

  unfoldable pub insert_named : Option Bytes → Option Jsn → Option Jsn → Names → Bytes
  insert_named collection name document db =
      xbuf_xcat [] (codes "INSERT INTO %s.%s.%s_collection(name,document) VALUES ('%s','%s') ")
        (table_args db collection (str (string_of name) ∷ str (some (jsn_totext [] document)) ∷ []))

  unfoldable pub insert_single : Option Bytes → Option Jsn → Names → Bytes
  insert_single collection document db =
      xbuf_xcat [] (codes "INSERT INTO %s.%s.%s_collection(document) VALUES('%s') ")
        (table_args db collection (str (some (jsn_totext [] document)) ∷ []))

  -- `if(!name) doc = item; else doc = jsn_byname(item,"_json",1);`
  abbrev pub document_of : Jsn → Option Jsn → Option Jsn
  document_of item none = some item
  document_of item (some _) = jsn_byname item (codes "_json")

  abbrev pub put_item : Bytes → Option Bytes → Option Jsn → Bytes
  put_item buf none document =
      xbuf_xcat buf (codes "(NULL,'%s')") (str (some (jsn_totext [] document)) ∷ [])
  put_item buf (some name) document =
      xbuf_xcat buf (codes "('%s','%s')")
        (str (some name) ∷ str (some (jsn_totext [] document)) ∷ [])

  -- One item of the array and the comma behind it.
  abbrev pub put_value : Bytes → Jsn → Bytes
  put_value buf item =
      let name = jsn_byname item (codes "_name") in
      put_item buf (string_of name) (document_of item name)

  unfoldable pub put_values : Bytes → List Jsn → Bytes
  put_values buf [] = buf
  put_values buf (item ∷ []) = put_value buf item
  put_values buf (item ∷ next ∷ rest) =
      put_values (xbuf_xcat (put_value buf item) (codes ",") []) (next ∷ rest)

  unfoldable pub insert_many : Option Bytes → Jsn → Names → Bytes
  unfolding put_values
  insert_many collection documents db =
      put_values
        (xbuf_xcat [] (codes "INSERT INTO %s.%s.%s_collection(name,document) VALUES ")
          (table_args db collection []))
        (items documents)

  abbrev returning : (Names → Bytes) → Names → Bytes
  returning insert db = xbuf_xcat (insert db) (codes "RETURNING id, name, xmin AS rev;") []

  all_nodes : List Jsn → Bool
  all_nodes [] = true
  all_nodes (item ∷ rest) = is_node_type (type item) && all_nodes rest

  -- A single document, with a name or without; it is a node.
  abbrev create_single : Option Bytes → Jsn → Option Jsn → Action
  create_single collection document none =
      query (returning (insert_single collection (some document)))
  create_single collection document (some name) =
      if not (is_string_type (type name))
      then reject 400 (codes "[name] must be a <string>")
      else query (returning (insert_named collection (some name) (some document)))

  abbrev create_many : Option Bytes → Option Jsn → Action
  create_many collection none = reject 400 (codes "[documents] must be <array>")
  create_many collection (some documents) =
      if not (is_array_type (type documents))
      then reject 400 (codes "[documents] must be <array>")
      else if not (all_nodes (items documents))
      then reject 400 (codes "[documents] items must be <object>")
      else query (returning (insert_many collection documents))

  abbrev create_from : Option Bytes → Jsn → Option Jsn → Action
  create_from collection json none = create_many collection (jsn_byname json (codes "documents"))
  create_from collection json (some document) =
      if not (is_node_type (type document))
      then reject 400 (codes "[document] must be <json>")
      else create_single collection document (jsn_byname json (codes "name"))

  unfoldable pub create_document : Request → Action
  unfolding all_nodes
  create_document r =
      if not (strword (arg r 1))
      then reject 422 collection_message
      else elim (jsn_frtext r.entity) [
        | none ↦ reject 400 (codes "failed to parse json")
        | some json ↦ create_from (arg r 1) json (jsn_byname json (codes "document"))
      ]

  -- The checks that `set_document` and `update_document` share, and then the query for what is
  -- given. A document and a name that are there have the right types.
  abbrev bad_name : Option Jsn → Bool
  bad_name none = false
  bad_name (some name) = not (is_string_type (type name))

  abbrev bad_document : Option Jsn → Bool
  bad_document none = false
  bad_document (some document) = not (is_node_type (type document))

  abbrev missing : Option Jsn → Bool
  missing none = true
  missing (some _) = false

  change : (Option Jsn → Option Jsn → Names → Bytes) → Option Jsn → Option Jsn → Action
  change text name document =
      if bad_name name
      then reject 400 (codes "[name] must be a <string>")
      else if missing name && missing document
      then reject 400 (codes "must update at least [name] or [document]")
      else if bad_document document
      then reject 400 (codes "[document] must be <json>")
      else query (text name document)

  change_entity : (Option Jsn → Option Jsn → Names → Bytes) → Option Jsn → Action
  unfolding change
  change_entity text none = reject 400 (codes "failed to parse json")
  change_entity text (some json) =
      change text (jsn_byname json (codes "name")) (jsn_byname json (codes "document"))

  abbrev set_name : Option Bytes → Option Bytes → Option Jsn → Names → Bytes
  set_name collection uuid name db =
      xbuf_xcat []
        (codes
          "UPDATE %s.%s.%s_collection SET (name) = ('%s') WHERE id = '%s' RETURNING id, xmin AS rev;")
        (table_args db collection (str (string_of name) ∷ str uuid ∷ []))

  unfoldable pub set_query : Option Bytes → Option Bytes → Option Jsn → Option Jsn → Names → Bytes
  set_query collection uuid (some name) (some document) db =
      xbuf_xcat []
        (codes
          "UPDATE %s.%s.%s_collection SET (name, document) = ('%s') WHERE id = '%s' RETURNING id, xmin AS rev;")
        (table_args db collection
          (str (string name) ∷ str (some (jsn_totext [] (some document))) ∷ str uuid ∷ []))
  set_query collection uuid (some name) none db = set_name collection uuid (some name) db
  set_query collection uuid none document db =
      xbuf_xcat []
        (codes
          "UPDATE %s.%s.%s_collection SET (document) = ('%s') WHERE id = '%s' RETURNING id, xmin AS rev;")
        (table_args db collection (str (some (jsn_totext [] document)) ∷ str uuid ∷ []))

  unfoldable pub set_document : Request → Action
  unfolding change_entity
  set_document r =
      if not (strword (arg r 1))
      then reject 422 collection_message
      else if not (strword (arg r 2))
      then reject 422 uuid_message
      else change_entity (set_query (arg r 1) (arg r 2)) (jsn_frtext r.entity)

  unfoldable pub update_query :
      Option Bytes → Option Bytes → Option Jsn → Option Jsn → Names → Bytes
  update_query collection uuid (some name) (some document) db =
      xbuf_xcat []
        (codes
          "UPDATE %s.%s.%s_collection x SET (name,document) = ('%s',jsonb_strip_nulls((select document FROM %s.%s.%s_collection y WHERE y.id = x.id)::jsonb || '%s'::jsonb)) WHERE x.id = '%s' RETURNING id, xmin AS rev;")
        (table_args db collection (
          table_args db collection
            (str (string name) ∷ str (some (jsn_totext [] (some document))) ∷ str uuid ∷ [])))
  update_query collection uuid (some name) none db = set_name collection uuid (some name) db
  update_query collection uuid none document db =
      xbuf_xcat []
        (codes
          "UPDATE %s.%s.%s_collection x SET (document) = (jsonb_strip_nulls((select document FROM %s.%s.%s_collection y WHERE y.id = x.id)::jsonb || '%s'::jsonb)) WHERE x.id = '%s' RETURNING id, xmin AS rev;")
        (table_args db collection
          (table_args db collection (str (some (jsn_totext [] document)) ∷ str uuid ∷ [])))

  unfoldable pub update_document : Request → Action
  unfolding change_entity
  update_document r =
      if not (strword (arg r 0))
      then reject 422 collection_message
      else if not (strword (arg r 1))
      then reject 422 uuid_message
      else change_entity (update_query (arg r 0) (arg r 1)) (jsn_frtext r.entity)
