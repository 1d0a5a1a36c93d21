-- ===== src/Csp/Document.antt =====
-- csp/document.c: documents in a collection.
pub mod Comments
pub mod Pages
pub mod Rows
pub mod Reads
pub mod Updates
pub mod Write
use gwan_pg_rest_adapter.Prelude.{
  ℕ, not, Option, none, some, [], ◌∷◌, Bytes, codes, c_str, length, leb, ◌==◌, if◌then◌else◌,
}
use gwan_pg_rest_adapter.Gwan.{Gwan}
use gwan_pg_rest_adapter.Gwan.Sprintf.{str, num}
use gwan_pg_rest_adapter.Utils.Atoi.{atoi}
use gwan_pg_rest_adapter.Utils.UrlDecode.{url_decode}
use gwan_pg_rest_adapter.Utils.Validate.{strword, is_string}
use gwan_pg_rest_adapter.Csp.Action.{Request, Names, Action, reject, query, crash, arg}

abbrev pub collection_message : Bytes
collection_message = codes "[collection] name must be a word <string>"

abbrev pub uuid_message : Bytes
uuid_message = codes "document [id] must be an uuid <string>"

abbrev pub name_message : Bytes
name_message = codes "document [name] must be a <string>"

module _ (g : Gwan) where
  open g use {Jsn, xbuf_xcat, jsn_frtext, jsn_totext}

  -- The SQL of each endpoint, from the names of its session and its checked arguments.
  unfoldable pub get_query : Option Bytes → Option Bytes → Names → Bytes
  get_query collection uuid db =
      xbuf_xcat []
        (codes
          "SELECT id, name, xmin AS rev, document AS json_doc FROM %s.%s.%s_collection where id = '%s';")
        (str (some db.name) ∷ str (some db.schema) ∷ str collection ∷ str uuid ∷ [])

  unfoldable pub getbyname_query : Option Bytes → Bytes → Names → Bytes
  getbyname_query collection decoded db =
      xbuf_xcat []
        (codes
          "SELECT id, name, xmin AS rev, document AS json_doc FROM %s.%s.%s_collection where name = '%s';")
        (str (some db.name) ∷ str (some db.schema) ∷ str collection ∷ str (some decoded) ∷ [])

  -- `if(limit) xbuf_xcat(&query," LIMIT %u", limit); if(offset) …; xbuf_xcat(&query,";");`
  unfoldable pub put_page : ℕ → ℕ → Bytes → Bytes
  put_page limit offset text =
      let limited =
        if limit == 0 then text else xbuf_xcat text (codes " LIMIT %u") (num limit ∷ []) in
      let paged =
        if offset == 0 then limited else xbuf_xcat limited (codes " OFFSET %u") (num offset ∷ []) in
      xbuf_xcat paged (codes ";") []

  unfoldable pub all_query : Option Bytes → ℕ → ℕ → Names → Bytes
  unfolding put_page
  all_query collection limit offset db = put_page limit offset (
      xbuf_xcat []
        (codes "SELECT id, name, xmin AS rev, document AS json_doc FROM %s.%s.%s_collection")
        (str (some db.name) ∷ str (some db.schema) ∷ str collection ∷ []))

  unfoldable pub list_query : Option Bytes → ℕ → ℕ → Names → Bytes
  unfolding put_page
  list_query collection limit offset db = put_page limit offset (
      xbuf_xcat [] (codes "SELECT id, name, xmin AS rev FROM %s.%s.%s_collection")
        (str (some db.name) ∷ str (some db.schema) ∷ str collection ∷ []))

  unfoldable pub find_query : Option Bytes → ℕ → ℕ → Jsn → Names → Bytes
  unfolding put_page
  find_query collection limit offset json db = put_page limit offset (
      xbuf_xcat []
        (codes
          "SELECT id, name, xmin AS rev, document AS json_doc FROM %s.%s.%s_collection WHERE document @> '%s'")
        (str (some db.name)
          ∷ str (some db.schema)
          ∷ str collection
          ∷ str (some (jsn_totext [] (some json)))
          ∷ []))

  unfoldable pub delete_query : Option Bytes → Option Bytes → Names → Bytes
  delete_query collection uuid db =
      xbuf_xcat []
        (codes "DELETE FROM %s.%s.%s_collection WHERE id = '%s' RETURNING id, xmin AS rev;")
        (str (some db.name) ∷ str (some db.schema) ∷ str collection ∷ str uuid ∷ [])

  unfoldable pub get_document : Request → Action
  get_document r =
      if not (strword (arg r 1))
      then reject 422 collection_message
      else if not (strword (arg r 2))
      then reject 422 uuid_message
      else query (get_query (arg r 1) (arg r 2))

  -- `char decoded[256]` takes the decoded name and its NUL.
  abbrev pub decode_name : Option Bytes → Option Bytes
  decode_name none = none
  decode_name (some name) =
      if leb (length (url_decode name)) 255 then some (c_str (url_decode name)) else none

  -- What follows `url_decode(decoded, name)`.
  abbrev pub named : Option Bytes → Option Bytes → Action
  named collection none = crash
  named collection (some decoded) =
      if not (is_string (some decoded))
      then reject 422 name_message
      else query (getbyname_query collection decoded)

  unfoldable pub getbyname_document : Request → Action
  getbyname_document r =
      if not (strword (arg r 1))
      then reject 422 collection_message
      else if not (is_string (arg r 2))
      then reject 422 name_message
      else named (arg r 1) (decode_name (arg r 2))

  -- `int limit = 0; if(argc > i) limit = atoi(argv[i]);`: an entry below argc is a text.
  abbrev pub number : Option Bytes → ℕ
  number none = 0
  number (some s) = atoi s

  unfoldable pub all_document : Request → Action
  all_document r =
      if not (strword (arg r 1))
      then reject 422 collection_message
      else query (all_query (arg r 1) (number (arg r 2)) (number (arg r 3)))

  unfoldable pub list_document : Request → Action
  list_document r =
      if not (strword (arg r 1))
      then reject 422 collection_message
      else query (list_query (arg r 1) (number (arg r 2)) (number (arg r 3)))

  unfoldable pub find_document : Request → Action
  find_document r =
      if not (strword (arg r 1))
      then reject 422 collection_message
      else elim (jsn_frtext r.entity) [
        | none ↦ reject 400 (codes "failed to parse json")
        | some json ↦ query (find_query (arg r 1) (number (arg r 2)) (number (arg r 3)) json)
      ]

  unfoldable pub delete_document : Request → Action
  delete_document r =
      if not (strword (arg r 0))
      then reject 422 collection_message
      else if not (strword (arg r 1))
      then reject 422 uuid_message
      else query (delete_query (arg r 0) (arg r 1))
