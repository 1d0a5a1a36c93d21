-- ===== src/Csp/Graph/Edges.antt =====
-- The endpoints of csp/graph.c that insert and delete edges. Both read the ends of the edges from
-- the entity, and differ in the statement that they append for an edge.
use gwan_pg_rest_adapter.Prelude.{
  Bool, true, false, not, ◌&&◌, ◌||◌, Option, none, some, List, [], ◌∷◌, Bytes, codes,
  if◌then◌else◌,
}
use gwan_pg_rest_adapter.Gwan.{Gwan, is_string_type, is_array_type, is_null_type}
use gwan_pg_rest_adapter.Gwan.Sprintf.{Arg, str}
use gwan_pg_rest_adapter.Utils.Validate.{strword, is_string, is_uuid}
use gwan_pg_rest_adapter.Csp.Action.{Request, Names, Action, reject, query, crash, arg}
use gwan_pg_rest_adapter.Csp.Graph.{graph_message}

module _ (g : Gwan) where
  open g use {Jsn, xbuf_xcat, jsn_frtext, jsn_byname, items, type, string}

  -- The message of the check of an end: it must be there, and a string must be an uuid.
  abbrev pub end_error : Bytes → Bytes → Option Jsn → Option Bytes
  end_error missing invalid none = some missing
  end_error missing invalid (some a) =
      if is_null_type (type a)
      then none
      else if is_string_type (type a) && not (is_uuid (string a))
      then some invalid
      else none

  -- `else if(a->type == jsn_NULL) a = 0;`
  abbrev pub pointer : Option Jsn → Option Jsn
  pointer none = none
  pointer (some a) = if is_null_type (type a) then none else some a

  abbrev pub bad_label : Option Jsn → Bool
  bad_label none = false
  bad_label (some l) = not (is_string_type (type l)) || not (is_string (string l))

  -- `l ? l->string : otherwise`
  abbrev label_of : Bytes → Option Jsn → Option Bytes
  label_of otherwise none = some otherwise
  label_of otherwise (some l) = string l

  -- How a statement for an edge is appended, from its first end and its second if there is one.
  abbrev is_empty : List Jsn → Bool
  is_empty [] = true
  is_empty (_ ∷ _) = false

  module _ (put : Bytes → Option Bytes → Option (Option Bytes) → Bytes) where
    -- `while((ia = jsn_byindex(a,i)))` beside an array `b`, whose item `i` may be missing
    put_pairs : List Jsn → List Jsn → Bytes → Bytes
    put_pairs [] bs buf = buf
    put_pairs (a ∷ as') [] buf = put_pairs as' [] (put buf (string a) none)
    put_pairs (a ∷ as') (b ∷ bs) buf = put_pairs as' bs (put buf (string a) (some (string b)))

    -- The same loop where `b` is no array, and the loop over the items of `b`.
    put_from_all : List Jsn → Jsn → Bytes → Bytes
    put_from_all [] b buf = buf
    put_from_all (a ∷ as') b buf = put_from_all as' b (put buf (string a) (some (string b)))

    put_to_all : Jsn → List Jsn → Bytes → Bytes
    put_to_all a [] buf = buf
    put_to_all a (b ∷ bs) buf = put_to_all a bs (put buf (string a) (some (string b)))

    put_edges : Jsn → Jsn → Bytes
    unfolding put_pairs put_from_all put_to_all
    put_edges a b =
        if is_array_type (type a)
        then (if is_array_type (type b)
            then put_pairs (items a) (items b) []
            else put_from_all (items a) b [])
        else if is_array_type (type b)
        then put_to_all a (items b) []
        else put [] (string a) (some (string b))

    edges_query : Option Jsn → Option Jsn → Bytes
    unfolding put_edges
    edges_query (some a) (some b) = put_edges a b
    edges_query _ _ = []

  -- `a->type` is read through a null `a`, and `b->type` through a null `b` where `a` is no array
  -- or has an item.
  abbrev pub through_null : Option Jsn → Option Jsn → Bool
  through_null none b = true
  through_null (some a) (some b) = false
  through_null (some a) none = not (is_array_type (type a)) || not (is_empty (items a))

  abbrev table_args : Names → Option Bytes → List Arg → List Arg
  table_args db graph args = str (some db.name) ∷ str (some db.schema) ∷ str graph ∷ args

  unfoldable pub put_insert :
      Names → Option Bytes → Option Bytes → Bytes → Option Bytes → Option (Option Bytes) → Bytes
  put_insert db graph label buf a (some b) =
      xbuf_xcat buf (codes "INSERT INTO %s.%s.%s_graph_edges VALUES('%s','%s','%s');")
        (table_args db graph (str a ∷ str b ∷ str label ∷ []))
  put_insert db graph label buf a none =
      xbuf_xcat buf (codes "INSERT INTO %s.%s.%s_graph_edges VALUES('%s',NULL,'%s');")
        (table_args db graph (str a ∷ str label ∷ []))

  unfoldable pub put_delete :
      Names → Option Bytes → Option Bytes → Bytes → Option Bytes → Option (Option Bytes) → Bytes
  put_delete db graph label buf a (some b) =
      xbuf_xcat buf
        (codes "DELETE FROM %s.%s.%s_graph_edges WHERE a = '%s' AND b = '%s' AND label = '%s';")
        (table_args db graph (str a ∷ str b ∷ str label ∷ []))
  put_delete db graph label buf a none =
      xbuf_xcat buf (codes "DELETE FROM %s.%s.%s_graph_edges WHERE a = '%s' AND label = '%s';")
        (table_args db graph (str a ∷ str label ∷ []))

  -- From the check of `from` on; `text` is the query for the checked label and ends.
  module _ (text : Option Bytes → Option Jsn → Option Jsn → Names → Bytes) (otherwise : Bytes) where
    abbrev pub send_edges : Option Jsn → Option Jsn → Option Jsn → Action
    send_edges a b l =
        if through_null (pointer a) (pointer b)
        then crash
        else query (text (label_of otherwise l) (pointer a) (pointer b))

    abbrev pub check_label : Option Jsn → Option Jsn → Option Jsn → Action
    check_label a b l =
        if bad_label l
        then reject 400 (codes "[label] name must be a <string>")
        else send_edges a b l

    abbrev pub or_reject : Option Bytes → Action → Action
    or_reject (some message) k = reject 400 message
    or_reject none k = k

    abbrev pub check_ends : Option Jsn → Option Jsn → Option Jsn → Action
    check_ends a b l =
        or_reject
          (end_error (codes "[from] edge node is null")
            (codes "[from] edge node must be uuid <string>") a)
          (or_reject
            (end_error (codes "[to] edge node is null")
              (codes "[to] edge node must be uuid <string>") b)
            (check_label a b l))

    abbrev pub edges_of : Option Jsn → Action
    edges_of none = reject 400 (codes "failed to parse json")
    edges_of (some json) =
        check_ends (jsn_byname json (codes "from")) (jsn_byname json (codes "to"))
          (jsn_byname json (codes "label"))

  unfoldable pub insert_query :
      Option Bytes → Option Bytes → Option Jsn → Option Jsn → Names → Bytes
  unfolding edges_query put_insert
  insert_query graph label a b db = edges_query (put_insert db graph label) a b

  unfoldable pub delete_query :
      Option Bytes → Option Bytes → Option Jsn → Option Jsn → Names → Bytes
  unfolding edges_query put_delete
  delete_query graph label a b db = edges_query (put_delete db graph label) a b

  unfoldable pub create_edge : Request → Action
  create_edge r =
      if not (strword (arg r 1))
      then reject 422 graph_message
      else edges_of (insert_query (arg r 1)) [] (jsn_frtext r.entity)

  unfoldable pub delete_edge : Request → Action
  delete_edge r =
      if not (strword (arg r 1))
      then reject 422 graph_message
      else edges_of (delete_query (arg r 1)) (codes "%") (jsn_frtext r.entity)
