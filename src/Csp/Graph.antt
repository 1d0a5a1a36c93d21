-- ===== src/Csp/Graph.antt =====
-- csp/graph.c: graphs as a collection of nodes and a table of edges. Here the endpoints that read
-- and drop; `Edges` has those that write edges.
pub mod Edges
pub mod Tables
pub mod Rejects
use gwan_pg_rest_adapter.Prelude.{
  Bool, false, not, ◌&&◌, Option, none, some, [], ◌∷◌, Bytes, codes, ltb, str_eq, take,
  if◌then◌else◌,
}
use gwan_pg_rest_adapter.Gwan.{Gwan}
use gwan_pg_rest_adapter.Gwan.Sprintf.{str}
use gwan_pg_rest_adapter.Utils.Validate.{strword, is_string, is_uuid}
use gwan_pg_rest_adapter.Csp.Action.{Request, Names, Action, reject, query, status, arg}

abbrev pub graph_message : Bytes
graph_message = codes "[graph] name must be a word <string>"

abbrev pub label_message : Bytes
label_message = codes "[label] must be a <string>"

abbrev pub direction_message : Bytes
direction_message = codes "[direction] must be 'to' or 'from' <string>"

unfoldable pub get_graph : Request → Action
get_graph r = status 501

unfoldable pub update_graph : Request → Action
update_graph r = status 501

-- `if(strncmp(argv[i],"null",4) != 0) id = argv[i];` where `argc > i`
abbrev pub node_id : Option Bytes → Option Bytes
node_id none = none
node_id (some s) = if str_eq (take 4 s) (codes "null") then none else some s

-- `id && !isUUID(id)`
abbrev pub bad_id : Option Bytes → Bool
bad_id none = false
bad_id (some s) = not (is_uuid (some s))

-- `label && !strword(label)`
abbrev pub bad_word : Option Bytes → Bool
bad_word none = false
bad_word (some s) = not (strword (some s))

module _ (g : Gwan) where
  open g use {xbuf_xcat, s_snprintf}

  -- The conversions "%.%.%." are not C's, so nothing is known of the text but its first piece.
  unfoldable pub node_query : Option Bytes → Option Bytes → Names → Bytes
  node_query graph label db =
      let joined =
        xbuf_xcat []
          (codes
            "SELECT id, xmin AS rev, label, document AS json_doc FROM %s.%s.%s_graph_edges AS E INNER JOIN %.%.%._graph_collection AS N ")
          (str (some db.name)
            ∷ str (some db.schema)
            ∷ str graph
            ∷ str (some db.name)
            ∷ str (some db.schema)
            ∷ str graph
            ∷ []) in
      xbuf_xcat joined (codes "ON N.id = E.b WHERE E.label = '%s';") (str label ∷ [])

  -- `direction` is never assigned, and so it is a null pointer where it is checked and where it is
  -- compared with "from".
  unfoldable pub get_node : Request → Action
  get_node r =
      if not (strword (r.argv 1))
      then reject 422 graph_message
      else if not (ltb 2 r.argc)
      then reject 422 (codes "missing [label] parameter")
      else if not (is_string (r.argv 2))
      then reject 422 label_message
      else if ltb 3 r.argc && not (strword none)
      then reject 422 direction_message
      else query (node_query (r.argv 1) (r.argv 2))

  -- `if(uuid) …WHERE E.a = '%s'… else …WHERE E.a IS NULL`
  abbrev put_start : Option Bytes → Bytes → Bytes
  put_start none buf = xbuf_xcat buf (codes "ON N.id = E.b WHERE E.a IS NULL") []
  put_start (some uuid) buf =
      xbuf_xcat buf (codes "ON N.id = E.b WHERE E.a = '%s'") (str (some uuid) ∷ [])

  abbrev put_label : Option Bytes → Bytes → Bytes
  put_label none buf = xbuf_xcat buf (codes ";") []
  put_label (some label) buf = xbuf_xcat buf (codes " AND E.label = '%s';") (str (some label) ∷ [])

  unfoldable pub adjacent_query : Option Bytes → Option Bytes → Option Bytes → Names → Bytes
  adjacent_query graph uuid label db =
      let joined =
        xbuf_xcat []
          (codes
            "SELECT id, label, name, document AS json_doc FROM %s.%s.%s_graph_edges AS E INNER JOIN %s.%s.%s_graph_collection AS N ")
          (str (some db.name)
            ∷ str (some db.schema)
            ∷ str graph
            ∷ str (some db.name)
            ∷ str (some db.schema)
            ∷ str graph
            ∷ []) in
      put_label label (put_start uuid joined)

  unfoldable pub get_adjacent : Request → Action
  get_adjacent r =
      if not (strword (arg r 1))
      then reject 422 graph_message
      else if bad_id (node_id (arg r 2))
      then reject 422 (codes "node [id] must be an uuid <string> or null")
      else if ltb 3 r.argc && not (is_string (r.argv 3))
      then reject 422 label_message
      else query (adjacent_query (arg r 1) (node_id (arg r 2)) (arg r 3))

  abbrev prefix : Option Bytes → Names → Bytes
  prefix graph db =
      s_snprintf 255 (codes "%s.%s.%s") (str (some db.name) ∷ str (some db.schema) ∷ str graph ∷ [])

  abbrev put_from : Option Bytes → Bytes → Bytes
  put_from none buf = xbuf_xcat buf (codes "WHERE e.a IS NULL ") []
  put_from (some from) buf = xbuf_xcat buf (codes "WHERE e.a = '%s' ") (str (some from) ∷ [])

  abbrev put_edge_label : Option Bytes → Bytes → Bytes
  put_edge_label none buf = buf
  put_edge_label (some label) buf =
      xbuf_xcat buf (codes "AND e.label = '%s' ") (str (some label) ∷ [])

  abbrev put_to : Option Bytes → Bytes → Bytes
  put_to none buf = xbuf_xcat buf (codes "ORDER BY depth;") []
  put_to (some to) buf = xbuf_xcat buf (codes "WHERE id = '%s';") (str (some to) ∷ [])

  unfoldable pub traverse_query :
      Option Bytes → Option Bytes → Option Bytes → Option Bytes → Names → Bytes
  traverse_query graph from to label db =
      let tables = str (some (prefix graph db)) ∷ str (some (prefix graph db)) ∷ [] in
      let first =
        xbuf_xcat []
          (codes
            "WITH RECURSIVE search_graph(id, name, depth, path, nodes,cycle)AS (SELECT n.id, n.name, 1, ARRAY[n.name], ARRAY[n.id],false FROM %s_graph_edges AS e INNER JOIN %s_graph_collection AS n ON n.id = e.b ")
          tables in
      let second =
        xbuf_xcat (put_edge_label label (put_from from first))
          (codes
            "UNION SELECT n.id, n.name, sg.depth + 1, path || n.name, nodes || n.id, n.name = ANY(path) FROM %s_graph_edges AS e INNER JOIN %s_graph_collection AS n ON n.id = e.b, search_graph sg WHERE e.a = sg.id ")
          tables in
      let closed = xbuf_xcat (put_edge_label label second) (codes "AND NOT cycle) ") [] in
      put_to to (
        xbuf_xcat closed
          (codes
            "SELECT id,name,depth,array_to_json(path) AS json_path,array_to_json(nodes) AS json_nodes FROM search_graph ")
          [])

  unfoldable pub traverse : Request → Action
  traverse r =
      if not (strword (arg r 1))
      then reject 422 graph_message
      else if bad_id (node_id (arg r 2))
      then reject 422 (codes "[from] must be an uuid <string> or null")
      else if bad_id (node_id (arg r 3))
      then reject 422 (codes "[to] must be an uuid <string> or null")
      else if bad_word (arg r 4)
      then reject 422 (codes "[label] must be an word <string>")
      else query (traverse_query (arg r 1) (node_id (arg r 2)) (node_id (arg r 3)) (arg r 4))
