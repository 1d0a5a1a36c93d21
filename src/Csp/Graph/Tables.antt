-- ===== src/Csp/Graph/Tables.antt =====
-- The endpoints of csp/graph.c that create and drop the two tables of a graph.
use gwan_pg_rest_adapter.Prelude.{
  not, ◌||◌, Option, none, some, [], ◌∷◌, Bytes, codes, str_eq, if◌then◌else◌,
}
use gwan_pg_rest_adapter.Gwan.{Gwan, is_string_type}
use gwan_pg_rest_adapter.Gwan.Sprintf.{str}
use gwan_pg_rest_adapter.Utils.Validate.{strword}
use gwan_pg_rest_adapter.Csp.Action.{Request, Names, Action, reject, query}
use gwan_pg_rest_adapter.Csp.Graph.{graph_message}

-- `cascade && strcmp(cascade,"cascade") == 0`
abbrev drop_method : Option Bytes → Bytes
drop_method none = codes "RESTRICT"
drop_method (some cascade) =
    if str_eq cascade (codes "cascade") then codes "CASCADE" else codes "RESTRICT"

module _ (g : Gwan) where
  open g use {Jsn, xbuf_xcat, s_snprintf, jsn_frtext, jsn_byname, type, string}

  abbrev table_name : Option Bytes → Names → Bytes
  table_name name db =
      s_snprintf 255 (codes "%s.%s.%s") (str (some db.name) ∷ str (some db.schema) ∷ str name ∷ [])

  unfoldable pub drop_query : Option Bytes → Option Bytes → Names → Bytes
  drop_query name cascade db =
      xbuf_xcat [] (codes "DROP TABLE %s_graph_edges, %s_graph_collection %s;") (
        str (some (table_name name db))
        ∷ str (some (table_name name db))
        ∷ str (some (drop_method cascade))
        ∷ [])

  unfoldable pub delete_graph : Request → Action
  delete_graph r =
      if not (strword (r.argv 1))
      then reject 400 graph_message
      else query (drop_query (r.argv 1) (r.argv 2))

  -- The six statements of the query, each appended to the buffer.
  unfoldable pub create_query : Option Bytes → Names → Bytes
  create_query name db =
      let graph = str (some (table_name name db)) in
      let nodes =
        xbuf_xcat []
          (codes
            "CREATE TABLE %s_graph_collection (id uuid PRIMARY KEY DEFAULT gen_random_uuid(),name text,document jsonb );")
          (graph ∷ []) in
      let documents =
        xbuf_xcat nodes
          (codes
            "CREATE INDEX document_%s_graph_idx ON %s_graph_collection USING GIN (document jsonb_path_ops);")
          (str name ∷ graph ∷ []) in
      let named =
        xbuf_xcat documents
          (codes
            "CREATE INDEX name_%s_graph_idx ON %s_graph_collection(name) WHERE name IS NOT NULL;")
          (str name ∷ graph ∷ []) in
      let edges =
        xbuf_xcat named
          (codes
            "CREATE TABLE %s_graph_edges (a uuid REFERENCES %s_graph_collection(id) ON UPDATE CASCADE ON DELETE CASCADE,b uuid REFERENCES %s_graph_collection(id) ON UPDATE CASCADE ON DELETE CASCADE,label text,UNIQUE (a,b),CONSTRAINT %s_graph_prevent_self CHECK (a <> b) );")
          (graph ∷ graph ∷ graph ∷ str name ∷ []) in
      let firsts =
        xbuf_xcat edges (codes "CREATE INDEX a_%s_idx ON %s_graph_edges(a);")
          (str name ∷ graph ∷ []) in
      xbuf_xcat firsts (codes "CREATE INDEX b_%s_idx ON %s_graph_edges(b);") (str name ∷ graph ∷ [])

  abbrev create_named : Option Jsn → Action
  create_named none = reject 400 graph_message
  create_named (some name) =
      if not (is_string_type (type name)) || not (strword (string name))
      then reject 400 graph_message
      else query (create_query (string name))

  unfoldable pub create_graph : Request → Action
  create_graph r = elim (jsn_frtext r.entity) [
    | none ↦ reject 400 (codes "failed to parse json")
    | some json ↦ create_named (jsn_byname json (codes "name"))
  ]
