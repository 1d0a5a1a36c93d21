-- ===== src/Csp/Database.antt =====
-- csp/database.c: the databases of the server, their tables, users and maintenance.
pub mod Vacuum
use gwan_pg_rest_adapter.Prelude.{
  ℕ, not, Option, none, some, [], ◌∷◌, Bytes, codes, ◌==◌, if◌then◌else◌,
}
use gwan_pg_rest_adapter.Gwan.{Gwan}
use gwan_pg_rest_adapter.Gwan.Sprintf.{str, num}
use gwan_pg_rest_adapter.Utils.Validate.{strword}
use gwan_pg_rest_adapter.Csp.Action.{Request, Names, Action, reject, respond, query}

abbrev pub database_message : Bytes
database_message = codes "[database] name must be a word <string>"

unfoldable pub get_list : Request → Action
get_list r =
    query (λ _. codes "SELECT datname AS database FROM pg_database WHERE(datistemplate = false);")

unfoldable pub get_stats : Request → Action
get_stats r = query (λ _. codes "SELECT row_to_json(t) FROM pg_stat_database AS t;")

unfoldable pub get_users : Request → Action
get_users r = query (λ _. codes "SELECT to_json(u) FROM pg_catalog.pg_user AS u;")

unfoldable pub get_grants : Request → Action
get_grants r =
    query (λ _. codes "SELECT to_json(g) FROM information_schema.role_table_grants AS g;")

module _ (g : Gwan) where
  open g use {xbuf_xcat, s_snprintf, jsn_frtext}

  unfoldable pub get_tables : Request → Action
  get_tables r = query (λ _.
      xbuf_xcat []
        (codes
          "SELECT row_to_json(t) FROM pg_catalog.pg_tables AS t WHERE schemaname != 'pg_catalog' AND schemaname != 'information_schema';")
        [])

  -- `name ? asdb : ""`
  abbrev as_db : Option Bytes → Bytes
  as_db name =
      if strword name then s_snprintf 255 (codes "AND datname = '%s'") (str name ∷ []) else []

  unfoldable pub active_query : Option Bytes → Option Bytes → Names → Bytes
  active_query state name db =
      xbuf_xcat []
        (codes
          "SELECT json_build_object('id',a.datid, 'database', a.datname,'pid',a.pid, 'usesysid', a.usesysid, 'usename',a.usename,'waiting',a.waiting, 'xact_start', a.xact_start,'query_start',a.query_start,'state_change',a.state_change) FROM pg_stat_activity AS a WHERE(state = '%s' %s);")
        (str state ∷ str (some (as_db name)) ∷ [])

  unfoldable pub get_active : Request → Action
  get_active r = query (active_query (r.argv 0) (r.argv 1))

  -- The argument is `PQserverVersion(db->conn)`; ADAPTER_VERSION is 100.
  unfoldable pub get_version : ℕ → Request → Action
  get_version server_version r =
      if server_version == 0
      then reject 500 (codes "connection error")
      else respond 200 (λ reply.
        xbuf_xcat reply (codes "{\"server\":%d,\"adapter\":%d}")
          (num server_version ∷ num 100 ∷ []))

  unfoldable pub create_query : Option Bytes → Names → Bytes
  create_query name db =
      xbuf_xcat []
        (codes
          "CREATE DATABASE %s ENCODING = 'UTF8' CONNECTION LIMIT = 8 TEMPLATE = template_postrest;")
        (str name ∷ [])

  abbrev create_with : Option Bytes → Option Bytes → Action
  create_with name none = query (create_query name)
  create_with name (some entity) = elim (jsn_frtext (some entity)) [
    | none ↦ reject 400 (codes "failed to parse json")
    | some json ↦ query (create_query name)
  ]

  unfoldable pub create_database : Request → Action
  create_database r =
      if not (strword (r.argv 0))
      then reject 422 database_message
      else create_with (r.argv 0) r.entity

  unfoldable pub shutdown_query : Option Bytes → Names → Bytes
  shutdown_query name db =
      xbuf_xcat []
        (codes
          "ALTER DATABASE %s CONNECTION LIMIT -1;SELECT pg_terminate_backend(pid),json_build_object('name',datname, 'connection_limit','-1') FROM pg_stat_activity WHERE datname = '%s';")
        (str name ∷ str name ∷ [])

  unfoldable pub shutdown_database : Request → Action
  shutdown_database r =
      if not (strword (r.argv 1))
      then reject 422 database_message
      else query (shutdown_query (r.argv 1))

  unfoldable pub drop_query : Option Bytes → Names → Bytes
  drop_query name db = xbuf_xcat [] (codes "DROP DATABASE %s;") (str name ∷ [])

  unfoldable pub delete_database : Request → Action
  delete_database r =
      if not (strword (r.argv 0))
      then reject 422 database_message
      else query (drop_query (r.argv 0))
