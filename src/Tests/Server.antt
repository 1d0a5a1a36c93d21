-- ===== src/Tests/Server.antt =====
-- A server and a connection for tests.
use gwan_pg_rest_adapter.Prelude.{
  ℕ, suc, ◌-◌, refl, true, false, Option, none, some, List, [], ◌∷◌, ◌++◌, Bytes, codes, take, ltb,
  str_eq, if◌then◌else◌,
}
use gwan_pg_rest_adapter.Gwan.{Gwan, JsnType, is_string_type, is_array_type, jsn_array, jsn_node}
use gwan_pg_rest_adapter.Gwan.Sprintf.{sprintf}
use gwan_pg_rest_adapter.Db.Libpq.{Libpq, ev_write}
use gwan_pg_rest_adapter.Csp.Action.{Names}

abbrev or_empty : Option Bytes → Bytes
or_empty none = []
or_empty (some s) = s

-- A server whose JSON values are their types: an entity is an object, all whose fields but
-- "label" are arrays of one object.
abbrev field_of : Bytes → Option JsnType
field_of name = if str_eq name (codes "label") then none else some jsn_array

abbrev object_of : Option Bytes → Option JsnType
object_of none = none
object_of (some s) = some jsn_node

abbrev string_of : JsnType → Option Bytes
string_of json = if is_string_type json then some (codes "a") else none

abbrev items_of : JsnType → List JsnType
items_of json = if is_array_type json then jsn_node ∷ [] else []

abbrev pub server : Gwan
server = record {
  xbuf_xcat = λ buf fmt args. buf ++ or_empty (sprintf fmt args);
  xbuf_xcat_lem = λ buf fmt args e. rw e refl;
  s_snprintf = λ len fmt args. take (len - 1) (or_empty (sprintf fmt args));
  s_snprintf_lem = λ len fmt args e. rw e refl;
  http_status = λ code. codes "Bad Request";
  http_error = λ code. codes "bad request";
  errno = 0;
  get_arg = λ name argc argv. none;
  Jsn = JsnType;
  jsn_frtext = object_of;
  jsn_byname = λ json name. field_of name;
  items = items_of;
  jsn_totext = λ buf json. buf;
  type = λ json. json;
  string = string_of;
  memory = λ json. none;
}

-- A connection that counts its waits: it is busy for two waits and takes `limit` to be written.
abbrev pub connection : ℕ → Libpq
connection limit = record {
  Conn = ℕ;
  Result = Unit;
  dispatch = λ c flags. (ev_write, suc c);
  is_busy = λ c. ltb c 2;
  send_query = λ c query. (true, c);
  set_single_row_mode = λ c. c;
  flush = λ c. (ltb c limit, c);
  consume_input = λ c. c;
  get_result = λ c. (none, c);
  server_version = λ c. 90400;
  error_message = λ c. [];
  result_status = λ r. 0;
  nfields = λ r. 0;
  ntuples = λ r. 0;
  fname = λ r i. codes "id";
  fformat = λ r i. 0;
  getisnull = λ r i j. false;
  getvalue = λ r i j. codes "1";
}

abbrev pub names : Names
names = record { name = codes "db"; schema = codes "public" }
