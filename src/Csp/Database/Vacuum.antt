-- ===== src/Csp/Database/Vacuum.antt =====
-- `vacuum_database` of csp/database.c, which reads its options from the entity.
pub mod Limits
use gwan_pg_rest_adapter.Prelude.{
  ℕ, zero, suc, Bool, false, not, ◌&&◌, Option, none, some, List, [], ◌∷◌, ◌++◌, Bytes, codes,
  if◌then◌else◌,
}
use gwan_pg_rest_adapter.Gwan.{Gwan, is_string_type, is_node_type, is_array_type}
use gwan_pg_rest_adapter.Gwan.Sprintf.{str}
use gwan_pg_rest_adapter.Utils.Text.{strjoin}
use gwan_pg_rest_adapter.Utils.Validate.{strword}
use gwan_pg_rest_adapter.Csp.Action.{Request, Names, Action, reject, query, crash}
use gwan_pg_rest_adapter.Csp.Collection.{is_set}

-- What the loop over the column names finds: the names, one that is refused, or more than the
-- sixteen that `colist` has room for.
pub data Columns : Type 0 where
  columns : List (Option Bytes) → Columns
  refused overfull : Columns

abbrev pub column_cons : Option Bytes → Columns → Columns
column_cons name (columns names) = columns (name ∷ names)
column_cons name refused = refused
column_cons name overfull = overfull

module _ (g : Gwan) where
  open g use {Jsn, xbuf_xcat, jsn_frtext, jsn_byname, items, type, string}

  -- `node->type != jsn_STRING && !strword(node->string)`
  abbrev refuses : Jsn → Bool
  refuses node = not (is_string_type (type node)) && not (strword (string node))

  -- `while((item = jsn_byindex(col, ci)))` with `room` entries of `colist` left
  unfoldable pub read_columns : ℕ → List Jsn → Columns
  read_columns room [] = columns []
  read_columns zero (item ∷ rest) = if refuses item then refused else overfull
  read_columns (suc room) (item ∷ rest) =
      let more = column_cons (string item) (read_columns room rest) in
      if refuses item then refused else more

  abbrev flag : Jsn → Bytes → Bytes → List Bytes
  flag op name word = if is_set g (jsn_byname op name) then word ∷ [] else []

  abbrev option_words : Option Jsn → List Bytes
  option_words none = []
  option_words (some op) =
      flag op (codes "full") (codes "FULL")
      ++ (flag op (codes "freeze") (codes "FREEZE")
          ++ (flag op (codes "verbose") (codes "VERBOSE")
              ++ flag op (codes "analyze") (codes "ANALYZE")))

  -- The text of a buffer that `strjoin` filled, or the null pointer of one that was not touched.
  abbrev joined : List Bytes → Option Bytes
  joined words = strjoin g [] words b'(' b')' b','

  abbrev texts : List (Option Bytes) → List Bytes
  texts [] = []
  texts (none ∷ names) = texts names
  texts (some name ∷ names) = name ∷ texts names

  abbrev or_empty : Option Bytes → Bytes
  or_empty none = []
  or_empty (some s) = s

  -- `tablename ? columns.ptr : ""`: with a table and no columns this is a null pointer.
  abbrev columns_arg : Option Bytes → List (Option Bytes) → Option Bytes
  columns_arg none names = some []
  columns_arg (some table) names = joined (texts names)

  unfoldable pub vacuum_query : List Bytes → Option Bytes → List (Option Bytes) → Names → Bytes
  vacuum_query words table names db = xbuf_xcat [] (codes "VACUUM %s %s %s;") (
      str (some (or_empty (joined words)))
      ∷ str (some (or_empty table))
      ∷ str (columns_arg table names)
      ∷ [])

  abbrev bad_options : Option Jsn → Bool
  bad_options none = false
  bad_options (some op) = not (is_node_type (type op))

  abbrev bad_table : Option Jsn → Bool
  bad_table none = false
  bad_table (some tab) = refuses tab

  abbrev table_of : Option Jsn → Option Bytes
  table_of none = none
  table_of (some tab) = string tab

  abbrev bad_columns : Option Jsn → Bool
  bad_columns none = false
  bad_columns (some col) = not (is_array_type (type col))

  abbrev columns_of : Option Jsn → Columns
  columns_of none = columns []
  columns_of (some col) = read_columns 16 (items col)

  abbrev vacuum_columns : List Bytes → Option Bytes → Columns → Action
  vacuum_columns words table (columns names) = query (vacuum_query words table names)
  vacuum_columns words table refused =
      reject 400 (codes "[columns] <array> items must be a word <string>")
  vacuum_columns words table overfull = crash

  abbrev vacuum_parts : Option Jsn → Option Jsn → Option Jsn → Action
  vacuum_parts op tab col =
      if bad_options op
      then reject 400 (codes "[options] must be an <object>")
      else if bad_table tab
      then reject 400 (codes "[table] must be a word <string>")
      else if bad_columns col
      then reject 400 (codes "[columns] must be an <array>")
      else vacuum_columns (option_words op) (table_of tab) (columns_of col)

  abbrev vacuum_entity : Option Jsn → Action
  vacuum_entity none = reject 400 (codes "failed to parse json")
  vacuum_entity (some json) =
      vacuum_parts (jsn_byname json (codes "options")) (jsn_byname json (codes "table"))
        (jsn_byname json (codes "columns"))

  unfoldable pub vacuum_database : Request → Action
  unfolding read_columns
  vacuum_database r = elim r.entity [
    | none ↦ query (vacuum_query [] none [])
    | some entity ↦ vacuum_entity (jsn_frtext (some entity))
  ]
