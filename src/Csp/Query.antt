-- ===== src/Csp/Query.antt =====
-- csp/query.c: simple queries from the URL, and SQL from the entity.
use gwan_pg_rest_adapter.Prelude.{
  ℕ, zero, suc, ◌+◌, ◌-◌, ◌*◌, ◌%◌, ◌^◌, Bool, true, false, not, ◌&&◌, Option, none, some, [], ◌∷◌,
  Bytes, codes, ltb, ◌==◌, str_eq, if◌then◌else◌,
}
use gwan_pg_rest_adapter.Gwan.{Gwan, is_string_type}
use gwan_pg_rest_adapter.Gwan.Sprintf.{str, num}
use gwan_pg_rest_adapter.Utils.Validate.{strword, strdigit}
use gwan_pg_rest_adapter.Csp.Action.{Request, Names, Action, reject, query, query_headers, crash}

-- `given && !test(given)`
abbrev refused : (Option Bytes → Bool) → Option Bytes → Bool
refused test none = false
refused test (some s) = not (test (some s))

digits_value : ℕ → Bytes → ℕ
digits_value n [] = n
digits_value n (c ∷ s) = digits_value (10 * n + (c - 48)) s

-- `(u32) strtoul(s, &endptr, 10)` of a text of digits; a larger value than 64 bits hold is taken
-- as 2^64 - 1.
unfoldable pub strtoul : Bytes → ℕ
unfolding digits_value
strtoul s = let n = digits_value 0 s in if ltb n (2 ^ 64) then n % 2 ^ 32 else 2 ^ 32 - 1

abbrev number : Option Bytes → ℕ
number none = 0
number (some s) = strtoul s

-- `strtok_r(s, ".", &rest)` of a text that begins with no '.': what is left of `s`, and `rest`.
unfoldable pub split_dot : Bytes → Bytes × Bytes
split_dot [] = ([], [])
split_dot (c ∷ s) =
    let (before, after) = split_dot s in if c == b'.' then ([], s) else (c ∷ before, after)

module _ (g : Gwan) where
  open g use {Jsn, xbuf_xcat, get_arg, jsn_frtext, jsn_byname, type, string}

  -- `argv[p][0] != '-'`
  abbrev is_condition : Option Bytes → Bool
  is_condition (some (c ∷ s)) = not (c == b'-')
  is_condition _ = true

  -- `while(argc > p)`, with `left` arguments from `argv[p]` on
  put_conditions : ℕ → ℕ → (ℕ → Option Bytes) → Bytes → Bytes
  put_conditions zero p argv buf = buf
  put_conditions (suc left) p argv buf = put_conditions left (p + 1) argv (
      if is_condition (argv p)
      then xbuf_xcat buf (codes " %s t.%s")
          (str (some (if p == 1 then codes "WHERE" else codes "AND")) ∷ str (argv p) ∷ [])
      else buf)

  abbrev put_order : Option Bytes → Bytes → Bytes
  put_order none buf = buf
  put_order (some orderby) buf =
      let (column, order) = split_dot orderby in
      xbuf_xcat buf (codes " ORDER BY %s %s") (str (some column) ∷ str (some order) ∷ [])

  abbrev put_limit : Option Bytes → Bytes → Bytes
  put_limit none buf = buf
  put_limit (some limit) buf = xbuf_xcat buf (codes " LIMIT %u") (num (strtoul limit) ∷ [])

  abbrev put_offset : Option Bytes → Bytes → Bytes
  put_offset none buf = buf
  put_offset (some offset) buf = xbuf_xcat buf (codes " OFFSET %u") (num (strtoul offset) ∷ [])

  unfoldable pub select_query : Request → Option Bytes → Option Bytes → Option Bytes → Names → Bytes
  unfolding put_conditions
  select_query r offset limit orderby db = put_offset offset (
      put_limit limit (
        put_order orderby (
          put_conditions (r.argc - 1) 1 r.argv (
            xbuf_xcat [] (codes "SELECT row_to_json(t) from %s.%s.%s as t")
              (str (some db.name) ∷ str (some db.schema) ∷ str (r.argv 0) ∷ [])))))

  abbrev page_headers : Option Bytes → Option Bytes → Bytes
  page_headers offset limit =
      xbuf_xcat (xbuf_xcat [] (codes "X-offset: %u\r\n") (num (number offset) ∷ []))
        (codes "X-limit: %u\r\n") (num (number limit) ∷ [])

  abbrev checked_query : Request → Option Bytes → Option Bytes → Option Bytes → Action
  checked_query r offset limit orderby =
      if refused strdigit offset
      then reject 422 (codes "[-offset] must be a <number>")
      else if refused strdigit limit
      then reject 422 (codes "[-limit] must be a <number>")
      else if refused strword orderby
      then reject 422 (codes "[-orderby must be a word <string>")
      else query_headers (select_query r offset limit orderby) (page_headers offset limit)

  unfoldable pub get_query : Request → Action
  get_query r =
      checked_query r (get_arg (codes "-offset=") r.argc r.argv)
        (get_arg (codes "-limit=") r.argc r.argv) (get_arg (codes "-order=") r.argc r.argv)

  -- `strcmp(type->string,"sql") == 0`
  abbrev is_sql : Option Bytes → Bool
  is_sql none = false
  is_sql (some s) = str_eq s (codes "sql")

  abbrev sql_type : Option Jsn → Bool
  sql_type none = false
  sql_type (some node) = is_string_type (type node) && is_sql (string node)

  abbrev send_text : Option Bytes → Action
  send_text none = crash
  send_text (some text) = query (λ _. text)

  abbrev post_text : Option Jsn → Action
  post_text none = reject 400 (codes "[query] attribute must be <string>")
  post_text (some node) =
      if not (is_string_type (type node))
      then reject 400 (codes "[query] attribute must be <string>")
      else send_text (string node)

  abbrev post_entity : Option Jsn → Action
  post_entity none = reject 422 (codes "failed to parse json")
  post_entity (some json) =
      if not (sql_type (jsn_byname json (codes "type")))
      then reject 400 (codes "query [type] must be <sql>")
      else post_text (jsn_byname json (codes "query"))

  unfoldable pub post_query : Request → Action
  post_query r = post_entity (jsn_frtext r.entity)
