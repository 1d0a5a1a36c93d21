-- ===== src/Csp/Graph/Rejects.antt =====
-- What the endpoints of csp/graph.c refuse, as a consequence of `isUUID` and of null pointers.
use gwan_pg_rest_adapter.Prelude.{
  ◌≤◌, ◌≡◌, refl, inl, inr, true, false, not, Option, none, some, [], Bytes, codes, arith,
  Bool-cases,
}
use gwan_pg_rest_adapter.Gwan.{Gwan, is_string_type, is_null_type}
use gwan_pg_rest_adapter.Utils.Validate.{strword}
use gwan_pg_rest_adapter.Utils.Validate.Accepts.{is_uuid-eq-false}
use gwan_pg_rest_adapter.Csp.Action.{Request, Action, Names, query, arg, guard-inv, query-inj}
use gwan_pg_rest_adapter.Csp.Graph.{
  get_adjacent, adjacent_query, traverse, traverse_query, get_node, node_id, bad_id, bad_word,
}
use gwan_pg_rest_adapter.Csp.Graph.Edges.{
  create_edge, delete_edge, edges_of, check_ends, or_reject, send_edges, end_error, pointer,
  through_null, bad_label, insert_query, delete_query,
}

-- An id that passes its check is not there.
bad_id-none : (id : Option Bytes) → bad_id id ≡ false → id ≡ none
bad_id-none none h = refl
bad_id-none (some id) h = cc (is_uuid-eq-false (some id), h)

strword-none : strword none ≡ false
unfolding strword
strword-none = refl

module _ (g : Gwan) where
  open g use {Jsn, jsn_frtext, jsn_byname, type, string}

  get_adjacent-inv :
      (r : Request) (text : Names → Bytes)
      → get_adjacent g r ≡ query text
      → (strword (arg r 1) ≡ true)
        × (bad_id (node_id (arg r 2)) ≡ false)
        × (text ≡ adjacent_query g (arg r 1) (node_id (arg r 2)) (arg r 3))
  unfolding get_adjacent
  get_adjacent-inv r text h = ground arith

  -- `get_adjacent` only ever asks for the edges without a start, whatever node the request names:
  -- a node's id is refused.
  pub get_adjacent_rootless :
      (r : Request) (text : Names → Bytes)
      → get_adjacent g r ≡ query text
      → text ≡ adjacent_query g (arg r 1) none (arg r 3)
  get_adjacent_rootless r text h =
      let (word, ok, e) = get_adjacent-inv r text h in rw (bad_id-none (node_id (arg r 2)) ok) at e

  traverse-inv :
      (r : Request) (text : Names → Bytes)
      → traverse g r ≡ query text
      → (bad_id (node_id (arg r 2)) ≡ false)
        × (bad_id (node_id (arg r 3)) ≡ false)
        × (text ≡ traverse_query g (arg r 1) (node_id (arg r 2)) (node_id (arg r 3)) (arg r 4))
  unfolding traverse
  traverse-inv r text h =
      let (word, h1) = guard-inv (not (strword (arg r 1))) _ _ h in
      let (from, h2) = guard-inv (bad_id (node_id (arg r 2))) _ _ h1 in
      let (to, h3) = guard-inv (bad_id (node_id (arg r 3))) _ _ h2 in
      let (label, h4) = guard-inv (bad_word (arg r 4)) _ _ h3 in (from, to, query-inj h4)

  -- `traverse` only ever walks from the edges without a start, to no particular node, whatever
  -- ends the request names.
  pub traverse_rootless :
      (r : Request) (text : Names → Bytes)
      → traverse g r ≡ query text
      → text ≡ traverse_query g (arg r 1) none none (arg r 4)
  traverse_rootless r text h =
      let (from, to, e) = traverse-inv r text h in
      rw (bad_id-none (node_id (arg r 2)) from, bad_id-none (node_id (arg r 3)) to) at e

  -- `get_node` sends no query when a direction is given, whatever it is.
  pub get_node_undirected :
      (r : Request) (text : Names → Bytes) → get_node g r ≡ query text → r.argc ≤ 3
  unfolding get_node
  get_node_undirected r text h = ground (arith, strword-none)

  -- The end `from` of an edge that is there, and is neither null nor a string.
  abbrev pub IsNested : Option Jsn → Type 0
  IsNested from =
      (a : Jsn) × (from ≡ some a)
      × (is_string_type (type a) ≡ false)
      × (is_null_type (type a) ≡ false)

  module _ (text : Option Bytes → Option Jsn → Option Jsn → Names → Bytes) (otherwise : Bytes) where
    or_reject-inv :
        (message : Option Bytes) {k : Action} {q : Names → Bytes}
        → or_reject g text otherwise message k ≡ query q
        → (message ≡ none) × (k ≡ query q)
    or_reject-inv (some m) h = cc
    or_reject-inv none h = (refl, h)

    -- An end that is there passes its check unless it is a string.
    end_error-inv :
        (missing invalid : Bytes) (a : Jsn)
        → end_error g missing invalid (some a) ≡ none
        → is_null_type (type a) ≡ false
        → is_string_type (type a) ≡ false
    end_error-inv missing invalid a h k = ground (arith, is_uuid-eq-false (string a))

    send_edges-inv :
        (a b l : Option Jsn) (q : Names → Bytes)
        → send_edges g text otherwise a b l ≡ query q
        → through_null g (pointer g a) (pointer g b) ≡ false
    send_edges-inv a b l q h = elim (Bool-cases (through_null g (pointer g a) (pointer g b))) [
      | inl null ↦ cc (rw null at h)
      | inr there ↦ there
    ]

    through_null-inv :
        (a : Jsn) (b : Option Jsn)
        → through_null g (pointer g (some a)) b ≡ false
        → is_null_type (type a) ≡ false
    through_null-inv a b h = ground arith

    check_ends-inv :
        (a b l : Option Jsn) (q : Names → Bytes)
        → check_ends g text otherwise a b l ≡ query q
        → IsNested a
    check_ends-inv none b l q h = cc
    check_ends-inv (some a) b l q h =
        let (from, h1) =
          or_reject-inv
            (end_error g (codes "[from] edge node is null")
              (codes "[from] edge node must be uuid <string>") (some a))
            h in
        let (to, h2) =
          or_reject-inv
            (end_error g (codes "[to] edge node is null")
              (codes "[to] edge node must be uuid <string>") b)
            h1 in
        let (label, h3) = guard-inv (bad_label g l) _ _ h2 in
        let real = through_null-inv a (pointer g b) (send_edges-inv (some a) b l q h3) in
        (
          a,
          refl,
          end_error-inv (codes "[from] edge node is null")
              (codes "[from] edge node must be uuid <string>") a from real,
          real,
        )

    edges_of-inv :
        (entity : Option Jsn) (q : Names → Bytes)
        → edges_of g text otherwise entity ≡ query q
        → (json : Jsn) × (entity ≡ some json) × IsNested (jsn_byname json (codes "from"))
    edges_of-inv none q h = cc
    edges_of-inv (some json) q h = (json, refl, check_ends-inv _ _ _ q h)

  -- A request whose edge begins at a node given by its id, or at no node, is never carried out: a
  -- query is sent only for an entity whose `from` is neither a string nor null.
  pub create_edge_refuses :
      (r : Request) (text : Names → Bytes)
      → create_edge g r ≡ query text
      → (json : Jsn) × (jsn_frtext r.entity ≡ some json) × IsNested (jsn_byname json (codes "from"))
  unfolding create_edge
  create_edge_refuses r text h =
      let (word, h1) = guard-inv (not (strword (arg r 1))) _ _ h in
      edges_of-inv (insert_query g (arg r 1)) [] (jsn_frtext r.entity) text h1

  -- Nor is the deletion of such an edge: `delete_edge` sends a query only for an entity whose `from`
  -- is neither a string nor null.
  pub delete_edge_refuses :
      (r : Request) (text : Names → Bytes)
      → delete_edge g r ≡ query text
      → (json : Jsn) × (jsn_frtext r.entity ≡ some json) × IsNested (jsn_byname json (codes "from"))
  unfolding delete_edge
  delete_edge_refuses r text h =
      let (word, h1) = guard-inv (not (strword (arg r 1))) _ _ h in
      edges_of-inv (delete_query g (arg r 1)) (codes "%") (jsn_frtext r.entity) text h1
