-- ===== src/Tests/Sessions.antt =====
-- A table of sessions for tests: an association list, the newest item of a key first.
use gwan_pg_rest_adapter.Prelude.{
  ◌+◌, ◌*◌, ◌<◌, ◌↔◌, ◌≡◌, refl, ap, sym, subst, true, false, inl, inr, Option, none, some, List,
  [], ◌∷◌, Bytes, codes, All, All-map, str_eq, str_eq→eq, str_eq_refl, arith, Bool-cases,
  if◌then◌else◌,
}
use gwan_pg_rest_adapter.Session.Store.{Db, Kv, IsListed}
use gwan_pg_rest_adapter.Session.{is_expired, deadline, db_timer_cb, db_session, refreshed}
use gwan_pg_rest_adapter.Session.Expiry.{is_expired_iff}
use gwan_pg_rest_adapter.Session.Sweep.{get-db_timer_cb, db_session_refreshes}
use gwan_pg_rest_adapter.Tests.Server.{server}

abbrev Items : Type 0
Items = List (Bytes × Db)

abbrev get : Items → Bytes → Option Db
get [] j = none
get ((k, v) ∷ t) j = let rest = get t j in if str_eq k j then some v else rest

abbrev del : Items → Bytes → Items
del [] k = []
del ((j, v) ∷ t) k = let rest = del t k in if str_eq j k then rest else (j, v) ∷ rest

abbrev entries : Items → Items
entries [] = []
entries ((k, v) ∷ t) = (k, v) ∷ del (entries t) k

pub get-del : (t : Items) (k j : Bytes) → get (del t k) j ≡ (if str_eq k j then none else get t j)
get-del [] k j = ground arith
get-del ((i, v) ∷ t) k j = elim (Bool-cases (str_eq i k)) [
  | inl same ↦ let e = ap (λ x. str_eq x j) (str_eq→eq i k same) in ground (arith, get-del t k j, e)
  | inr other ↦ elim (Bool-cases (str_eq k j)) [
    | inl hit ↦ let e = ap (str_eq i) (str_eq→eq k j hit) in ground (arith, get-del t k j, e)
    | inr miss ↦ ground (arith, get-del t k j)
  ]
]

str_eq_sym : (s t : Bytes) → str_eq s t ≡ false → str_eq t s ≡ false
str_eq_sym s t h = elim (Bool-cases (str_eq t s)) [
  | inl same ↦ let e = str_eq→eq t s same in cc (rw e at h, str_eq_refl s)
  | inr other ↦ other
]

-- Items of another key are still there, and an item that stays is of another key.
IsListed-del :
    (items : Items) (j k : Bytes) (v : Db)
    → str_eq j k ≡ false
    → IsListed k v items
    → IsListed k v (del items j)
IsListed-del [] j k v other m = m
IsListed-del ((i, w) ∷ items) j k v other (inl (e, same)) =
    let unequal : str_eq i j ≡ false =
      str_eq_sym j i (subst (λ x. str_eq j x ≡ false) (sym e) other) in
    rw unequal (inl (e, same))
IsListed-del ((i, w) ∷ items) j k v other (inr m) = elim (Bool-cases (str_eq i j)) [
  | inl equal ↦ rw equal (IsListed-del items j k v other m)
  | inr unequal ↦ rw unequal (inr (IsListed-del items j k v other m))
]

pub entries_complete :
    (t : Items) (k : Bytes) (v : Db) → get t k ≡ some v → IsListed k v (entries t)
entries_complete [] k v e = cc
entries_complete ((j, w) ∷ t) k v e = elim (Bool-cases (str_eq j k)) [
  | inl same ↦ inl (str_eq→eq j k same, cc (rw same at e))
  | inr other ↦ inr (IsListed-del (entries t) j k v other (entries_complete t k v (rw other at e)))
]

del-All :
    (P : Bytes × Db → Type 0) (items : Items) (k : Bytes)
    → All P items
    → All (λ item. P item × (str_eq k item.0 ≡ false)) (del items k)
del-All P [] k h = tt
del-All P ((j, w) ∷ items) k (h, hs) = elim (Bool-cases (str_eq j k)) [
  | inl equal ↦ rw equal (del-All P items k hs)
  | inr unequal ↦ rw unequal ((h, str_eq_sym j k unequal), del-All P items k hs)
]

pub entries_sound : (t : Items) → All (λ item. get t item.0 ≡ some item.1) (entries t)
entries_sound [] = tt
entries_sound ((k, v) ∷ t) = (
  rw (str_eq_refl k) refl,
  All-map (λ item (e, other). rw other e) (del (entries t) k)
      (del-All (λ item. get t item.0 ≡ some item.1) (entries t) k (entries_sound t)),
)

abbrev pub table : Kv
table = record {
  Table = Items;
  get = get;
  add = λ t k v. (k, v) ∷ t;
  del = del;
  entries = entries;
  get-add = λ t k j v. refl;
  get-del = get-del;
  entries_sound = entries_sound;
  entries_complete = entries_complete;
}

abbrev session : Db
session = record { timestamp = 1000; timeout = 301000; name = codes "db"; schema = codes "public" }

abbrev key : Bytes
key = codes "user:pw"

is_expired_iff_example : (is_expired (deadline 1000) 301001 ≡ true) ↔ (1000 + 300 * 1000 < 301001)
is_expired_iff_example = is_expired_iff 1000 301001 (omega arith) (omega arith) (omega arith)

get-db_timer_cb_example : get (db_timer_cb table 301001 ((key, session) ∷ [])) key ≡ none
unfolding is_expired
get-db_timer_cb_example = get-db_timer_cb table 301001 ((key, session) ∷ []) key

db_session_refreshes_example :
    let (found, t') = db_session table server 2000 (some key) none ((key, session) ∷ []) in
    (found ≡ some (refreshed table 2000 session))
    × (get (db_timer_cb table 302000 t') key ≡ found)
    × ((j : Bytes) → str_eq key j ≡ false → get t' j ≡ get ((key, session) ∷ []) j)
db_session_refreshes_example =
    db_session_refreshes table server 2000 302000 (some key) none ((key, session) ∷ []) key session
      refl refl (omega arith) (omega arith) (omega arith)
