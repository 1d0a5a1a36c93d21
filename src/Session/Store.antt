-- ===== src/Session/Store.antt =====
-- The table of sessions, a `kv_t` of G-WAN (its code is not in the repository): an interface with
-- the laws that include/gwan.h documents.
use gwan_pg_rest_adapter.Prelude.{
  ℕ, ◌≡◌, ◌⊎◌, Option, none, some, List, [], ◌∷◌, Bytes, str_eq, All, if◌then◌else◌,
}

-- The fields of `db_t` that a session's life depends on, and the names for its queries. `timeout`
-- is a u32 and `timestamp` a u64.
pub record Db : Type 0 where
  pub timestamp : ℕ
  pub timeout : ℕ
  pub name : Bytes
  pub schema : Bytes

-- The item (k, v) is in the list.
abbrev pub IsListed : Bytes → Db → List (Bytes × Db) → Type 0
IsListed k v [] = ⊥
IsListed k v ((j, w) ∷ items) = ((j ≡ k) × (w ≡ v)) ⊎ IsListed k v items

pub record Kv : Type 1 where
  pub Table : Type 0
  pub get : Table → Bytes → Option Db
  -- add or update the value of a key
  pub add : Table → Bytes → Db → Table
  pub del : Table → Bytes → Table
  -- the items that `kv_do` visits
  pub entries : Table → List (Bytes × Db)
  pub get-add :
      (t : Table) (k j : Bytes) (v : Db)
      → get (add t k v) j ≡ (if str_eq k j then some v else get t j)
  pub get-del : (t : Table) (k j : Bytes) → get (del t k) j ≡ (if str_eq k j then none else get t j)
  pub entries_sound : (t : Table) → All (λ item. get t item.0 ≡ some item.1) (entries t)
  pub entries_complete :
      (t : Table) (k : Bytes) (v : Db) → get t k ≡ some v → IsListed k v (entries t)
