-- ===== src/Csp/Database/Vacuum/Limits.antt =====
-- What the loop over the columns of `vacuum_database` takes.
use gwan_pg_rest_adapter.Prelude.{
  ℕ, zero, suc, ◌≤◌, ◌<◌, ◌≡◌, refl, true, List, [], ◌∷◌, map, All, length, arith, ap,
}
use gwan_pg_rest_adapter.Gwan.{Gwan, is_string_type}
use gwan_pg_rest_adapter.Csp.Database.Vacuum.{read_columns, columns, overfull, column_cons}

module _ (g : Gwan) where
  open g use {Jsn, type, string}

  -- Strings are taken as the names of columns whatever they contain, as many as there is room for.
  pub read_columns_strings :
      (room : ℕ) (list : List Jsn)
      → All (λ item. is_string_type (type item) ≡ true) list
      → length list ≤ room
      → read_columns g room list ≡ columns (map string list)
  unfolding read_columns
  read_columns_strings room [] h few = refl
  read_columns_strings zero (item ∷ list) h few = absurd (omega arith)
  read_columns_strings (suc room) (item ∷ list) (h, hs) few =
      rw h (ap (column_cons (string item)) (read_columns_strings room list hs (omega arith)))

  -- One string more than there is room for is written past the end of the array.
  pub read_columns_overfull :
      (room : ℕ) (list : List Jsn)
      → All (λ item. is_string_type (type item) ≡ true) list
      → room < length list
      → read_columns g room list ≡ overfull
  unfolding read_columns
  read_columns_overfull room [] h many = absurd (omega arith)
  read_columns_overfull zero (item ∷ list) (h, hs) many = rw h refl
  read_columns_overfull (suc room) (item ∷ list) (h, hs) many =
      rw h (ap (column_cons (string item)) (read_columns_overfull room list hs (omega arith)))
