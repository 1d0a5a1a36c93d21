-- ===== src/Sda/Packing/RoundTrip.antt =====
-- `expand7to8` takes out what `compress8to7` has put in.
use gwan_pg_rest_adapter.Prelude.{
  ℕ, zero, suc, ◌*◌, ◌<◌, ◌≡◌, refl, sym, subst, ap, ◌∙◌, some, List, [], ◌∷◌, ◌++◌, Bytes, All,
  length, take, arith,
}
use gwan_pg_rest_adapter.Sda.Arrays.{Memory, Array, Buffer, init_array, text_of}
use gwan_pg_rest_adapter.Sda.Arrays.Blocks.{length-take}
use gwan_pg_rest_adapter.Sda.Arrays.Grow.{
  IsArray, IsBuffer, HoldsText, init_array-IsArray, empty_elements, init_size,
}
use gwan_pg_rest_adapter.Sda.Packing.{compress8to7, unfill_all, expand7to8}
use gwan_pg_rest_adapter.Sda.Packing.Fill.{
  IsSeven, eights, packing, length-packing, fill_all-packing,
}
use gwan_pg_rest_adapter.Sda.Packing.Unfill.{unfill_all-packing}

-- A block that is longer than what is taken of it.
take_more :
    (n : ℕ) (xs : List ℕ) → n < length xs → (x : ℕ) × (rest : List ℕ) × (xs ≡ take n xs ++ x ∷ rest)
take_more zero [] h = absurd (omega arith)
take_more zero (x ∷ xs) h = (x, xs, refl)
take_more (suc n) [] h = absurd (omega arith)
take_more (suc n) (x ∷ xs) h =
    let (y, rest, same) = take_more n xs (omega arith) in (y, rest, ap (λ t. x ∷ t) same)

module _ (m : Memory) where
  -- Text of seven-bit characters, a multiple of eight of them but not none, is packed into an array
  -- of seven bytes for every eight, and comes out of it behind what the buffer holds.
  pub expand7to8-compress8to7 :
      (k : ℕ) (str : Bytes) (buf : Buffer)
      → length str ≡ k * 8
      → 0 < k
      → All IsSeven str
      → IsBuffer buf
      → (array : Array) × (compress8to7 m str ≡ some array)
        × IsArray array
        × (array.used ≡ k * 7)
        × HoldsText m (expand7to8 m buf array) (text_of buf ++ str)
  unfolding compress8to7 expand7to8
  expand7to8-compress8to7 k str buf whole some_chars seven ok =
      let d = eights k str whole in
      let (array, made, fine, holds, big) =
        fill_all-packing m (length str) d (length str * 2) (some (init_array m (length str * 2))) []
          (omega arith) seven
          (
            init_array m (length str * 2),
            refl,
            init_array-IsArray m _ (omega (arith, whole)),
            empty_elements m _,
            omega (arith, init_size m (length str * 2)),
          ) in
      let block = fine.block in
      let room = fine.room in
      let size = length-take array.used array.elem (omega arith) in
      let used : array.used ≡ k * 7 =
        omega (arith, size, length-packing d, ap (λ t. length t) holds, whole) in
      let (x, rest, split) = take_more array.used array.elem (omega (arith, whole)) in
      let cells : array.elem ≡ packing d ++ x ∷ rest = split ∙ ap (λ t. t ++ x ∷ rest) holds in
      let count : array.used ≡ length (packing d) = sym size ∙ ap (λ t. length t) holds in
      (
        array,
        made,
        fine,
        used,
        subst
            (λ t.
              HoldsText m (unfill_all m array.used array.used t (some buf)) (text_of buf ++ str))
            (sym cells)
            (unfill_all-packing m array.used array.used d x rest (some buf) (text_of buf)
              (omega (arith, count)) count seven (buf, refl, ok, refl)),
      )
