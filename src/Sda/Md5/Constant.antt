-- ===== src/Sda/Md5/Constant.antt =====
-- The hash of a passphrase is the same for all passphrases, since `str2binl` counts no elements.
use Prim.Native.Nat.{bit_and, bit_or}
use gwan_pg_rest_adapter.Prelude.{
  ℕ, zero, suc, ◌+◌, ◌*◌, ◌/◌, ◌%◌, ◌^◌, ◌≤◌, ◌<◌, ◌≡◌, refl, ap, ◌∙◌, Option, none, some, List, [],
  ◌∷◌, ◌++◌, Bytes, length, get_elem?, arith,
}
use gwan_pg_rest_adapter.Sda.Words.{neg, int_of_char, shl, shr}
use gwan_pg_rest_adapter.Sda.Arrays.{Memory, Array, init_array, insert_array, elements}
use gwan_pg_rest_adapter.Sda.Arrays.Blocks.{store-within, length-take}
use gwan_pg_rest_adapter.Sda.Arrays.Grow.{
  HoldsWithin, init_array-IsArray, empty_elements, init_size, insert_array_free,
}
use gwan_pg_rest_adapter.Sda.Words.Laws.{shr_positive}
use gwan_pg_rest_adapter.Sda.Md5.{
  Words, run_blocks, start_words, or_cell, pad, insert_next, words_array, core_md5, put_chars,
  str2binl, chrsz,
}

elem-within : (xs : List ℕ) (i : ℕ) → i < length xs → (v : ℕ) × (get_elem? xs i ≡ some v)
elem-within [] i h = absurd (omega arith)
elem-within (x ∷ xs) zero h = (x, refl)
elem-within (x ∷ xs) (suc i) h = elem-within xs i (omega arith)

-- `x[i] |= v` within the block.
or_cell-within :
    (x : List ℕ) (i v : ℕ)
    → i < length x
    → (x' : List ℕ) × (or_cell x i v ≡ some x') × (length x' ≡ length x)
or_cell-within x i v h =
    let (old, e) = elem-within x i h in
    let (x', e', same, _, _) = store-within x i (bit_or old v) h in (x', rw (or_cell, e) e', same)

pad-within :
    (x : List ℕ) (len : ℕ)
    → len + 64 < 2 ^ 31
    → len / 32 < length x
    → (len + 64) / 512 * 16 + 14 < length x
    → (x' : List ℕ) × (pad x len ≡ some x') × (length x' ≡ length x)
unfolding pad
pad-within x len small h h' =
    let (y, e, same) =
      or_cell-within x (shr len 5) (shl 0x80 (len % 32))
        (omega (arith, h, shr_positive len 5 (omega arith))) in
    let (z, e', same', _, _) =
      store-within y (shl (shr (len + 64) 9) 4 + 14) len
        (omega (arith, h', same, shr_positive (len + 64) 9 small)) in
    (z, rw (pad, e) e', same' ∙ same)

module _ (m : Memory) where
  insert_next-within :
      (o : Option Array) (elem size : ℕ) (xs : List ℕ)
      → length xs < size
      → HoldsWithin m size o xs
      → HoldsWithin m size (insert_next m o elem) (xs ++ elem ∷ [])
  insert_next-within none elem size xs h (a, e, ok, holds, same) = cc
  insert_next-within (some b) elem size xs h (a, e, ok, holds, same) =
      let at : b ≡ a = cc in
      let block = ok.block in
      let room = ok.room in
      let count = length-take a.used a.elem (omega arith) in
      let (a', e', ok', holds', same') =
        insert_array_free m a elem ok (omega (arith, count, ap (λ t. length t) holds)) in
      (
        a',
        ap (λ b. insert_array m b elem) at ∙ e',
        ok',
        holds' ∙ ap (λ t. t ++ elem ∷ []) holds,
        same' ∙ same,
      )

  -- A hash is a block of four words.
  pub words_array-within :
      (w : Words) → HoldsWithin m 4 (words_array m w) (w.a ∷ w.b ∷ w.c ∷ w.d ∷ [])
  unfolding words_array
  words_array-within w = insert_next-within _ w.d 4 (w.a ∷ w.b ∷ w.c ∷ []) (omega arith) (
      insert_next-within _ w.c 4 (w.a ∷ w.b ∷ []) (omega arith) (
        insert_next-within _ w.b 4 (w.a ∷ []) (omega arith) (
          insert_next-within (some (init_array m 4)) w.a 4 [] (omega arith) (
            init_array m 4,
            refl,
            init_array-IsArray m 4 (omega arith),
            empty_elements m 4,
            init_size m 4,
          ))))

  put_chars-within :
      (str : Bytes) (k : ℕ) (elem : List ℕ)
      → k + length str < 2 ^ 27
      → k + length str ≤ length elem
      → (elem' : List ℕ) × (put_chars m str k elem ≡ some elem') × (length elem' ≡ length elem)
  unfolding put_chars
  put_chars-within [] k elem small h = (elem, refl, refl)
  put_chars-within (c ∷ str) k elem small h =
      let at = shr_positive (k * chrsz) 5 (omega arith) in
      let (mid, e, same) =
        or_cell-within elem (shr (k * chrsz) 5)
          (shl (bit_and (int_of_char c) ((shl 1 chrsz + neg 1) % 2 ^ 32)) (k * chrsz % 32))
          (omega (arith, at)) in
      let (elem', e', same') =
        put_chars-within str (suc k) mid (omega arith) (omega (arith, same)) in
      (elem', rw (put_chars, e) e', same' ∙ same)

  no_rounds :
      (used : ℕ) (x : List ℕ) (w : Words)
      → used ≡ 0
      → run_blocks ((used + 15) / 16) x (some w) ≡ some w
  unfolding run_blocks
  no_rounds used x w unused = ap (λ u. run_blocks ((u + 15) / 16) x (some w)) unused

  -- The hash of an array that counts no elements, in a block that the padding fits in, is what the
  -- algorithm starts from.
  core_md5_unused :
      (ina : Array) (len : ℕ)
      → ina.used ≡ 0
      → len + 64 < 2 ^ 31
      → len / 32 < length ina.elem
      → (len + 64) / 512 * 16 + 14 < length ina.elem
      → (ina' : Array) × (ret : Array) × (core_md5 m ina len ≡ some (ina', ret))
        × (elements ret ≡ start_words.a ∷ start_words.b ∷ start_words.c ∷ start_words.d ∷ [])
  unfolding core_md5
  core_md5_unused ina len unused small h h' =
      let (x, e, same) = pad-within ina.elem len small h h' in
      let (ret, e', ok, holds, _) = words_array-within start_words in
      (
        record ina { elem = x },
        ret,
        rw (core_md5, e) (rw (no_rounds ina.used x start_words unused) (rw e' refl)),
        holds,
      )

  -- A passphrase of at least eight characters is hashed to the words that the algorithm starts
  -- from, whatever it is.
  pub core_md5-str2binl :
      (passphr : Bytes)
      → 8 ≤ length passphr
      → length passphr < 2 ^ 27
      → (bin : Array) × (bin' : Array) × (ret : Array) × (str2binl m passphr ≡ some bin)
        × (core_md5 m bin (length passphr * chrsz) ≡ some (bin', ret))
        × (elements ret ≡ 1732584193 ∷ neg 271733879 ∷ neg 1732584194 ∷ 271733878 ∷ [])
  unfolding str2binl init_array
  core_md5-str2binl passphr h small =
      let made = m.length-fresh (length passphr * 2) in
      let (elem, e, same) =
        put_chars-within passphr 0 (m.fresh (length passphr * 2)) (omega arith)
          (omega (arith, made)) in
      let bin = record (init_array m (length passphr * 2)) { elem = elem } in
      let (bin', ret, e', holds) =
        core_md5_unused bin (length passphr * chrsz) refl (omega arith) (omega (arith, same, made))
          (omega (arith, same, made)) in
      (bin, bin', ret, rw (str2binl, e) refl, e', holds)
