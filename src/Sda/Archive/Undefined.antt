-- ===== src/Sda/Archive/Undefined.antt =====
-- The set-up writes behind the four words of the hash, and `crypt` counts none of the elements that
-- it sets.
use Prim.Native.Nat.{bit_and, bit_xor}
use gwan_pg_rest_adapter.Prelude.{
  ℕ, zero, suc, ◌+◌, ◌*◌, ◌^◌, ◌≤◌, ◌≡◌, refl, sym, subst, ap, ◌/◌, ◌∙◌, Option, none, some, List,
  [], ◌∷◌, Bytes, length, get_elem?, arith, Bool-cases, ◌==◌, inl, inr, ltb,
}
use gwan_pg_rest_adapter.Sda.Arrays.{
  Memory, Array, Buffer, init_array, init_buffer, store, with_str, elements,
}
use gwan_pg_rest_adapter.Sda.Base64.{array_to_form, rounds_from, buf_of}
use gwan_pg_rest_adapter.Sda.Packing.{compress8to7}
use gwan_pg_rest_adapter.Sda.Md5.{
  Words, core_md5, str2binl, hash_padded, paired, hashed, run_blocks, start_words, pad,
}
use gwan_pg_rest_adapter.Sda.Md5.Constant.{words_array-within}
use gwan_pg_rest_adapter.Sda.Archive.{
  Run, undefined, unfinished, ends, with_result, Sda, shift, shift64, pn, stored, drawn, crypt_cell,
  crypt_cells, crypt, with_second, with_hash, with_words, with_buffer, init_sda, with_form,
  encrypt_with, encrypt, decrypt,
}

-- What is hashed, if anything, is a block of four words.
abbrev IsHash : Option (Array × Array) → Type 0
IsHash none = Unit
IsHash (some (ina, ret)) = length ret.elem ≡ 4

module _ (m : Memory) where
  paired-IsHash :
      (ina : Array) (x : List ℕ) (w : Option Words) → IsHash (paired m ina x (hashed m w))
  paired-IsHash ina x none = tt
  paired-IsHash ina x (some w) =
      let (ret, e, ok, holds, same) = words_array-within m w in
      let block = ok.block in subst (λ o. IsHash (paired m ina x o)) (sym e) (block ∙ same)

  core_md5-IsHash : (ina : Array) (len : ℕ) → IsHash (core_md5 m ina len)
  unfolding core_md5
  core_md5-IsHash ina len = go (pad ina.elem len)
    where
      go : (o : Option (List ℕ)) → IsHash (hash_padded m ina o)
      go none = tt
      go (some x) = paired-IsHash ina x (run_blocks ((ina.used + 15) / 16) x (some start_words))

  elem-behind : (xs : List ℕ) (i : ℕ) → length xs ≤ i → get_elem? xs i ≡ none
  elem-behind [] i h = refl
  elem-behind (x ∷ xs) zero h = absurd (omega arith)
  elem-behind (x ∷ xs) (suc i) h = elem-behind xs i (omega arith)

  -- The padding of 128 bits in a block of four words is behind it.
  pad_overrun : (x : List ℕ) → length x ≡ 4 → pad x 0x80 ≡ none
  unfolding pad
  pad_overrun x h = let past = elem-behind x 4 (omega (arith, h)) in rw (pad, past) refl

  with_hash_undefined :
      (buf : Buffer) (bits : ℕ) (o : Option (Array × Array))
      → IsHash o
      → with_hash m buf bits o ≡ none
  unfolding core_md5
  with_hash_undefined buf bits none h = refl
  with_hash_undefined buf bits (some (bin, pn)) h =
      ap (λ o. with_second m buf pn bin bits (hash_padded m pn o)) (pad_overrun pn.elem h)

  with_words_undefined :
      (buf : Buffer) (bits : ℕ) (o : Option Array) → with_words m buf bits o ≡ none
  with_words_undefined buf bits none = refl
  with_words_undefined buf bits (some bin) =
      with_hash_undefined buf bits (core_md5 m bin bits) (core_md5-IsHash bin bits)

  with_buffer_undefined : (passphr : Bytes) (o : Option Buffer) → with_buffer m passphr o ≡ none
  with_buffer_undefined passphr none = refl
  with_buffer_undefined passphr (some buf) = with_words_undefined buf _ (str2binl m passphr)

  -- The set-up of an archive is undefined for every passphrase.
  pub init_sda_undefined : (passphr : Bytes) → init_sda m passphr ≡ none
  unfolding init_sda
  init_sda_undefined passphr = elim (Bool-cases (ltb (length passphr * 8) (2 ^ 31))) [
    | inl small ↦ rw small (with_buffer_undefined passphr (init_buffer m 256))
    | inr big ↦ rw big refl
  ]

  -- What `crypt` returns counts no elements, and the archive's buffer is as it was.
  abbrev IsUncounted : Buffer → Run (Array × Sda) → Type 0
  IsUncounted buf undefined = Unit
  IsUncounted buf unfinished = Unit
  IsUncounted buf (ends (ota, s)) = (ota.used ≡ 0) × (s.buf ≡ buf)

  abbrev IsKeeping : Buffer → Run (ℕ × Sda) → Type 0
  IsKeeping buf undefined = Unit
  IsKeeping buf unfinished = Unit
  IsKeeping buf (ends (w, s)) = s.buf ≡ buf

  pn-IsKeeping : (bound : ℕ) (s : Sda) (buf : Buffer) → s.buf ≡ buf → IsKeeping buf (pn bound s)
  unfolding pn
  pn-IsKeeping zero s buf h = tt
  pn-IsKeeping (suc n) s buf h = elim (Bool-cases (bit_and (shift64 s) s.butt == 0)) [
    | inl stops ↦ rw stops h
    | inr goes ↦ rw goes (pn-IsKeeping n (shift s) buf h)
  ]

  drawn-IsUncounted :
      (i v : ℕ) (ota : Array) (o : Run (ℕ × Sda)) (buf : Buffer)
      → ota.used ≡ 0
      → IsKeeping buf o
      → IsUncounted buf (drawn i v ota o)
  drawn-IsUncounted i v ota undefined buf h h' = tt
  drawn-IsUncounted i v ota unfinished buf h h' = tt
  drawn-IsUncounted i v ota (ends (w, s)) buf h h' = go (store ota.elem i (bit_xor v w))
    where
      go : (o : Option (List ℕ)) → IsUncounted buf (stored ota s o)
      go none = tt
      go (some elem) = (h, h')

  crypt_cell-IsUncounted :
      (bound i : ℕ) (ota : Array) (s : Sda) (o : Option ℕ) (buf : Buffer)
      → ota.used ≡ 0
      → s.buf ≡ buf
      → IsUncounted buf (crypt_cell bound i ota s o)
  crypt_cell-IsUncounted bound i ota s none buf h h' = tt
  crypt_cell-IsUncounted bound i ota s (some v) buf h h' =
      drawn-IsUncounted i v ota (pn bound s) buf h (pn-IsKeeping bound s buf h')

  crypt_cells-IsUncounted :
      (bound n i : ℕ) (cells : List ℕ) (o : Run (Array × Sda)) (buf : Buffer)
      → IsUncounted buf o
      → IsUncounted buf (crypt_cells m bound n i cells o)
  unfolding crypt_cells
  crypt_cells-IsUncounted bound n i cells undefined buf h = tt
  crypt_cells-IsUncounted bound n i cells unfinished buf h = tt
  crypt_cells-IsUncounted bound zero i cells (ends r) buf h = h
  crypt_cells-IsUncounted bound (suc n) i cells (ends (ota, s)) buf (h, h') =
      crypt_cells-IsUncounted bound n (suc i) cells _ buf
        (crypt_cell-IsUncounted bound i ota s (get_elem? cells i) buf h h')

  crypt-IsUncounted : (bound : ℕ) (s : Sda) (ina : Array) → IsUncounted s.buf (crypt m bound s ina)
  unfolding crypt init_array
  crypt-IsUncounted bound s ina =
      crypt_cells-IsUncounted bound ina.used 0 ina.elem (ends (init_array m ina.used, s)) s.buf
        (refl, refl)

  store_nowhere : (xs : List ℕ) (v : ℕ) → length xs ≡ 0 → store xs 0 v ≡ none
  store_nowhere [] v h = refl
  store_nowhere (x ∷ xs) v h = absurd (omega (arith, h))

  init_buffer_0 : init_buffer m 0 ≡ none
  unfolding init_buffer
  init_buffer_0 =
      ap (with_str (record { str = m.fresh 0; len = 0; size = 0 }) 0)
        (store_nowhere (m.fresh 0) 0 (m.length-fresh 0))

  array_to_form_0 : (buf : Buffer) (arr : Array) → arr.used ≡ 0 → array_to_form m buf arr ≡ none
  unfolding array_to_form
  array_to_form_0 buf arr h =
      ap (λ n. buf_of (rounds_from m buf (elements arr) (init_buffer m n))) h
      ∙ ap (λ o. buf_of (rounds_from m buf (elements arr) o)) init_buffer_0

  -- A run without a result.
  abbrev pub IsFailing : Run Sda → Type 0
  IsFailing undefined = Unit
  IsFailing unfinished = Unit
  IsFailing (ends s) = ⊥

  with_form-IsFailing :
      (o : Run (Array × Sda)) (buf : Buffer) → IsUncounted buf o → IsFailing (with_form m o)
  with_form-IsFailing undefined buf h = tt
  with_form-IsFailing unfinished buf h = tt
  with_form-IsFailing (ends (b, s)) buf (h, h') =
      subst (λ o. IsFailing (with_result m s o)) (sym (array_to_form_0 s.buf b h)) tt

  -- Whatever the state is, what follows the set-up in `encrypt` has no result for any input: the
  -- text of no elements would be written to a buffer without a cell.
  pub encrypt_with-IsFailing :
      (bound : ℕ) (input : Bytes) (s : Sda) → IsFailing (encrypt_with m bound input s)
  encrypt_with-IsFailing bound input s = go (compress8to7 m input)
    where
      go :
          (o : Option Array)
          → IsFailing (elim o [ none ↦ undefined | some a ↦ with_form m (crypt m bound s a) ])
      go none = tt
      go (some a) = with_form-IsFailing (crypt m bound s a) s.buf (crypt-IsUncounted bound s a)

  -- `encrypt` and `decrypt` are undefined for every input and every passphrase, before the
  -- generator's loop is run.
  pub encrypt_undefined :
      (bound : ℕ) (input passphrase : Bytes)
      → (encrypt m bound input passphrase ≡ undefined)
        × (decrypt m bound input passphrase ≡ undefined)
  unfolding encrypt decrypt
  encrypt_undefined bound input passphrase =
      let no_archive = init_sda_undefined passphrase in
      (rw (encrypt, no_archive) refl, rw (decrypt, no_archive) refl)
