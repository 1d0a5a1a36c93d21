-- ===== src/Sda/Arrays/Grow.antt =====
-- Arrays and buffers never write past their blocks, and hold what was put into them.
use gwan_pg_rest_adapter.Prelude.{
  ℕ, suc, ◌+◌, ◌*◌, ◌≤◌, ◌<◌, ◌≡◌, refl, sym, ap, ◌∙◌, Option, some, List, [], ◌∷◌, ◌++◌, Bytes,
  length, length-append, take, arith, true, false, Bool-cases, inl, inr, leb, ◌==◌,
}
use gwan_pg_rest_adapter.Sda.Arrays.{
  Memory, Array, Buffer, init_array, init_buffer, store, with_elem, resize, insert_array,
  push_buffer, grown_array, grown_buffer, append_buffer, elements, text_of,
}
use gwan_pg_rest_adapter.Sda.Arrays.Blocks.{
  store-within, copy_to-within, length-take, take-append, take-take,
}

-- The block has the size that the array says, and room for its elements.
pub record IsArray (a : Array) : Type 0 where
  pub block : length a.elem ≡ a.size
  pub room : a.used ≤ a.size
  pub some_size : 0 < a.size

pub record IsBuffer (b : Buffer) : Type 0 where
  pub block : length b.str ≡ b.size
  pub room : b.len < b.size

module _ (m : Memory) where
  -- A bigger block keeps the cells that there were.
  length-resize : (xs : List ℕ) (n : ℕ) → length (resize m xs n) ≡ n
  length-resize xs n =
      length-take n (xs ++ m.fresh n)
        (omega (arith, length-append xs (m.fresh n), m.length-fresh n))

  resize_keeps :
      (k : ℕ) (xs : List ℕ) (n : ℕ) → k ≤ length xs → k ≤ n → take k (resize m xs n) ≡ take k xs
  resize_keeps k xs n h le = take-take k n (xs ++ m.fresh n) le ∙ take-append k xs (m.fresh n) h

  pub init_array-IsArray : (size : ℕ) → 0 < size → IsArray (init_array m size)
  unfolding init_array
  init_array-IsArray size h = record {
    block = m.length-fresh size;
    room = omega arith;
    some_size = h;
  }

  pub empty_elements : (size : ℕ) → elements (init_array m size) ≡ []
  unfolding init_array
  empty_elements size = refl

  pub init_size : (size : ℕ) → (init_array m size).size ≡ size
  unfolding init_array
  init_size size = refl

  -- The array, if the code got there, with these elements.
  abbrev pub Holds : Option Array → List ℕ → Type 0
  Holds o xs = (a : Array) × (o ≡ some a) × IsArray a × (elements a ≡ xs)

  -- And with room for as many.
  abbrev pub HoldsIn : ℕ → Option Array → List ℕ → Type 0
  HoldsIn size o xs = (a : Array) × (o ≡ some a) × IsArray a × (elements a ≡ xs) × (size ≤ a.size)

  -- And with a block of that size.
  abbrev pub HoldsWithin : ℕ → Option Array → List ℕ → Type 0
  HoldsWithin size o xs =
      (a : Array) × (o ≡ some a) × IsArray a × (elements a ≡ xs) × (a.size ≡ size)

  abbrev pub HoldsText : Option Buffer → Bytes → Type 0
  HoldsText o text = (b : Buffer) × (o ≡ some b) × IsBuffer b × (text_of b ≡ text)

  pub init_buffer-text_of : (size : ℕ) → 0 < size → HoldsText (init_buffer m size) []
  unfolding init_buffer
  init_buffer-text_of size h =
      let made = m.length-fresh size in
      let (cells, e, same, before, upto) = store-within (m.fresh size) 0 0 (omega (arith, made)) in
      (
        record { str = cells; len = 0; size = size },
        rw e refl,
        record { block = same ∙ made; room = h },
        refl,
      )

  store_element :
      (a : Array) (elem : ℕ) (xs : List ℕ)
      → IsArray a
      → a.used < length a.elem
      → elements a ≡ xs
      → HoldsWithin a.size (with_elem a (store a.elem a.used elem)) (xs ++ elem ∷ [])
  store_element a elem xs ok h holds =
      let (cells, e, same, before, upto) = store-within a.elem a.used elem h in
      let block = ok.block in
      let positive = ok.some_size in
      (
        record a { elem = cells; used = suc a.used },
        rw e refl,
        record { block = same ∙ block; room = omega arith; some_size = positive },
        upto ∙ ap (λ t. t ++ elem ∷ []) holds,
        refl,
      )

  grown_array-IsArray : (a : Array) → IsArray a → IsArray (grown_array m a)
  grown_array-IsArray a ok =
      let room = ok.room in
      let positive = ok.some_size in
      record {
        block = length-resize a.elem (a.size * 2);
        room = omega arith;
        some_size = omega arith;
      }

  pub insert_array_grows :
      (a : Array) (elem : ℕ)
      → IsArray a
      → HoldsIn a.size (insert_array m a elem) (elements a ++ elem ∷ [])
  unfolding insert_array
  insert_array_grows a elem ok =
      let block = ok.block in
      let room = ok.room in
      let positive = ok.some_size in
      elim (Bool-cases (a.used == a.size)) [
        | inl full ↦
            let long = length-resize a.elem (a.size * 2) in
            let (a', e, ok', holds, big) =
              store_element (grown_array m a) elem (elements a) (grown_array-IsArray a ok)
                (ground arith)
                (resize_keeps a.used a.elem (a.size * 2) (omega arith) (omega arith)) in
            (a', rw full e, ok', holds, omega arith)
        | inr free ↦
            let (a', e, ok', holds, same) =
              store_element a elem (elements a) ok (ground arith) refl in
            (a', rw free e, ok', holds, omega arith)
      ]

  -- Where there is room the block stays.
  pub insert_array_free :
      (a : Array) (elem : ℕ)
      → IsArray a
      → a.used < a.size
      → HoldsWithin a.size (insert_array m a elem) (elements a ++ elem ∷ [])
  unfolding insert_array
  insert_array_free a elem ok h =
      let block = ok.block in
      let free : (a.used == a.size) ≡ false = ground arith in
      rw free (store_element a elem (elements a) ok (omega arith) refl)

  -- Into an array of at least one cell every element can be put, behind those that are there.
  pub insert_array-elements :
      (a : Array) (elem : ℕ) → IsArray a → Holds (insert_array m a elem) (elements a ++ elem ∷ [])
  insert_array-elements a elem ok =
      let (a', e, ok', holds, big) = insert_array_grows a elem ok in (a', e, ok', holds)

  write_text :
      (b : Buffer) (str : Bytes) (l : ℕ) (text : Bytes)
      → length b.str ≡ b.size
      → b.len + l + 1 < b.size
      → l ≤ length str
      → text_of b ≡ text
      → HoldsText (append_buffer m b str l) (text ++ take l str)
  write_text b str l text block room some_text holds =
      let copied = length-take l str some_text in
      let end_at : b.len + length (take l str) ≡ b.len + l = omega (arith, copied) in
      let (cells, e, same, filled) = copy_to-within b.str b.len (take l str) (omega arith) in
      let (cells', e', same', before, upto) = store-within cells (b.len + l + 1) 0 (omega arith) in
      let inside : leb l (length str) ≡ true = ground arith in
      let kept : take (b.len + l) cells' ≡ take (b.len + l) cells =
        sym (take-take (b.len + l) (b.len + l + 1) cells' (omega arith))
        ∙ ap (take (b.len + l)) before
        ∙ take-take (b.len + l) (b.len + l + 1) cells (omega arith) in
      (
        record b { str = cells'; len = b.len + l },
        rw inside (rw e (rw e' refl)),
        record { block = same' ∙ same ∙ block; room = omega arith },
        kept ∙ ap (λ n. take n cells) (sym end_at) ∙ filled ∙ ap (λ t. t ++ take l str) holds,
      )

  -- Every text of at least one byte can be put into a buffer, behind the text that is there.
  pub push_buffer-text_of :
      (b : Buffer) (str : Bytes) (len : ℕ)
      → IsBuffer b
      → 0 < len
      → len ≤ length str
      → HoldsText (push_buffer m b str len) (text_of b ++ take len str)
  unfolding push_buffer
  push_buffer-text_of b str len ok some_len some_text =
      let block = ok.block in
      let room = ok.room in
      let given : (len == 0) ≡ false = ground arith in
      let big : Buffer = grown_buffer m b len in
      rw given (elim (Bool-cases (leb b.size (b.len + len + 1))) [
        | inl full ↦ rw full (
            write_text big str len (text_of b) (length-resize b.str (len + b.size + 1))
              (omega arith) some_text
              (resize_keeps b.len b.str (len + b.size + 1) (omega arith) (omega arith)))
        | inr free ↦ rw free (write_text b str len (text_of b) block (ground arith) some_text refl)
      ])
