-- ===== src/Sda/Base64/RoundTrip.antt =====
-- What `array_to_form` writes is read again by `b64_to_array`.
use gwan_pg_rest_adapter.Prelude.{
  ℕ, ◌+◌, ◌*◌, ◌/◌, ◌%◌, ◌≤◌, ◌<◌, ◌≡◌, refl, sym, subst, ap, ◌∙◌, false, not, Option, none, some,
  List, [], ◌∷◌, ◌++◌, append_assoc, append-nil, All, All-map, length, take, arith, ◌==◌,
}
use gwan_pg_rest_adapter.Sda.Words.{int_of_char}
use gwan_pg_rest_adapter.Sda.Arrays.{Memory, Array, Buffer, elements, init_array, text_of}
use gwan_pg_rest_adapter.Sda.Arrays.Blocks.{length-take}
use gwan_pg_rest_adapter.Sda.Arrays.Grow.{
  IsArray, IsBuffer, Holds, init_array-IsArray, empty_elements,
}
use gwan_pg_rest_adapter.Sda.Base64.{decode, put_triplet, put_triplets, b64_to_array, array_to_form}
use gwan_pg_rest_adapter.Sda.Base64.Chars.{IsByte, char_of, keep_if, chars, form}
use gwan_pg_rest_adapter.Sda.Base64.Encode.{array_to_form-form}
use gwan_pg_rest_adapter.Sda.Base64.Decode.{
  IsNonzero, decode-char_of, char_of_positive, put_triplet-elements,
}

chars_three :
    (e f g : ℕ)
    → 0 < f
    → 0 < g
    → chars e f g
      ≡ char_of (e / 4)
        ∷ char_of (e % 4 * 16 + f / 16)
        ∷ char_of (f % 16 * 4 + g / 64)
        ∷ char_of (g % 64)
        ∷ []
chars_three e f g h1 h2 =
    let n1 : (f == 0) ≡ false = ground arith in
    let n2 : (g == 0) ≡ false = ground arith in rw n1 (rw n2 refl)

chars_two :
    (e f : ℕ)
    → 0 < f
    → chars e f 0
      ≡ char_of (e / 4) ∷ char_of (e % 4 * 16 + f / 16) ∷ char_of (f % 16 * 4 + 0 / 64) ∷ []
chars_two e f h1 = let n1 : (f == 0) ≡ false = ground arith in rw n1 refl

-- The elements that a round has put behind others.
spread :
    (xs : List ℕ) (e : ℕ) {ys zs ys' zs' : List ℕ}
    → ys ≡ ys'
    → zs ≡ zs'
    → ((xs ++ e ∷ []) ++ ys) ++ zs ≡ xs ++ e ∷ (ys' ++ zs')
spread xs e {ys} {zs} {ys'} {zs'} same same' =
    append_assoc (xs ++ e ∷ []) ys zs
    ∙ append_assoc xs (e ∷ []) (ys ++ zs)
    ∙ ap (λ t. xs ++ e ∷ (t ++ zs)) same
    ∙ ap (λ t. xs ++ e ∷ (ys' ++ t)) same'

kept : (i v : ℕ) → i < 64 → keep_if (not (int_of_char (char_of i) == 0)) v ≡ v ∷ []
kept i v h = ap (λ z. keep_if (not z) v) (char_of_positive i h)

modulo : (i : ℕ) → i < 64 → decode (int_of_char (char_of i)) % 64 ≡ i
modulo i h = ap (λ (n : ℕ). n % 64) (decode-char_of i h) ∙ omega arith

no_char : decode 0 % 64 ≡ 0
unfolding decode
no_char = refl

module _ (m : Memory) where
  reads : {o : Option Array} {xs ys : List ℕ} → Holds m o xs → xs ≡ ys → Holds m o ys
  reads (a, e, ok, holds) same = (a, e, ok, holds ∙ same)

  read_three :
      (e f g : ℕ) (arr : Array) (xs : List ℕ)
      → IsByte e
      → IsNonzero f
      → IsNonzero g
      → Holds m (some arr) xs
      → Holds m
          (put_triplet m
            (int_of_char (char_of (e / 4)))
            (int_of_char (char_of (e % 4 * 16 + f / 16)))
            (int_of_char (char_of (f % 16 * 4 + g / 64)))
            (int_of_char (char_of (g % 64)))
            arr)
          (xs ++ e ∷ f ∷ g ∷ [])
  read_three e f g arr xs h1 (p2, h2) (p3, h3) holds =
      reads
        (put_triplet-elements m _ _ _ _ e f g arr xs h1 h2 h3 (decode-char_of (e / 4) (omega arith))
          (decode-char_of (e % 4 * 16 + f / 16) (omega arith))
          (modulo (f % 16 * 4 + g / 64) (omega arith)) (modulo (g % 64) (omega arith)) holds)
        (spread xs e (kept (f % 16 * 4 + g / 64) f (omega arith)) (kept (g % 64) g (omega arith)))

  read_two :
      (e f : ℕ) (arr : Array) (xs : List ℕ)
      → IsByte e
      → IsNonzero f
      → Holds m (some arr) xs
      → Holds m
          (put_triplet m
            (int_of_char (char_of (e / 4)))
            (int_of_char (char_of (e % 4 * 16 + f / 16)))
            (int_of_char (char_of (f % 16 * 4 + 0 / 64)))
            0
            arr)
          (xs ++ e ∷ f ∷ [])
  read_two e f arr xs h1 (p2, h2) holds =
      reads
        (put_triplet-elements m _ _ _ 0 e f 0 arr xs h1 h2 (omega arith)
          (decode-char_of (e / 4) (omega arith))
          (decode-char_of (e % 4 * 16 + f / 16) (omega arith))
          (modulo (f % 16 * 4 + 0 / 64) (omega arith)) no_char holds)
        (spread xs e (kept (f % 16 * 4 + 0 / 64) f (omega arith)) refl)

  read_one :
      (e : ℕ) (arr : Array) (xs : List ℕ)
      → IsByte e
      → Holds m (some arr) xs
      → Holds m
          (put_triplet m
            (int_of_char (char_of (e / 4)))
            (int_of_char (char_of (e % 4 * 16 + 0 / 16)))
            0
            0
            arr)
          (xs ++ e ∷ [])
  read_one e arr xs h1 holds =
      reads
        (put_triplet-elements m _ _ 0 0 e 0 0 arr xs h1 (omega arith) (omega arith)
          (decode-char_of (e / 4) (omega arith))
          (decode-char_of (e % 4 * 16 + 0 / 16) (omega arith)) no_char no_char holds)
        (spread xs e refl refl)

  put_triplets-form :
      (elems : List ℕ) (o : Option Array) (xs : List ℕ)
      → All IsNonzero elems
      → Holds m o xs
      → Holds m (put_triplets m (form elems) o) (xs ++ elems)
  unfolding put_triplets
  put_triplets-form elems none xs h (a, e, ok, holds) = cc
  put_triplets-form [] (some arr) xs h holds = reads holds (sym (append-nil xs))
  put_triplets-form (e ∷ []) (some arr) xs ((_, h1), _) holds = read_one e arr xs h1 holds
  put_triplets-form (e ∷ f ∷ []) (some arr) xs ((_, h1), ((p2, h2), _)) holds =
      subst (λ t. Holds m (put_triplets m t (some arr)) (xs ++ e ∷ f ∷ [])) (sym (chars_two e f p2))
        (read_two e f arr xs h1 (p2, h2) holds)
  put_triplets-form (e ∷ f ∷ g ∷ elems) (some arr) xs ((_, h1), ((p2, h2), ((p3, h3), hs))) holds =
      let here = read_three e f g arr xs h1 (p2, h2) (p3, h3) holds in
      subst (λ t. Holds m (put_triplets m (t ++ form elems) (some arr)) (xs ++ e ∷ f ∷ g ∷ elems))
        (sym (chars_three e f g p2 p3))
        (reads (put_triplets-form elems _ (xs ++ e ∷ f ∷ g ∷ []) hs here)
          (append_assoc xs (e ∷ f ∷ g ∷ []) elems))

  some_chars : (elems : List ℕ) → 0 < length elems → 0 < length (form elems)
  some_chars [] h = h
  some_chars (e ∷ []) h = omega arith
  some_chars (e ∷ f ∷ []) h = omega arith
  some_chars (e ∷ f ∷ g ∷ elems) h = omega arith

  -- An array of one to 48 bytes, none of which is 0, is written to an empty buffer as a text from
  -- which the same bytes are read again.
  pub b64_to_array-array_to_form :
      (buf : Buffer) (arr : Array)
      → IsBuffer buf
      → IsArray arr
      → buf.len ≡ 0
      → 0 < arr.used
      → arr.used ≤ 48
      → All IsNonzero (elements arr)
      → (buf' : Buffer) × (array_to_form m buf arr ≡ some buf')
        × IsBuffer buf'
        × Holds m (b64_to_array m (text_of buf')) (elements arr)
  unfolding b64_to_array
  b64_to_array-array_to_form buf arr ok ok' empty some_elem near nonzero =
      let block = ok'.block in
      let room = ok'.room in
      let size = length-take arr.used arr.elem (omega arith) in
      let (buf', made, fine, holds) =
        array_to_form-form m buf arr ok ok' some_elem near
          (All-map (λ c (h : IsNonzero c). h.1) (elements arr) nonzero) in
      let reads_form : text_of buf' ≡ form (elements arr) =
        holds ∙ ap (λ n. take n buf.str ++ form (elements arr)) empty in
      let positive = some_chars (elements arr) (omega (arith, size)) in
      (
        buf',
        made,
        fine,
        subst (λ t. Holds m (b64_to_array m t) (elements arr)) (sym reads_form)
            (put_triplets-form (elements arr) _ [] nonzero (
              init_array m (length (form (elements arr))),
              refl,
              init_array-IsArray m _ positive,
              empty_elements m (length (form (elements arr))),
            )),
      )
