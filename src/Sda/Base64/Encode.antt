-- ===== src/Sda/Base64/Encode.antt =====
-- The text that `array_to_form` writes.
use gwan_pg_rest_adapter.Prelude.{
  ℕ, ◌+◌, ◌%◌, ◌≤◌, ◌<◌, ◌≡◌, refl, sym, subst, ap, ◌∙◌, true, false, Option, none, some, List, [],
  ◌∷◌, ◌++◌, append_assoc, append-nil, Bytes, All, length, length-append, arith, ltb, leb, ◌==◌,
  Bool-cases, inl, inr,
}
use gwan_pg_rest_adapter.Sda.Arrays.{Memory, Array, Buffer, elements, text_of}
use gwan_pg_rest_adapter.Sda.Arrays.Blocks.{length-take}
use gwan_pg_rest_adapter.Sda.Arrays.Grow.{
  IsArray, IsBuffer, HoldsText, init_buffer-text_of, push_buffer-text_of,
}
use gwan_pg_rest_adapter.Sda.Base64.{
  Form, flush, end_round, end_with, round, rounds, buf_of, rounds_from, array_to_form,
}
use gwan_pg_rest_adapter.Sda.Base64.Chars.{IsByte, chars, form, reads_as, push_chars-text_of}

module _ (m : Memory) where
  -- A text in the local buffer that is not empty goes behind the archive's.
  flush-text_of :
      (f : Form) (before text : Bytes)
      → IsBuffer f.buf
      → IsBuffer f.str
      → text_of f.buf ≡ before
      → text_of f.str ≡ text
      → 0 < length text
      → HoldsText m (buf_of (flush m f)) (before ++ text)
  flush-text_of f before text ok ok' h h' filled =
      let block = ok'.block in
      let room = ok'.room in
      let size : length (text_of f.str) ≡ f.str.len =
        length-take f.str.len f.str.str (omega arith) in
      let some_text : 0 < f.str.len = omega (arith, size, ap (λ t. length t) h') in
      let (buf, e, fine, holds) =
        push_buffer-text_of m f.buf f.str.str f.str.len ok some_text (omega arith) in
      (buf, rw e refl, fine, holds ∙ ap (λ t. t ++ text_of f.str) h ∙ ap (λ t. before ++ t) h')

  -- A round that is not the last, of the first 48 elements, leaves its characters in the local
  -- buffer; the last one puts the local buffer behind the archive's.
  round-inner :
      (i left e b2 b3 : ℕ) (f : Form) (text : Bytes)
      → IsByte e
      → IsByte b2
      → IsByte b3
      → (i % 48 == 45) ≡ false
      → leb left 3 ≡ false
      → IsBuffer f.str
      → text_of f.str ≡ text
      → (str : Buffer) × (round m i left e b2 b3 f ≡ some (record f { str = str }))
        × IsBuffer str
        × (text_of str ≡ text ++ chars e b2 b3)
  round-inner i left e b2 b3 f text h1 h2 h3 not_45 not_last ok holds =
      let (str, pushed, fine, holds') =
        push_chars-text_of m e b2 b3 f.str text h1 h2 h3 (f.str, refl, ok, holds) in
      let stays : end_round m i left (record f { str = str }) ≡ some (record f { str = str }) =
        rw not_45 (rw not_last refl) in
      (str, ap (end_with m i left f) pushed ∙ stays, fine, holds')

  end_round-last :
      (i left : ℕ) (f : Form)
      → leb left 3 ≡ true
      → ltb 3 left ≡ false
      → end_round m i left f ≡ flush m f
  end_round-last i left f last no_more = elim (Bool-cases (i % 48 == 45)) [
    | inl at_45 ↦ rw at_45 (rw no_more refl)
    | inr not_45 ↦ rw not_45 (rw last refl)
  ]

  round-last :
      (i left e b2 b3 : ℕ) (f : Form) (before text : Bytes)
      → IsByte e
      → IsByte b2
      → IsByte b3
      → leb left 3 ≡ true
      → ltb 3 left ≡ false
      → IsBuffer f.buf
      → IsBuffer f.str
      → text_of f.buf ≡ before
      → text_of f.str ≡ text
      → HoldsText m (buf_of (round m i left e b2 b3 f)) (before ++ (text ++ chars e b2 b3))
  round-last i left e b2 b3 f before text h1 h2 h3 last no_more ok ok' here holds =
      let (str, pushed, fine, holds') =
        push_chars-text_of m e b2 b3 f.str text h1 h2 h3 (f.str, refl, ok', holds) in
      let filled : 0 < length (text ++ chars e b2 b3) =
        omega (arith, length-append text (chars e b2 b3)) in
      let flushed =
        flush-text_of (record f { str = str }) before (text ++ chars e b2 b3) ok fine here holds'
          filled in
      subst (λ o. HoldsText m (buf_of o) (before ++ (text ++ chars e b2 b3)))
        (sym (
          ap (end_with m i left f) pushed
          ∙ end_round-last i left (record f { str = str }) last no_more))
        flushed

  rounds_nil : (i : ℕ) (o : Option Form) → rounds m i [] o ≡ o
  unfolding rounds
  rounds_nil i none = refl
  rounds_nil i (some f) = refl

  -- The rounds from an index on.
  rounds-form :
      (i e : ℕ) (elems : List ℕ) (f : Form) (before text : Bytes)
      → All IsByte (e ∷ elems)
      → i + length (e ∷ elems) ≤ 48
      → IsBuffer f.buf
      → IsBuffer f.str
      → text_of f.buf ≡ before
      → text_of f.str ≡ text
      → HoldsText m
          (buf_of (rounds m i (e ∷ elems) (some f)))
          (before ++ (text ++ form (e ∷ elems)))
  unfolding rounds
  rounds-form i e [] f before text (h1, _) near ok ok' here holds =
      round-last i 1 e 0 0 f before text h1 (omega arith) (omega arith) refl refl ok ok' here holds
  rounds-form i e (b2 ∷ []) f before text (h1, (h2, _)) near ok ok' here holds =
      round-last i 2 e b2 0 f before text h1 h2 (omega arith) refl refl ok ok' here holds
  rounds-form i e (b2 ∷ b3 ∷ []) f before text (h1, (h2, (h3, _))) near ok ok' here holds =
      subst (λ o. HoldsText m (buf_of o) (before ++ (text ++ form (e ∷ b2 ∷ b3 ∷ []))))
        (sym (rounds_nil (i + 3) (round m i 3 e b2 b3 f)))
        (reads_as m (round-last i 3 e b2 b3 f before text h1 h2 h3 refl refl ok ok' here holds)
          (ap (λ t. before ++ (text ++ t)) (sym (append-nil (chars e b2 b3)))))
  rounds-form i e (b2 ∷ b3 ∷ e' ∷ elems) f before text (h1, (h2, (h3, hs))) near ok ok' here holds =
      let (str, done, fine, holds') =
        round-inner i (length (e ∷ b2 ∷ b3 ∷ e' ∷ elems)) e b2 b3 f text h1 h2 h3 (ground arith)
          (ground arith) ok' holds in
      let rest =
        rounds-form (i + 3) e' elems (record f { str = str }) before (text ++ chars e b2 b3) hs
          (omega (arith, near)) ok fine here holds' in
      subst
        (λ o.
          HoldsText m (buf_of (rounds m (i + 3) (e' ∷ elems) o))
            (before ++ (text ++ form (e ∷ b2 ∷ b3 ∷ e' ∷ elems))))
        (sym done)
        (reads_as m rest
          (ap (λ t. before ++ t) (append_assoc text (chars e b2 b3) (form (e' ∷ elems)))))

  rounds_from-form :
      (elems : List ℕ) (buf str : Buffer)
      → All IsByte elems
      → 0 < length elems
      → length elems ≤ 48
      → IsBuffer buf
      → IsBuffer str
      → text_of str ≡ []
      → HoldsText m (buf_of (rounds_from m buf elems (some str))) (text_of buf ++ form elems)
  rounds_from-form [] buf str bytes h near ok ok' holds = absurd (omega arith)
  rounds_from-form (e ∷ elems) buf str bytes h near ok ok' holds =
      rounds-form 0 e elems (record { buf = buf; str = str }) (text_of buf) [] bytes (omega arith)
        ok ok' refl holds

  -- An array of bytes, of one to 48 of them, is written behind what the archive's buffer holds, a
  -- character for each six bits less those for zeros.
  pub array_to_form-form :
      (buf : Buffer) (arr : Array)
      → IsBuffer buf
      → IsArray arr
      → 0 < arr.used
      → arr.used ≤ 48
      → All IsByte (elements arr)
      → HoldsText m (array_to_form m buf arr) (text_of buf ++ form (elements arr))
  unfolding array_to_form
  array_to_form-form buf arr ok ok' some_elem near bytes =
      let block = ok'.block in
      let room = ok'.room in
      let size = length-take arr.used arr.elem (omega arith) in
      let (str, made, fine, holds) = init_buffer-text_of m arr.used some_elem in
      subst
        (λ o.
          HoldsText m (buf_of (rounds_from m buf (elements arr) o))
            (text_of buf ++ form (elements arr)))
        (sym made)
        (rounds_from-form (elements arr) buf str bytes (omega (arith, size)) (omega (arith, size))
          ok fine holds)
