-- ===== src/Sda/Packing/Unfill.antt =====
-- The characters that `expand7to8` makes of seven bytes.
use Prim.Native.Nat.{bit_and, bit_or}
use gwan_pg_rest_adapter.Prelude.{
  ℕ, zero, suc, ◌+◌, ◌-◌, ◌*◌, ◌/◌, ◌%◌, ◌^◌, ◌≤◌, ◌<◌, ◌≡◌, refl, sym, subst, ap, ◌∙◌, Option,
  none, some, List, [], ◌∷◌, ◌++◌, append_assoc, append-nil, Bytes, All, length, get_elem?, arith,
}
use gwan_pg_rest_adapter.Sda.Bits.{bit_and_low, bit_or_above}
use gwan_pg_rest_adapter.Sda.Words.{shl, shr}
use gwan_pg_rest_adapter.Sda.Arrays.{Memory, Buffer, push_buffer}
use gwan_pg_rest_adapter.Sda.Arrays.Grow.{HoldsText, push_buffer-text_of}
use gwan_pg_rest_adapter.Sda.Words.Laws.{shr_positive}
use gwan_pg_rest_adapter.Sda.Packing.{push_one, unfill, unfill_all}
use gwan_pg_rest_adapter.Sda.Packing.Fill.{
  IsSeven, seven_of, Eights, none_left, eight_more, packing,
}

some_head :
    (ys : List ℕ) (x : ℕ) (rest : List ℕ) → (y : ℕ) × (ys' : List ℕ) × (ys ++ x ∷ rest ≡ y ∷ ys')
some_head [] x rest = (x, rest, refl)
some_head (y ∷ ys) x rest = (y, ys ++ x ∷ rest, refl)

module _ (m : Memory) where
  reads_text : {o : Option Buffer} {s t : Bytes} → HoldsText m o s → s ≡ t → HoldsText m o t
  reads_text (b, e, ok, holds) same = (b, e, ok, holds ∙ same)

  push_one-text_of :
      (o : Option Buffer) (chr c : ℕ) (text : Bytes)
      → chr % 256 ≡ c
      → HoldsText m o text
      → HoldsText m (push_one m o chr) (text ++ c ∷ [])
  push_one-text_of none chr c text same (b, e, ok, holds) = cc
  push_one-text_of (some buf) chr c text same (b, e, ok, holds) =
      let at : buf ≡ b = cc in
      let (b', e', ok', holds') =
        push_buffer-text_of m b (c ∷ []) 1 ok (omega arith) (omega arith) in
      (
        b',
        ap (λ v. push_buffer m buf (v ∷ []) 1) same ∙ ap (λ b. push_buffer m b (c ∷ []) 1) at ∙ e',
        ok',
        holds' ∙ ap (λ t. t ++ c ∷ []) holds,
      )

  unfill_next :
      (n j tmp e q r c : ℕ) (cells : List ℕ) (o : Option Buffer) (text zs : Bytes)
      → get_elem? cells j ≡ some e
      → tmp * 2 ^ (7 - j) % 2 ^ 32 % 2 ^ 7 ≡ q * 2 ^ (7 - j)
      → e % 2 ^ 8 / 2 ^ suc j ≡ r
      → r < 2 ^ (7 - j)
      → q * 2 ^ (7 - j) + r ≡ c
      → c < 256
      → ((o' : Option Buffer)
          → HoldsText m o' (text ++ c ∷ [])
          → HoldsText m (unfill m n (suc j) e cells o') ((text ++ c ∷ []) ++ zs))
      → HoldsText m o text
      → HoldsText m (unfill m (suc n) j tmp cells o) (text ++ c ∷ zs)
  unfolding unfill
  unfill_next n j tmp e q r c cells o text zs here upper lower low joins byte next holds =
      let left : bit_and (shl tmp (7 - j)) 0x7f ≡ q * 2 ^ (7 - j) =
        bit_and_low 7 (shl tmp (7 - j)) ∙ upper in
      let right : shr (bit_and e 0xff) (suc j) ≡ r =
        ap (λ v. shr v (suc j)) (bit_and_low 8 e)
        ∙ shr_positive (e % 2 ^ 8) (suc j) (omega arith)
        ∙ lower in
      let both : bit_or (bit_and (shl tmp (7 - j)) 0x7f) (shr (bit_and e 0xff) (suc j)) % 256 ≡ c =
        ap (λ v. bit_or v (shr (bit_and e 0xff) (suc j)) % 256) left
        ∙ ap (λ v. bit_or (q * 2 ^ (7 - j)) v % 256) right
        ∙ ap (λ (v : ℕ). v % 256) (bit_or_above (7 - j) q r low ∙ joins)
        ∙ omega arith in
      let pushed = push_one-text_of o _ c text both holds in
      let (b, e', ok, holds') = next _ pushed in
      rw (unfill, here) (b, e', ok, holds' ∙ append_assoc text (c ∷ []) zs)

  unfill_block :
      (a b c d e f g h x : ℕ) (rest : List ℕ) (o : Option Buffer) (text : Bytes)
      → IsSeven a
      → IsSeven b
      → IsSeven c
      → IsSeven d
      → IsSeven e
      → IsSeven f
      → IsSeven g
      → IsSeven h
      → HoldsText m o text
      → HoldsText m
          (unfill m 7 1
            (a * 2 ^ 1 + b / 2 ^ 6)
            (seven_of a b c d e f g h ++ x ∷ rest)
            (push_one m o (bit_and (shr (a * 2 ^ 1 + b / 2 ^ 6) 1) 0x7f)))
          (text ++ a ∷ b ∷ c ∷ d ∷ e ∷ f ∷ g ∷ h ∷ [])
  unfolding unfill
  unfill_block a b c d e f g h x rest o text ha hb hc hd he hf hg hh holds =
      let cells = seven_of a b c d e f g h ++ x ∷ rest in
      let first : bit_and (shr (a * 2 ^ 1 + b / 2 ^ 6) 1) 0x7f % 256 ≡ a =
        ap (λ (v : ℕ). v % 256)
          (bit_and_low 7 (shr (a * 2 ^ 1 + b / 2 ^ 6) 1)
            ∙ ap (λ (v : ℕ). v % 2 ^ 7) (shr_positive (a * 2 ^ 1 + b / 2 ^ 6) 1 (omega arith)))
        ∙ omega arith in
      reads_text
        (unfill_next 6 1 _ (b % 2 ^ 6 * 2 ^ 2 + c / 2 ^ 5) (b / 2 ^ 6) (b % 2 ^ 6) b cells _ _ _
          refl (omega arith) (omega arith) (omega arith) (omega arith) (omega arith)
          (λ o1 held1.
            unfill_next 5 2 _ (c % 2 ^ 5 * 2 ^ 3 + d / 2 ^ 4) (c / 2 ^ 5) (c % 2 ^ 5) c cells _ _ _
              refl (omega arith) (omega arith) (omega arith) (omega arith) (omega arith)
              (λ o2 held2.
                unfill_next 4 3 _ (d % 2 ^ 4 * 2 ^ 4 + e / 2 ^ 3) (d / 2 ^ 4) (d % 2 ^ 4) d cells _
                  _ _ refl (omega arith) (omega arith) (omega arith) (omega arith) (omega arith)
                  (λ o3 held3.
                    unfill_next 3 4 _ (e % 2 ^ 3 * 2 ^ 5 + f / 2 ^ 2) (e / 2 ^ 3) (e % 2 ^ 3) e
                      cells _ _ _ refl (omega arith) (omega arith) (omega arith) (omega arith)
                      (omega arith)
                      (λ o4 held4.
                        unfill_next 2 5 _ (f % 2 ^ 2 * 2 ^ 6 + g / 2) (f / 2 ^ 2) (f % 2 ^ 2) f
                          cells _ _ _ refl (omega arith) (omega arith) (omega arith) (omega arith)
                          (omega arith)
                          (λ o5 held5.
                            unfill_next 1 6 _ (g % 2 * 2 ^ 7 + h / 1) (g / 2 ^ 1) (g % 2 ^ 1) g
                              cells _ _ _ refl (omega arith) (omega arith) (omega arith)
                              (omega arith) (omega arith)
                              (λ o6 held6.
                                unfill_next 0 7 _ (x) (h / 2 ^ 0) (h % 2 ^ 0) h cells _ _ _ refl
                                  (omega arith) (omega arith) (omega arith) (omega arith)
                                  (omega arith) (λ o7 held7. reads_text held7 (sym (append-nil _)))
                                  held6)
                              held5)
                          held4)
                      held3)
                  held2)
              held1)
          (push_one-text_of o _ a text first holds))
        (append_assoc text (a ∷ []) (b ∷ c ∷ d ∷ e ∷ f ∷ g ∷ h ∷ []))

  pub unfill_all-packing :
      (n left : ℕ) {s : Bytes} (d : Eights s) (x : ℕ) (rest : List ℕ) (o : Option Buffer)
      (text : Bytes)
      → length (packing d) ≤ n
      → left ≡ length (packing d)
      → All IsSeven s
      → HoldsText m o text
      → HoldsText m (unfill_all m n left (packing d ++ x ∷ rest) o) (text ++ s)
  unfolding unfill_all
  unfill_all-packing zero left none_left x rest o text enough whole h holds =
      reads_text holds (sym (append-nil text))
  unfill_all-packing (suc n) zero none_left x rest o text enough whole h holds =
      reads_text holds (sym (append-nil text))
  unfill_all-packing (suc n) (suc left) none_left x rest o text enough whole h holds =
      absurd (omega arith)
  unfill_all-packing zero left (eight_more a b c d e f g i more) x rest o text enough whole h
        holds =
      absurd (omega arith)
  unfill_all-packing (suc n) zero (eight_more a b c d e f g i more) x rest o text enough whole h
        holds =
      absurd (omega arith)
  unfill_all-packing (suc n) (suc left) (eight_more a b c d e f g i {s} more) x rest o text enough
        whole (ha, (hb, (hc, (hd, (he, (hf, (hg, (hi, hs)))))))) holds =
      let (y, ys, cons) = some_head (packing more) x rest in
      let first = a * 2 ^ 1 + b / 2 ^ 6 in
      let here =
        subst
          (λ t.
            HoldsText m
              (unfill m 7 1 first (seven_of a b c d e f g i ++ t)
                (push_one m o (bit_and (shr first 1) 0x7f)))
              (text ++ a ∷ b ∷ c ∷ d ∷ e ∷ f ∷ g ∷ i ∷ []))
          (sym cons) (unfill_block a b c d e f g i y ys o text ha hb hc hd he hf hg hi holds) in
      reads_text
        (unfill_all-packing n (suc left - 7) more x rest _ _ (omega arith) (omega arith) hs here)
        (append_assoc text (a ∷ b ∷ c ∷ d ∷ e ∷ f ∷ g ∷ i ∷ []) s)
