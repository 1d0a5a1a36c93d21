-- ===== src/Sda/Archive.antt =====
-- The archive of sda.c: its set-up from a passphrase, the generator of the key stream, `encrypt` and
-- `decrypt`.
pub mod Undefined
use Prim.Native.Nat.{bit_and, bit_or, bit_xor}
use gwan_pg_rest_adapter.Prelude.{
  ℕ, zero, suc, ◌+◌, ◌-◌, ◌*◌, ◌%◌, ◌^◌, Bool, ◌&&◌, Option, none, some, List, [], ◌∷◌, Bytes,
  codes, ltb, length, get_elem?, ◌==◌, if◌then◌else◌,
}
use gwan_pg_rest_adapter.Sda.Words.{neg, shl, shr}
use gwan_pg_rest_adapter.Sda.Arrays.{Memory, Array, Buffer, store, init_array, init_buffer}
use gwan_pg_rest_adapter.Sda.Base64.{b64_to_array, array_to_form}
use gwan_pg_rest_adapter.Sda.Packing.{compress8to7, expand7to8}
use gwan_pg_rest_adapter.Sda.Md5.{Words, chrsz, core_md5, str2binl, xor_array}

abbrev pub polynomials31 : List ℕ
polynomials31 =
    0x40c6e78f ∷ 0x44ea7b19 ∷ 0x45da25ce ∷ 0x470c368e ∷ 0x4920f4c1 ∷ 0x4a2fb865 ∷ 0x4b641875
    ∷ 0x4d474412 ∷ 0x4c175700 ∷ 0x4e880047 ∷ 0x50a5894c ∷ 0x51ae3883 ∷ 0x531df126 ∷ 0x563e62e8
    ∷ 0x586801c2 ∷ 0x5bef4706 ∷ 0x5c14c48a ∷ 0x5d06e2a7 ∷ 0x5f2f8a72 ∷ 0x623311d9 ∷ 0x65616f52
    ∷ 0x668043b4 ∷ 0x672161c9 ∷ 0x67f0a6a8 ∷ 0x6814750f ∷ 0x6c4920c3 ∷ 0x6dca541b ∷ 0x6e97e1ed
    ∷ 0x70963ac8 ∷ 0x72de5f24 ∷ 0x7411688a ∷ 0x7502196b ∷ 0x76202331 ∷ 0x7887a9e1 ∷ 0x790621f4
    ∷ 0x7e79deae ∷ 0x7faca450 ∷ []

pub record Sda : Type 0 where
  pub state31 : ℕ
  pub polynom31 : ℕ
  pub state33 : ℕ
  pub polynom33 : ℕ
  pub state64h : ℕ
  pub state64l : ℕ
  pub polynom64 : ℕ
  pub butt : ℕ
  pub pn_state : Array
  pub polynom : Array
  pub buf : Buffer

-- One round of the loop of `pn`.
abbrev pub shift31 : Sda → ℕ
shift31 s =
    let low = bit_and s.state31 0x7fffffff in
    let shifted = if bit_and low 1 == 0 then shr low 1 else bit_xor (shr low 1) s.polynom31 in
    if bit_and s.state33 0x80000000 == 0 then shifted else bit_or shifted 0x80000000

abbrev pub shift33 : Sda → ℕ
shift33 s =
    if bit_and s.state31 0x80000000 == 0
    then shl s.state33 1
    else bit_xor (shl s.state33 1) s.polynom33

abbrev pub shift64 : Sda → ℕ
shift64 s =
    if bit_and s.state64h 1 == 0 then shl s.state64l 1 else bit_xor (shl s.state64l 1) s.polynom64

abbrev pub shift : Sda → Sda
shift s = record s {
  state31 = shift31 s;
  state33 = shift33 s;
  state64h = bit_or (shr s.state64h 1) (bit_and s.state64l 0x80000000);
  state64l = shift64 s;
}

-- What a run with a bound on its rounds comes to: undefined behaviour, the bound, or a result.
pub data Run (A : Type 0) : Type 0 where
  undefined : Run A
  unfinished : Run A
  ends : A → Run A

-- With a bound on the rounds of the loop.
unfoldable pub pn : ℕ → Sda → Run (ℕ × Sda)
pn zero s = unfinished
pn (suc n) s =
    let again = pn n (shift s) in
    if bit_and (shift64 s) s.butt == 0
    then ends (bit_xor (shift31 s) (shift33 s), shift s)
    else again

-- The cells 0 to 3.
abbrev pub four_cells : List ℕ → Option Words
four_cells (a ∷ b ∷ c ∷ d ∷ cells) = some (record { a = a; b = b; c = c; d = d })
four_cells cells = none

-- `v % 31` as an index; that of a negative number is negative or 0.
abbrev pub index31 : ℕ → Option ℕ
index31 v = if ltb v (2 ^ 31) then some (v % 31) else if neg v % 31 == 0 then some 0 else none

-- `if( !x ) x++`, as it tests `tested`.
abbrev pub more_if_zero : ℕ → ℕ → ℕ
more_if_zero tested x = if tested == 0 then (x + 1) % 2 ^ 32 else x

abbrev pub stored : Array → Sda → Option (List ℕ) → Run (Array × Sda)
stored ota s none = undefined
stored ota s (some elem) = ends (record ota { elem = elem }, s)

abbrev pub drawn : ℕ → ℕ → Array → Run (ℕ × Sda) → Run (Array × Sda)
drawn i v ota undefined = undefined
drawn i v ota unfinished = unfinished
drawn i v ota (ends (w, s)) = stored ota s (store ota.elem i (bit_xor v w))

-- `ota->elem[ i ] = ina->elem[ i ] ^ pn(sda)`
abbrev pub crypt_cell : ℕ → ℕ → Array → Sda → Option ℕ → Run (Array × Sda)
crypt_cell bound i ota s none = undefined
crypt_cell bound i ota s (some v) = drawn i v ota (pn bound s)

module _ (m : Memory) where
  -- The loop of `crypt` from `i` on, with `n` rounds left and a bound for each call of `pn`.
  unfoldable pub crypt_cells : ℕ → ℕ → ℕ → List ℕ → Run (Array × Sda) → Run (Array × Sda)
  unfolding pn
  crypt_cells bound n i cells undefined = undefined
  crypt_cells bound n i cells unfinished = unfinished
  crypt_cells bound zero i cells (ends r) = ends r
  crypt_cells bound (suc n) i cells (ends (ota, s)) =
      crypt_cells bound n (suc i) cells (crypt_cell bound i ota s (get_elem? cells i))

  unfoldable pub crypt : ℕ → Sda → Array → Run (Array × Sda)
  unfolding crypt_cells
  crypt bound s ina = crypt_cells bound ina.used 0 ina.elem (ends (init_array m ina.used, s))

  -- The state from the words of the hash and of the polynom.
  abbrev pub set_up : Buffer → Array → Array → Option Words → Option Words → Option Sda
  set_up buf pn_state polynom (some w) (some x) = elim (index31 (shr x.a 1)) [
    | none ↦ none
    | some i ↦ elim (get_elem? polynomials31 i) [
      | none ↦ none
      | some polynom31 ↦ some (record {
        state31 = more_if_zero (bit_and w.a 0x7fffffff) w.a;
        polynom31 = polynom31;
        state33 = more_if_zero w.b w.b;
        polynom33 = bit_or x.b 1;
        state64h = w.c;
        state64l = if w.c == 0 && w.d == 0 then (w.d + 1) % 2 ^ 32 else w.d;
        polynom64 = bit_or x.c 1;
        butt = bit_or (shl 1 (bit_and x.d 0x1f)) (shl 1 (bit_and (shr x.d 8) 0x1f));
        pn_state = pn_state;
        polynom = polynom;
        buf = buf;
      })
    ]
  ]
  set_up buf pn_state polynom w x = none

  abbrev pub with_polynom : Buffer → Array → Array → Option Array → Option Sda
  with_polynom buf pn pn_state none = none
  with_polynom buf pn pn_state (some x) =
      set_up buf pn_state x (four_cells pn.elem) (four_cells x.elem)

  -- `core_md5( bin, plen * chrsz >> 1 )` and what follows.
  abbrev pub with_second : Buffer → Array → Array → ℕ → Option (Array × Array) → Option Sda
  with_second buf pn bin bits none = none
  with_second buf pn bin bits (some (pn_state, a)) = elim (core_md5 m bin (shr bits 1)) [
    | none ↦ none
    | some (bin', b) ↦ with_polynom buf pn pn_state (xor_array m a b)
  ]

  -- `core_md5( sda->pnState, 0x80 )` and what follows.
  abbrev pub with_hash : Buffer → ℕ → Option (Array × Array) → Option Sda
  with_hash buf bits none = none
  with_hash buf bits (some (bin, pn)) = with_second buf pn bin bits (core_md5 m pn 0x80)

  abbrev pub with_words : Buffer → ℕ → Option Array → Option Sda
  with_words buf bits none = none
  with_words buf bits (some bin) = with_hash buf bits (core_md5 m bin bits)

  abbrev pub with_buffer : Bytes → Option Buffer → Option Sda
  with_buffer passphr none = none
  with_buffer passphr (some buf) = with_words buf (length passphr * chrsz) (str2binl m passphr)

  -- A number of bits that is no `int` is undefined.
  unfoldable pub init_sda : Bytes → Option Sda
  unfolding core_md5 str2binl xor_array init_buffer
  init_sda passphr =
      if ltb (length passphr * chrsz) (2 ^ 31)
      then with_buffer passphr (init_buffer m 256)
      else none

  -- The archive with what is in its buffer at the end.
  abbrev pub with_result : Sda → Option Buffer → Run Sda
  with_result s none = undefined
  with_result s (some buf) = ends (record s { buf = buf })

  abbrev pub with_form : Run (Array × Sda) → Run Sda
  with_form undefined = undefined
  with_form unfinished = unfinished
  with_form (ends (b, s)) = with_result s (array_to_form m s.buf b)

  -- `encrypt` and `decrypt` after the set-up.
  abbrev pub encrypt_with : ℕ → Bytes → Sda → Run Sda
  encrypt_with bound input s = elim (compress8to7 m input) [
    | none ↦ undefined
    | some a ↦ with_form (crypt bound s a)
  ]

  abbrev pub with_text : Run (Array × Sda) → Run Sda
  with_text undefined = undefined
  with_text unfinished = unfinished
  with_text (ends (b, s)) = with_result s (expand7to8 m s.buf b)

  abbrev pub decrypt_with : ℕ → Bytes → Sda → Run Sda
  decrypt_with bound input s = elim (b64_to_array m input) [
    | none ↦ undefined
    | some a ↦ with_text (crypt bound s a)
  ]

  unfoldable pub encrypt : ℕ → Bytes → Bytes → Run Sda
  unfolding init_sda crypt compress8to7 array_to_form
  encrypt bound input passphrase = elim (init_sda passphrase) [
    | none ↦ undefined
    | some s ↦ encrypt_with bound input s
  ]

  unfoldable pub decrypt : ℕ → Bytes → Bytes → Run Sda
  unfolding init_sda crypt b64_to_array expand7to8
  decrypt bound input passphrase = elim (init_sda passphrase) [
    | none ↦ undefined
    | some s ↦ decrypt_with bound input s
  ]

  unfoldable pub main : ℕ → Run Sda
  unfolding encrypt
  main bound = encrypt bound (codes "hello world") (codes "secret")
