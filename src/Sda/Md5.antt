-- ===== src/Sda/Md5.antt =====
-- `core_md5`, `str2binl` and `xorArray` of sda.c. An index outside the block is `none`.
pub mod Constant
use Prim.Native.Nat.{bit_and, bit_or, bit_xor}
use gwan_pg_rest_adapter.Prelude.{
  ℕ, zero, suc, ◌+◌, ◌*◌, ◌/◌, ◌%◌, ◌^◌, Option, none, some, List, [], ◌∷◌, Bytes, length, drop,
  get_elem?,
}
use gwan_pg_rest_adapter.Sda.Words.{
  neg, int_of_char, shl, shr, safe_add, md5_ff, md5_gg, md5_hh, md5_ii,
}
use gwan_pg_rest_adapter.Sda.Arrays.{Memory, Array, store, init_array, insert_array}

-- The global `chrsz`.
abbrev pub chrsz : ℕ
chrsz = 8

-- The variables a, b, c and d, in the order in which a line of the code names them.
pub record Words : Type 0 where
  pub a : ℕ
  pub b : ℕ
  pub c : ℕ
  pub d : ℕ

pub data Mix : Type 0 where
  ff : Mix
  gg : Mix
  hh : Mix
  ii : Mix

abbrev pub mix : Mix → ℕ → ℕ → ℕ → ℕ → ℕ → ℕ → ℕ → ℕ
mix ff = md5_ff
mix gg = md5_gg
mix hh = md5_hh
mix ii = md5_ii

-- One line of the loop: the function, the index behind `i`, the shift and the constant.
pub record Line : Type 0 where
  pub by : Mix
  pub at : ℕ
  pub shift : ℕ
  pub constant : ℕ

abbrev pub line : Mix → ℕ → ℕ → ℕ → Line
line by at shift constant = record { by = by; at = at; shift = shift; constant = constant }

abbrev pub lines : List Line
lines =
    line ff 0 7 (neg 680876936)
    ∷ line ff 1 12 (neg 389564586)
    ∷ line ff 2 17 606105819
    ∷ line ff 3 22 (neg 1044525330)
    ∷ line ff 4 7 (neg 176418897)
    ∷ line ff 5 12 1200080426
    ∷ line ff 6 17 (neg 1473231341)
    ∷ line ff 7 22 (neg 45705983)
    ∷ line ff 8 7 1770035416
    ∷ line ff 9 12 (neg 1958414417)
    ∷ line ff 10 17 (neg 42063)
    ∷ line ff 11 22 (neg 1990404162)
    ∷ line ff 12 7 1804603682
    ∷ line ff 13 12 (neg 40341101)
    ∷ line ff 14 17 (neg 1502002290)
    ∷ line ff 15 22 1236535329
    ∷ line gg 1 5 (neg 165796510)
    ∷ line gg 6 9 (neg 1069501632)
    ∷ line gg 11 14 643717713
    ∷ line gg 0 20 (neg 373897302)
    ∷ line gg 5 5 (neg 701558691)
    ∷ line gg 10 9 38016083
    ∷ line gg 15 14 (neg 660478335)
    ∷ line gg 4 20 (neg 405537848)
    ∷ line gg 9 5 568446438
    ∷ line gg 14 9 (neg 1019803690)
    ∷ line gg 3 14 (neg 187363961)
    ∷ line gg 8 20 1163531501
    ∷ line gg 13 5 (neg 1444681467)
    ∷ line gg 2 9 (neg 51403784)
    ∷ line gg 7 14 1735328473
    ∷ line gg 12 20 (neg 1926607734)
    ∷ line hh 5 4 (neg 378558)
    ∷ line hh 8 11 (neg 2022574463)
    ∷ line hh 11 16 1839030562
    ∷ line hh 14 23 (neg 35309556)
    ∷ line hh 1 4 (neg 1530992060)
    ∷ line hh 4 11 1272893353
    ∷ line hh 7 16 (neg 155497632)
    ∷ line hh 10 23 (neg 1094730640)
    ∷ line hh 13 4 681279174
    ∷ line hh 0 11 (neg 358537222)
    ∷ line hh 3 16 (neg 722521979)
    ∷ line hh 6 23 76029189
    ∷ line hh 9 4 (neg 640364487)
    ∷ line hh 12 11 (neg 421815835)
    ∷ line hh 15 16 530742520
    ∷ line hh 2 23 (neg 995338651)
    ∷ line ii 0 6 (neg 198630844)
    ∷ line ii 7 10 1126891415
    ∷ line ii 14 15 (neg 1416354905)
    ∷ line ii 5 21 (neg 57434055)
    ∷ line ii 12 6 1700485571
    ∷ line ii 3 10 (neg 1894986606)
    ∷ line ii 10 15 (neg 1051523)
    ∷ line ii 1 21 (neg 2054922799)
    ∷ line ii 8 6 1873313359
    ∷ line ii 15 10 (neg 30611744)
    ∷ line ii 6 15 (neg 1560198380)
    ∷ line ii 13 21 1309151649
    ∷ line ii 4 6 (neg 145523070)
    ∷ line ii 11 10 (neg 1120210379)
    ∷ line ii 2 15 718787259
    ∷ line ii 9 21 (neg 343485551)
    ∷ []

-- A line sets the variable that it names first; the next line names the one before it first.
abbrev pub run_line : List ℕ → Line → Words → Option Words
run_line x l w = elim (get_elem? x l.at) [
  | none ↦ none
  | some word ↦
      some
        (record { a = w.d; b = mix l.by w.a w.b w.c w.d word l.shift l.constant; c = w.b; d = w.c })
]

abbrev pub run_lines : List ℕ → List Line → Option Words → Option Words
run_lines x ls none = none
run_lines x [] (some w) = some w
run_lines x (l ∷ ls) (some w) = run_lines x ls (run_line x l w)

abbrev pub add_words : Words → Option Words → Option Words
add_words old none = none
add_words old (some w) = some (record {
  a = safe_add w.a old.a;
  b = safe_add w.b old.b;
  c = safe_add w.c old.c;
  d = safe_add w.d old.d;
})

-- The rounds of the loop; `x` is the block from `i` on.
unfoldable pub run_blocks : ℕ → List ℕ → Option Words → Option Words
unfolding safe_add md5_ff md5_gg md5_hh md5_ii
run_blocks n x none = none
run_blocks zero x (some w) = some w
run_blocks (suc n) x (some w) = run_blocks n (drop 16 x) (add_words w (run_lines x lines (some w)))

abbrev pub start_words : Words
start_words = record { a = 1732584193; b = neg 271733879; c = neg 1732584194; d = 271733878 }

-- `x[i] |= v`
abbrev pub or_cell : List ℕ → ℕ → ℕ → Option (List ℕ)
or_cell x i v = elim (get_elem? x i) [ none ↦ none | some old ↦ store x i (bit_or old v) ]

-- The padding.
unfoldable pub pad : List ℕ → ℕ → Option (List ℕ)
pad x len = elim (or_cell x (shr len 5) (shl 0x80 (len % 32))) [
  | none ↦ none
  | some x' ↦ store x' (shl (shr (len + 64) 9) 4 + 14) len
]

module _ (m : Memory) where
  abbrev pub insert_next : Option Array → ℕ → Option Array
  insert_next none elem = none
  insert_next (some a) elem = insert_array m a elem

  unfoldable pub words_array : Words → Option Array
  words_array w =
      insert_next (insert_next (insert_next (insert_next (some (init_array m 4)) w.a) w.b) w.c) w.d

  abbrev pub hashed : Option Words → Option Array
  hashed none = none
  hashed (some w) = words_array w

  abbrev pub paired : Array → List ℕ → Option Array → Option (Array × Array)
  paired ina x none = none
  paired ina x (some ret) = some (record ina { elem = x }, ret)

  abbrev pub hash_padded : Array → Option (List ℕ) → Option (Array × Array)
  hash_padded ina none = none
  hash_padded ina (some x) =
      paired ina x (hashed (run_blocks ((ina.used + 15) / 16) x (some start_words)))

  -- The array as the padding leaves it, and the hash.
  unfoldable pub core_md5 : Array → ℕ → Option (Array × Array)
  unfolding run_blocks pad
  core_md5 ina len = hash_padded ina (pad ina.elem len)

  -- The loop of `str2binl` from the character with index `k` on.
  unfoldable pub put_chars : Bytes → ℕ → List ℕ → Option (List ℕ)
  put_chars [] k elem = some elem
  put_chars (c ∷ str) k elem =
      elim (or_cell elem (shr (k * chrsz) 5)
        (shl (bit_and (int_of_char c) ((shl 1 chrsz + neg 1) % 2 ^ 32)) (k * chrsz % 32))) [
          | none ↦ none
          | some elem' ↦ put_chars str (suc k) elem'
        ]

  unfoldable pub str2binl : Bytes → Option Array
  unfolding put_chars
  str2binl str =
      let bin = init_array m (length str * 2) in
      elim (put_chars str 0 bin.elem) [
        | none ↦ none
        | some elem ↦ some (record bin { elem = elem })
      ]

  -- The loop of `xorArray` from `i` on, with `n` rounds left.
  unfoldable pub xor_cells : ℕ → ℕ → Array → Array → Array → Option Array
  xor_cells zero i a b c = some c
  xor_cells (suc n) i a b c = elim (get_elem? a.elem i) [
    | none ↦ none
    | some v ↦ elim (get_elem? b.elem i) [
      | none ↦ none
      | some w ↦ elim (store c.elem i (bit_xor v w)) [
        | none ↦ none
        | some elem ↦ xor_cells n (suc i) a b (record c { elem = elem })
      ]
    ]
  ]

  unfoldable pub xor_array : Array → Array → Option Array
  unfolding xor_cells
  xor_array a b = let c = init_array m a.used in xor_cells c.used 0 a b c
