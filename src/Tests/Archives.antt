-- ===== src/Tests/Archives.antt =====
-- A memory whose blocks are zeros, and archives in it.
use gwan_pg_rest_adapter.Prelude.{
  ℕ, zero, suc, ◌+◌, ◌*◌, ◌%◌, ◌^◌, ◌≡◌, refl, ap, some, List, [], ◌∷◌, ◌++◌, codes, length, arith,
}
use gwan_pg_rest_adapter.Sda.Words.{neg, safe_add}
use gwan_pg_rest_adapter.Sda.Words.Laws.{safe_add_lem}
use gwan_pg_rest_adapter.Sda.Arrays.{Memory, Array, Buffer, elements, text_of}
use gwan_pg_rest_adapter.Sda.Arrays.Grow.{IsArray, IsBuffer, Holds, HoldsText}
use gwan_pg_rest_adapter.Sda.Base64.{b64_to_array, array_to_form}
use gwan_pg_rest_adapter.Sda.Base64.RoundTrip.{b64_to_array-array_to_form}
use gwan_pg_rest_adapter.Sda.Packing.{compress8to7, expand7to8}
use gwan_pg_rest_adapter.Sda.Packing.RoundTrip.{expand7to8-compress8to7}
use gwan_pg_rest_adapter.Sda.Md5.{chrsz, core_md5, str2binl}
use gwan_pg_rest_adapter.Sda.Md5.Constant.{core_md5-str2binl}
use gwan_pg_rest_adapter.Sda.Archive.{undefined, encrypt, decrypt}
use gwan_pg_rest_adapter.Sda.Archive.Undefined.{encrypt_undefined}

abbrev zeros : ℕ → List ℕ
zeros zero = []
zeros (suc n) = 0 ∷ zeros n

length-zeros : (n : ℕ) → length (zeros n) ≡ n
length-zeros zero = refl
length-zeros (suc n) = ap suc (length-zeros n)

abbrev memory : Memory
memory = record { fresh = zeros; length-fresh = length-zeros }

abbrev empty : Buffer
empty = record { str = zeros 4; len = 0; size = 4 }

abbrev seven_bytes : Array
seven_bytes = record {
  elem = 0x4d ∷ 0xff ∷ 0x01 ∷ 0x80 ∷ 0x20 ∷ 0x61 ∷ 0x62 ∷ 0 ∷ [];
  used = 7;
  size = 8;
}

safe_add_lem_example : safe_add (neg 1) (2 ^ 31) ≡ (neg 1 + 2 ^ 31) % 2 ^ 32
safe_add_lem_example = safe_add_lem (neg 1) (2 ^ 31) (ground arith) (ground arith)

b64_to_array-array_to_form_example :
    (buf : Buffer) × (array_to_form memory empty seven_bytes ≡ some buf)
    × IsBuffer buf
    × Holds memory (b64_to_array memory (text_of buf)) (elements seven_bytes)
b64_to_array-array_to_form_example =
    b64_to_array-array_to_form memory empty seven_bytes
      (record { block = refl; room = ground arith })
      (record { block = refl; room = ground arith; some_size = ground arith }) refl (ground arith)
      (ground arith) (ground arith)

expand7to8-compress8to7_example :
    (array : Array) × (compress8to7 memory (codes "password") ≡ some array)
    × IsArray array
    × (array.used ≡ 1 * 7)
    × HoldsText memory (expand7to8 memory empty array) (text_of empty ++ codes "password")
expand7to8-compress8to7_example =
    expand7to8-compress8to7 memory 1 (codes "password") empty refl (ground arith) (ground arith)
      (record { block = refl; room = ground arith })

core_md5-str2binl_example :
    (bin : Array) × (bin' : Array) × (ret : Array) × (str2binl memory (codes "passphrase")
      ≡ some bin)
    × (core_md5 memory bin (length (codes "passphrase") * chrsz) ≡ some (bin', ret))
    × (elements ret ≡ 1732584193 ∷ neg 271733879 ∷ neg 1732584194 ∷ 271733878 ∷ [])
core_md5-str2binl_example =
    core_md5-str2binl memory (codes "passphrase") (ground arith) (ground arith)

encrypt_undefined_example :
    (encrypt memory 100 (codes "hello world") (codes "passphrase") ≡ undefined)
    × (decrypt memory 100 (codes "hello world") (codes "passphrase") ≡ undefined)
encrypt_undefined_example = encrypt_undefined memory 100 (codes "hello world") (codes "passphrase")
