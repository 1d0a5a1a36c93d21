-- ===== src/Utils/Text.antt =====
-- `unquote`, `strjoin` and `stringToLowercase` of libraries/postrest/utils.c.
pub mod Laws
use gwan_pg_rest_adapter.Prelude.{
  ℕ, ◌+◌, Bool, ◌&&◌, Option, none, some, List, [], ◌∷◌, map, Bytes, codes, below, leb, ◌==◌,
  if◌then◌else◌,
}
use gwan_pg_rest_adapter.Gwan.{Gwan}
use gwan_pg_rest_adapter.Gwan.Sprintf.{str, chr}

-- One round of the loop of `unquote`.
abbrev pub unquote_byte : ℕ → ℕ
unquote_byte c = if c == b'"' then 0x27 else if below c 0x20 then b'^' else c

unfoldable pub unquote : Bytes → Bytes
unquote s = map unquote_byte s

-- C's `tolower`
abbrev pub tolower : ℕ → ℕ
tolower c = if leb b'A' c && leb c b'Z' then c + 32 else c

unfoldable pub string_to_lowercase : Bytes → Bytes
string_to_lowercase s = map tolower s

module _ (g : Gwan) where
  open g use {xbuf_xcat}

  -- The loop over all items but the last, and the last.
  unfoldable pub join_items : Bytes → List Bytes → Bytes
  join_items buf [] = buf
  join_items buf (x ∷ []) = xbuf_xcat buf (codes "%s") (str (some x) ∷ [])
  join_items buf (x ∷ y ∷ list) =
      join_items (xbuf_xcat buf (codes "%s,") (str (some x) ∷ [])) (y ∷ list)

  abbrev pub put_char : Bytes → ℕ → Bytes
  put_char buf c = if c == 0 then buf else xbuf_xcat buf (codes "%c") (chr c ∷ [])

  -- `none` is the null pointer that is returned for an empty list. The parameter `delim` of the
  -- code is not read.
  unfoldable pub strjoin : Bytes → List Bytes → ℕ → ℕ → ℕ → Option Bytes
  unfolding join_items
  strjoin buf [] start stop delim = none
  strjoin buf (x ∷ list) start stop delim =
      some (put_char (join_items (put_char buf start) (x ∷ list)) stop)
