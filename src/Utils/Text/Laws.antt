-- ===== src/Utils/Text/Laws.antt =====
-- What `unquote` and `strjoin` produce.
use gwan_pg_rest_adapter.Prelude.{
  ℕ, ◌≤◌, ◌<◌, ◌≡◌, ◌≢◌, refl, sym, ap, ◌∙◌, some, List, [], ◌∷◌, ◌++◌, append_assoc, append-nil,
  Bytes, codes, All, arith,
}
use gwan_pg_rest_adapter.Gwan.{Gwan}
use gwan_pg_rest_adapter.Gwan.Sprintf.{sprintf, str, chr}
use gwan_pg_rest_adapter.Utils.Text.{unquote, unquote_byte, join_items, put_char, strjoin}

-- A byte that can stand in a JSON string as it is, but for the backslash.
abbrev pub IsUnquotedByte : ℕ → Type 0
IsUnquotedByte c = (32 ≤ c) × (c < 128) × (c ≢ b'"')

unquote_byte-IsUnquotedByte : (c : ℕ) → IsUnquotedByte (unquote_byte c)
unquote_byte-IsUnquotedByte c = ground arith

-- Whatever the text, `unquote` leaves no double quote, no control code and no byte outside ASCII.
pub unquote-IsUnquoted : (s : Bytes) → All IsUnquotedByte (unquote s)
unfolding unquote
unquote-IsUnquoted [] = tt
unquote-IsUnquoted (c ∷ s) = (unquote_byte-IsUnquotedByte c, unquote-IsUnquoted s)

-- A text without such bytes is unchanged.
pub unquote_of_IsUnquoted : (s : Bytes) → All IsUnquotedByte s → unquote s ≡ s
unfolding unquote
unquote_of_IsUnquoted [] h = refl
unquote_of_IsUnquoted (c ∷ s) (h, hs) = ground (arith, unquote_of_IsUnquoted s hs)

-- The items separated by commas.
abbrev pub comma_separated : List Bytes → Bytes
comma_separated [] = []
comma_separated (x ∷ []) = x
comma_separated (x ∷ y ∷ list) = x ++ b',' ∷ comma_separated (y ∷ list)

module _ (g : Gwan) where
  join_items_lem :
      (list : List Bytes) (buf : Bytes) → join_items g buf list ≡ buf ++ comma_separated list
  unfolding join_items sprintf
  join_items_lem [] buf = sym (append-nil buf)
  join_items_lem (x ∷ []) buf = g.xbuf_xcat_lem buf _ _ refl ∙ ap (λ t. buf ++ t) (append-nil x)
  join_items_lem (x ∷ y ∷ list) buf = simp (
    join_items_lem (y ∷ list),
    g.xbuf_xcat_lem buf (codes "%s,") (str (some x) ∷ []) refl,
    append_assoc,
  )

  put_char_lem : (buf : Bytes) (c : ℕ) → c ≢ 0 → put_char g buf c ≡ buf ++ c ∷ []
  unfolding sprintf
  put_char_lem buf c h =
      let printed = g.xbuf_xcat_lem buf (codes "%c") (chr c ∷ []) refl in ground (arith, printed)

  -- `strjoin` appends the opening byte, the items with a comma between each two, whatever
  -- delimiter is asked for, and the closing byte.
  pub strjoin_lem :
      (buf : Bytes) (x : Bytes) (list : List Bytes) (start stop delim : ℕ)
      → start ≢ 0
      → stop ≢ 0
      → strjoin g buf (x ∷ list) start stop delim
        ≡ some (buf ++ start ∷ (comma_separated (x ∷ list) ++ stop ∷ []))
  unfolding strjoin sprintf
  strjoin_lem buf x list start stop delim p q = ap some (
      simp
        (put_char_lem buf start p, put_char_lem _ stop q, join_items_lem (x ∷ list), append_assoc))
