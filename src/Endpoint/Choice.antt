-- ===== src/Endpoint/Choice.antt =====
-- Which endpoint `exec_endpoint` runs, and when it runs none.
use gwan_pg_rest_adapter.Prelude.{
  ℕ, ◌≡◌, ◌⊎◌, refl, inl, inr, Bool, true, false, not, ◌&&◌, ◌||◌, List, [], ◌∷◌, Bytes, codes, All,
  ◌==◌, arith, Bool-cases, if◌then◌else◌,
}
use Prim.Native.Nat.{bit_and}
use gwan_pg_rest_adapter.Endpoint.{
  Outcome, Entry, Call, is_match, serve, respond_to, choose, exec_endpoint, permit_unauth,
}

module _ {S : Type 0} (error : ℕ → Bytes → S → Outcome S) (response : S → Outcome S)
    (call : Call) where
  -- The first entry of the table that takes the call's method and command.
  pub data IsFirst : List (Entry S) → Entry S → Type 0 where
    here :
        {entry : Entry S} {entries : List (Entry S)}
        → is_match error response call entry ≡ true
        → IsFirst (entry ∷ entries) entry
    there :
        {other entry : Entry S} {entries : List (Entry S)}
        → is_match error response call other ≡ false
        → IsFirst entries entry
        → IsFirst (other ∷ entries) entry

  choose-IsFirst :
      {entries : List (Entry S)} {entry : Entry S}
      → IsFirst entries entry
      → (allowed : Bool) (s : S)
      → choose error response call allowed entries s ≡ serve error response call entry s
  unfolding choose
  choose-IsFirst (here m) allowed s = rw m
  choose-IsFirst (there {other} m f) allowed s =
      rw m (choose-IsFirst f (allowed || other.method == call.method) s)

  -- Whatever the order of the rest, the first entry that takes the method and the command is
  -- served: without a session and without its permission with 401, else by its endpoint, whose
  -- status is returned unless it is 0, when the database's response is awaited.
  pub exec_endpoint-IsFirst :
      {entries : List (Entry S)} {entry : Entry S} (s : S)
      → IsFirst entries entry
      → exec_endpoint error response call entries s ≡ (
          if not call.session && bit_and entry.flags permit_unauth == 0
          then error 401 (codes "unauthorized access") s
          else respond_to error response call (entry.endpoint s))
  unfolding exec_endpoint
  exec_endpoint-IsFirst s f = choose-IsFirst f false s

  -- Some entry has the method of the call.
  abbrev pub has_method : List (Entry S) → Bool
  has_method [] = false
  has_method (entry ∷ entries) = entry.method == call.method || has_method entries

  choose_unmatched :
      (allowed : Bool) (entries : List (Entry S)) (s : S)
      → All (λ entry. is_match error response call entry ≡ false) entries
      → choose error response call allowed entries s ≡ (
          if allowed || has_method entries
          then error 404 (codes "endpoint not found") s
          else error 405 (codes "method not allowed") s)
  unfolding choose
  choose_unmatched true [] s h = refl
  choose_unmatched false [] s h = refl
  choose_unmatched allowed (entry ∷ entries) s (m, ms) =
      rw m (ground (arith, choose_unmatched (allowed || entry.method == call.method) entries s ms))

  -- When no entry takes the method and the command, 404 is the answer if some entry has the
  -- method, and 405 if none has.
  pub exec_endpoint_unmatched :
      (entries : List (Entry S)) (s : S)
      → All (λ entry. is_match error response call entry ≡ false) entries
      → exec_endpoint error response call entries s ≡ (
          if has_method entries
          then error 404 (codes "endpoint not found") s
          else error 405 (codes "method not allowed") s)
  unfolding exec_endpoint
  exec_endpoint_unmatched entries s h = choose_unmatched false entries s h

  -- One of the three refusals of `exec_endpoint`.
  abbrev pub IsRefusal : S → Outcome S → Type 0
  IsRefusal s out =
      (out ≡ error 401 (codes "unauthorized access") s)
      ⊎ (out ≡ error 404 (codes "endpoint not found") s)
      ⊎ (out ≡ error 405 (codes "method not allowed") s)

  choose-IsRefusal :
      (allowed : Bool) (entries : List (Entry S)) (s : S)
      → call.session ≡ false
      → All (λ entry. bit_and entry.flags permit_unauth ≡ 0) entries
      → IsRefusal s (choose error response call allowed entries s)
  unfolding choose
  choose-IsRefusal true [] s h k = inr (inl refl)
  choose-IsRefusal false [] s h k = inr (inr refl)
  choose-IsRefusal allowed (entry ∷ entries) s h (k, ks) =
      elim (Bool-cases (is_match error response call entry)) [
        | inl m ↦ rw m (rw h (rw k (inl refl)))
        | inr m ↦ rw m (choose-IsRefusal (allowed || entry.method == call.method) entries s h ks)
      ]

  -- Without a session, a table none of whose entries permits it answers every request with 401,
  -- 404 or 405, and no endpoint runs.
  pub exec_endpoint-IsRefusal :
      (entries : List (Entry S)) (s : S)
      → call.session ≡ false
      → All (λ entry. bit_and entry.flags permit_unauth ≡ 0) entries
      → IsRefusal s (exec_endpoint error response call entries s)
  unfolding exec_endpoint
  exec_endpoint-IsRefusal entries s h k = choose-IsRefusal false entries s h k
