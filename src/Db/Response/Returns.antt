-- ===== src/Db/Response/Returns.antt =====
-- `db_response` returns whenever the results of the query come to an end.
use gwan_pg_rest_adapter.Prelude.{
  ℕ, zero, suc, ◌+◌, ◌≤◌, ◌≡◌, refl, sym, subst, ap, ◌∙◌, false, Option, none, some, List, Bytes,
  arith, inl, inr, Bool-cases, ◌==◌,
}
use gwan_pg_rest_adapter.Gwan.{Gwan}
use gwan_pg_rest_adapter.Endpoint.{Outcome, undefined}
use gwan_pg_rest_adapter.Db.Libpq.{Libpq, State}
use gwan_pg_rest_adapter.Db.Response.Loop.{
  Progress, Next, fetch, check, goes, run, write_result, wrote, refused, with_status, db_response,
  pgres_command_ok,
}
use gwan_pg_rest_adapter.Db.Response.Stream.{Reads, Settles, settled, waits, Stream, end, item}
use gwan_pg_rest_adapter.Db.Response.Steps.{
  at, first, is_tuples, step-idle, step-busy, handle-command, handle-tuples, handle-refused,
  fetch-none, fetch-some, refused-none, refused-some, run-returns, consume-Reads,
}

module _ (g : Gwan) (p : Libpq) where
  open p use {Conn, Result, is_busy, get_result, consume_input, result_status}

  abbrev Ends : ℕ → Next g p → Type 0
  Ends steps next = (out : Outcome (State p)) × (run g p steps next ≡ some out)

  -- The loop ends from a connection at the `while`, within any number of steps from `n` on.
  abbrev EndsFetch : Conn → ℕ → Type 0
  EndsFetch c n =
      (steps : ℕ) (progress : Progress) (reply headers : Bytes)
      → n ≤ steps
      → Ends steps (goes progress fetch (at g p reply headers c))

  abbrev EndsCheck : Conn → ℕ → Type 0
  EndsCheck c n =
      (steps : ℕ) (progress : Progress) (result : Result) (reply headers : Bytes)
      → n ≤ steps
      → Ends steps (goes progress (check result) (at g p reply headers c))

  wrote-Ends :
      (steps : ℕ) (reply headers : Bytes) (c : Conn) (n : ℕ) (o : Option (Progress × Bytes))
      → n ≤ steps
      → EndsFetch c n
      → Ends steps (wrote g p (at g p reply headers c) o)
  unfolding run
  wrote-Ends zero reply headers c n none h ends = (undefined, refl)
  wrote-Ends (suc steps) reply headers c n none h ends = (undefined, refl)
  wrote-Ends steps reply headers c n (some (progress, buf)) h ends =
      ends steps progress buf headers h

  -- A result of a connection that is not busy is one step, and the loop goes on at the `while`, or
  -- with the result that is fetched behind an error.
  handle-Ends :
      (c : Conn) (n : ℕ)
      → is_busy c ≡ false
      → EndsFetch c n
      → ((steps : ℕ) (progress : Progress) (reply headers : Bytes)
          → n ≤ steps
          → Ends steps
              (refused g p progress (at g p reply headers (get_result c).1) (get_result c).0))
      → EndsCheck c (suc n)
  unfolding run
  handle-Ends c n idle ends error zero progress result reply headers h = absurd (omega arith)
  handle-Ends c n idle ends error (suc steps) progress result reply headers h =
      let s : State p = at g p reply headers c in
      let progress' = with_status g p progress (result_status result) in
      subst (Ends steps) (sym (step-idle g p progress result s idle))
        (elim (Bool-cases (result_status result == pgres_command_ok)) [
          | inl command ↦
              subst (Ends steps) (sym (handle-command g p progress result s command))
                (ends steps progress' reply headers (omega arith))
          | inr other ↦ elim (Bool-cases (is_tuples g p result)) [
            | inl tuples ↦
                subst (Ends steps) (sym (handle-tuples g p progress result s other tuples)) (
                  wrote-Ends steps reply headers c n (write_result g p progress result reply)
                    (omega arith) ends)
            | inr wrong ↦
                subst (Ends steps) (sym (handle-refused g p progress result s other wrong))
                  (error steps progress' reply headers (omega arith))
          ]
        ])

  Settles-Ends :
      {c d : Conn} {k : ℕ} (n : ℕ)
      → Settles p c k d
      → (is_busy d ≡ false → EndsCheck d n)
      → EndsCheck c (k + n)
  unfolding run
  Settles-Ends n (settled idle) ends steps progress result reply headers h =
      ends idle steps progress result reply headers (omega arith)
  Settles-Ends n (waits busy reads rest) ends zero progress result reply headers h =
      absurd (omega arith)
  Settles-Ends n (waits busy reads rest) ends (suc steps) progress result reply headers h =
      subst (Ends steps) (sym (step-busy g p progress result reply headers busy reads))
        (Settles-Ends n rest ends steps progress result reply headers (omega arith))

  abbrev EndsRefused : Conn → ℕ → Type 0
  EndsRefused c n =
      (steps : ℕ) (progress : Progress) (reply headers : Bytes)
      → n ≤ steps
      → Ends steps (refused g p progress (at g p reply headers (get_result c).1) (get_result c).0)

  Stream-Ends :
      {c d : Conn} {results : List Result} {n : ℕ}
      → Stream p c results n d
      → EndsFetch c n × EndsRefused c n
  unfolding run
  Stream-Ends (end {c} {d} e) = (fetches, refuses)
    where
      fetches : EndsFetch c 1
      fetches zero progress reply headers h = absurd (omega arith)
      fetches (suc steps) progress reply headers h =
          subst (Ends steps) (sym (fetch-none g p progress reply headers e))
            (_, run-returns g p steps _ _)

      refuses : EndsRefused c 1
      refuses steps progress reply headers h =
          subst (Ends steps) (sym (refused-none g p progress reply headers e))
            (_, run-returns g p steps _ _)
  Stream-Ends (item {c} {c'} {k = k} {n = n} e settles rest) =
      let (fetches, refuses) = Stream-Ends rest in
      let checks = Settles-Ends (suc n) settles (λ idle. handle-Ends _ n idle fetches refuses) in
      (fetches_item checks, refuses_item checks)
    where
      fetches_item : EndsCheck c' (k + suc n) → EndsFetch c (suc (k + suc n))
      fetches_item checks zero progress reply headers h = absurd (omega arith)
      fetches_item checks (suc steps) progress reply headers h =
          subst (Ends steps) (sym (fetch-some g p progress reply headers e))
            (checks steps progress _ reply headers (omega arith))

      refuses_item : EndsCheck c' (k + suc n) → EndsRefused c (suc (k + suc n))
      refuses_item checks steps progress reply headers h =
          subst (Ends steps) (sym (refused-some g p progress reply headers e))
            (checks steps progress _ reply headers (omega arith))

  -- When the (first g p) wait succeeds and the results come to an end after finitely many reads,
  -- `db_response` returns, or runs into undefined behaviour, within the bound of the stream.
  pub db_response-Ends :
      (reply headers : Bytes) (c c' : Conn) {d : Conn} {results : List Result} {n : ℕ} (steps : ℕ)
      → Reads p c c'
      → Stream p c' results n d
      → n ≤ steps
      → (out : Outcome (State p)) × (db_response g p steps (at g p reply headers c) ≡ some out)
  unfolding db_response
  db_response-Ends reply headers c c' steps reads stream h =
      let (out, e) = (Stream-Ends stream).0 steps (first g p) reply headers h in
      (
        out,
        ap (run g p steps) (consume-Reads g p (goes (first g p) fetch) reply headers c c' reads)
            ∙ e,
      )
