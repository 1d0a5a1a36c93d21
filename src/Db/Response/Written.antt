-- ===== src/Db/Response/Written.antt =====
-- What `db_response` writes for the results of a query.
use gwan_pg_rest_adapter.Prelude.{
  ℕ, zero, suc, ◌+◌, ◌-◌, ◌≤◌, ◌≡◌, refl, ap, ◌∙◌, true, false, ◌||◌, Option, none, some, List, [],
  ◌∷◌, Bytes, All, arith, inl, inr, Bool-cases, ◌==◌, if◌then◌else◌,
}
use gwan_pg_rest_adapter.Gwan.{Gwan}
use gwan_pg_rest_adapter.Endpoint.{Outcome, returned, undefined}
use gwan_pg_rest_adapter.Db.Libpq.{Libpq, State}
use gwan_pg_rest_adapter.Db.Response.Loop.{
  Progress, fetch, check, goes, run, handle, write_result, wrote, closed, with_status, db_response,
  pgres_command_ok,
}
use gwan_pg_rest_adapter.Db.Response.Stream.{Reads, Settles, settled, waits, Stream, end, item}
use gwan_pg_rest_adapter.Db.Response.Steps.{
  at, first, is_tuples, step-idle, step-busy, handle-command, handle-tuples, fetch-none, fetch-some,
  run-returns, consume-Reads,
}

module _ (g : Gwan) (p : Libpq) where
  open p use {Conn, Result, is_busy, result_status, nfields, ntuples}

  -- The reference: what each result adds, from the first to the last.
  abbrev pub accepted : Progress → Result → Bytes → Option (Progress × Bytes)
  accepted progress result buf =
      if result_status result == pgres_command_ok
      then some (with_status g p progress (result_status result), buf)
      else write_result g p progress result buf

  abbrev pub write_all : Progress → List Result → Bytes → Option (Progress × Bytes)
  write_all progress [] buf = some (progress, buf)
  write_all progress (result ∷ results) buf = elim (accepted progress result buf) [
    | none ↦ none
    | some (progress', buf') ↦ write_all progress' results buf'
  ]

  abbrev pub response_of : Bytes → Conn → Option (Progress × Bytes) → Outcome (State p)
  response_of headers d none = undefined
  response_of headers d (some (progress, buf)) =
      returned 200 (closed g p progress (at g p buf headers d))

  abbrev pub IsAccepted : Result → Type 0
  IsAccepted result = ((result_status result == pgres_command_ok) || is_tuples g p result) ≡ true

  pub Settles-run :
      {c d : Conn} {k : ℕ} (steps m : ℕ) (progress : Progress) (result : Result)
      (reply headers : Bytes)
      → Settles p c k d
      → steps ≡ k + m
      → run g p steps (goes progress (check result) (at g p reply headers c))
        ≡ run g p m (goes progress (check result) (at g p reply headers d))
  unfolding run
  Settles-run {c} steps m progress result reply headers (settled idle) e =
      let same : steps ≡ m = omega arith in
      ap (λ n. run g p n (goes progress (check result) (at g p reply headers c))) same
  Settles-run zero m progress result reply headers (waits busy reads rest) e = absurd (omega arith)
  Settles-run (suc steps) m progress result reply headers (waits busy reads rest) e =
      ap (run g p steps) (step-busy g p progress result reply headers busy reads)
      ∙ Settles-run steps m progress result reply headers rest (omega arith)

  pub settled_idle : {c d : Conn} {k : ℕ} → Settles p c k d → is_busy d ≡ false
  settled_idle (settled idle) = idle
  settled_idle (waits busy reads rest) = settled_idle rest

  -- A result that is accepted is handled by the reference.
  pub handle-accepted :
      (progress : Progress) (result : Result) (s : State p)
      → IsAccepted result
      → handle g p progress result s ≡ wrote g p s (accepted progress result s.reply)
  handle-accepted progress result s ok =
      elim (Bool-cases (result_status result == pgres_command_ok)) [
        | inl command ↦ handle-command g p progress result s command ∙ rw command refl
        | inr other ↦ handle-tuples g p progress result s other (rw other at ok) ∙ rw other refl
      ]

  wrote-run :
      (steps : ℕ) (headers : Bytes) (c : Conn) (reply : Bytes) (o : Option (Progress × Bytes))
      (results : List Result) (d : Conn)
      → ((progress : Progress) (buf : Bytes)
          → run g p steps (goes progress fetch (at g p buf headers c))
            ≡ some (response_of headers d (write_all progress results buf)))
      → run g p steps (wrote g p (at g p reply headers c) o)
        ≡ some (
            response_of headers d
              (elim o [ none ↦ none | some (progress, buf) ↦ write_all progress results buf ]))
  unfolding run
  wrote-run zero headers c reply none results d ih = refl
  wrote-run (suc steps) headers c reply none results d ih = refl
  wrote-run steps headers c reply (some (progress, buf)) results d ih = ih progress buf

  run-write_all :
      {c d : Conn} {results : List Result} {n : ℕ} (steps : ℕ) (progress : Progress)
      (reply headers : Bytes)
      → Stream p c results n d
      → All IsAccepted results
      → n ≤ steps
      → run g p steps (goes progress fetch (at g p reply headers c))
        ≡ some (response_of headers d (write_all progress results reply))
  unfolding run
  run-write_all zero progress reply headers (end e) ok h = absurd (omega arith)
  run-write_all (suc steps) progress reply headers (end e) ok h =
      ap (run g p steps) (fetch-none g p progress reply headers e) ∙ run-returns g p steps _ _
  run-write_all zero progress reply headers (item e settles rest) ok h = absurd (omega arith)
  run-write_all {d} (suc steps) progress reply headers
        (item {d = settled_conn} {result} {results} {k} {n} e settles rest) (ok, oks) h =
      let left : ℕ = steps - k - 1 in
      let idle = settled_idle settles in
      ap (run g p steps) (fetch-some g p progress reply headers e)
      ∙ Settles-run steps (suc left) progress result reply headers settles (omega arith)
      ∙ ap (run g p left) (
          step-idle g p progress result (at g p reply headers settled_conn) idle
          ∙ handle-accepted progress result (at g p reply headers settled_conn) ok)
      ∙ wrote-run left headers settled_conn reply (accepted progress result reply) results d
          (λ progress' buf. run-write_all left progress' buf headers rest oks (omega arith))

  pub db_response-write_all :
      (reply headers : Bytes) (c c' d : Conn) {results : List Result} {n : ℕ} (steps : ℕ)
      → Reads p c c'
      → Stream p c' results n d
      → All IsAccepted results
      → n ≤ steps
      → db_response g p steps (at g p reply headers c)
        ≡ some (response_of headers d (write_all (first g p) results reply))
  unfolding db_response
  db_response-write_all reply headers c c' d steps reads stream ok h =
      ap (run g p steps) (consume-Reads g p (goes (first g p) fetch) reply headers c c' reads)
      ∙ run-write_all steps (first g p) reply headers stream ok h
