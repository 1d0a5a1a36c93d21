-- ===== src/Db/Response/Steps.antt =====
-- The single steps of the loop of `db_response`, as equations.
use gwan_pg_rest_adapter.Prelude.{
  ℕ, zero, suc, ◌≡◌, refl, true, false, none, some, Bytes, arith, Bool, ◌==◌, ◌||◌,
}
use gwan_pg_rest_adapter.Gwan.{Gwan}
use gwan_pg_rest_adapter.Endpoint.{returned}
use gwan_pg_rest_adapter.Db.Libpq.{Libpq, State}
use gwan_pg_rest_adapter.Db.Response.Loop.{
  Progress, Next, fetch, check, goes, returns, step, run, handle, consume, write_result, wrote,
  fetched, refused, with_status, pgres_command_ok, pgres_tuples_ok, pgres_single_tuple,
}
use gwan_pg_rest_adapter.Db.Response.Stream.{Reads}

module _ (g : Gwan) (p : Libpq) where
  open p use {Conn, Result, is_busy, get_result, consume_input, result_status}

  abbrev pub at : Bytes → Bytes → Conn → State p
  at reply headers c = record { reply = reply; headers = headers; conn = c }

  pub step-idle :
      (progress : Progress) (result : Result) (s : State p)
      → is_busy s.conn ≡ false
      → step g p progress (check result) s ≡ handle g p progress result s
  unfolding step
  step-idle progress result s idle = rw idle refl

  abbrev pub is_tuples : Result → Bool
  is_tuples result =
      result_status result == pgres_tuples_ok || result_status result == pgres_single_tuple

  pub handle-command :
      (progress : Progress) (result : Result) (s : State p)
      → (result_status result == pgres_command_ok) ≡ true
      → handle g p progress result s
        ≡ goes (with_status g p progress (result_status result)) fetch s
  handle-command progress result s command = rw command refl

  pub handle-tuples :
      (progress : Progress) (result : Result) (s : State p)
      → (result_status result == pgres_command_ok) ≡ false
      → is_tuples result ≡ true
      → handle g p progress result s ≡ wrote g p s (write_result g p progress result s.reply)
  handle-tuples progress result s other tuples = rw (other, tuples) refl

  pub handle-refused :
      (progress : Progress) (result : Result) (s : State p)
      → (result_status result == pgres_command_ok) ≡ false
      → is_tuples result ≡ false
      → handle g p progress result s
        ≡ refused g p
            (with_status g p progress (result_status result))
            (record s { conn = (get_result s.conn).1 })
            (get_result s.conn).0
  handle-refused progress result s other wrong = rw (other, wrong) refl

  -- The reads that a busy connection makes the loop wait for.
  pub step-busy :
      (progress : Progress) (result : Result) (reply headers : Bytes) {c d : Conn}
      → is_busy c ≡ true
      → Reads p c d
      → step g p progress (check result) (at reply headers c)
        ≡ goes progress (check result) (at reply headers d)
  unfolding step
  step-busy progress result reply headers busy (fired, c', ne, waited, read) = ground arith

  pub fetch-none :
      (progress : Progress) (reply headers : Bytes) {c d : Conn}
      → get_result c ≡ (none, d)
      → step g p progress fetch (at reply headers c)
        ≡ fetched g p progress (at reply headers d) none
  unfolding step
  fetch-none progress reply headers e = rw e refl

  pub fetch-some :
      (progress : Progress) (reply headers : Bytes) {c d : Conn} {result : Result}
      → get_result c ≡ (some result, d)
      → step g p progress fetch (at reply headers c)
        ≡ goes progress (check result) (at reply headers d)
  unfolding step
  fetch-some progress reply headers e = rw e refl

  pub run-returns :
      (steps status : ℕ) (s : State p) → run g p steps (returns status s) ≡ some (returned status s)
  unfolding run
  run-returns zero status s = refl
  run-returns (suc steps) status s = refl

  pub refused-none :
      (progress : Progress) (reply headers : Bytes) {c d : Conn}
      → get_result c ≡ (none, d)
      → refused g p progress (at reply headers (get_result c).1) (get_result c).0
        ≡ refused g p progress (at reply headers d) none
  refused-none progress reply headers e = rw e refl

  pub refused-some :
      (progress : Progress) (reply headers : Bytes) {c d : Conn} {result : Result}
      → get_result c ≡ (some result, d)
      → refused g p progress (at reply headers (get_result c).1) (get_result c).0
        ≡ goes progress (check result) (at reply headers d)
  refused-some progress reply headers e = rw e refl

  abbrev pub first : Progress
  first = record { items = 0; status = 0; single = false }

  pub consume-Reads :
      (next : State p → Next g p) (reply headers : Bytes) (c d : Conn)
      → Reads p c d
      → consume g p next (at reply headers c) ≡ next (at reply headers d)
  consume-Reads next reply headers c d (fired, c', ne, waited, read) = ground arith
