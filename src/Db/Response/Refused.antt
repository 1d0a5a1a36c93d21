-- ===== src/Db/Response/Refused.antt =====
-- What `db_response` makes of an error of the database.
use gwan_pg_rest_adapter.Prelude.{
  ℕ, zero, suc, ◌-◌, ◌≤◌, ◌≡◌, refl, ap, ◌∙◌, false, Option, none, some, List, [], ◌∷◌, ◌++◌, Bytes,
  All, arith, ◌==◌,
}
use gwan_pg_rest_adapter.Gwan.{Gwan}
use gwan_pg_rest_adapter.Endpoint.{Outcome, returned}
use gwan_pg_rest_adapter.Db.Libpq.{Libpq, State}
use gwan_pg_rest_adapter.Db.Send.{fail}
use gwan_pg_rest_adapter.Db.Response.Loop.{
  Progress, fetch, goes, returns_pair, run, wrote, with_status, db_response, pgres_command_ok,
}
use gwan_pg_rest_adapter.Db.Response.Stream.{Reads, Stream, end, item}
use gwan_pg_rest_adapter.Db.Response.Steps.{
  at, first, is_tuples, step-idle, handle-refused, fetch-some, refused-none, run-returns,
  consume-Reads,
}
use gwan_pg_rest_adapter.Db.Response.OneByOne.{then_all}
use gwan_pg_rest_adapter.Db.Response.Written.{
  accepted, write_all, IsAccepted, Settles-run, settled_idle, handle-accepted,
}

module _ (g : Gwan) (p : Libpq) where
  open p use {Conn, Result, is_busy, get_result, result_status, error_message}

  abbrev pub from_pair : ℕ × State p → Outcome (State p)
  from_pair (status, s) = returned status s

  -- Neither the result of a command nor one with tuples.
  pub record IsRefused (result : Result) : Type 0 where
    pub command : (result_status result == pgres_command_ok) ≡ false
    pub tuples : is_tuples g p result ≡ false

  -- A run gets behind some results, with the rest of the stream and enough steps for it.
  record Passes (steps : ℕ) (progress : Progress) (reply headers : Bytes) (c : Conn)
      (progress' : Progress) (buf : Bytes) (rest : List Result) (d : Conn) : Type 0 where
    conn : Conn
    bound : ℕ
    left : ℕ
    stream : Stream p conn rest bound d
    enough : bound ≤ left
    same :
        run g p steps (goes progress fetch (at g p reply headers c))
        ≡ run g p left (goes progress' fetch (at g p buf headers conn))

  -- Behind the first result, the others.
  write_all-cons :
      (progress' : Progress) (results : List Result) (buf : Bytes) (o : Option (Progress × Bytes))
      → then_all g p results o ≡ some (progress', buf)
      → (progress1 : Progress) × (buf1 : Bytes) × (o ≡ some (progress1, buf1))
        × (write_all g p progress1 results buf1 ≡ some (progress', buf))
  write_all-cons progress' results buf none h = cc
  write_all-cons progress' results buf (some (progress1, buf1)) h = (progress1, buf1, refl, h)

  run-Passes :
      (goods rest : List Result) {c d : Conn} {n : ℕ} (steps : ℕ) (progress progress' : Progress)
      (reply headers buf : Bytes)
      → Stream p c (goods ++ rest) n d
      → All (IsAccepted g p) goods
      → write_all g p progress goods reply ≡ some (progress', buf)
      → n ≤ steps
      → Passes steps progress reply headers c progress' buf rest d
  unfolding run
  run-Passes [] rest {c} {d} {n} steps progress progress' reply headers buf stream ok e h =
      let begun : Progress × Bytes = (progress, reply) in
      let done : Progress × Bytes = (progress', buf) in
      let now : begun ≡ done = cc in
      record {
        conn = c;
        bound = n;
        left = steps;
        stream = stream;
        enough = h;
        same = ap (λ t. run g p steps (goes t.0 fetch (at g p t.1 headers c))) now;
      }
  run-Passes (good ∷ goods) rest zero progress progress' reply headers buf (item e settles more) ok
        w h =
      absurd (omega arith)
  run-Passes (good ∷ goods) rest (suc steps) progress progress' reply headers buf
        (item {d = settled_conn} {result} {k = k} e settles more) (ok, oks) w h =
      let (progress1, buf1, here, there) =
        write_all-cons progress' goods buf (accepted g p progress good reply) w in
      let left : ℕ = steps - k - 1 in
      let behind =
        run-Passes goods rest left progress1 progress' buf1 headers buf more oks there
          (omega arith) in
      let s : State p = at g p reply headers settled_conn in
      record {
        conn = behind.conn;
        bound = behind.bound;
        left = behind.left;
        stream = behind.stream;
        enough = behind.enough;
        same =
            ap (run g p steps) (fetch-some g p progress reply headers e)
            ∙ Settles-run g p steps (suc left) progress good reply headers settles (omega arith)
            ∙ ap (run g p left) (
                step-idle g p progress good s (settled_idle g p settles)
                ∙ handle-accepted g p progress good s ok
                ∙ ap (wrote g p s) here)
            ∙ behind.same;
      }

  -- The error that is left when nothing follows the refused result.
  run-refused :
      (steps : ℕ) (progress : Progress) (bad : Result) (reply headers : Bytes) {c d : Conn} {n : ℕ}
      → Stream p c (bad ∷ []) n d
      → IsRefused bad
      → n ≤ steps
      → run g p steps (goes progress fetch (at g p reply headers c))
        ≡ run g p 0 (returns_pair g p (fail g p 400 (some (error_message d)) (at g p [] headers d)))
  unfolding run
  run-refused zero progress bad reply headers (item e settles (end over)) wrong h =
      absurd (omega arith)
  run-refused (suc steps) progress bad reply headers
        (item {d = settled_conn} {k = k} e settles (end over)) wrong h =
      let left : ℕ = steps - k - 1 in
      let s : State p = at g p reply headers settled_conn in
      ap (run g p steps) (fetch-some g p progress reply headers e)
      ∙ Settles-run g p steps (suc left) progress bad reply headers settles (omega arith)
      ∙ ap (run g p left) (
          step-idle g p progress bad s (settled_idle g p settles)
          ∙ handle-refused g p progress bad s wrong.command wrong.tuples
          ∙ refused-none g p (with_status g p progress (result_status bad)) reply headers over)
      ∙ run-returns g p left _ _

  -- When the first wait succeeds, results that are of a command or have tuples come first and then
  -- one that is neither, and the bytes of the first can be written: `db_response` drops what they
  -- have written and ends with the error 400 and the message of the connection on an empty reply,
  -- with no header added, however often the connection makes it wait.
  pub db_response-refused :
      (reply headers : Bytes) (c c' d : Conn) (goods : List Result) (bad : Result) {n : ℕ}
      (steps : ℕ) (progress : Progress) (buf : Bytes)
      → Reads p c c'
      → Stream p c' (goods ++ bad ∷ []) n d
      → All (IsAccepted g p) goods
      → write_all g p (first g p) goods reply ≡ some (progress, buf)
      → IsRefused bad
      → n ≤ steps
      → db_response g p steps (at g p reply headers c)
        ≡ some (from_pair (fail g p 400 (some (error_message d)) (at g p [] headers d)))
  unfolding db_response
  db_response-refused reply headers c c' d goods bad steps progress buf reads stream ok w wrong h =
      let passes =
        run-Passes goods (bad ∷ []) steps (first g p) progress reply headers buf stream ok w h in
      ap (run g p steps) (consume-Reads g p (goes (first g p) fetch) reply headers c c' reads)
      ∙ passes.same
      ∙ run-refused passes.left progress bad buf headers passes.stream wrong passes.enough
      ∙ run-returns g p 0 _ _
