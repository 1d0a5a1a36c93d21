-- ===== src/Db/Response/Loop.antt =====
-- The loop of `db_response` of libraries/postrest/db.c over the results of a query, as single steps.
use gwan_pg_rest_adapter.Prelude.{
  ℕ, zero, suc, ◌+◌, ◌%◌, ◌^◌, Bool, false, not, ◌&&◌, ◌||◌, Option, none, some, [], ◌∷◌, ◌++◌,
  Bytes, codes, ◌==◌, if◌then◌else◌,
}
use gwan_pg_rest_adapter.Gwan.{Gwan}
use gwan_pg_rest_adapter.Gwan.Sprintf.{num}
use gwan_pg_rest_adapter.Db.Libpq.{Libpq, State, db_wait, ev_read}
use gwan_pg_rest_adapter.Db.Send.{fail}
use gwan_pg_rest_adapter.Endpoint.{Outcome, returned, undefined}
use gwan_pg_rest_adapter.Db.Response.{put_rows}

-- The numbers of `ExecStatusType` that are compared with, in include/postrest/libpq-fe.h.
abbrev pub pgres_command_ok : ℕ
pgres_command_ok = 1

abbrev pub pgres_tuples_ok : ℕ
pgres_tuples_ok = 2

abbrev pub pgres_single_tuple : ℕ
pgres_single_tuple = 9

-- `items`, `status` and `single_row_mode`
pub record Progress : Type 0 where
  pub items : ℕ
  pub status : ℕ
  pub single : Bool

-- `rep->ptr[rep->len-1] = ' '`, which writes in front of an empty buffer.
abbrev pub blank_last : Bytes → Option Bytes
blank_last [] = none
blank_last (c ∷ []) = some (b' ' ∷ [])
blank_last (c ∷ d ∷ s) = elim (blank_last (d ∷ s)) [ none ↦ none | some t ↦ some (c ∷ t) ]

module _ (g : Gwan) (p : Libpq) where
  open g use {xbuf_xcat, s_snprintf}
  open p use {
    Result, is_busy, get_result, consume_input, error_message, result_status, nfields, ntuples,
  }

  -- `tuples`, from `single_row_mode = 1; tuples = 1;` on
  abbrev pub tuples_of : Result → ℕ
  tuples_of result = if result_status result == pgres_single_tuple then 1 else ntuples result

  -- `single_row_mode` after the result
  abbrev pub single_after : Progress → Result → Bool
  single_after progress result = progress.single || result_status result == pgres_single_tuple

  abbrev pub put_array : Progress → Result → Bytes → Bytes
  put_array progress result buf =
      if progress.items == 0
      then xbuf_xcat buf (codes "{\"code\":%d,\"result\":[ ") (num (result_status result) ∷ [])
      else buf

  abbrev pub counted : Progress → Result → Progress
  counted progress result = record {
    items = (progress.items + tuples_of result) % 2 ^ 32;
    status = result_status result;
    single = single_after progress result;
  }

  abbrev pub put_tuples : Progress → Result → Bytes → Bytes
  put_tuples progress result buf =
      put_rows g p (tuples_of result) (single_after progress result) result 0
        (put_array progress result buf)

  abbrev pub keep : Progress → Result → Bytes → Option (Progress × Bytes)
  keep progress result buf = some (
    record {
      items = progress.items;
      status = result_status result;
      single = single_after progress result;
    },
    buf,
  )

  abbrev pub blank : Progress → Result → Option Bytes → Option (Progress × Bytes)
  blank progress result none = none
  blank progress result (some buf) = keep progress result buf

  -- What a result with tuples adds to the reply; `none` for a write in front of it.
  unfoldable pub write_result : Progress → Result → Bytes → Option (Progress × Bytes)
  write_result progress result buf =
      if not (tuples_of result == 0) && not (nfields result == 0)
      then some (counted progress result, put_tuples progress result buf)
      else if result_status result == pgres_tuples_ok && single_after progress result
      then blank progress result (blank_last buf)
      else keep progress result buf

  -- Where the code is: at the `while`, or at the label `check_result`.
  pub data Position : Type 0 where
    fetch : Position
    check : Result → Position

  -- How a step ends: on to a position, in the return of a status, or in undefined behaviour.
  pub data Next : Type 0 where
    goes : Progress → Position → State p → Next
    returns : ℕ → State p → Next
    crashes : Next

  abbrev pub returns_pair : ℕ × State p → Next
  returns_pair (status, s) = returns status s

  -- From behind the loop on.
  abbrev pub close_array : Progress → Bytes → Bytes
  close_array progress buf =
      if progress.items == 0
      then xbuf_xcat buf (codes "{\"code\":%d,\"items\":0}") (num progress.status ∷ [])
      else xbuf_xcat buf (codes "],\"items\":%d}") (num progress.items ∷ [])

  abbrev pub closed : Progress → State p → State p
  closed progress s = record s {
    reply = close_array progress s.reply;
    headers = s.headers ++ s_snprintf 63 (codes "X-items: %u\r\n") (num progress.items ∷ []);
  }

  abbrev pub fetched : Progress → State p → Option Result → Next
  fetched progress s none = returns 200 (closed progress s)
  fetched progress s (some result) = goes progress (check result) s

  -- `xbuf_reset(rep)` and the error of the connection, unless another result is there.
  abbrev pub refused : Progress → State p → Option Result → Next
  refused progress s (some result) = goes progress (check result) s
  refused progress s none =
      returns_pair (fail g p 400 (some (error_message s.conn)) (record s { reply = [] }))

  abbrev pub wrote : State p → Option (Progress × Bytes) → Next
  wrote s none = crashes
  wrote s (some (progress, buf)) = goes progress fetch (record s { reply = buf })

  abbrev pub with_status : Progress → ℕ → Progress
  with_status progress status = record progress { status = status }

  -- The result of a connection that is not busy.
  abbrev pub handle : Progress → Result → State p → Next
  handle progress result s =
      let (next, conn) = get_result s.conn in
      if result_status result == pgres_command_ok
      then goes (with_status progress (result_status result)) fetch s
      else if result_status result == pgres_tuples_ok || result_status result == pgres_single_tuple
      then wrote s (write_result progress result s.reply)
      else refused (with_status progress (result_status result)) (record s { conn = conn }) next

  -- `if(!db_wait(db->conn,EV_READ,…)) return db_error(rep, 500, 0); else PQconsumeInput(db->conn);`
  abbrev pub consume : (State p → Next) → State p → Next
  consume k s =
      let (fired, conn) = db_wait p s.conn ev_read in
      if fired == 0
      then returns_pair (fail g p 500 none (record s { conn = conn }))
      else k (record s { conn = consume_input conn })

  unfoldable pub step : Progress → Position → State p → Next
  step progress fetch s =
      let (next, conn) = get_result s.conn in fetched progress (record s { conn = conn }) next
  step progress (check result) s =
      if is_busy s.conn then consume (goes progress (check result)) s else handle progress result s

  -- The loop, in at most so many steps: `none` where there are more.
  unfoldable pub run : ℕ → Next → Option (Outcome (State p))
  unfolding step
  run steps (returns status s) = some (returned status s)
  run steps crashes = some undefined
  run zero (goes progress position s) = none
  run (suc steps) (goes progress position s) = run steps (step progress position s)

  unfoldable pub db_response : ℕ → State p → Option (Outcome (State p))
  unfolding run
  db_response steps s =
      run steps (consume (goes (record { items = 0; status = 0; single = false }) fetch) s)

  abbrev pub or_undefined : Option (Outcome (State p)) → Outcome (State p)
  or_undefined none = undefined
  or_undefined (some out) = out

  -- What `db_response` returns; where it takes more steps, nothing is said of it.
  unfoldable pub response_within : ℕ → State p → Outcome (State p)
  response_within steps s = or_undefined (db_response steps s)
