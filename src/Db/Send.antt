-- ===== src/Db/Send.antt =====
-- `db_send` of libraries/postrest/db.c: write a query to the connection in at most four waits.
pub mod Waits
use gwan_pg_rest_adapter.Prelude.{
  ℕ, zero, suc, Bool, true, false, Option, none, some, Bytes, codes, ◌==◌, if◌then◌else◌,
}
use gwan_pg_rest_adapter.Gwan.{Gwan}
use gwan_pg_rest_adapter.Db.Libpq.{Libpq, State, db_wait, ev_write}
use gwan_pg_rest_adapter.Reply.{db_error}

-- How a loop ends: with what is left of `count`, or with the status of an error.
pub data Exit : Type 0 where
  left failed : ℕ → Exit

module _ (g : Gwan) (p : Libpq) where
  open p use {Conn, is_busy, send_query, set_single_row_mode, flush, error_message}

  -- `return db_error(rep, code, message)`
  abbrev pub fail : ℕ → Option Bytes → State p → ℕ × State p
  fail code message s =
      let (status, reply) = db_error g s.reply code message in (status, record s { reply = reply })

  abbrev fail_loop : State p → Exit × State p
  fail_loop s = let (status, s') = fail 500 none s in (failed status, s')

  -- `while(PQisBusy(db->conn) && count)`
  unfoldable pub wait_idle : ℕ → State p → Exit × State p
  wait_idle zero s = (left 0, s)
  wait_idle (suc count) s =
      let (fired, conn) = db_wait p s.conn ev_write in
      let s' = record s { conn = conn } in
      let rest = if fired == 0 then fail_loop s' else wait_idle count s' in
      if is_busy s.conn then rest else (left (suc count), s)

  -- `while(flush && count)`
  unfoldable pub flush_all : ℕ → Bool → State p → Exit × State p
  flush_all count false s = (left count, s)
  flush_all zero true s = (left 0, s)
  flush_all (suc count) true s =
      let (fired, conn) = db_wait p s.conn ev_write in
      let s' = record s { conn = conn } in
      let (more, conn') = flush conn in
      let rest = flush_all count more (record s { conn = conn' }) in
      if fired == 0 then fail_loop s' else rest

  -- From `if(count <= 0)` on.
  abbrev finish : Exit × State p → ℕ × State p
  finish (failed status, s) = (status, s)
  finish (left count, s) =
      if count == 0 then fail 429 (some (codes "failed to write query")) s else (0, s)

  -- From `PQsendQuery` on.
  abbrev write : Bytes → Exit × State p → ℕ × State p
  write query (failed status, s) = (status, s)
  write query (left count, s) =
      let (sent, conn) = send_query s.conn query in
      let conn' = set_single_row_mode conn in
      let (more, conn'') = flush conn' in
      let rest = finish (flush_all count more (record s { conn = conn'' })) in
      if sent then rest else fail 500 (some (error_message conn')) (record s { conn = conn' })

  unfoldable pub db_send : Bytes → State p → ℕ × State p
  unfolding wait_idle flush_all
  db_send query s = write query (wait_idle 4 s)
