-- ===== src/Db/Libpq.antt =====
-- libpq and libevent as far as libraries/postrest/db.c calls them (their code is not in the
-- repository): a connection with its socket is a value that each call returns anew, so that the
-- server on the other side may answer in any way. `db_wait` is the adapter's own.
use Prim.Native.Nat.{bit_and, bit_or}
use gwan_pg_rest_adapter.Prelude.{ℕ, Bool, Option, Bytes}

pub record Libpq : Type 1 where
  pub Conn : Type 0
  pub Result : Type 0
  -- one dispatch of an event on the connection's socket: the events that fired
  pub dispatch : Conn → ℕ → ℕ × Conn
  pub is_busy : Conn → Bool
  pub send_query : Conn → Bytes → Bool × Conn
  pub set_single_row_mode : Conn → Conn
  -- true: there is more to flush, or the flush failed
  pub flush : Conn → Bool × Conn
  pub consume_input : Conn → Conn
  pub get_result : Conn → Option Result × Conn
  pub server_version : Conn → ℕ
  pub error_message : Conn → Bytes
  pub result_status : Result → ℕ
  pub nfields : Result → ℕ
  pub ntuples : Result → ℕ
  pub fname : Result → ℕ → Bytes
  pub fformat : Result → ℕ → ℕ
  pub getisnull : Result → ℕ → ℕ → Bool
  pub getvalue : Result → ℕ → ℕ → Bytes

abbrev pub ev_timeout : ℕ
ev_timeout = 1

abbrev pub ev_read : ℕ
ev_read = 2

abbrev pub ev_write : ℕ
ev_write = 4

module _ (p : Libpq) where
  open p use {Conn, dispatch}

  -- The callers give a timeout, so its flag is added; 0 is returned when only the timeout fired.
  unfoldable pub db_wait : Conn → ℕ → ℕ × Conn
  db_wait conn flags =
      let (fired, conn') = dispatch conn (bit_or flags ev_timeout) in (bit_and fired flags, conn')

  -- What an operation reads and changes: the reply, the headers added to
  -- the response by `http_header(HEAD_ADD, …)`, and the session's connection.
  pub record State : Type 0 where
    pub reply : Bytes
    pub headers : Bytes
    pub conn : Conn
