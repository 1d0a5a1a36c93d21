-- ===== src/Db/Response/Stream.antt =====
-- How a connection delivers the results of a query to `db_response`.
use gwan_pg_rest_adapter.Prelude.{
  ℕ, zero, suc, ◌+◌, ◌≡◌, ◌≢◌, true, false, none, some, List, [], ◌∷◌,
}
use gwan_pg_rest_adapter.Db.Libpq.{Libpq, db_wait, ev_read}

module _ (p : Libpq) where
  open p use {Conn, Result, is_busy, get_result, consume_input}

  -- The socket becomes readable within the time-out, and the input is read.
  abbrev pub Reads : Conn → Conn → Type 0
  Reads c d =
      (fired : ℕ) × (c' : Conn) × (fired ≢ 0)
      × (db_wait p c ev_read ≡ (fired, c'))
      × (consume_input c' ≡ d)

  -- The connection is busy for `n` reads and then not.
  pub data Settles : Conn → ℕ → Conn → Type 0 where
    settled : {c : Conn} → is_busy c ≡ false → Settles c zero c
    waits :
        {c c' d : Conn} {n : ℕ}
        → is_busy c ≡ true
        → Reads c c'
        → Settles c' n d
        → Settles c (suc n) d

  -- The results that are fetched one by one, up to the null pointer, and a bound of the steps.
  pub data Stream : Conn → List Result → ℕ → Conn → Type 0 where
    end : {c d : Conn} → get_result c ≡ (none, d) → Stream c [] 1 d
    item :
        {c c' d e : Conn} {result : Result} {results : List Result} {k n : ℕ}
        → get_result c ≡ (some result, c')
        → Settles c' k d
        → Stream d results n e
        → Stream c (result ∷ results) (suc (k + suc n)) e
