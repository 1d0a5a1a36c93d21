-- ===== src/Db/Send/Waits.antt =====
-- When `db_send` succeeds: by how often the connection makes it wait.
use gwan_pg_rest_adapter.Prelude.{
  ℕ, zero, suc, ◌+◌, ◌-◌, ◌<◌, ◌≡◌, ◌≢◌, refl, ap, ◌∙◌, Bool, true, false, some, Bytes, codes,
  arith,
}
use gwan_pg_rest_adapter.Gwan.{Gwan}
use gwan_pg_rest_adapter.Db.Libpq.{Libpq, State, db_wait, ev_write}
use gwan_pg_rest_adapter.Db.Send.{left, wait_idle, flush_all, db_send, fail, finish}

module _ (p : Libpq) where
  open p use {Conn, is_busy, flush, send_query, set_single_row_mode}

  -- A wait for the socket to become writable succeeds.
  abbrev pub Ready : Conn → Conn → Type 0
  Ready c c' = (fired : ℕ) × (fired ≢ 0) × (db_wait p c ev_write ≡ (fired, c'))

  -- The connection is busy for `n` waits and then idle.
  pub data Idles : Conn → ℕ → Conn → Type 0 where
    idle : {c : Conn} → is_busy c ≡ false → Idles c 0 c
    turn :
        {c c' d : Conn} {n : ℕ} → is_busy c ≡ true → Ready c c' → Idles c' n d → Idles c (suc n) d

  -- The outcome of a flush takes `n` more waits and flushes until nothing is left to write.
  pub data Flushes : Bool → Conn → ℕ → Conn → Type 0 where
    done : {c : Conn} → Flushes false c 0 c
    again :
        {c c' c'' d : Conn} {more : Bool} {n : ℕ}
        → Ready c c'
        → flush c' ≡ (more, c'')
        → Flushes more c'' n d
        → Flushes true c (suc n) d

module _ (g : Gwan) (p : Libpq) (reply headers : Bytes) where
  open p use {Conn, is_busy, flush, send_query, set_single_row_mode}

  abbrev pub at : Conn → State p
  at c = record { reply = reply; headers = headers; conn = c }

  wait_idle-Idles :
      (total k : ℕ) {c d : Conn} {n : ℕ}
      → Idles p c n d
      → total ≡ n + k
      → wait_idle g p total (at c) ≡ (left k, at d)
  unfolding wait_idle
  wait_idle-Idles zero k (idle {c} b) e =
      let e' : 0 ≡ k = omega arith in ap (λ t. (left t, at c)) e'
  wait_idle-Idles (suc total) k (idle {c} b) e =
      let e' : suc total ≡ k = omega arith in rw b (ap (λ t. (left t, at c)) e')
  wait_idle-Idles zero k (turn b w i) e = absurd (omega arith)
  wait_idle-Idles (suc total) k (turn b (fired, ne, w) i) e =
      let rest = wait_idle-Idles total k i (omega arith) in ground arith

  flush_all-Flushes :
      (total k : ℕ) {more : Bool} {c d : Conn} {n : ℕ}
      → Flushes p more c n d
      → total ≡ n + k
      → flush_all g p total more (at c) ≡ (left k, at d)
  unfolding flush_all
  flush_all-Flushes total k (done {c}) e =
      let e' : total ≡ k = omega arith in ap (λ t. (left t, at c)) e'
  flush_all-Flushes zero k (again w f i) e = absurd (omega arith)
  flush_all-Flushes (suc total) k (again (fired, ne, w) f i) e =
      let rest = flush_all-Flushes total k i (omega arith) in ground arith

  -- A run of the code in which every wait succeeds: `i` waits until the connection is idle, the
  -- query taken, and `j` waits until it is written.
  abbrev pub Writes : Bytes → Conn → ℕ → ℕ → Conn → Type 0
  Writes query c i j f =
      (d : Conn) × (e : Conn) × (more : Bool) × (c' : Conn) × Idles p c i d
      × (send_query d query ≡ (true, e))
      × (flush (set_single_row_mode e) ≡ (more, c'))
      × Flushes p more c' j f

  db_send-finish :
      (query : Bytes) {c f : Conn} (i j k : ℕ)
      → Writes query c i j f
      → i + j + k ≡ 4
      → db_send g p query (at c) ≡ finish g p (left k, at f)
  unfolding db_send
  db_send-finish query i j k (d, e, more, c', idles, sent, flushed, flushes) total =
      let idle_then = wait_idle-Idles 4 (j + k) idles (omega arith) in
      let flush_then = flush_all-Flushes (j + k) k flushes refl in
      rw idle_then (rw sent (rw flushed (rw flush_then refl)))

  finish-suc : (k : ℕ) (s : State p) → finish g p (left (suc k), s) ≡ (0, s)
  finish-suc k s = ground arith

  -- With fewer than four waits in all, each successful, the query is sent and written, the reply is untouched and
  -- 0 is returned.
  pub db_send_early :
      (query : Bytes) {c f : Conn} (i j : ℕ)
      → Writes query c i j f
      → i + j < 4
      → db_send g p query (at c) ≡ (0, at f)
  db_send_early query i j w few =
      let k : ℕ = 3 - i - j in
      db_send-finish query i j (suc k) w (omega arith) ∙ finish-suc k (at _)

  -- With exactly four waits, each successful, the query is sent and written as well, and 429 is returned all the
  -- same, with "failed to write query" in the reply.
  pub db_send_late :
      (query : Bytes) {c f : Conn} (i j : ℕ)
      → Writes query c i j f
      → i + j ≡ 4
      → db_send g p query (at c) ≡ fail g p 429 (some (codes "failed to write query")) (at f)
  db_send_late query i j w four = db_send-finish query i j 0 w (omega arith) ∙ refl
