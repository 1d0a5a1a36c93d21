-- ===== src/Session/Expiry.antt =====
-- The arithmetic of time-outs, modulo 2^32.
use gwan_pg_rest_adapter.Prelude.{ℕ, ◌+◌, ◌*◌, ◌^◌, ◌≤◌, ◌<◌, ◌≡◌, ◌↔◌, true, false, arith}
use gwan_pg_rest_adapter.Session.{deadline, is_expired}

-- A session last used at `timestamp` is expired at `now` exactly when more than 300 seconds have
-- passed, whatever the times are modulo 2^32, as long as less than 2^31 milliseconds have passed
-- since it expired.
pub is_expired_iff :
    (timestamp now : ℕ)
    → now < 2 ^ 63
    → timestamp ≤ now
    → now ≤ timestamp + 300 * 1000 + 2 ^ 31
    → (is_expired (deadline timestamp) now ≡ true) ↔ (timestamp + 300 * 1000 < now)
unfolding is_expired deadline
is_expired_iff timestamp now small before recent = (λ h. ground arith, λ h. ground arith)

-- For the 300 seconds after it was used a session is not expired.
pub deadline_fresh :
    (timestamp now : ℕ)
    → now < 2 ^ 63
    → timestamp ≤ now
    → now ≤ timestamp + 300 * 1000
    → is_expired (deadline timestamp) now ≡ false
unfolding is_expired deadline
deadline_fresh timestamp now small before recent = ground arith
