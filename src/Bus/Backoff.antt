-- ===== src/Bus/Backoff.antt =====
-- src/bus.rs: how long an unacknowledged outbox row waits.
use ratatoskr_channel_digest.Prelude.{ℕ, zero, suc, ◌≤◌, ◌^◌, min, arith}
use ratatoskr_channel_digest.Bus.Outbox.{backoff_seconds}

power_of : (n : ℕ) → n ≤ 8 → (1 ≤ 2 ^ n) × (2 ^ n ≤ 256)
power_of zero h = (omega arith, omega arith)
power_of (suc zero) h = (omega arith, omega arith)
power_of (suc (suc zero)) h = (omega arith, omega arith)
power_of (suc (suc (suc zero))) h = (omega arith, omega arith)
power_of (suc (suc (suc (suc zero)))) h = (omega arith, omega arith)
power_of (suc (suc (suc (suc (suc zero))))) h = (omega arith, omega arith)
power_of (suc (suc (suc (suc (suc (suc zero)))))) h = (omega arith, omega arith)
power_of (suc (suc (suc (suc (suc (suc (suc zero))))))) h = (omega arith, omega arith)
power_of (suc (suc (suc (suc (suc (suc (suc (suc zero)))))))) h = (omega arith, omega arith)
power_of (suc (suc (suc (suc (suc (suc (suc (suc (suc n))))))))) h = absurd (omega arith)

-- The wait of a row is between one second and 256 seconds, whatever its attempts: the cap of 300
-- seconds is never reached.
pub backoff_seconds-bounds :
    (attempts : ℕ) → (1 ≤ backoff_seconds attempts) × (backoff_seconds attempts ≤ 256)
unfolding backoff_seconds
backoff_seconds-bounds attempts =
    let power = power_of (min attempts 8) (omega arith) in
    (omega (arith, power), omega (arith, power))
