-- ===== src/Metrics.antt =====
-- src/retention.rs: `RetentionCounter`, the counts of the process that the operator plane serves.
use ratatoskr_channel_digest.Prelude.{ℕ, ◌+◌, ◌^◌, ◌%◌}

pub record RetentionCounter : Type 0 where
  pub bodies : ℕ
  pub manifests : ℕ

-- `fetch_add` of an `AtomicU64`
abbrev pub wrapping_add : ℕ → ℕ → ℕ
wrapping_add a b = (a + b) % 2 ^ 64

unfoldable pub add_bodies : ℕ → RetentionCounter → RetentionCounter
add_bodies n c = record c { bodies = wrapping_add c.bodies n }

unfoldable pub add_manifests : ℕ → RetentionCounter → RetentionCounter
add_manifests n c = record c { manifests = wrapping_add c.manifests n }
