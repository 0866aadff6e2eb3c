-- ===== src/Maintenance/Batches.antt =====
-- Which rows one batch of the minimization takes, and which it may not touch.
use ratatoskr_channel_digest.Prelude.{ℕ, Bool, not, ◌&&◌, ◌==◌, contains}
use ratatoskr_channel_digest.Schema.{Db, Manifest}
use ratatoskr_channel_digest.Maintenance.{is_spent}

-- No manifest of this identity belongs to a settled run whose window began before the cutoff.
abbrev pub is_needed : ℕ → Db → Manifest → Bool
is_needed before d m = not (
    contains (λ (c : Manifest). c.manifest_id == m.manifest_id && is_spent before d.runs c)
      d.manifests)
