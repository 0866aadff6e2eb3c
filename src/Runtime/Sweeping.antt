-- ===== src/Runtime/Sweeping.antt =====
-- The loop of the retention: what the operator plane counts of it.
use ratatoskr_channel_digest.Prelude.{ℕ, ◌+◌, List, [], ◌∷◌}
use ratatoskr_channel_digest.Storage.{World}
use ratatoskr_channel_digest.Maintenance.{sweep_once}
use ratatoskr_channel_digest.Maintenance.Counted.{
  IsKeyed, IsCounted, IsCounted-refl, IsCounted-trans, sweep_once-IsCounted,
}
use ratatoskr_channel_digest.Runtime.Loops.{TimerEvent, supervise_retention}

-- Whatever the loop of the retention meets and whichever calls of the database fail, where the primary
-- keys of revisions and manifests are unique they stay so, no body and no text is added, and each
-- counter moves by the bodies or the texts that the database lost, modulo 2^64.
pub supervise_retention-IsCounted :
    (days : ℕ) (events : List TimerEvent) (w : World)
    → IsKeyed w.committed
    → IsCounted w (supervise_retention days events w)
unfolding supervise_retention
supervise_retention-IsCounted days [] w k = IsCounted-refl w k
supervise_retention-IsCounted days (TimerEvent.drain ∷ events) w k = IsCounted-refl w k
supervise_retention-IsCounted days (TimerEvent.pass time ∷ events) w k =
    let rest = supervise_retention-IsCounted days events (record w { clock = w.clock + time }) k in
    record { keyed = rest.keyed; bodies = rest.bodies; texts = rest.texts }
supervise_retention-IsCounted days (TimerEvent.tick now ∷ events) w k =
    let swept = sweep_once-IsCounted days now w k in
    IsCounted-trans w (sweep_once days now w).1 _ swept
      (supervise_retention-IsCounted days events (sweep_once days now w).1 swept.keyed)
