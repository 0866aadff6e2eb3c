-- ===== src/Worker/Publishing.antt =====
-- The outbox is emptied by the rounds of the worker.
use ratatoskr_channel_digest.Prelude.{
  ℕ, zero, suc, ◌*◌, ◌≤◌, Bool, List, [], ◌∷◌, ◌≡◌, arith, All, count,
}
use ratatoskr_channel_digest.Contracts.{External}
use ratatoskr_channel_digest.Storage.{World}
use ratatoskr_channel_digest.Envelopes.{OutboundMessage}
use ratatoskr_channel_digest.Bus.Outbox.{is_due}
use ratatoskr_channel_digest.Bus.Rounds.{IsSound, IsDeliverable, publish_outbox-Round}
use ratatoskr_channel_digest.Worker.{Operation, perform, perform_all}

-- So many rounds over the outbox.
abbrev pub rounds : ℕ → (OutboundMessage → Bool) → List Operation
rounds zero acknowledges = []
rounds (suc n) acknowledges = Operation.publish acknowledges ∷ rounds n acknowledges

module _ ⦃ext : External⦄ where
  -- If no call of the database fails, and each row of the outbox can be wrapped and its message is
  -- acknowledged, then enough rounds of publication for 32 rows each leave no due row unpublished.
  pub publish-drains :
      (acknowledges : OutboundMessage → Bool) (n : ℕ) (w : World)
      → IsSound w
      → All (IsDeliverable acknowledges) w.committed.outbox
      → count (is_due w.clock) w.committed.outbox ≤ 32 * n
      → count
          (is_due (perform_all (rounds n acknowledges) w).clock)
          (perform_all (rounds n acknowledges) w).committed.outbox
        ≡ 0
  unfolding perform perform_all
  publish-drains acknowledges zero w s k h = omega arith
  publish-drains acknowledges (suc n) w s k h =
      let round = (publish_outbox-Round acknowledges w s k).1 in
      publish-drains acknowledges n _ round.sound round.deliverable (omega (arith, round.due, h))
