-- ===== src/Worker/Tasks.antt =====
-- The loops of the worker's tasks do to the database what a sequence of the worker's operations does.
use ratatoskr_channel_digest.Prelude.{List, ◌≡◌}
use ratatoskr_channel_digest.Contracts.{External}
use ratatoskr_channel_digest.Storage.{World}
use ratatoskr_channel_digest.Worker.{Operation, perform_all}

module _ ⦃ext : External⦄ where
  -- The world is what a sequence of operations makes of the one before.
  abbrev pub IsPerformed : World → World → Type 0
  IsPerformed w v = (os : List Operation) × (v ≡ perform_all os w)
