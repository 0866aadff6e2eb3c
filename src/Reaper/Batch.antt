-- ===== src/Reaper/Batch.antt =====
-- src/reaper.rs: which runs one round of the reaper takes.
use ratatoskr_channel_digest.Prelude.{
  ℕ, All-sort, true, List, ◌≡◌, All, All-rows, All-rows-true, All-take, All-both,
}
use ratatoskr_channel_digest.Schema.{Run}
use ratatoskr_channel_digest.Reaper.{batch, is_overdue, is_older, overdue_batch}

pub All-overdue_batch :
    (P : Run → Type 0) (now deadline : ℕ) (runs : List Run)
    → All P runs
    → All (λ r. (is_overdue now deadline r ≡ true) × P r) (overdue_batch now deadline runs)
unfolding overdue_batch
All-overdue_batch P now deadline runs k = All-take _ batch _ (
    All-sort is_older _ _ (
      All-both _ P _ (All-rows-true (is_overdue now deadline) runs)
        (All-rows P (is_overdue now deadline) runs k)))

abbrev pub IsOverdue : ℕ → ℕ → Run → Type 0
IsOverdue now deadline r = is_overdue now deadline r ≡ true
