-- ===== src/Acquisition/Bounds.antt =====
-- How many pages an acquisition reads.
use ratatoskr_channel_digest.Prelude.{ℕ, ◌≤◌, true, Option, none, some, ◌≡◌}
use ratatoskr_channel_digest.Contracts.{External}
use ratatoskr_channel_digest.Schema.{Lease}
use ratatoskr_channel_digest.Acquisition.{
  AcquisitionRequest, AcquisitionReport, same_lease, acquisition_kind,
}

-- A report of so many pages.
abbrev pub IsWithin : ℕ → ℕ → AcquisitionReport → Type 0
IsWithin low high report = (low ≤ report.pages) × (report.pages ≤ high)

-- The lease of this acquisition holds no more pages than it may read.
abbrev pub LeaseWithin : ⦃ext : External⦄ → AcquisitionRequest → Lease → Type 0
LeaseWithin ⦃ext⦄ r l =
    same_lease (acquisition_kind r.channel_id) r.run_id l ≡ true → l.checkpoint.pages ≤ r.max_pages

module _ ⦃ext : External⦄ (r : AcquisitionRequest) where
  abbrev Found : Option Lease × ℕ → Type 0
  Found (none, now) = Unit
  Found (some l, now) = l.checkpoint.pages ≤ r.max_pages

  abbrev StartsWithin : Option ℕ × ℕ × ℕ → Type 0
  StartsWithin (before, pages, revisions) = pages ≤ r.max_pages
