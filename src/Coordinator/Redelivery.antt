-- ===== src/Coordinator/Redelivery.antt =====
-- src/coordinator.rs: a schedule occurrence that is delivered again.
use ratatoskr_channel_digest.Prelude.{Bool, ◌||◌, contains}
use ratatoskr_channel_digest.Contracts.{External}
use ratatoskr_channel_digest.Schema.{Inbox}
use ratatoskr_channel_digest.Storage.{World}
use ratatoskr_channel_digest.Statements.{processing_row, same_message, same_inbox_key}
use ratatoskr_channel_digest.Coordinator.Occurrence.{OccurrenceRequest, occurrence_subject}

module _ ⦃ext : External⦄ where
  abbrev pub occurrence_row : OccurrenceRequest → Inbox
  occurrence_row o =
      processing_row o.message_id occurrence_subject o.occurrence_key (ext.sha256_hex o.payload)

  -- The inbox has a row of the delivery's message or of its occurrence.
  abbrev pub is_recorded : OccurrenceRequest → World → Bool
  is_recorded o w =
      contains (same_message (occurrence_row o)) w.committed.inbox
      || contains (same_inbox_key (occurrence_row o)) w.committed.inbox
