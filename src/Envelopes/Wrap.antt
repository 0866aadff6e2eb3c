-- ===== src/Envelopes/Wrap.antt =====
-- src/envelopes.rs: what a wrapped outbox row carries.
use ratatoskr_channel_digest.Prelude.{String, concat, ◌≡◌, ◌⊎◌}
use ratatoskr_channel_digest.Contracts.{External, OperationReported, RecapRequested, Registration}
use ratatoskr_channel_digest.Schema.{Outbox, Payload}
use ratatoskr_channel_digest.Envelopes.{OutboundMessage, OutboundEnvelope, envelope}

-- An envelope that is built carries the row's identities and the type it was built for.
abbrev Carries : Outbox → String → OutboundEnvelope → Type 0
Carries row kind e =
    (e.message_id ≡ row.outbox_id)
    × (e.message_type ≡ kind)
    × (e.issued_at ≡ row.created_at)
    × (e.tenant_id ≡ row.owner_id)
    × (e.causation_id ≡ row.causation_ref)
    × (e.payload ≡ row.payload)

-- An outbound message is the envelope of the row, under the row's subject with the class before it.
abbrev pub IsWrapped : Outbox → OutboundMessage → Type 0
IsWrapped row m =
    (m.message_id ≡ row.outbox_id)
    × ((m.subject ≡ concat "evt." row.subject) ⊎ (m.subject ≡ concat "cmd." row.subject))
    × Carries row row.subject m.envelope

module _ ⦃ext : External⦄ where
  data Shape (p : Payload) : Type 0 where
    is_report : (r : OperationReported) → p ≡ Payload.report r → Shape p
    is_request : (r : RecapRequested) → p ≡ Payload.recap_request r → Shape p
    is_registration : (r : Registration) → p ≡ Payload.registration r → Shape p
