-- ===== src/ResultReader/Linkage.antt =====
-- A recap that the reader lets through is the one that was asked for, and its body was within the limit.
use ratatoskr_channel_digest.Prelude.{ℕ, ◌≤◌, String, true, some, ◌≡◌, is_some, length}
use ratatoskr_channel_digest.Contracts.{Bytes, External}
use ratatoskr_channel_digest.ResultReader.{KnowledgeEnvelope, KnowledgeResultProjection, Upstream}

module _ ⦃ext : External⦄ (upstream : Upstream) (analysis : ℕ) (expected : String) where
  -- The projection is of this analysis and digest, and comes from a body within the limit.
  abbrev pub IsLinked : KnowledgeResultProjection → Type 0
  IsLinked p =
      (p.analysis_id ≡ analysis)
      × (p.result_digest_hex ≡ expected)
      × (is_some p.recap ≡ true)
      × ((body : Bytes) × (length body ≤ upstream.max_response_bytes)
          × (e : KnowledgeEnvelope) × (upstream.decode body ≡ some e)
          × (e.analysis_id ≡ analysis))
