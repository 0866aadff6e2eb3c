-- ===== src/Executor/Requests.antt =====
-- The recap request that the executor writes, read by the coordinator's check.
use ratatoskr_channel_digest.Prelude.{◌≡◌}
use ratatoskr_channel_digest.Contracts.{RecapRequested, RecapDocument}

-- The request has what the members of the document say.
abbrev pub Agrees : RecapDocument → RecapRequested → Type 0
Agrees doc request =
    (request.operation_id ≡ doc.operation_id)
    × (request.owner ≡ doc.owner)
    × (request.digest_run_id ≡ doc.digest_run_id)
    × (request.source_count ≡ doc.source_count)
    × (request.channel_count ≡ doc.channel_count)
    × (request.manifest_ref ≡ doc.manifest_ref)
    × (request.manifest_digest_hex ≡ doc.manifest_digest_hex)
