-- ===== src/Revisions.antt =====
-- src/revisions.rs: `RevisionRepository`, over schema.sql's `append_revision`.
use ratatoskr_channel_digest.Prelude.{
  ℕ, String, Bool, true, not, ◌&&◌, ◌||◌, Option, none, some, List, ◌∷◌, ltb, leb, ◌==◌, str_eq,
  if◌then◌else◌, maybe, is_some, contains, count, select, update,
}
use ratatoskr_channel_digest.Contracts.{External}
use ratatoskr_channel_digest.Schema.{Revision, Manifest, ManifestMessage}
use ratatoskr_channel_digest.Storage.{M, Sql, raise, ◌>>=◌, fresh, execute_alone}

-- The instants are texts that PostgreSQL reads.
pub record ObservedRevision : Type 0 where
  pub channel_id : ℕ
  pub provider_message_id : ℕ
  pub body : String
  pub canonical_link : String
  pub published_at : String
  pub observed_at : String

pub record ProvedIdRange : Type 0 where
  pub lowest : ℕ
  pub below : Option ℕ

pub record Withdrawn : Type 0 where
  pub revisions : ℕ
  pub manifests : ℕ

pub data RevisionError : Type 0 where
  unavailable : RevisionError

abbrev pub same_content : Revision → Revision → Bool
same_content a b =
    a.channel_id == b.channel_id
    && a.provider_message_id == b.provider_message_id
    && str_eq a.content_sha256 b.content_sha256

-- schema.sql: append_revision. Content that is stored already answers its identity.
unfoldable pub append_revision : Revision → Sql ℕ
append_revision row now d =
    maybe (select (same_content row) d.revisions)
      (if contains (λ (r : Revision). r.revision_id == row.revision_id) d.revisions
        then none
        else some (row.revision_id, record d { revisions = row ∷ d.revisions }))
      λ r. some (r.revision_id, d)

-- `coalesce(minimized_at, now())`
abbrev pub or_now : ℕ → Option ℕ → Option ℕ
or_now now none = some now
or_now now (some at) = some at

abbrev pub below_cursor : Option ℕ → ℕ → Bool
below_cursor none id = true
below_cursor (some before) id = ltb id before

abbrev pub holds_id : List ℕ → ℕ → Bool
holds_id ids id = contains (λ other. other == id) ids

-- The message ids that a withdrawal takes: the proved ones that are not present, and the deleted.
abbrev pub is_gone : ProvedIdRange → List ℕ → List ℕ → ℕ → Bool
is_gone proved present deleted id =
    leb proved.lowest id && below_cursor proved.below id && not (holds_id present id)
    || holds_id deleted id

abbrev pub withdraws : ℕ → (ℕ → Bool) → Revision → Bool
withdraws channel gone r =
    r.channel_id == channel && not (is_some r.deleted_at) && gone r.provider_message_id

abbrev pub withdrawn : ℕ → Revision → Revision
withdrawn now r = record r {
  deleted_at = some now;
  body = none;
  minimized_at = or_now now r.minimized_at;
}

-- `manifest_id in (select manifest_id from digest_manifest_sources where …)`
abbrev pub carries : ℕ → (ℕ → Bool) → List ManifestMessage → Manifest → Bool
carries channel gone messages m =
    is_some m.canonical_text
    && contains
        (λ (s : ManifestMessage).
          s.manifest_id == m.manifest_id && s.channel_id == channel && gone s.provider_message_id)
        messages

abbrev pub minimized : ℕ → Manifest → Manifest
minimized now m = record m { canonical_text = none; minimized_at = some now }

-- The two updates of one statement, and how many rows each changed.
unfoldable pub withdraw : ℕ → (ℕ → Bool) → Sql Withdrawn
withdraw channel gone now d = some (
  record {
    revisions = count (withdraws channel gone) d.revisions;
    manifests = count (carries channel gone d.messages) d.manifests;
  },
  record d {
    revisions = update (withdraws channel gone) (withdrawn now) d.revisions;
    manifests = update (carries channel gone d.messages) (minimized now) d.manifests;
  },
)

-- `RevisionRepository::withdraw_missing`
unfoldable pub withdraw_missing : ℕ → ProvedIdRange → List ℕ → List ℕ → M RevisionError Withdrawn
withdraw_missing channel proved present deleted =
    execute_alone RevisionError.unavailable (withdraw channel (is_gone proved present deleted))

module _ ⦃ext : External⦄ where
  abbrev pub revision_row : ℕ → ObservedRevision → ℕ → ℕ → Revision
  revision_row id o published observed = record {
    revision_id = id;
    channel_id = o.channel_id;
    provider_message_id = o.provider_message_id;
    content_sha256 = ext.sha256_text o.body;
    body = some o.body;
    published_at = published;
    observed_at = observed;
    canonical_link = o.canonical_link;
    deleted_at = none;
    minimized_at = none;
  }

  -- `RevisionRepository::append`; a text that PostgreSQL cannot read fails the statement.
  unfoldable pub append : ObservedRevision → M RevisionError ℕ
  append o = do
    id ← fresh
    maybe (ext.cast_instant o.published_at) (raise RevisionError.unavailable) λ published.
        maybe (ext.cast_instant o.observed_at) (raise RevisionError.unavailable) λ observed.
          execute_alone RevisionError.unavailable
            (append_revision (revision_row id o published observed))
