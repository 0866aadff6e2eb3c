-- ===== src/Statements.antt =====
-- The SQL statements of coordinator.rs, intake.rs, reports.rs, executor.rs, reaper.rs and the
-- functions of schema.sql they call. A violated constraint answers `none`.
use ratatoskr_channel_digest.Prelude.{
  ℕ, String, Bool, true, false, not, ◌&&◌, ◌||◌, Option, none, some, List, ◌∷◌, ◌++◌, leb, ◌==◌,
  str_eq, if◌then◌else◌, maybe, contains, select, count, update,
}
use ratatoskr_channel_digest.Contracts.{OutputLanguage}
use ratatoskr_channel_digest.Schema.{
  Db, Run, RunState, RunTrigger, trigger_eq, Manifest, ManifestMessage, DigestResult, Inbox,
  InboxState, Outbox, Payload, Subscription, Channel,
}
use ratatoskr_channel_digest.Storage.{Sql}

-- Outbox.

abbrev pub same_outbox_key : Outbox → Outbox → Bool
same_outbox_key a b = str_eq a.subject b.subject && str_eq a.semantic_key b.semantic_key

abbrev pub same_outbox_id : Outbox → Outbox → Bool
same_outbox_id a b = a.outbox_id == b.outbox_id

-- `insert into outbox_messages …`, with the defaults of the table
abbrev pub new_outbox : ℕ → String → String → ℕ → Option ℕ → Option String → Payload → ℕ → Outbox
new_outbox id subject key owner operation cause payload now = record {
  outbox_id = id;
  subject = subject;
  semantic_key = key;
  owner_id = owner;
  operation_id = operation;
  causation_ref = cause;
  payload = payload;
  created_at = now;
  published_at = none;
  attempts = 0;
  next_attempt_at = now;
  safe_failure_class = none;
}

unfoldable pub insert_outbox : (ℕ → Outbox) → Sql (Unit {0})
insert_outbox row now d =
    if contains (same_outbox_key (row now)) d.outbox || contains (same_outbox_id (row now)) d.outbox
    then none
    else some (tt, record d { outbox = row now ∷ d.outbox })

-- `… on conflict (subject, semantic_key) do nothing`
unfoldable pub insert_outbox_once : (ℕ → Outbox) → Sql (Unit {0})
insert_outbox_once row now d =
    if contains (same_outbox_key (row now)) d.outbox
    then some (tt, d)
    else if contains (same_outbox_id (row now)) d.outbox
    then none
    else some (tt, record d { outbox = row now ∷ d.outbox })

-- Inbox.

abbrev pub same_inbox_key : Inbox → Inbox → Bool
same_inbox_key a b = str_eq a.subject b.subject && str_eq a.semantic_key b.semantic_key

abbrev pub same_message : Inbox → Inbox → Bool
same_message a b = a.message_id == b.message_id

abbrev pub processing_row : ℕ → String → String → String → Inbox
processing_row id subject key sha = record {
  message_id = id;
  subject = subject;
  semantic_key = key;
  payload_sha256 = sha;
  state = InboxState.processing;
  completed_at = none;
  safe_failure_class = none;
}

-- `insert into inbox_messages … on conflict do nothing returning message_id`: whether it inserted
unfoldable pub insert_inbox : (ℕ → Inbox) → Sql Bool
insert_inbox row now d =
    if contains (same_message (row now)) d.inbox || contains (same_inbox_key (row now)) d.inbox
    then some (false, d)
    else some (true, record d { inbox = row now ∷ d.inbox })

-- `update inbox_messages set state = 'completed', completed_at = now() where message_id = $1`
unfoldable pub complete_inbox : ℕ → Sql (Unit {0})
complete_inbox id now d = some (
  tt,
  record d {
    inbox =
        update (λ m. m.message_id == id)
          (λ m. record m { state = InboxState.completed; completed_at = some now }) d.inbox;
  },
)

-- Runs.

abbrev pub same_run : Run → Run → Bool
same_run a b = a.run_id == b.run_id

abbrev pub same_natural_key : Run → Run → Bool
same_natural_key a b =
    a.owner_id == b.owner_id
    && trigger_eq a.trigger b.trigger
    && str_eq a.idempotency_key b.idempotency_key
    && a.window_start == b.window_start
    && a.window_end == b.window_end

-- `update digest_runs set … where …`: the rows affected
unfoldable pub update_runs : (Run → Bool) → (ℕ → Run → Run) → Sql ℕ
update_runs p f now d = some (count p d.runs, record d { runs = update p (f now) d.runs })

abbrev pub new_run : ℕ → ℕ → ℕ → RunTrigger → String → ℕ → ℕ → OutputLanguage → ℕ → Run
new_run id owner operation trigger key start end language now = record {
  run_id = id;
  owner_id = owner;
  operation_id = operation;
  trigger = trigger;
  idempotency_key = key;
  window_start = start;
  window_end = end;
  output_language = language;
  state = RunState.accepted;
  safe_failure_class = none;
  acquisition_incomplete = false;
  created_at = now;
  updated_at = now;
}

-- schema.sql: create_digest_run. The natural key returns the run that has it.
unfoldable pub create_digest_run : (ℕ → Run) → Sql ℕ
create_digest_run row now d =
    maybe (select (same_natural_key (row now)) d.runs)
      (if contains (same_run (row now)) d.runs || leb (row now).window_end (row now).window_start
        then none
        else some ((row now).run_id, record d { runs = row now ∷ d.runs }))
      λ r. some (r.run_id, d)

-- `insert into digest_runs … on conflict (natural key) do nothing`
unfoldable pub insert_run_once : (ℕ → Run) → Sql (Unit {0})
insert_run_once row now d =
    if contains (same_natural_key (row now)) d.runs
    then some (tt, d)
    else if contains (same_run (row now)) d.runs || leb (row now).window_end (row now).window_start
    then none
    else some (tt, record d { runs = row now ∷ d.runs })

-- Manifests and results.

-- `insert into digest_manifests … on conflict (run_id) do nothing returning manifest_id`
unfoldable pub insert_manifest : Manifest → Sql Bool
insert_manifest row now d =
    if contains (λ m. m.run_id == row.run_id) d.manifests
    then some (false, d)
    else if contains (λ m. m.manifest_id == row.manifest_id) d.manifests
        || not (contains (λ r. r.run_id == row.run_id) d.runs)
        || not (leb 1 row.source_count && leb row.source_count 100)
        || not (leb 1 row.channel_count && leb row.channel_count 20)
    then none
    else some (true, record d { manifests = row ∷ d.manifests })

unfoldable pub insert_messages : List ManifestMessage → Sql (Unit {0})
insert_messages held now d = some (tt, record d { messages = held ++ d.messages })

-- `insert into digest_results …`; a result, a run and a manifest have one result each
unfoldable pub insert_result : (ℕ → DigestResult) → Sql (Unit {0})
insert_result row now d =
    if contains (λ r. r.result_id == (row now).result_id) d.results
      || contains (λ r. r.run_id == (row now).run_id) d.results
      || contains (λ r. r.manifest_id == (row now).manifest_id) d.results
    then none
    else some (tt, record d { results = row now ∷ d.results })

-- Subscriptions.

abbrev pub active_of : ℕ → Subscription → Bool
active_of owner s = s.owner_id == owner && s.enabled

-- schema.sql: the channel of a username, created when it is new
unfoldable pub ensure_channel : ℕ → String → Db → Option (ℕ × Db)
ensure_channel id username d =
    maybe (select (λ (c : Channel). str_eq c.username username) d.channels)
      (if contains (λ (c : Channel). c.channel_id == id) d.channels
        then none
        else some (
          id,
          record d {
            channels =
                record { channel_id = id; username = username; display_name = none } ∷ d.channels;
          },
        ))
      λ c. some (c.channel_id, d)

abbrev pub max_active : ℕ
max_active = 20

abbrev pub of_channel : ℕ → ℕ → Subscription → Bool
of_channel owner channel s = s.owner_id == owner && s.channel_id == channel

abbrev pub limit_reached : ℕ → Db → Bool
limit_reached owner d = leb max_active (count (active_of owner) d.subscriptions)

-- An owner's subscription to a channel exists: its state is converged, its activation is kept.
unfoldable pub change_subscription : Subscription → Bool → ℕ → Db → Option Db
change_subscription s enabled at d =
    if enabled && not s.enabled && limit_reached s.owner_id d
    then none
    else some (record d {
      subscriptions =
          update (λ (t : Subscription). t.subscription_id == s.subscription_id)
            (λ t. record t { enabled = enabled; updated_at = at }) d.subscriptions;
    })

unfoldable pub add_subscription : Subscription → Db → Option Db
add_subscription s d =
    if s.enabled && limit_reached s.owner_id d
    then none
    else some (record d { subscriptions = s ∷ d.subscriptions })

-- The error P0001 undoes what the statement did.
abbrev pub or_limit : Db → Option Db → Option (Bool × Db)
or_limit before after = maybe after (some (false, before)) λ d. some (true, d)

unfoldable pub set_in_channel : ℕ → ℕ → Bool → ℕ → Db → (ℕ × Db) → Option (Bool × Db)
set_in_channel id owner enabled at before (channel, d) =
    maybe (select (of_channel owner channel) d.subscriptions)
      (if contains (λ (t : Subscription). t.subscription_id == id) d.subscriptions
        then none
        else or_limit before (
            add_subscription
              (record {
                subscription_id = id;
                owner_id = owner;
                channel_id = channel;
                first_activated_at = at;
                enabled = enabled;
                updated_at = at;
              })
              d))
      λ s. or_limit before (change_subscription s enabled at d)

-- schema.sql: set_subscription. The answer is `false` on SQLSTATE P0001, the active limit.
unfoldable pub set_subscription : ℕ → ℕ → ℕ → String → Bool → Sql Bool
set_subscription id new_channel owner username enabled now d =
    maybe (ensure_channel new_channel username d) none (set_in_channel id owner enabled now d)
