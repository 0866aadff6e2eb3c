-- ===== src/Registration.antt =====
-- src/registration.rs: the registration of the daily schedule with Platform, queued at worker start.
use mathlib.Core.Option
use ratatoskr_channel_digest.Prelude.{
  ℕ, String, concat, Bool, ◌&&◌, ◌||◌, Option, none, some, List, [], ◌∷◌, ltb, ◌==◌, str_eq,
  if◌then◌else◌, contains, update, rows, holds,
}
use ratatoskr_channel_digest.Contracts.{OutputLanguage, Registration, External}
use ratatoskr_channel_digest.Schema.{Db, Outbox, Payload}
use ratatoskr_channel_digest.Storage.{
  Result, ok, err, M, Sql, pure, lift, ◌>>=◌, ◌>>◌, begin, commit, fresh, execute, reading,
}
use ratatoskr_channel_digest.Statements.{new_outbox, same_outbox_key, same_outbox_id}
use ratatoskr_channel_digest.Envelopes.{producer, registration_type}

-- config.rs
pub record ScheduleConfig : Type 0 where
  pub owner_user_id : ℕ
  pub cron_expression : String
  pub enabled : Bool
  pub output_language : OutputLanguage

pub data RegistrationOutcome : Type 0 where
  enqueued unchanged skipped : RegistrationOutcome

pub data RegistrationError : Type 0 where
  unavailable : RegistrationError

abbrev pub schedule_name : String
schedule_name = "daily-digest"

abbrev pub operation_kind : String
operation_kind = "channel_digest.schedule.occurrence"

abbrev bool_text : Bool → String
bool_text b = if b then "true" else "false"

-- `order by created_at desc, outbox_id desc limit 1`
abbrev pub is_newer : Outbox → Outbox → Bool
is_newer a b =
    ltb b.created_at a.created_at || b.created_at == a.created_at && ltb b.outbox_id a.outbox_id

unfoldable pub newest : List Outbox → Option Outbox
newest [] = none
newest (r ∷ rs) = elim (newest rs) [
  | none ↦ some r
  | some best ↦ if is_newer r best then some r else some best
]

abbrev pub is_registration : Outbox → Bool
is_registration r = str_eq r.subject registration_type

unfoldable pub latest_key : Db → Option String
unfolding newest
latest_key d = Option.map (λ (r : Outbox). r.semantic_key) (newest (rows is_registration d.outbox))

-- `insert … on conflict (subject, semantic_key) do update set …`
unfoldable pub upsert_registration : (ℕ → Outbox) → Sql (Unit {0})
upsert_registration row now d =
    if contains (same_outbox_key (row now)) d.outbox
    then some (
      tt,
      record d {
        outbox =
            update (same_outbox_key (row now))
              (λ r. record r {
                outbox_id = (row now).outbox_id;
                created_at = now;
                published_at = none;
                attempts = 0;
                next_attempt_at = now;
                safe_failure_class = none;
                payload = (row now).payload;
              })
              d.outbox;
      },
    )
    else if contains (same_outbox_id (row now)) d.outbox
    then none
    else some (tt, record d { outbox = row now ∷ d.outbox })

module _ ⦃ext : External⦄ where
  -- `registration`
  unfoldable pub registration : ScheduleConfig → Result RegistrationError Registration
  registration s =
      if ext.parses_label producer
        && ext.parses_label schedule_name
        && ext.parses_cron s.cron_expression
        && ext.parses_operation_kind operation_kind
      then ok (record {
        service_name = producer;
        name = schedule_name;
        owner_user_id = s.owner_user_id;
        cron_expression = s.cron_expression;
        command_type = ext.occurrence_type;
        operation_kind = operation_kind;
        enabled = s.enabled;
      })
      else err RegistrationError.unavailable

  -- The digest of `owner|cron|enabled`.
  abbrev pub registration_key : ScheduleConfig → String
  registration_key s = ext.sha256_text (
      concat (ext.uuid_text s.owner_user_id)
        (concat "|" (concat s.cron_expression (concat "|" (bool_text s.enabled)))))

  unfoldable pub enqueue_registration : ScheduleConfig → M RegistrationError RegistrationOutcome
  enqueue_registration s = do
    payload ← lift (registration s)
    begin RegistrationError.unavailable
    latest ← execute RegistrationError.unavailable (reading latest_key)
    if holds (λ key. str_eq key (registration_key s)) latest
        then pure RegistrationOutcome.unchanged
        else (do
          id ← fresh
          execute RegistrationError.unavailable (
              upsert_registration (
                new_outbox id registration_type (registration_key s) s.owner_user_id none none
                  (Payload.registration payload)))
          commit RegistrationError.unavailable
          pure RegistrationOutcome.enqueued)

  -- `enqueue_schedule_registration`
  unfoldable pub enqueue_schedule_registration :
      Option ScheduleConfig → M RegistrationError RegistrationOutcome
  unfolding enqueue_registration
  enqueue_schedule_registration none = pure RegistrationOutcome.skipped
  enqueue_schedule_registration (some s) = enqueue_registration s
