-- ===== src/Bus/Outbox.antt =====
-- src/bus.rs: `publish_outbox`, one round over the due outbox rows. The broker is the argument
-- `acknowledges`: whether it acknowledges a published message.
use ratatoskr_channel_digest.Prelude.{
  ℕ, sort, ◌+◌, ◌*◌, ◌^◌, Bool, true, false, not, ◌&&◌, ◌||◌, some, List, [], ◌∷◌, min, ltb, leb,
  ◌==◌, if◌then◌else◌, maybe, rows, update, take, is_some,
}
use ratatoskr_channel_digest.Contracts.{External}
use ratatoskr_channel_digest.Schema.{Outbox}
use ratatoskr_channel_digest.Storage.{M, Sql, pure, raise, ◌>>=◌, ◌>>◌, execute_alone}
use ratatoskr_channel_digest.Envelopes.{OutboundMessage, wrap_outbox_row}

pub data BusError : Type 0 where
  unavailable unacknowledged unwrappable : BusError

-- `published_at is null and next_attempt_at <= now()`
abbrev pub is_due : ℕ → Outbox → Bool
is_due now r = not (is_some r.published_at) && leb r.next_attempt_at now

-- `order by created_at, outbox_id`
abbrev pub is_earlier : Outbox → Outbox → Bool
is_earlier a b =
    ltb a.created_at b.created_at || a.created_at == b.created_at && ltb a.outbox_id b.outbox_id

unfoldable pub due_rows : Sql (List Outbox)
due_rows now d = some (take 32 (sort is_earlier (rows (is_due now) d.outbox)), d)

-- `where outbox_id = $1 and published_at is null`
abbrev pub is_unpublished : ℕ → Outbox → Bool
is_unpublished id r = r.outbox_id == id && not (is_some r.published_at)

abbrev pub second : ℕ
second = 1_000_000

-- `least(300, power(2, least(attempts, 8)))`, in seconds
unfoldable pub backoff_seconds : ℕ → ℕ
backoff_seconds attempts = min 300 (2 ^ min attempts 8)

unfoldable pub mark_published : ℕ → Sql (Unit {0})
mark_published id now d = some (
  tt,
  record d {
    outbox =
        update (is_unpublished id)
          (λ r. record r { published_at = some now; attempts = r.attempts + 1 }) d.outbox;
  },
)

unfoldable pub mark_refused : ℕ → Sql (Unit {0})
unfolding backoff_seconds
mark_refused id now d = some (
  tt,
  record d {
    outbox =
        update (is_unpublished id)
          (λ r. record r {
            attempts = r.attempts + 1;
            safe_failure_class = some "publish_unacknowledged";
            next_attempt_at = now + backoff_seconds r.attempts * second;
          })
          d.outbox;
  },
)

module _ ⦃ext : External⦄ (acknowledges : OutboundMessage → Bool) where
  -- The loop of `publish_outbox`; the answer is `refused`.
  unfoldable pub publish_rows : Bool → List Outbox → M BusError Bool
  publish_rows refused [] = pure refused
  publish_rows refused (r ∷ rs) =
      let sent = (do
        execute_alone BusError.unavailable (mark_published r.outbox_id)
        publish_rows refused rs) in
      let unsent = (do
        execute_alone BusError.unavailable (mark_refused r.outbox_id)
        publish_rows true rs) in
      maybe (wrap_outbox_row r) (raise BusError.unwrappable)
        λ message. if acknowledges message then sent else unsent

  -- `publish_outbox`
  unfoldable pub publish_outbox : M BusError (Unit {0})
  unfolding publish_rows due_rows mark_published mark_refused
  publish_outbox = do
    due ← execute_alone BusError.unavailable due_rows
    refused ← publish_rows false due
    if refused then raise BusError.unacknowledged else pure tt
