-- ===== src/Bus/Consumers.antt =====
-- src/bus.rs: the connection to the broker and the five durables, which are verified and never
-- created. The broker is an interface.
use ratatoskr_channel_digest.Prelude.{
  ℕ, String, Bool, true, false, not, ◌||◌, Option, none, some, ◌==◌, str_eq, if◌then◌else◌, maybe,
  holds, is_some,
}
use ratatoskr_channel_digest.Contracts.{External}
use ratatoskr_channel_digest.Storage.{Result, ok, err, and_then}
use ratatoskr_channel_digest.Config.{BusConfig}
use ratatoskr_channel_digest.Bus.{
  subscription_command, run_command, schedule_command, completed_event, failed_event,
}
use ratatoskr_channel_digest.Bus.Outbox.{BusError}

pub data AckPolicy : Type 0 where
  explicit other_ack : AckPolicy

pub data DeliverPolicy : Type 0 where
  all other_deliver : DeliverPolicy

-- The configuration of a consumer as far as the source looks at it; a wait is in seconds.
pub record ConsumerConfig : Type 0 where
  pub durable_name : Option String
  pub filter_subject : String
  pub ack_policy : AckPolicy
  pub ack_wait : ℕ
  pub deliver_subject : Option String
  pub deliver_policy : DeliverPolicy

-- `async_nats` and the file of the seed. `connects` has the endpoint, the seed and the inbox prefix.
pub record Broker : Type 0 where
  pub read_seed : String → Option String
  pub connects : String → Option String → String → Bool
  pub consumer : String → String → Option ConsumerConfig
  pub opens_stream : ConsumerConfig → Bool

abbrev pub inbox_prefix : String
inbox_prefix = "_INBOX_channel_digests"

abbrev pub command_stream : String
command_stream = "ratatoskr_commands"

abbrev pub event_stream : String
event_stream = "ratatoskr_events"

abbrev pub subscription_durable : String
subscription_durable = "ratatoskr_channel_digest_subscriptions"

abbrev pub run_durable : String
run_durable = "ratatoskr_channel_digest_runs"

abbrev pub schedule_durable : String
schedule_durable = "ratatoskr_channel_digest_schedule_occurrences"

abbrev pub completed_durable : String
completed_durable = "ratatoskr_channel_digest_recap_completed"

abbrev pub failed_durable : String
failed_durable = "ratatoskr_channel_digest_recap_failed"

-- `ACK_WAIT`
abbrev pub ack_wait : ℕ
ack_wait = 30

pub record ConsumerSet : Type 0 where
  pub subscriptions : ConsumerConfig
  pub runs : ConsumerConfig
  pub schedules : ConsumerConfig
  pub completed : ConsumerConfig
  pub failed : ConsumerConfig

abbrev pub is_explicit : AckPolicy → Bool
is_explicit AckPolicy.explicit = true
is_explicit AckPolicy.other_ack = false

abbrev pub delivers_all : DeliverPolicy → Bool
delivers_all DeliverPolicy.all = true
delivers_all DeliverPolicy.other_deliver = false

-- The test of `exact_consumer`
unfoldable pub differs : String → String → ConsumerConfig → Bool
differs durable subject c =
    not (holds (str_eq durable) c.durable_name)
    || not (str_eq c.filter_subject subject)
    || not (is_explicit c.ack_policy)
    || not (c.ack_wait == ack_wait)
    || is_some c.deliver_subject
    || not (delivers_all c.deliver_policy)

abbrev pub require_bus : Bool → Result BusError (Unit {0})
require_bus b = if b then ok tt else err BusError.unavailable

module _ (broker : Broker) where
  -- `exact_consumer`
  unfoldable pub exact_consumer : String → String → String → Result BusError ConsumerConfig
  unfolding differs
  exact_consumer stream durable subject =
      maybe (broker.consumer durable stream) (err BusError.unavailable)
        λ c. if differs durable subject c then err BusError.unavailable else ok c

  -- `verify_consumers`
  unfoldable pub verify_consumers : Result BusError ConsumerSet
  unfolding exact_consumer
  verify_consumers =
      and_then (exact_consumer command_stream subscription_durable subscription_command) λ s.
        and_then (exact_consumer command_stream run_durable run_command) λ r.
          and_then (exact_consumer command_stream schedule_durable schedule_command) λ o.
            and_then (exact_consumer event_stream completed_durable completed_event) λ c.
              and_then (exact_consumer event_stream failed_durable failed_event) λ f.
                ok
                  (record { subscriptions = s; runs = r; schedules = o; completed = c; failed = f })

  -- `connect`; the seed is trimmed.
  unfoldable pub connect : ⦃ext : External⦄ → BusConfig → Result BusError (Unit {0})
  connect ⦃ext⦄ bus = elim bus.nkey_seed_path [
    | none ↦ require_bus (broker.connects bus.endpoint none inbox_prefix)
    | some path ↦
        maybe (broker.read_seed path) (err BusError.unavailable)
          λ seed. require_bus (broker.connects bus.endpoint (some (ext.trim seed)) inbox_prefix)
  ]

  -- `batches`
  abbrev pub batches : ConsumerConfig → Result BusError (Unit {0})
  batches c = require_bus (broker.opens_stream c)

  -- `consume_once` up to its first round over the outbox
  unfoldable pub open_streams : ⦃ext : External⦄ → BusConfig → Result BusError (Unit {0})
  unfolding connect verify_consumers
  open_streams bus = and_then (connect bus) λ _. and_then verify_consumers λ set.
      and_then (batches set.subscriptions) λ _. and_then (batches set.runs) λ _.
        and_then (batches set.schedules)
          λ _. and_then (batches set.completed) λ _. batches set.failed
