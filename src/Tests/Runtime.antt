-- ===== src/Tests/Runtime.antt =====
-- The theorems on the tasks of the worker at concrete steps and inputs.
use ratatoskr_channel_digest.Prelude.{
  ℕ, true, false, none, some, List, [], ◌∷◌, ◌≡◌, refl, ◌⊎◌, ◌≤◌, arith, maybe, str_eq, Bool, ◌≢◌,
  count, update, rows, sort, insert,
}
use ratatoskr_channel_digest.Contracts.{OutputLanguage}
use ratatoskr_channel_digest.Schema.{empty_db, Payload}
use ratatoskr_channel_digest.Storage.{World, ok, pure, raise, ◌>>=◌}
use ratatoskr_channel_digest.Runtime.{Stage, access}
use ratatoskr_channel_digest.Runtime.Supervision.{
  Phase, Move, Main, System, spawned, Step, Reach, next,
}
use ratatoskr_channel_digest.Runtime.Updates.{is_open}
use ratatoskr_channel_digest.Runtime.Ready.{WasUp, ready-WasUp}
use ratatoskr_channel_digest.Runtime.Shutdown.{still, then, HasReturned, drained_returns}
use ratatoskr_channel_digest.Runtime.Races.{
  overlapping, overlapping-Reach, IsStale, overlapping-IsStale,
}
use ratatoskr_channel_digest.Schema.{Outbox}
use ratatoskr_channel_digest.Storage.{attempt, execute_alone}
use ratatoskr_channel_digest.Envelopes.{
  OutboundMessage, wrap_outbox_row, registration_type, producer,
}
use ratatoskr_channel_digest.Config.{BusConfig}
use ratatoskr_channel_digest.Bus.{handle}
use ratatoskr_channel_digest.Bus.Outbox.{
  is_due, due_rows, mark_published, publish_rows, publish_outbox,
}
use ratatoskr_channel_digest.Bus.Rounds.{IsDeliverable}
use ratatoskr_channel_digest.Bus.Consumers.{Broker}
use ratatoskr_channel_digest.Bus.Consumption.{Message, AckKind, BusEvent, process_delivery}
use ratatoskr_channel_digest.Bus.Answers.{SameButOutbox, process_delivery-unchanged}
use ratatoskr_channel_digest.Subscriptions.{Subscription}
use ratatoskr_channel_digest.Worker.{perform_all}
use ratatoskr_channel_digest.Worker.Publishing.{rounds, publish-drains}
use ratatoskr_channel_digest.Tests.{toy, world}

-- Both are connected, and the provider's update has been published.
abbrev both_up : System
both_up = record {
  flags = record { bus = true; provider = true; ready = true; drain = false };
  bus_at = Phase.serving;
  provider_at = Phase.serving;
  main_at = Main.running;
}

both_up-Reach : Reach spawned both_up
unfolding access
both_up-Reach =
    next (next overlapping-Reach (Step.provider_moves (Move.go_on refl)))
      (Step.provider_moves (Move.settle refl))

ready-WasUp_example :
    WasUp both_up × ((is_open both_up.bus_at ≡ true) ⊎ (is_open both_up.provider_at ≡ true))
ready-WasUp_example = ready-WasUp both_up both_up-Reach refl

-- The drain signal is sent while both serve.
abbrev drained : System
drained = record {
  flags = record { bus = true; provider = true; ready = false; drain = true };
  bus_at = Phase.serving;
  provider_at = Phase.serving;
  main_at = Main.sent;
}

drained-Reach : Reach spawned drained
drained-Reach = next (next both_up-Reach (Step.begins refl)) (Step.sends refl)

abbrev bus_stops : System
bus_stops = record drained { bus_at = Phase.setting false Phase.checking Stage.store_flag }

drained_returns_example : (1 ≤ 30) × (HasReturned bus_stops ⊎ ((u : System) × Step bus_stops u))
drained_returns_example =
    drained_returns {s = drained} {t = bus_stops} {n = 1} drained-Reach refl
      (then still (Step.bus_moves (Move.stop refl)))

overlapping-IsStale_example : (t : System) × Reach (overlapping false) t × IsStale t
overlapping-IsStale_example = overlapping-IsStale false

-- A run that is registered at once: its row waits in the outbox.
abbrev waiting_row : Outbox
waiting_row = record {
  outbox_id = 12;
  subject = registration_type;
  semantic_key = "k";
  owner_id = 7;
  operation_id = none;
  causation_ref = none;
  payload = Payload.registration (record {
    service_name = producer;
    name = "daily";
    owner_user_id = 7;
    cron_expression = "0 6 * * *";
    command_type = "occurrence";
    operation_kind = "occurrence";
    enabled = true;
  });
  created_at = 20;
  published_at = none;
  attempts = 0;
  next_attempt_at = 20;
  safe_failure_class = none;
}

abbrev waiting_world : World
waiting_world = record (world 100 (record empty_db { outbox = waiting_row ∷ [] })) {
  fails = λ n. false;
}

waiting_row-IsDeliverable : IsDeliverable ⦃ext = toy⦄ (λ m. true) waiting_row
unfolding wrap_outbox_row str_eq
waiting_row-IsDeliverable = (_, refl, refl)

publish-drains_example :
    count
      (is_due (perform_all ⦃ext = toy⦄ (rounds 1 (λ m. true)) waiting_world).clock)
      (perform_all ⦃ext = toy⦄ (rounds 1 (λ m. true)) waiting_world).committed.outbox
    ≡ 0
unfolding count
publish-drains_example =
    publish-drains ⦃ext = toy⦄ (λ m. true) 1 waiting_world (λ n. refl)
      (waiting_row-IsDeliverable, tt) (omega arith)

-- A message of a subject that the worker does not take.
abbrev foreign : Message
foreign = record { subject = "evt.other.v1"; payload = []; answers = true }

terminated :
    (process_delivery ⦃ext = toy⦄ OutputLanguage.en
      (λ m. true)
      (some (some foreign))
      waiting_world).0
    ≡ ok AckKind.term
unfolding process_delivery handle publish_outbox due_rows publish_rows mark_published execute_alone
    attempt wrap_outbox_row str_eq pure raise ◌>>=◌ maybe update rows sort insert
terminated = refl

term≢ack : AckKind.term ≢ AckKind.ack
term≢ack e = absurd (cc)

process_delivery-unchanged_example :
    SameButOutbox waiting_world.committed
      (process_delivery ⦃ext = toy⦄ OutputLanguage.en
        (λ m. true)
        (some (some foreign))
        waiting_world).1.committed
process_delivery-unchanged_example =
    process_delivery-unchanged ⦃ext = toy⦄ OutputLanguage.en (λ m. true) (some (some foreign))
      AckKind.term waiting_world terminated term≢ack

abbrev bus_config : BusConfig
bus_config = record { endpoint = "nats://localhost"; nkey_seed_path = none }

-- A broker that has none of the durables.
abbrev broker : Broker
broker = record {
  read_seed = λ p. none;
  connects = λ e s p. true;
  consumer = λ d s. none;
  opens_stream = λ c. true;
}

abbrev connections : List (Broker × (OutboundMessage → Bool) × List BusEvent × ℕ)
connections =
    (broker, (λ m. true), BusEvent.tick ∷ BusEvent.next (some (some foreign)) ∷ [], 1) ∷ []

-- A first subscription, read back.
abbrev news : Subscription
news = record {
  subscription_id = 50;
  channel_username = "news";
  first_activated_at = 30;
  enabled = true;
}
