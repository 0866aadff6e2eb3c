-- ===== src/Bus/Consumption.antt =====
-- src/bus.rs: `process_delivery` and `consume_once`. What the broker sends in the life of a connection is
-- a list of events.
use ratatoskr_channel_digest.Prelude.{
  ℕ, ◌+◌, String, Bool, Option, none, some, List, [], ◌∷◌, if◌then◌else◌,
}
use ratatoskr_channel_digest.Contracts.{Bytes, OutputLanguage, External}
use ratatoskr_channel_digest.Storage.{ok, M, pure, raise, lift, ◌>>=◌, ◌>>◌}
use ratatoskr_channel_digest.Config.{BusConfig}
use ratatoskr_channel_digest.Envelopes.{OutboundMessage}
use ratatoskr_channel_digest.Bus.{DeliveryDisposition, handle}
use ratatoskr_channel_digest.Bus.Outbox.{BusError, publish_outbox}
use ratatoskr_channel_digest.Bus.Consumers.{Broker, open_streams}

-- A message of the broker, and whether the answer to it gets through.
pub record Message : Type 0 where
  pub subject : String
  pub payload : Bytes
  pub answers : Bool

-- `jetstream::AckKind`; a redelivery after so many seconds.
pub data AckKind : Type 0 where
  ack term : AckKind
  nak : ℕ → AckKind

-- What `select` meets: the drain signal, time that passes, the tick of the outbox, or the next item of a stream, which
-- may be its end or an error.
pub data BusEvent : Type 0 where
  drain tick : BusEvent
  pass : ℕ → BusEvent
  next : Option (Option Message) → BusEvent

-- Whether the loop of `consume_once` has ended with its drain or still waits.
pub data LoopState : Type 0 where
  drained waiting : LoopState

abbrev pub ack_of : DeliveryDisposition → AckKind
ack_of DeliveryDisposition.ack = AckKind.ack
ack_of DeliveryDisposition.term = AckKind.term
ack_of DeliveryDisposition.nak = AckKind.nak 2

abbrev pub elapse : ℕ → M BusError (Unit {0})
elapse time w = (ok tt, record w { clock = w.clock + time })

-- `ok_or(…)?.map_err(…)?`
abbrev pub received : Option (Option Message) → M BusError Message
received none = raise BusError.unavailable
received (some none) = raise BusError.unavailable
received (some (some message)) = pure message

module _ ⦃ext : External⦄ (language : OutputLanguage) (acknowledges : OutboundMessage → Bool) where
  abbrev pub handled : Message → M BusError DeliveryDisposition
  handled message w = let (d, w') = handle language message.subject message.payload w in (ok d, w')

  -- `process_delivery`, with the answer that was sent.
  unfoldable pub process_delivery : Option (Option Message) → M BusError AckKind
  process_delivery item = do
    message ← received item
    disposition ← handled message
    publish_outbox acknowledges
    if message.answers then pure (ack_of disposition) else raise BusError.unavailable

  -- The loop of `consume_once`
  unfoldable pub consume : List BusEvent → M BusError LoopState
  unfolding process_delivery
  consume [] = pure LoopState.waiting
  consume (BusEvent.drain ∷ events) = pure LoopState.drained
  consume (BusEvent.pass time ∷ events) = elapse time >> consume events
  consume (BusEvent.tick ∷ events) = publish_outbox acknowledges >> consume events
  consume (BusEvent.next item ∷ events) = process_delivery item >> consume events

  -- `consume_once`; the readiness of the worker is that of the supervisor's steps.
  unfoldable pub consume_once : Broker → BusConfig → List BusEvent → M BusError LoopState
  unfolding open_streams consume
  consume_once broker bus events = do
    lift (open_streams broker bus)
    publish_outbox acknowledges
    consume events
