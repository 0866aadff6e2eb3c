-- ===== src/Bus/Delivery.antt =====
-- A delivery that is not acknowledged left the database as it was.
use ratatoskr_channel_digest.Prelude.{
  String, Bool, true, false, Option, none, some, if◌then◌else◌, maybe, ◌≡◌, refl, ◌≢◌,
}
use ratatoskr_channel_digest.Contracts.{Bytes, OutputLanguage, Envelope, External}
use ratatoskr_channel_digest.Storage.{Result, ok, err, World, M}
use ratatoskr_channel_digest.Storage.Rules.{Guarded}
use ratatoskr_channel_digest.Coordinator.{IntakeOutcome}
use ratatoskr_channel_digest.Coordinator.Atomicity.{
  may_change, settle_completion-Guarded, settle_failure-Guarded, accept_occurrence-Guarded,
}
use ratatoskr_channel_digest.Intake.{CommandKind}
use ratatoskr_channel_digest.Intake.Atomicity.{
  accept_subscription-Guarded, accept_run-Guarded, reject_unreadable-Guarded,
}
use ratatoskr_channel_digest.Bus.{
  DeliveryDisposition, Handler, terminate, disposition, answer, handle_occurrence,
  reject_unreadable, handle_subscription, handle_run, handle_command, handle_completed,
  handle_failed, handle_event, handle,
}

record Refusing (h : Handler) : Type 0 where
  at : (w : World) → (h w).0 ≢ DeliveryDisposition.ack → (h w).1.committed ≡ w.committed

Refusing-terminate : Refusing terminate
Refusing-terminate = record { at = λ w n. refl }

Refusing-if : (b : Bool) (g h : Handler) → Refusing g → Refusing h → Refusing (if b then g else h)
Refusing-if true g h rg rh = rg
Refusing-if false g h rg rh = rh

Refusing-maybe :
    {B : Type 0} (o : Option B) (g : Handler) (h : B → Handler)
    → Refusing g
    → ((b : B) → Refusing (h b))
    → Refusing (maybe o g h)
unfolding maybe
Refusing-maybe none g h rg rh = rg
Refusing-maybe (some b) g h rg rh = rh b

module _ {E : Type 0} (f : E → DeliveryDisposition) where
  answer_at :
      (r : Result E IntakeOutcome) (w v : World)
      → ((e : E) → r ≡ err e → v.committed ≡ w.committed)
      → disposition f r ≢ DeliveryDisposition.ack
      → v.committed ≡ w.committed
  answer_at (ok a) w v unchanged n = absurd (n refl)
  answer_at (err e) w v unchanged n = unchanged e refl

  Refusing-answer : (m : M E IntakeOutcome) → Guarded may_change m → Refusing (answer f m)
  unfolding answer
  Refusing-answer m g = record { at = λ w n. answer_at (m w).0 w (m w).1 (g.on_err w) n }

module _ ⦃ext : External⦄ where
  ruleset parts = (Refusing-terminate, Refusing-if, Refusing-maybe)

  handle_occurrence-Refusing :
      (language : OutputLanguage) (e : Envelope) → Refusing (handle_occurrence language e)
  unfolding handle_occurrence
  handle_occurrence-Refusing language e =
      search (parts, Refusing-answer, accept_occurrence-Guarded) depth 20

  reject_unreadable-Refusing :
      (e : Envelope) (kind : CommandKind) → Refusing (reject_unreadable e kind)
  unfolding reject_unreadable
  reject_unreadable-Refusing e kind =
      search (parts, Refusing-answer, reject_unreadable-Guarded) depth 20

  handle_subscription-Refusing : (e : Envelope) → Refusing (handle_subscription e)
  unfolding handle_subscription
  handle_subscription-Refusing e =
      search (parts, Refusing-answer, accept_subscription-Guarded, reject_unreadable-Refusing) depth
        20

  handle_run-Refusing : (e : Envelope) → Refusing (handle_run e)
  unfolding handle_run
  handle_run-Refusing e =
      search (parts, Refusing-answer, accept_run-Guarded, reject_unreadable-Refusing) depth 20

  handle_command-Refusing :
      (language : OutputLanguage) (subject : String) (bytes : Bytes)
      → Refusing (handle_command language subject bytes)
  unfolding handle_command
  handle_command-Refusing language subject bytes =
      search (parts, handle_occurrence-Refusing, handle_subscription-Refusing, handle_run-Refusing)
        depth 20

  handle_completed-Refusing : (e : Envelope) → Refusing (handle_completed e)
  unfolding handle_completed
  handle_completed-Refusing e = search (parts, Refusing-answer, settle_completion-Guarded) depth 20

  handle_failed-Refusing : (e : Envelope) → Refusing (handle_failed e)
  unfolding handle_failed
  handle_failed-Refusing e = search (parts, Refusing-answer, settle_failure-Guarded) depth 20

  handle_event-Refusing : (subject : String) (bytes : Bytes) → Refusing (handle_event subject bytes)
  unfolding handle_event
  handle_event-Refusing subject bytes =
      search (parts, handle_completed-Refusing, handle_failed-Refusing) depth 20

  handle-Refusing :
      (language : OutputLanguage) (subject : String) (bytes : Bytes)
      → Refusing (handle language subject bytes)
  unfolding handle
  handle-Refusing language subject bytes =
      search (parts, handle_command-Refusing, handle_event-Refusing) depth 20

  -- Whatever the subject and the bytes, and whichever calls of the database fail: a delivery that is
  -- terminated or sent back for redelivery left the committed database as it was.
  pub handle-unchanged :
      (language : OutputLanguage) (subject : String) (bytes : Bytes) (w : World)
      → (handle language subject bytes w).0 ≢ DeliveryDisposition.ack
      → (handle language subject bytes w).1.committed ≡ w.committed
  handle-unchanged language subject bytes = (handle-Refusing language subject bytes).at
