-- ===== src/Worker/Preservation.antt =====
-- Deliveries, and with them every sequence of the worker's operations, keep every invariant that
-- respects the statements.
use ratatoskr_channel_digest.Prelude.{
  String, Bool, true, false, Option, none, some, List, [], ◌∷◌, maybe, if◌then◌else◌,
}
use ratatoskr_channel_digest.Contracts.{Bytes, OutputLanguage, Envelope, External}
use ratatoskr_channel_digest.Schema.{Db}
use ratatoskr_channel_digest.Storage.{World, M}
use ratatoskr_channel_digest.Storage.Rules.{Keeps}
use ratatoskr_channel_digest.Intake.{CommandKind}
use ratatoskr_channel_digest.Bus
use ratatoskr_channel_digest.Bus.{DeliveryDisposition, Handler, terminate, answer}
use ratatoskr_channel_digest.Worker.{Respects, Operation, perform, perform_all}
use ratatoskr_channel_digest.Worker.Operations.{
  commit_manifest-Keeps, complete_empty_run-Keeps, fail_run-Keeps, settle_completion-Keeps,
  settle_failure-Keeps, accept_occurrence-Keeps,
}
use ratatoskr_channel_digest.Worker.Commands.{
  accept_subscription-Keeps, reject_unreadable-Keeps, accept_run-Keeps, reap_once-Keeps,
  create-Keeps, begin_acquisition-Keeps, record_acquisition-Keeps, transition-Keeps,
  enqueue_schedule_registration-Keeps, publish_outbox-Keeps,
}
use ratatoskr_channel_digest.Worker.Execution.{execute_one-Keeps, sweep_once-Keeps}

-- The committed database and the working copy of the open transaction have an invariant.
abbrev pub Both : (Db → Type 0) → World → Type 0
Both I w = I w.committed × I w.working

record Handles (I : Db → Type 0) (h : Handler) : Type 0 where
  at : (w : World) → Both I w → Both I (h w).1

module _ {I : Db → Type 0} where
  Handles-terminate : Handles I terminate
  Handles-terminate = record { at = λ w k. k }

  Handles-if :
      (b : Bool) (g h : Handler) → Handles I g → Handles I h → Handles I (if b then g else h)
  Handles-if true g h kg kh = kg
  Handles-if false g h kg kh = kh

  Handles-maybe :
      {B : Type 0} (o : Option B) (g : Handler) (h : B → Handler)
      → Handles I g
      → ((b : B) → Handles I (h b))
      → Handles I (maybe o g h)
  unfolding maybe
  Handles-maybe none g h kg kh = kg
  Handles-maybe (some b) g h kg kh = kh b

  Handles-answer :
      {E A : Type 0} (f : E → DeliveryDisposition) (m : M E A) → Keeps I m → Handles I (answer f m)
  unfolding answer
  Handles-answer f m k = record { at = λ w (c, d). k.at w c d }

ruleset parts = (Handles-terminate, Handles-if, Handles-maybe, Handles-answer)

module _ ⦃ext : External⦄ {I : Db → Type 0} (i : Respects I) where
  handle_occurrence-Handles :
      (language : OutputLanguage) (e : Envelope) → Handles I (Bus.handle_occurrence language e)
  unfolding Bus.handle_occurrence
  handle_occurrence-Handles language e = search (parts, accept_occurrence-Keeps i) depth 20

  reject_unreadable-Handles :
      (e : Envelope) (kind : CommandKind) → Handles I (Bus.reject_unreadable e kind)
  unfolding Bus.reject_unreadable
  reject_unreadable-Handles e kind = search (parts, reject_unreadable-Keeps i) depth 20

  handle_subscription-Handles : (e : Envelope) → Handles I (Bus.handle_subscription e)
  unfolding Bus.handle_subscription
  handle_subscription-Handles e =
      search (parts, accept_subscription-Keeps i, reject_unreadable-Handles) depth 20

  handle_run-Handles : (e : Envelope) → Handles I (Bus.handle_run e)
  unfolding Bus.handle_run
  handle_run-Handles e = search (parts, accept_run-Keeps i, reject_unreadable-Handles) depth 20

  handle_command-Handles :
      (language : OutputLanguage) (subject : String) (bytes : Bytes)
      → Handles I (Bus.handle_command language subject bytes)
  unfolding Bus.handle_command
  handle_command-Handles language subject bytes =
      search (parts, handle_occurrence-Handles, handle_subscription-Handles, handle_run-Handles)
        depth 20

  handle_completed-Handles : (e : Envelope) → Handles I (Bus.handle_completed e)
  unfolding Bus.handle_completed
  handle_completed-Handles e = search (parts, settle_completion-Keeps i) depth 20

  handle_failed-Handles : (e : Envelope) → Handles I (Bus.handle_failed e)
  unfolding Bus.handle_failed
  handle_failed-Handles e = search (parts, settle_failure-Keeps i) depth 20

  handle_event-Handles :
      (subject : String) (bytes : Bytes) → Handles I (Bus.handle_event subject bytes)
  unfolding Bus.handle_event
  handle_event-Handles subject bytes =
      search (parts, handle_completed-Handles, handle_failed-Handles) depth 20

  handle-Handles :
      (language : OutputLanguage) (subject : String) (bytes : Bytes)
      → Handles I (Bus.handle language subject bytes)
  unfolding Bus.handle
  handle-Handles language subject bytes =
      search (parts, handle_command-Handles, handle_event-Handles) depth 20

  perform_keeps : (o : Operation) (w : World) → Both I w → Both I (perform o w)
  unfolding perform
  perform_keeps (Operation.deliver l s b) w k = (handle-Handles l s b).at w k
  perform_keeps (Operation.commit_run m raw) w (c, d) = (commit_manifest-Keeps i m raw).at w c d
  perform_keeps (Operation.complete_run r o) w (c, d) = (complete_empty_run-Keeps i r o).at w c d
  perform_keeps (Operation.abandon_run r o f) w (c, d) = (fail_run-Keeps i r o f).at w c d
  perform_keeps (Operation.reap now deadline) w (c, d) = (reap_once-Keeps i now deadline).at w c d
  perform_keeps (Operation.create_run o op t k s e) w (c, d) =
      (create-Keeps i o op t k s e).at w c d
  perform_keeps (Operation.start_run r o) w (c, d) = (begin_acquisition-Keeps i r o).at w c d
  perform_keeps (Operation.record_run r b) w (c, d) = (record_acquisition-Keeps i r b).at w c d
  perform_keeps (Operation.execute p n) w (c, d) = (execute_one-Keeps i p n).at w c d
  perform_keeps (Operation.sweep days now) w (c, d) = (sweep_once-Keeps i days now).at w c d
  perform_keeps (Operation.move_run r x y f) w (c, d) = (transition-Keeps i r x y f).at w c d
  perform_keeps (Operation.register s) w (c, d) = (enqueue_schedule_registration-Keeps i s).at w c d
  perform_keeps (Operation.publish a) w (c, d) = (publish_outbox-Keeps i a).at w c d
  perform_keeps (Operation.wait t) w k = k

  pub perform_all_keeps : (os : List Operation) (w : World) → Both I w → Both I (perform_all os w)
  unfolding perform_all
  perform_all_keeps [] w k = k
  perform_all_keeps (o ∷ os) w k = perform_all_keeps os (perform o w) (perform_keeps o w k)
