-- ===== src/Worker/Commands.antt =====
-- The commands, the reaper, the runs, the outbox and the bus keep every invariant that respects the
-- statements; so does every sequence of operations.
use ratatoskr_channel_digest.Prelude.{
  ℕ, String, Bool, true, ◌&&◌, Option, none, some, List, [], ◌∷◌, ◌≡◌, refl, arith, subst, ◌==◌,
}
use ratatoskr_channel_digest.Contracts.{
  Bytes, OutputLanguage, SubscriptionSet, RunRequested, External,
}
use ratatoskr_channel_digest.Schema.{Db, Run, RunState, RunTrigger, Outbox}
use ratatoskr_channel_digest.Storage.{Result, map_err, lift, execute_alone}
use ratatoskr_channel_digest.Storage.Rules.{
  Stable, Keeps, Keeps-bind, Keeps-if, Keeps-maybe, keeps_rules,
}
use ratatoskr_channel_digest.Reports.{ReportError, OperationReportRow, enqueue}
use ratatoskr_channel_digest.Intake
use ratatoskr_channel_digest.Intake.{Rejection, CommandKind}
use ratatoskr_channel_digest.Reaper
use ratatoskr_channel_digest.Runs
use ratatoskr_channel_digest.Runs.{may_transition}
use ratatoskr_channel_digest.Executor
use ratatoskr_channel_digest.Coordinator.{move_to}
use ratatoskr_channel_digest.Registration
use ratatoskr_channel_digest.Registration.{ScheduleConfig}
use ratatoskr_channel_digest.Envelopes.{OutboundMessage}
use ratatoskr_channel_digest.Bus.Outbox
use ratatoskr_channel_digest.Bus.Outbox.{due_rows}
use ratatoskr_channel_digest.Worker.{IsLegal, Respects}
use ratatoskr_channel_digest.Worker.Operations.{
  reading-Stable, enqueue-Keeps, on_demand_operation-Keeps,
}

IsLegal-language :
    (run owner : ℕ) (l : OutputLanguage)
    → IsLegal
        (λ (r : Run). r.run_id == run && r.owner_id == owner)
        (λ now r. record r { output_language = l })
IsLegal-language run owner l now r h = record {
  run_id = refl;
  settled = λ _. refl;
  class = λ _. refl;
}

IsLegal-transition :
    (run : ℕ) (expected target : RunState) (c : Option String)
    → IsLegal
        (may_transition run expected)
        (λ now r. record r { state = target; safe_failure_class = c; updated_at = now })
IsLegal-transition run expected target c now r h = record {
  run_id = refl;
  settled = ground arith;
  class = ground arith;
}

IsLegal-started : (run : ℕ) → IsLegal (Executor.is_accepted run) (move_to RunState.acquiring)
IsLegal-started run now r h = record { run_id = refl; settled = ground arith; class = λ _. refl }

IsLegal-recorded :
    (run : ℕ) (incomplete : Bool)
    → IsLegal
        (λ (r : Run). r.run_id == run)
        (λ now r. record r { acquisition_incomplete = incomplete })
IsLegal-recorded run incomplete now r h = record {
  run_id = refl;
  settled = λ _. refl;
  class = λ _. refl;
}

due_rows-Stable : {I : Db → Type 0} → Stable I due_rows
unfolding due_rows
due_rows-Stable {I} = record {
  at = λ now d a d' k e. let same : d ≡ d' = ground arith in subst I same k;
}

ruleset parts = (keeps_rules, reading-Stable)

module _ ⦃ext : External⦄ {I : Db → Type 0} (i : Respects I) where
  reject-Keeps : (r : Rejection) → Keeps I (Intake.reject r)
  unfolding Intake.reject
  reject-Keeps r = search (parts, i.inbox, enqueue-Keeps i) depth 20

  finish-Keeps :
      (message : ℕ) (report : Result ReportError OperationReportRow)
      → Keeps I (Intake.finish message report)
  unfolding Intake.finish
  finish-Keeps message report = search (parts, i.inbox_completed, enqueue-Keeps i) depth 20

  apply_subscription-Keeps :
      (message : ℕ) (payload : Bytes) (c : SubscriptionSet)
      → Keeps I (Intake.apply_subscription message payload c)
  unfolding Intake.apply_subscription
  apply_subscription-Keeps message payload c =
      search (parts, i.subscription, finish-Keeps, reject-Keeps) depth 20

  take_subscription-Keeps :
      (message : ℕ) (payload : Bytes) (c : SubscriptionSet)
      → Keeps I (Intake.take_subscription message payload c)
  unfolding Intake.take_subscription
  take_subscription-Keeps message payload c =
      search (parts, i.inbox, apply_subscription-Keeps) depth 20

  pub accept_subscription-Keeps :
      (message : ℕ) (payload : Bytes) → Keeps I (Intake.accept_subscription message payload)
  unfolding Intake.accept_subscription
  accept_subscription-Keeps message payload =
      search (parts, take_subscription-Keeps, reject-Keeps) depth 20

  pub reject_unreadable-Keeps :
      (message : ℕ) (kind : CommandKind) (tenant : ℕ) (payload : Bytes)
      → Keeps I (Intake.reject_unreadable message kind tenant payload)
  unfolding Intake.reject_unreadable
  reject_unreadable-Keeps message kind tenant payload = search (parts, reject-Keeps) depth 20

  finish_run-Keeps : (message : ℕ) (c : RunRequested) → Keeps I (Intake.finish_run message c)
  unfolding Intake.finish_run
  finish_run-Keeps message c = search (parts, i.inbox_completed, finish-Keeps) depth 20

  create_run-Keeps :
      (message : ℕ) (payload : Bytes) (c : RunRequested)
      → Keeps I (Intake.create_run message payload c)
  unfolding Intake.create_run
  create_run-Keeps message payload c =
      search (parts, i.run_created, i.runs_moved, IsLegal-language, finish_run-Keeps, reject-Keeps)
        depth 20

  take_run-Keeps :
      (message : ℕ) (payload : Bytes) (c : RunRequested)
      → Keeps I (Intake.take_run message payload c)
  unfolding Intake.take_run
  take_run-Keeps message payload c = search (parts, i.inbox, create_run-Keeps) depth 20

  pub accept_run-Keeps :
      (message : ℕ) (payload : Bytes) → Keeps I (Intake.accept_run message payload)
  unfolding Intake.accept_run
  accept_run-Keeps message payload = search (parts, take_run-Keeps, reject-Keeps) depth 20

  report_reaped-Keeps : (rs : List Run) → Keeps I (Reaper.report_reaped rs)
  unfolding Reaper.report_reaped
  report_reaped-Keeps [] = search parts
  report_reaped-Keeps (r ∷ rs) =
      Keeps-if _ _ _
        (λ _.
          Keeps-bind (map_err Reaper.from_report (lift (Reaper.deadline_report r))) _ (search parts)
            λ row.
              Keeps-bind (map_err Reaper.from_report (enqueue row)) _
                (search (parts, enqueue-Keeps i)) λ _. report_reaped-Keeps rs)
        (λ _. report_reaped-Keeps rs)

  pub reap_once-Keeps : (now deadline : ℕ) → Keeps I (Reaper.reap_once now deadline)
  unfolding Reaper.reap_once
  reap_once-Keeps now deadline = search (parts, i.runs_reaped, report_reaped-Keeps) depth 20

  pub create-Keeps :
      (owner operation : ℕ) (t : RunTrigger) (key : String) (start end : ℕ)
      → Keeps I (Runs.create owner operation t key start end)
  unfolding Runs.create
  create-Keeps owner operation t key start end = search (parts, i.run_created) depth 20

  pub transition-Keeps :
      (run : ℕ) (expected target : RunState) (c : Option String)
      → Keeps I (Runs.transition run expected target c)
  unfolding Runs.transition
  transition-Keeps run expected target c = search (parts, i.runs_moved, IsLegal-transition) depth 20

  pub begin_acquisition-Keeps : (run owner : ℕ) → Keeps I (Executor.begin_acquisition run owner)
  unfolding Executor.begin_acquisition
  begin_acquisition-Keeps run owner =
      search (parts, i.runs_moved, IsLegal-started, on_demand_operation-Keeps i, enqueue-Keeps i)
        depth 20

  pub record_acquisition-Keeps :
      (run : ℕ) (incomplete : Bool) → Keeps I (Executor.record_acquisition run incomplete)
  unfolding Executor.record_acquisition
  record_acquisition-Keeps run incomplete = search (parts, i.runs_moved, IsLegal-recorded) depth 20

  enqueue_registration-Keeps : (s : ScheduleConfig) → Keeps I (Registration.enqueue_registration s)
  unfolding Registration.enqueue_registration
  enqueue_registration-Keeps s = search (parts, i.registration) depth 20

  pub enqueue_schedule_registration-Keeps :
      (s : Option ScheduleConfig) → Keeps I (Registration.enqueue_schedule_registration s)
  unfolding Registration.enqueue_schedule_registration
  enqueue_schedule_registration-Keeps none = search parts
  enqueue_schedule_registration-Keeps (some s) = enqueue_registration-Keeps s

  publish_rows-Keeps :
      (acknowledges : OutboundMessage → Bool) (refused : Bool) (rs : List Outbox)
      → Keeps I (Outbox.publish_rows acknowledges refused rs)
  unfolding Outbox.publish_rows
  publish_rows-Keeps acknowledges refused [] = search parts
  publish_rows-Keeps acknowledges refused (r ∷ rs) = Keeps-maybe _ _ _ (search parts) λ message.
      Keeps-if _ _ _
        (λ _.
          Keeps-bind (execute_alone Outbox.BusError.unavailable (Outbox.mark_published r.outbox_id))
            _ (search (parts, i.published)) λ _. publish_rows-Keeps acknowledges refused rs)
        (λ _.
          Keeps-bind (execute_alone Outbox.BusError.unavailable (Outbox.mark_refused r.outbox_id)) _
            (search (parts, i.refused)) λ _. publish_rows-Keeps acknowledges true rs)

  pub publish_outbox-Keeps :
      (acknowledges : OutboundMessage → Bool) → Keeps I (Outbox.publish_outbox acknowledges)
  unfolding Outbox.publish_outbox
  publish_outbox-Keeps acknowledges = search (parts, due_rows-Stable, publish_rows-Keeps) depth 20
