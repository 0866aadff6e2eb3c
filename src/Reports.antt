-- ===== src/Reports.antt =====
-- src/reports.rs: `platform.operation.reported.v1` rows, queued in the transaction of the state they
-- report.
use ratatoskr_channel_digest.Prelude.{
  ℕ, String, concat, Bool, not, ◌&&◌, Option, none, some, [], ◌∷◌, ◌++◌, ◌==◌, ltb, if◌then◌else◌,
  select,
}
use mathlib.Core.Option
use ratatoskr_channel_digest.Contracts.{OperationStatus, OperationReported, External}
use ratatoskr_channel_digest.Schema.{Db, Run, RunTrigger, trigger_eq, Outbox, Payload}
use ratatoskr_channel_digest.Storage.{
  Result, ok, err, M, pure, raise, lift, ◌>>=◌, and_then, fresh, execute, reading,
}
use ratatoskr_channel_digest.Statements.{new_outbox, insert_outbox_once}

abbrev pub report_subject : String
report_subject = "platform.operation.reported.v1"

abbrev pub result_kind : String
result_kind = "channel_digest.result"

pub data ReportError : Type 0 where
  invalid storage : ReportError

pub record OperationReportRow : Type 0 where
  pub operation_id : ℕ
  pub owner_id : ℕ
  pub causation : Option String
  pub report : OperationReported

-- `OperationReportRow::caused_by`
unfoldable pub caused_by : String → OperationReportRow → OperationReportRow
caused_by reference row = record row { causation = some reference }

module _ ⦃ext : External⦄ where
  -- `OperationReportRow::new`
  unfoldable pub new_report :
      ℕ → ℕ → OperationStatus → String → Result ReportError OperationReportRow
  new_report operation owner status stage =
      if ext.parses_stage stage
      then ok (record {
        operation_id = operation;
        owner_id = owner;
        causation = none;
        report = record {
          operation_id = operation;
          status = status;
          stage = stage;
          results = [];
          error = none;
          warnings = [];
        };
      })
      else err ReportError.invalid

  -- `OperationReportRow::with_result`
  unfoldable pub with_result : String → OperationReportRow → Result ReportError OperationReportRow
  with_result target row =
      if ext.parses_kind result_kind && ext.parses_entity target
      then ok (record row {
        report = record (row.report) {
          results = row.report.results ++ record { kind = result_kind; target = target } ∷ [];
        };
      })
      else err ReportError.invalid

  -- `OperationReportRow::with_error`
  unfoldable pub with_error :
      String → String → Bool → OperationReportRow → Result ReportError OperationReportRow
  with_error code message retryable row =
      if ext.parses_code code && ext.parses_message message
      then ok (record row {
        report = record (row.report) {
          error = some (record { code = code; message = message; retryable = retryable });
        };
      })
      else err ReportError.invalid

  -- `OperationReportRow::with_warning`
  unfoldable pub with_warning :
      String → String → OperationReportRow → Result ReportError OperationReportRow
  with_warning code message row =
      if ext.parses_code code && ext.parses_message message
      then ok (record row {
        report = record (row.report) {
          warnings = row.report.warnings ++ record { code = code; message = message } ∷ [];
        };
      })
      else err ReportError.invalid

  -- `operation:<id>:<status>`
  abbrev pub report_key : ℕ → OperationStatus → String
  report_key operation status =
      concat "operation:" (concat (ext.uuid_text operation) (concat ":" (ext.status_text status)))

  abbrev pub report_row : ℕ → OperationReportRow → ℕ → Outbox
  report_row id row =
      new_outbox id report_subject (report_key row.operation_id row.report.status) row.owner_id
        (some row.operation_id) row.causation (Payload.report row.report)

  -- `OperationReportRow::enqueue`
  unfoldable pub enqueue : OperationReportRow → M ReportError (Unit {0})
  enqueue row =
      if ext.report_valid row.report
      then (do id ← fresh; execute ReportError.storage (insert_outbox_once (report_row id row)))
      else raise ReportError.invalid

  -- `on_demand_operation`
  abbrev pub owned_by : ℕ → ℕ → Run → Bool
  owned_by run owner r =
      r.run_id == run && r.owner_id == owner && trigger_eq r.trigger RunTrigger.on_demand

  unfoldable pub on_demand_operation : ℕ → ℕ → M ReportError (Option ℕ)
  on_demand_operation run owner = execute ReportError.storage (
      reading
        (λ (d : Db). Option.map (λ (r : Run). r.operation_id) (select (owned_by run owner) d.runs)))

  warn_omitted : ℕ → OperationReportRow → Result ReportError OperationReportRow
  warn_omitted omitted row =
      if ltb 0 omitted
      then with_warning "channel_digest.context_omitted"
          "Some selected posts did not fit the recap context and were left out." row
      else ok row

  warn_incomplete : Bool → OperationReportRow → Result ReportError OperationReportRow
  warn_incomplete incomplete row =
      if incomplete
      then with_warning "channel_digest.acquisition_incomplete"
          "The digest does not cover every post of the window: some channels could not be read completely, or the window held more posts than one digest takes."
          row
      else ok row

  abbrev pub completion_status : ℕ → Bool → OperationStatus
  completion_status omitted incomplete =
      if omitted == 0 && not incomplete
      then OperationStatus.succeeded
      else OperationStatus.partially_succeeded

  -- The report of a settled completion, before it is queued.
  unfoldable pub completion_report :
      ℕ → ℕ → ℕ → String → ℕ → Bool → Result ReportError OperationReportRow
  unfolding warn_omitted warn_incomplete
  completion_report operation owner event result_ref omitted incomplete =
      and_then (new_report operation owner (completion_status omitted incomplete) "completed")
        λ row.
          and_then (with_result result_ref (caused_by (concat "event:" (ext.uuid_text event)) row))
            λ referred. and_then (warn_omitted omitted referred) (warn_incomplete incomplete)

  unfoldable pub queue_if_owned :
      Option ℕ → (ℕ → Result ReportError OperationReportRow) → M ReportError (Unit {0})
  queue_if_owned none build = pure tt
  queue_if_owned (some operation) build = do row ← lift (build operation); enqueue row

  -- `report_completion`
  unfoldable pub report_completion : ℕ → ℕ → ℕ → String → ℕ → Bool → M ReportError (Unit {0})
  unfolding queue_if_owned
  report_completion run owner event result_ref omitted incomplete = do
    owned ← on_demand_operation run owner
    queue_if_owned owned
        (λ operation. completion_report operation owner event result_ref omitted incomplete)

  -- The report of a recap failure, before it is queued.
  unfoldable pub recap_failure_report :
      ℕ → ℕ → ℕ → String → Bool → Result ReportError OperationReportRow
  recap_failure_report operation owner event class retryable =
      and_then (new_report operation owner OperationStatus.failed "recap") λ row.
        with_error (concat "channel_digest.recap." class) "The recap could not be produced."
          retryable (caused_by (concat "event:" (ext.uuid_text event)) row)

  -- `report_recap_failure`
  unfoldable pub report_recap_failure : ℕ → ℕ → ℕ → String → Bool → M ReportError (Unit {0})
  unfolding queue_if_owned
  report_recap_failure run owner event class retryable = do
    owned ← on_demand_operation run owner
    queue_if_owned owned (λ operation. recap_failure_report operation owner event class retryable)
