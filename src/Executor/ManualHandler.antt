-- ===== src/Executor/ManualHandler.antt =====
-- `ManualActionHandler` of crates/reforge-restore/src/manual_actions.rs, the handler of manual actions
-- and reboots, for the executor. The uuid library's parser of run identifiers, which yields their
-- canonical text, and the serializer of the results are parameters.
use windows_component_harnes.Prelude.{
  Bool, true, false, ◌&&◌, Option, none, some, [], if◌then◌else◌,
}
use windows_component_harnes.Prelude.Order.{◌==◌}
use windows_component_harnes.Prelude.Text.{Text, codes, text_ord}
use windows_component_harnes.Domain.Error.{Result, ok, err, coded_error, operation_failed}
use windows_component_harnes.Domain.Ids.{strip_prefix, rsplit_once}
use windows_component_harnes.Domain.Kinds.{ManualActionState, OperationState}
use windows_component_harnes.Domain.Operation.{ManualAction, Operation, OperationKind, RunId}
use windows_component_harnes.Journal.Tables.{JournalManualAction, JournalOperation}
use windows_component_harnes.Journal.Transitions.{fetch_operation}
use windows_component_harnes.Executor.Session.{
  OperationDisposition, OperationOutcome, OperationSatisfaction, Handler, Setting, Exec, give, read,
  ask_cancelled, ◌>>=◌,
}
use windows_component_harnes.Executor.Queue.{
  get_action, complete_action, normalize_manual_action, same_risk, same_texts,
}

-- the JSON that the handler builds
pub data HandlerDetail : Type 0 where
  was_cancelled reboot_required reboot_acknowledged : HandlerDetail
  action_in : Text → ManualActionState → HandlerDetail
  action_status : Text → HandlerDetail

abbrev pub operation_error : {A : Type 0} → Operation → Result A
operation_error operation =
    err (coded_error operation_failed (some operation.component) (some operation.id))

abbrev pub is_skipped_action : ManualActionState → Bool
is_skipped_action ManualActionState.skipped = true
is_skipped_action _ = false

abbrev pub waits_for_reboot : OperationState → Bool
waits_for_reboot OperationState.waiting_for_reboot = true
waits_for_reboot _ = false

abbrev pub or_operation_error : {A : Type 0} → Operation → Option A → Result A
or_operation_error operation none = operation_error operation
or_operation_error operation (some a) = ok a

module _ (parse_run_id : Text → Option RunId) where
  abbrev pub run_of : Operation → Option (Text × Text) → Result RunId
  run_of operation none = operation_error operation
  run_of operation (some (run, ordinal)) = or_operation_error operation (parse_run_id run)

  abbrev pub run_part : Operation → Option Text → Result RunId
  run_part operation none = operation_error operation
  run_part operation (some remainder) = run_of operation (rsplit_once remainder)

  unfoldable pub operation_run_id : Operation → Result RunId
  operation_run_id operation = run_part operation (strip_prefix (codes "op_") operation.id)

module _ {W : Type 0} (c : Setting W) (parse_run_id : Text → Option RunId)
    (detail_text : HandlerDetail → Text) where
  abbrev pub outcome_of : OperationDisposition → HandlerDetail → OperationOutcome
  outcome_of disposition detail = record {
    disposition = disposition;
    result = some (detail_text detail);
    evidence = [];
    backup = none;
  }

  abbrev pub same_display : JournalManualAction → ManualAction → Bool
  same_display persisted expected =
      persisted.title == expected.title
      && (persisted.reason == expected.reason
          && (same_risk persisted.risk expected.risk
              && same_texts persisted.instructions expected.instructions))

  abbrev pub display_checked :
      Operation → ManualAction → JournalManualAction → Result JournalManualAction
  display_checked operation expected persisted =
      if same_display persisted expected then ok persisted else operation_error operation

  unfoldable pub load_action : Operation → ManualAction → Exec W JournalManualAction
  load_action operation action = do
    expected ← normalize_manual_action c action
    run_id ← give (operation_run_id parse_run_id operation)
    found ← get_action c run_id expected.id
    persisted ← give (or_operation_error operation found)
    give (display_checked operation expected persisted)

  abbrev pub satisfied_by : JournalManualAction → OperationSatisfaction
  satisfied_by persisted =
      if is_skipped_action persisted.state
      then OperationSatisfaction.satisfied
          (some (detail_text (HandlerDetail.action_status persisted.id))) []
      else OperationSatisfaction.not_satisfied

  abbrev pub satisfied_after_reboot : JournalOperation → OperationSatisfaction
  satisfied_after_reboot persisted =
      if waits_for_reboot persisted.state
      then OperationSatisfaction.satisfied (some (detail_text HandlerDetail.reboot_acknowledged)) []
      else OperationSatisfaction.not_satisfied

  abbrev pub check_kind : Operation → OperationKind → Exec W OperationSatisfaction
  check_kind operation (OperationKind.open_manual_action action) =
      load_action operation action >>= λ persisted. give (ok (satisfied_by persisted))
  check_kind operation (OperationKind.require_reboot reason) = do
    run_id ← give (operation_run_id parse_run_id operation)
    found ← read (fetch_operation run_id operation.id)
    persisted ← give (or_operation_error operation found)
    give (ok (satisfied_after_reboot persisted))
  check_kind operation _ = give (operation_error operation)

  abbrev pub act_on : Operation → JournalManualAction → ManualActionState → Exec W OperationOutcome
  act_on operation persisted ManualActionState.pending = give (
      ok (
        outcome_of OperationDisposition.waiting_for_user
          (HandlerDetail.action_in persisted.id ManualActionState.pending)))
  act_on operation persisted ManualActionState.acknowledged = do
    run_id ← give (operation_run_id parse_run_id operation)
    completed ← complete_action c run_id persisted.id
    give (
        ok (
          outcome_of OperationDisposition.completed
            (HandlerDetail.action_in completed.id completed.state)))
  act_on operation persisted ManualActionState.completed = give (
      ok (
        outcome_of OperationDisposition.completed
          (HandlerDetail.action_in persisted.id ManualActionState.completed)))
  act_on operation persisted ManualActionState.skipped = give (
      ok (
        outcome_of OperationDisposition.skipped
          (HandlerDetail.action_in persisted.id ManualActionState.skipped)))

  abbrev pub run_kind : Operation → OperationKind → Exec W OperationOutcome
  run_kind operation (OperationKind.open_manual_action action) =
      load_action operation action >>= λ persisted. act_on operation persisted persisted.state
  run_kind operation (OperationKind.require_reboot reason) =
      give (ok (outcome_of OperationDisposition.waiting_for_reboot HandlerDetail.reboot_required))
  run_kind operation _ = give (operation_error operation)

  abbrev pub handles_kind : OperationKind → Bool
  handles_kind (OperationKind.open_manual_action action) = true
  handles_kind (OperationKind.require_reboot reason) = true
  handles_kind _ = false

  abbrev pub cancelled_or : Exec W OperationOutcome → Bool → Exec W OperationOutcome
  cancelled_or run stopped =
      if stopped
      then give (ok (outcome_of OperationDisposition.cancelled HandlerDetail.was_cancelled))
      else run

  unfoldable pub manual_action_handler : Handler W
  manual_action_handler = record {
    handles = handles_kind;
    is_satisfied = λ operation. check_kind operation operation.kind;
    execute = λ operation. ask_cancelled c >>= cancelled_or (run_kind operation operation.kind);
  }
