-- ===== src/Executor/Samples.antt =====
-- An execution by crates/reforge-restore/src/executor.rs of a plan with one operation, in an approved
-- run, with a handler that completes it.
use windows_component_harnes.Prelude.{
  if◌then◌else◌, Option, arith, true, false, ◌≡◌, refl, ◌⊎◌, inl, inr, none, some, [], ◌∷◌,
}
use windows_component_harnes.Prelude.OrdMap
use windows_component_harnes.Prelude.Text.{Text, codes, text_ord}
use windows_component_harnes.Domain.Error.{ok}
use windows_component_harnes.Domain.Kinds.{ApprovalState, OperationState, RestoreMode, RunStatus}
use windows_component_harnes.Domain.Operation.{
  RunId, Operation, OperationKind, Precondition, RestorePlan,
}
use windows_component_harnes.Journal.Tables.{JournalOperation, JournalRun, insert_event}
use windows_component_harnes.Journal.Transitions.{
  changed_operation, commit_run, make_transition, set_run_status_record, started_run,
  transition_operation_record, write_operation,
}
use windows_component_harnes.Journal.Guarded.{IsGuarded}
use windows_component_harnes.Journal.Steps.{Steps}
use windows_component_harnes.Executor.Outside.{Touches}
use windows_component_harnes.Executor.Session.{
  OperationDisposition, OperationSatisfaction, ExecutionReport, Handler, Session, Setting,
  transition_operation, mark_operation_running, set_run_status,
}
use windows_component_harnes.Executor.Queue.{blocked_operation_action_state, list_manual_actions}
use windows_component_harnes.Executor.Checks.{
  acknowledged_ids, collect_states, handler_for, list_operations, precondition_satisfied,
  prerequisites_complete, require_approved, select_handler, validate_execution,
}
use windows_component_harnes.Executor.Run.{report, start, stop}
use windows_component_harnes.Executor.Turns.{
  attempt_operation, by_blocker, execute_operation, execute_with_progress, handle_operation,
  queue_if_blocked, record_outcome, run_handler, run_operations, with_prerequisites,
}
use windows_component_harnes.Executor.Moves.{any_steps, touches, IsFinished, Moves}
use windows_component_harnes.Executor.Branches.{IsWellBehaved}
use windows_component_harnes.Executor.Finishing.{IsKeyed}
use windows_component_harnes.Prelude.Order.{◌==◌}
use windows_component_harnes.Executor.ManualHandler.{HandlerDetail, manual_action_handler}
use windows_component_harnes.Executor.ManualKeeps.{manual_action_handler-IsWellBehaved}
use windows_component_harnes.Executor.Guarantees.{
  execute_with_progress-Moves, execute_with_progress-IsFinished, execute_with_progress-MayRun,
  execute_with_progress-StartsReady,
}
use windows_component_harnes.Executor.Starting.{IsReadyIn, NotStarted}
use windows_component_harnes.Executor.Entering.{IsRefused, MayRun}

abbrev pub World : Type 0
World = Unit {0}

abbrev pub run_1 : Text
run_1 = codes "r"

abbrev pub reboot : Operation
reboot = record {
  id = codes "op_r_0";
  component = codes "tool";
  kind = OperationKind.require_reboot (codes "driver");
  prerequisites = [];
  precondition = Precondition.always;
  idempotency_key = codes "key";
  verification = [];
  requires_elevation = false;
  non_idempotent = false;
}

abbrev plan_1 : RestorePlan
plan_1 = record {
  format_version = 1;
  run_id = run_1;
  package_id = codes "package";
  mode = RestoreMode.rebuild;
  target_fingerprint = codes "target";
  selected_components = [];
  operations = reboot ∷ [];
  conflicts = [];
  manual_actions = [];
  warnings = [];
}

abbrev completes_all : Handler World
completes_all = record {
  handles = λ kind. true;
  is_satisfied = λ op s. (ok OperationSatisfaction.not_satisfied, s);
  execute = λ op s. (
    ok (record {
      disposition = OperationDisposition.completed;
      result = none;
      evidence = [];
      backup = none;
    }),
    s,
  );
}

abbrev pub setting : Setting World
setting = record {
  now = λ w. (7, w);
  is_cancelled = λ w. (false, w);
  redactor = record { safe_text = λ t. ok t; safe_list = λ ts. ok [] };
  payload_text = λ p. ok [];
  error_text = λ e. ok [];
  blocker_reason = λ o. codes "blocked";
  both_backups = λ a b. a;
  handlers = completes_all ∷ [];
  backup_hook = none;
  target_fingerprint = codes "target";
  target_component_present = λ id. true;
  target_component_version = λ id. none;
  objects = [];
  same_operation = λ a b. true;
  validate_restore_plan = λ plan. ok tt;
  check_operation = λ row. ok tt;
  operation_verification_proof = λ row rows. ok none;
}

abbrev run_in : ApprovalState → JournalRun
run_in approval = record {
  id = run_1;
  package_id = codes "package";
  mode = RestoreMode.rebuild;
  target_fingerprint = codes "target";
  status = RunStatus.planned;
  approval_state = approval;
  approved_at = none;
  created_at = 1;
  updated_at = 1;
}

abbrev row_in : OperationState → JournalOperation
row_in state = record {
  id = codes "op_r_0";
  run_id = run_1;
  operation = reboot;
  state = state;
  attempt = 0;
  started_at = none;
  ended_at = none;
  result = none;
  error = none;
  backup = none;
}

abbrev session_in : ApprovalState → Session World
session_in approval = record {
  journal = record {
    runs = (run_1, run_in approval) ∷ [];
    operations = (codes "op_r_0", row_in OperationState.pending) ∷ [];
    events = [];
    manual_actions = [];
    last_seq = 0;
  };
  world = tt;
  progress = [];
}

abbrev pub approved : Session World
approved = session_in ApprovalState.approved

setting-IsWellBehaved : IsWellBehaved ⦃charge = touches⦄ setting
setting-IsWellBehaved = record {
  satisfied =
      λ h op s i. elim i [ inl e ↦ rw e Touches.none_left | inr none_left ↦ absurd none_left ];
  executed =
      λ h op s i. elim i [ inl e ↦ rw e Touches.none_left | inr none_left ↦ absurd none_left ];
  backed_up = λ hook op s e. cc (e);
}

setting-by_steps : IsWellBehaved ⦃charge = any_steps⦄ setting
setting-by_steps = record {
  satisfied = λ h op s i. elim i [ inl e ↦ rw e Steps.done | inr none_left ↦ absurd none_left ];
  executed = λ h op s i. elim i [ inl e ↦ rw e Steps.done | inr none_left ↦ absurd none_left ];
  backed_up = λ hook op s e. cc (e);
}

approved-IsKeyed : IsKeyed approved.journal
approved-IsKeyed = record { ascending = (tt, tt); keyed = (refl, tt) }

approved-IsGuarded : IsGuarded approved.journal
unfolding OrdMap.get
approved-IsGuarded = record {
  runs = λ k r e running. ground (arith, e);
  operations = λ k o e running. absurd (ground (arith, e, running));
}

abbrev done_report : ExecutionReport
done_report = record {
  run_id = run_1;
  status = RunStatus.completed;
  operations =
      record (row_in OperationState.completed) {
        attempt = 1;
        started_at = some 7;
        ended_at = some 7;
        result = some [];
      }
      ∷ [];
}

executed : (execute_with_progress setting plan_1 approved).0 ≡ ok done_report
unfolding execute_with_progress require_approved validate_execution list_operations collect_states
    run_operations execute_operation blocked_operation_action_state by_blocker with_prerequisites
    prerequisites_complete attempt_operation list_manual_actions acknowledged_ids
    precondition_satisfied handle_operation handler_for select_handler run_handler start
    mark_operation_running transition_operation transition_operation_record make_transition
    changed_operation write_operation insert_event started_run record_outcome queue_if_blocked stop
    set_run_status set_run_status_record commit_run report OrdMap.get OrdMap.insert
executed = refl

execute_with_progress-IsFinished_example :
    IsFinished (codes "op_r_0") (execute_with_progress setting plan_1 approved).1.journal
execute_with_progress-IsFinished_example =
    execute_with_progress-IsFinished setting plan_1 approved done_report reboot setting-by_steps
      approved-IsKeyed executed refl (inl refl)

first-found :
    OrdMap.get (codes "op_r_0") approved.journal.operations ≡ some (row_in OperationState.pending)
unfolding OrdMap.get
first-found = refl

execute_with_progress-StartsReady_example :
    (new : JournalOperation) × (OrdMap.get
        (codes "op_r_0")
        (execute_with_progress setting plan_1 approved).1.journal.operations
      ≡ some new)
    × (NotStarted (row_in OperationState.pending) new
        ⊎ (IsReadyIn plan_1
              (codes "op_r_0")
              (execute_with_progress setting plan_1 approved).1.journal
            × MayRun setting plan_1 approved.journal))
execute_with_progress-StartsReady_example =
    execute_with_progress-StartsReady setting plan_1 approved (codes "op_r_0")
      (row_in OperationState.pending) setting-IsWellBehaved approved-IsKeyed first-found

execute_with_progress-MayRun_example :
    IsRefused
      (session_in ApprovalState.pending)
      (execute_with_progress setting plan_1 (session_in ApprovalState.pending))
    ⊎ MayRun setting plan_1 (session_in ApprovalState.pending).journal
execute_with_progress-MayRun_example =
    execute_with_progress-MayRun setting plan_1 (session_in ApprovalState.pending)

abbrev pub no_detail : HandlerDetail → Text
no_detail detail = []

abbrev pub parse_run : Text → Option RunId
parse_run run = if run == run_1 then some run_1 else none

abbrev manual_setting : Setting World
manual_setting = record setting {
  handlers = manual_action_handler setting parse_run no_detail ∷ [];
}

manual_setting-IsWellBehaved : IsWellBehaved ⦃charge = touches⦄ manual_setting
manual_setting-IsWellBehaved =
    manual_action_handler-IsWellBehaved setting manual_setting parse_run no_detail refl refl

execute_with_progress-Moves_example :
    Moves ⦃charge = touches⦄ plan_1 approved.journal
      (execute_with_progress manual_setting plan_1 approved).1.journal
execute_with_progress-Moves_example =
    execute_with_progress-Moves manual_setting plan_1 approved manual_setting-IsWellBehaved
      approved-IsKeyed
