-- ===== src/Executor/Run.antt =====
-- `execute_with_progress` of crates/reforge-restore/src/executor.rs: the loop over the operations of an
-- approved plan.
use windows_component_harnes.Prelude.{
  ℕ, ◌+◌, ◌-◌, ◌^◌, Bool, true, false, Option, none, some, List, [], ◌∷◌, length, ltb,
  if◌then◌else◌,
}
use windows_component_harnes.Prelude.Order.{◌==◌}
use windows_component_harnes.Prelude.OrdMap
use windows_component_harnes.Prelude.Text.{Text, codes, text_ord}
use windows_component_harnes.Domain.Error.{
  ErrorEnvelope, ReforgeErrorCode, Result, ok, err, stuck, interrupted, cancelled, operation_failed,
  reboot_required,
}
use windows_component_harnes.Domain.Kinds.{OperationState, RunStatus}
use windows_component_harnes.Domain.Operation.{Operation, OperationKind, RestorePlan}
use windows_component_harnes.Journal.Tables.{JournalOperation, JournalRun}
use windows_component_harnes.Executor.Session.{
  OperationDisposition, ExecutionReport, Detail, Payload, Setting, Exec, ◌>>=◌, ◌>>◌, give, reject,
  read, or_fail, ask_cancelled, transition_operation, mark_operation_running, set_run_status,
  report_progress,
}
use windows_component_harnes.Executor.Checks.{
  States, correlated_code_error, correlate_error, list_operations,
}

-- the variables that the loop changes
pub record Loop : Type 0 where
  pub states : States
  pub waiting_for_user : Bool
  pub completed : ℕ

-- what the body of the loop does: `continue`, or `return`
pub data Turn : Type 0 where
  goes_on : Loop → Turn
  returns : ExecutionReport → Turn

abbrev pub u64_max : ℕ
u64_max = 2 ^ 64 - 1

-- `saturating_add(1)` on a `u64`
abbrev pub one_more : ℕ → ℕ
one_more n = if ltb n u64_max then n + 1 else u64_max

abbrev pub total_of : RestorePlan → ℕ
total_of plan = if ltb (length plan.operations) (2 ^ 64) then length plan.operations else u64_max

abbrev pub put_state : Operation → JournalOperation → Loop → Loop
put_state operation row l = record l { states = OrdMap.insert operation.id row l.states }

abbrev pub waiting : Loop → Loop
waiting l = record l { waiting_for_user = true }

abbrev pub counted : Loop → Loop
counted l = record l { completed = one_more l.completed }

abbrev pub find_row : Text → States → Option JournalOperation
find_row id [] = none
find_row id ((k, o) ∷ m) = if o.id == id then some o else find_row id m

abbrev pub rows : States → List JournalOperation
rows [] = []
rows ((k, o) ∷ m) = o ∷ rows m

abbrev pub is_cancelled_code : ReforgeErrorCode → Bool
is_cancelled_code cancelled = true
is_cancelled_code _ = false

abbrev pub is_interrupted_code : ReforgeErrorCode → Bool
is_interrupted_code interrupted = true
is_interrupted_code _ = false

abbrev pub is_interrupted_run : RunStatus → Bool
is_interrupted_run RunStatus.interrupted = true
is_interrupted_run _ = false

abbrev pub detail_of : Option Text → Detail
detail_of none = Detail.null
detail_of (some t) = Detail.value t

abbrev pub disposition_reason : OperationDisposition → Option Text
disposition_reason OperationDisposition.completed = none
disposition_reason OperationDisposition.skipped = some (codes "SKIPPED_BY_HANDLER")
disposition_reason OperationDisposition.waiting_for_user = some (codes "WAITING_FOR_USER")
disposition_reason OperationDisposition.waiting_for_reboot = some (codes "WAITING_FOR_REBOOT")
disposition_reason OperationDisposition.cancelled = some (codes "CANCELLED")

abbrev pub disposition_state : OperationDisposition → OperationState
disposition_state OperationDisposition.completed = OperationState.completed
disposition_state OperationDisposition.skipped = OperationState.skipped
disposition_state OperationDisposition.waiting_for_user = OperationState.waiting_for_user
disposition_state OperationDisposition.waiting_for_reboot = OperationState.waiting_for_reboot
disposition_state OperationDisposition.cancelled = OperationState.cancelled

abbrev pub disposition_error : Operation → OperationDisposition → Option ErrorEnvelope
disposition_error operation OperationDisposition.waiting_for_reboot =
    some (correlated_code_error operation reboot_required)
disposition_error operation OperationDisposition.cancelled =
    some (correlated_code_error operation cancelled)
disposition_error operation _ = none

abbrev pub is_waiting : OperationDisposition → Bool
is_waiting OperationDisposition.waiting_for_user = true
is_waiting _ = false

-- whether the run goes on behind an operation that waits for the user
abbrev pub may_continue : OperationKind → Bool
may_continue (OperationKind.open_manual_action action) = action.independent_operations_may_continue
may_continue _ = true

module _ {W : Type 0} (c : Setting W) (plan : RestorePlan) where
  unfoldable pub persist_failure : {A : Type 0} → Operation → ErrorEnvelope → Option Text → Exec W A
  persist_failure operation error backup = do
    let correlated = correlate_error operation error
    failed ←
        transition_operation c plan.run_id operation.id OperationState.failed none (some correlated)
          backup
    run ← set_run_status c plan.run_id RunStatus.failed
    reject correlated

  unfoldable pub persist_blocked_retry : {A : Type 0} → Operation → ErrorEnvelope → Exec W A
  persist_blocked_retry operation error = do
    let correlated = correlate_error operation error
    failed ←
        transition_operation c plan.run_id operation.id OperationState.failed
          (some Payload.blocked_retry) (some correlated) none
    run ← set_run_status c plan.run_id RunStatus.waiting_for_user
    reject correlated

  abbrev pub fail : {A : Type 0} → Operation → Option Text → ErrorEnvelope → Exec W A
  fail operation backup error = persist_failure operation error backup

  unfoldable pub report : RunStatus → Exec W ExecutionReport
  report status = read λ j. record {
    run_id = plan.run_id;
    status = status;
    operations = list_operations plan.run_id j;
  }

  -- `set_run_status` and the report with the status of the row
  unfoldable pub stop : RunStatus → Exec W ExecutionReport
  stop status = set_run_status c plan.run_id status >>= λ (run : JournalRun). report run.status

  unfoldable pub stop_turn : RunStatus → Exec W Turn
  stop_turn status = stop status >>= λ r. give (ok (Turn.returns r))

  unfoldable pub cancelled_operation_turn : Operation → Option Text → Exec W Turn
  cancelled_operation_turn operation backup = do
    updated ←
        transition_operation c plan.run_id operation.id OperationState.cancelled
          (some (Payload.outcome_payload Detail.cancelled_reason [] (some (codes "CANCELLED"))))
          (some (correlated_code_error operation cancelled)) backup
    stop_turn RunStatus.cancelled

  -- an operation that is completed or skipped, with its progress
  unfoldable pub settle : Operation → OperationState → Option Payload → Loop → Exec W Turn
  settle operation state payload l = do
    updated ← transition_operation c plan.run_id operation.id state payload none none
    let next = counted (put_state operation updated l)
    report_progress c operation state next.completed (total_of plan)
    give (ok (Turn.goes_on next))

  unfoldable pub start : Operation → Loop → Exec W (JournalOperation × Loop)
  start operation l = do
    running ← or_fail (mark_operation_running c plan.run_id operation.id) (fail operation none)
    report_progress c operation OperationState.running l.completed (total_of plan)
    give (ok (running, put_state operation running l))

  abbrev pub proven : Operation → Option Text → Result Text
  proven operation none = err (correlated_code_error operation operation_failed)
  proven operation (some proof) = ok proof

  abbrev pub expect_row : Option JournalOperation → Result JournalOperation
  expect_row none = stuck
  expect_row (some o) = ok o

  -- the branch of `OperationKind::Verify`
  unfoldable pub run_verification : Operation → Loop → Exec W Turn
  run_verification operation before = do
    started ← start operation before
    let l = started.1
    stopped ← ask_cancelled c
    let prove = (do
      row ← give (expect_row (find_row operation.id l.states))
      answer ←
          or_fail (give (c.operation_verification_proof row (rows l.states))) (fail operation none)
      proof ← or_fail (give (proven operation answer)) (fail operation none)
      settle operation OperationState.completed
          (some (Payload.outcome_payload (Detail.verification_checked proof) [] none)) l)
    if stopped then cancelled_operation_turn operation none else prove

  abbrev pub combine_backup : Option Text → Option Text → Option Text
  combine_backup none none = none
  combine_backup (some a) none = some a
  combine_backup none (some b) = some b
  combine_backup (some a) (some b) = some (c.both_backups a b)

  unfoldable pub interrupted_turn : Operation → Option Text → ErrorEnvelope → Exec W Turn
  interrupted_turn operation backup error = do
    updated ←
        transition_operation c plan.run_id operation.id OperationState.interrupted none (some error)
          backup
    run ← set_run_status c plan.run_id RunStatus.interrupted
    reject (
        if is_interrupted_run run.status
        then error
        else correlated_code_error operation interrupted)
