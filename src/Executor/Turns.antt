-- ===== src/Executor/Turns.antt =====
-- `execute_with_progress` of crates/reforge-restore/src/executor.rs: the body of the loop, by the
-- branches that it takes, and the loop.
use windows_component_harnes.Prelude.{
  ℕ, Bool, true, false, not, ◌&&◌, ◌||◌, Option, none, some, List, [], ◌∷◌, any, ltb, if◌then◌else◌,
}
use windows_component_harnes.Prelude.OrdMap
use windows_component_harnes.Prelude.Text.{Text, codes, text_ord}
use windows_component_harnes.Domain.Error.{
  ErrorEnvelope, ok, operation_failed, schema_invalid, security_policy,
}
use windows_component_harnes.Domain.Kinds.{ManualActionState, OperationState, RunStatus}
use windows_component_harnes.Domain.Operation.{Operation, OperationKind, RestorePlan}
use windows_component_harnes.Journal.Tables.{JournalOperation}
use windows_component_harnes.Journal.Transitions.{is_pending}
use windows_component_harnes.Executor.Session.{
  either, OperationDisposition, OperationOutcome, OperationSatisfaction, ExecutionReport, Payload,
  Detail, Handler, Setting, Exec, ◌>>=◌, ◌>>◌, give, reject, read, or_fail, ask_cancelled,
  transition_operation, report_progress,
}
use windows_component_harnes.Executor.Queue.{
  complete_action, queue_blocked_operation_action, blocked_operation_action_state,
  is_open_manual_action, waits_for_user,
}
use windows_component_harnes.Executor.Checks.{
  is_finished, correlated_code_error, correlate_error, precondition_error, prerequisites_complete,
  has_waiting_for_user_prerequisite, approved_manual_actions, require_approved,
  precondition_satisfied, handler_for, validate_execution,
}
use windows_component_harnes.Executor.Run.{
  Loop, Turn, total_of, put_state, waiting, counted, rows, is_cancelled_code, is_interrupted_code,
  detail_of, disposition_reason, disposition_state, disposition_error, is_waiting, may_continue,
  fail, persist_failure, persist_blocked_retry, stop, stop_turn, cancelled_operation_turn, settle,
  start, run_verification, combine_backup, interrupted_turn,
}

module _ {W : Type 0} (c : Setting W) (plan : RestorePlan) where
  -- the last `match` on the disposition
  abbrev pub after_outcome : Operation → OperationDisposition → Loop → Exec W Turn
  after_outcome operation OperationDisposition.completed l = give (ok (Turn.goes_on l))
  after_outcome operation OperationDisposition.skipped l = give (ok (Turn.goes_on l))
  after_outcome operation OperationDisposition.waiting_for_user l =
      if not (may_continue operation.kind)
      then stop_turn c plan RunStatus.waiting_for_user
      else give (ok (Turn.goes_on (waiting l)))
  after_outcome operation OperationDisposition.waiting_for_reboot l =
      stop_turn c plan RunStatus.waiting_for_reboot
  after_outcome operation OperationDisposition.cancelled l = stop_turn c plan RunStatus.cancelled

  -- the manual action that a blocked operation leaves
  unfoldable pub queue_if_blocked :
      Operation → ℕ → Option Text → OperationOutcome → Exec W (Unit {0})
  queue_if_blocked operation attempt hook_backup outcome =
      if is_waiting outcome.disposition && not (is_open_manual_action operation.kind)
      then (or_fail (queue_blocked_operation_action c plan.run_id operation attempt outcome.result)
            (fail c plan operation hook_backup)
          >>= λ row. give (ok tt))
      else give (ok tt)

  unfoldable pub record_outcome :
      Operation → ℕ → Option Text → Loop → OperationOutcome → Exec W Turn
  record_outcome operation attempt hook_backup l outcome = do
    queue_if_blocked operation attempt hook_backup outcome
    let state = disposition_state outcome.disposition
    updated ←
        transition_operation c plan.run_id operation.id state
          (some (
            Payload.outcome_payload (detail_of outcome.result) outcome.evidence
              (disposition_reason outcome.disposition)))
          (disposition_error operation outcome.disposition)
          (combine_backup c plan hook_backup outcome.backup)
    let stored = put_state operation updated l
    let next = if is_finished state then counted stored else stored
    report_progress c operation state next.completed (total_of plan)
    after_outcome operation outcome.disposition next

  -- the error of a handler: a cancellation, an interruption, or a failure
  unfoldable pub handler_failed : Operation → Option Text → ErrorEnvelope → Exec W Turn
  handler_failed operation hook_backup given = do
    let error = correlate_error operation given
    stopped ← ask_cancelled c
    if stopped || is_cancelled_code error.code
        then cancelled_operation_turn c plan operation hook_backup
        else if is_interrupted_code error.code
        then interrupted_turn c plan operation hook_backup error
        else persist_failure c plan operation error hook_backup

  abbrev pub prepare_backup :
      Operation → Option (Operation → Exec W (Option Text)) → Exec W (Option Text)
  prepare_backup operation none = give (ok none)
  prepare_backup operation (some hook) = or_fail (hook operation) (fail c plan operation none)

  -- from `mark_operation_running` on
  unfoldable pub run_handler : Operation → Handler W → Loop → Exec W Turn
  run_handler operation handler before = do
    started ← start c plan operation before
    let (running, l) = started
    hook_backup ← prepare_backup operation c.backup_hook
    stopped ← ask_cancelled c
    if stopped
        then cancelled_operation_turn c plan operation hook_backup
        else either (handler.execute operation) (handler_failed operation hook_backup)
            (record_outcome operation running.attempt hook_backup l)

  abbrev pub satisfied_or_run : Operation → Handler W → Loop → OperationSatisfaction → Exec W Turn
  satisfied_or_run operation handler l OperationSatisfaction.not_satisfied =
      run_handler operation handler l
  satisfied_or_run operation handler l (OperationSatisfaction.satisfied result evidence) =
      settle c plan operation OperationState.skipped
        (some (
          Payload.outcome_payload (detail_of result) evidence
            (some (codes "SKIPPED_ALREADY_SATISFIED"))))
        l

  -- the branch of the operations that have a handler
  unfoldable pub handle_operation : Operation → Loop → Exec W Turn
  handle_operation operation l = do
    handler ← or_fail (give (handler_for c operation.kind)) (fail c plan operation none)
    satisfaction ← or_fail (handler.is_satisfied operation) (fail c plan operation none)
    stopped ← ask_cancelled c
    if stopped
        then stop_turn c plan RunStatus.cancelled
        else satisfied_or_run operation handler l satisfaction

  abbrev pub is_verify : OperationKind → Bool
  is_verify (OperationKind.verify rule) = true
  is_verify _ = false

  abbrev pub complete_blocker : Operation → Option Text → Exec W (Unit {0})
  complete_blocker operation none = give (ok tt)
  complete_blocker operation (some id) =
      or_fail (complete_action c plan.run_id id >>= λ row. give (ok tt))
        (fail c plan operation none)

  -- from the test of the cancellation on, for an operation whose prerequisites are complete
  unfoldable pub attempt_operation : Operation → JournalOperation → Option Text → Loop → Exec W Turn
  attempt_operation operation persisted blocker l = do
    stopped ← ask_cancelled c
    let go_on = (do
      approved ← read (approved_manual_actions plan.run_id)
      let run = (do
        complete_blocker operation blocker
        if is_verify operation.kind
            then run_verification c plan operation l
            else handle_operation operation l)
      if not (precondition_satisfied c operation.precondition approved)
          then fail c plan operation none (precondition_error operation)
          else if operation.non_idempotent
              && (not (is_pending persisted.state) || ltb 0 persisted.attempt)
          then persist_blocked_retry c plan operation
              (correlated_code_error operation security_policy)
          else run)
    if stopped then stop_turn c plan RunStatus.cancelled else go_on

  unfoldable pub with_prerequisites :
      Operation → JournalOperation → Option Text → Loop → Exec W Turn
  with_prerequisites operation persisted blocker l =
      if not (prerequisites_complete operation l.states)
      then if has_waiting_for_user_prerequisite operation l.states
        then give (ok (Turn.goes_on (waiting l)))
        else fail c plan operation none (correlated_code_error operation operation_failed)
      else attempt_operation operation persisted blocker l

  -- the `match` on the state of the action of a blocked operation
  unfoldable pub by_blocker :
      Operation → JournalOperation → Loop → Option (Text × ManualActionState) → Exec W Turn
  by_blocker operation persisted l none = with_prerequisites operation persisted none l
  by_blocker operation persisted l (some (id, ManualActionState.pending)) =
      report_progress c operation OperationState.waiting_for_user l.completed (total_of plan)
      >> give (ok (Turn.goes_on (waiting l)))
  by_blocker operation persisted l (some (id, ManualActionState.skipped)) =
      settle c plan operation OperationState.skipped
        (some (
          Payload.outcome_payload (Detail.manual_action_skipped id) []
            (some (codes "SKIPPED_BY_USER"))))
        l
  by_blocker operation persisted l (some (id, ManualActionState.acknowledged)) =
      with_prerequisites operation persisted (some id) l
  by_blocker operation persisted l (some (id, ManualActionState.completed)) =
      with_prerequisites operation persisted none l

  -- the body of the loop
  unfoldable pub execute_operation : Operation → Loop → Exec W Turn
  execute_operation operation l = elim (OrdMap.get operation.id l.states) [
    | none ↦ reject (correlated_code_error operation schema_invalid)
    | some persisted ↦
        let next = counted l in
        if is_finished persisted.state
        then (report_progress c operation persisted.state next.completed (total_of plan)
            >> give (ok (Turn.goes_on next)))
        else (blocked_operation_action_state c plan.run_id operation persisted
            >>= by_blocker operation persisted l)
  ]

  abbrev pub final_status : Loop → RunStatus
  final_status l =
      if l.waiting_for_user
        || any (λ (o : JournalOperation). waits_for_user o.state) (rows l.states)
      then RunStatus.waiting_for_user
      else RunStatus.completed

  abbrev pub by_turn : (Loop → Exec W ExecutionReport) → Turn → Exec W ExecutionReport
  by_turn rest (Turn.returns r) = give (ok r)
  by_turn rest (Turn.goes_on next) = rest next

  unfoldable pub run_operations : List Operation → Loop → Exec W ExecutionReport
  run_operations [] l = stop c plan (final_status l)
  run_operations (operation ∷ rest) l =
      execute_operation operation l >>= by_turn (run_operations rest)

  unfoldable pub execute_with_progress : Exec W ExecutionReport
  execute_with_progress = do
    stored ← read (require_approved plan.run_id)
    give stored
    states ← validate_execution c plan
    run_operations plan.operations
        (record { states = states; waiting_for_user = false; completed = 0 })
