-- ===== src/Journal/Samples.antt =====
-- A journal of crates/reforge-restore/src/journal.rs with one run and two operations, one of them
-- completed. The run is approved and the other operation starts; then the journal is recovered.
use windows_component_harnes.Prelude.{
  ℕ, Bool, true, false, not, all, arith, ◌≡◌, ◌≢◌, refl, inl, none, some, [], ◌∷◌,
}
use windows_component_harnes.Prelude.OrdMap
use windows_component_harnes.Prelude.Text.{Text, codes, text_ord}
use windows_component_harnes.Domain.Error.{
  ok, err, default_retryability, coded_error, security_policy,
}
use windows_component_harnes.Domain.Kinds.{
  RiskLevel, ManualActionState, RestoreMode, RunStatus, ApprovalState, OperationState,
}
use windows_component_harnes.Domain.Operation.{OperationKind, Precondition}
use windows_component_harnes.Journal.Tables.{
  Runs, Operations, JournalManualAction, JournalRun, JournalOperation, Journal, EventBody,
  EventLevel, insert_event,
}
use windows_component_harnes.Journal.Transitions.{
  is_running, is_running_run, valid_approval_transition, set_approval_record, set_run_status_record,
  commit_run, transition_operation_record, make_transition, write_operation, changed_operation,
  started_run,
}
use windows_component_harnes.Journal.Recovery.{recover_running_operations}
use windows_component_harnes.Journal.Guarded.{IsGuarded}
use windows_component_harnes.Journal.Lifecycle.{AllProceed, transition_operation_record-AllProceed}
use windows_component_harnes.Journal.Recovered.{
  NoneRuns, NoneRunning, recover_running_operations-stops,
}
use windows_component_harnes.Journal.Manual.{
  set_manual_action_state_record, changed_action, valid_manual_action_transition, Advances,
  set_manual_action_state_record-Advances,
}
use windows_component_harnes.Journal.Steps.{Step, Steps, Steps-IsGuarded, Steps-finished}

abbrev the_run : Text
the_run = codes "run-1"

abbrev pending_run : JournalRun
pending_run = record {
  id = the_run;
  package_id = codes "package";
  mode = RestoreMode.rebuild;
  target_fingerprint = codes "target";
  status = RunStatus.planned;
  approval_state = ApprovalState.pending;
  approved_at = none;
  created_at = 1;
  updated_at = 1;
}

abbrev operation_in : Text → OperationState → ℕ → JournalOperation
operation_in id state attempt = record {
  id = id;
  run_id = the_run;
  operation = record {
    id = id;
    component = codes "tool";
    kind = OperationKind.require_reboot (codes "driver");
    prerequisites = [];
    precondition = Precondition.always;
    idempotency_key = id;
    verification = [];
    requires_elevation = false;
    non_idempotent = false;
  };
  state = state;
  attempt = attempt;
  started_at = none;
  ended_at = none;
  result = none;
  error = none;
  backup = none;
}

abbrev op_1 : Text
op_1 = codes "op-1"

abbrev op_2 : Text
op_2 = codes "op-2"

abbrev finished_operation : JournalOperation
finished_operation = operation_in op_1 OperationState.completed 1

abbrev new_journal : Journal
new_journal = record {
  runs = (the_run, pending_run) ∷ [];
  operations = (op_1, finished_operation) ∷ (op_2, operation_in op_2 OperationState.pending 0) ∷ [];
  events = [];
  manual_actions = [];
  last_seq = 0;
}

abbrev approved_run : JournalRun
approved_run = record pending_run {
  approval_state = ApprovalState.approved;
  approved_at = some 2;
  updated_at = 2;
}

abbrev approved_journal : Journal
unfolding insert_event
approved_journal =
    insert_event the_run EventLevel.info (EventBody.approval_changed ApprovalState.approved) 2
      (record new_journal { runs = (the_run, approved_run) ∷ [] })

approves :
    set_approval_record the_run ApprovalState.approved 2 new_journal
    ≡ ok (approved_journal, approved_run)
unfolding set_approval_record commit_run insert_event valid_approval_transition OrdMap.get
    OrdMap.insert
approves = refl

abbrev started_operation : JournalOperation
started_operation = record (operation_in op_2 OperationState.running 1) { started_at = some 3 }

abbrev started_journal : Journal
unfolding insert_event
started_journal =
    insert_event the_run EventLevel.info (EventBody.operation_changed op_2 OperationState.running 1)
      3
      (record approved_journal {
        runs = (the_run, record approved_run { status = RunStatus.running; updated_at = 3 }) ∷ [];
        operations = (op_1, finished_operation) ∷ (op_2, started_operation) ∷ [];
      })

starts :
    transition_operation_record the_run op_2 OperationState.running none none none 3
      approved_journal
    ≡ ok (started_journal, started_operation)
unfolding transition_operation_record make_transition write_operation changed_operation started_run
    insert_event OrdMap.get OrdMap.insert
starts = refl

-- Without an approval, the operation is refused.
refuses :
    transition_operation_record the_run op_2 OperationState.running none none none 3 new_journal
    ≡ err (coded_error security_policy none none)
unfolding transition_operation_record default_retryability OrdMap.get
refuses = refl

runs_status :
    set_run_status_record the_run RunStatus.running 3 approved_journal
    ≡ ok (
      insert_event the_run EventLevel.info
          (EventBody.run_status RunStatus.running)
          3
          (record approved_journal {
            runs =
                (the_run, record approved_run { status = RunStatus.running; updated_at = 3 }) ∷ [];
          }),
      record approved_run { status = RunStatus.running; updated_at = 3 },
    )
unfolding set_run_status_record commit_run insert_event OrdMap.get OrdMap.insert
runs_status = refl

idle_runs :
    (m : Runs) (k : Text) (r : JournalRun)
    → all (λ e. not (is_running_run e.1.status)) m ≡ true
    → OrdMap.get k m ≡ some r
    → is_running_run r.status ≡ false
unfolding OrdMap.get
idle_runs [] k r h g = cc
idle_runs ((i, v) ∷ m) k r h g = ground (arith, idle_runs m k r)

idle_operations :
    (m : Operations) (k : Text) (o : JournalOperation)
    → all (λ e. not (is_running e.1.state)) m ≡ true
    → OrdMap.get k m ≡ some o
    → is_running o.state ≡ false
unfolding OrdMap.get
idle_operations [] k o h g = cc
idle_operations ((i, v) ∷ m) k o h g = ground (arith, idle_operations m k o)

not_both : {b : Bool} → b ≡ false → b ≢ true
not_both p q = cc (p, q)

new_journal-IsGuarded : IsGuarded new_journal
new_journal-IsGuarded = record {
  runs = λ k r g running. absurd (not_both (idle_runs new_journal.runs k r refl g) running);
  operations = λ k o g running.
      absurd (not_both (idle_operations new_journal.operations k o refl g) running);
}

start-Steps : Steps new_journal started_journal
start-Steps = Steps.more (Step.approval the_run ApprovalState.approved 2 approved_run approves) (
    Steps.more
      (Step.operation the_run op_2 OperationState.running none none none 3 started_operation starts)
      Steps.done)

Steps-IsGuarded_example : IsGuarded started_journal
Steps-IsGuarded_example =
    Steps-IsGuarded new_journal started_journal new_journal-IsGuarded start-Steps

first-completed : OrdMap.get op_1 new_journal.operations ≡ some finished_operation
unfolding OrdMap.get
first-completed = refl

Steps-finished_example : OrdMap.get op_1 started_journal.operations ≡ some finished_operation
Steps-finished_example =
    Steps-finished new_journal started_journal op_1 finished_operation start-Steps first-completed
      (inl refl)

transition_operation_record-AllProceed_example :
    AllProceed approved_journal.operations started_journal.operations
transition_operation_record-AllProceed_example =
    transition_operation_record-AllProceed the_run op_2 OperationState.running none none none 3
      approved_journal started_journal started_operation starts

recover_running_operations-stops_example :
    NoneRuns (recover_running_operations 4 started_journal).runs
    × NoneRunning (recover_running_operations 4 started_journal).operations
    × AllProceed started_journal.operations
        (recover_running_operations 4 started_journal).operations
recover_running_operations-stops_example = recover_running_operations-stops 4 started_journal

abbrev the_action : Text
the_action = codes "sign-in"

abbrev waiting_action : JournalManualAction
waiting_action = record {
  id = the_action;
  run_id = the_run;
  state = ManualActionState.pending;
  title = codes "Sign in";
  reason = codes "account";
  risk = RiskLevel.low;
  instructions = [];
  acknowledged_at = none;
}

abbrev acknowledged_action : JournalManualAction
acknowledged_action = record waiting_action {
  state = ManualActionState.acknowledged;
  acknowledged_at = some 5;
}

abbrev waiting_journal : Journal
waiting_journal = record new_journal { manual_actions = (the_action, waiting_action) ∷ [] }

abbrev acknowledged_journal : Journal
acknowledged_journal = record waiting_journal {
  manual_actions = (the_action, acknowledged_action) ∷ [];
  events =
      record {
        seq = 1;
        run_id = the_run;
        time = 5;
        level = EventLevel.info;
        event = EventBody.manual_action_changed the_action ManualActionState.acknowledged;
      }
      ∷ [];
  last_seq = 1;
}

acknowledges :
    set_manual_action_state_record the_run the_action ManualActionState.acknowledged 5
      waiting_journal
    ≡ ok (acknowledged_journal, acknowledged_action)
unfolding set_manual_action_state_record changed_action valid_manual_action_transition insert_event
    OrdMap.get OrdMap.insert
acknowledges = refl

action-found : OrdMap.get the_action waiting_journal.manual_actions ≡ some waiting_action
unfolding OrdMap.get
action-found = refl

set_manual_action_state_record-Advances_example :
    (a : JournalManualAction) × (OrdMap.get the_action acknowledged_journal.manual_actions ≡ some a)
    × Advances waiting_action a
set_manual_action_state_record-Advances_example =
    set_manual_action_state_record-Advances the_run the_action ManualActionState.acknowledged 5
      waiting_journal acknowledged_journal acknowledged_action acknowledges the_action
      waiting_action action-found
