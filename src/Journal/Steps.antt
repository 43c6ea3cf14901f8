-- ===== src/Journal/Steps.antt =====
-- Sequences of transactions on a journal of crates/reforge-restore/src/journal.rs: approval, status,
-- operations, manual actions and recovery, which the writer thread runs one after another. The
-- creation of runs (`create_run`) and single events (`append_event`) are not among them.
use windows_component_harnes.Prelude.{ℕ, Bool, true, false, ◌≡◌, ◌≢◌, ◌⊎◌, inl, inr, Option, some}
use windows_component_harnes.Prelude.OrdMap
use windows_component_harnes.Prelude.Text.{Text, text_ord}
use windows_component_harnes.Domain.Error.{ok}
use windows_component_harnes.Domain.Kinds.{
  ManualActionState, RunStatus, ApprovalState, OperationState,
}
use windows_component_harnes.Domain.Operation.{ManualAction, RunId, OperationId}
use windows_component_harnes.Journal.Manual.{set_manual_action_state_record}
use windows_component_harnes.Journal.Adding.{
  add_manual_action_record, Redactor, add_manual_action_record-rest,
  set_manual_action_state_record-rest,
}
use windows_component_harnes.Journal.Tables.{
  JournalManualAction, JournalRun, JournalOperation, Journal,
}
use windows_component_harnes.Journal.Transitions.{
  is_completed, is_skipped, set_approval_record, set_run_status_record, transition_operation_record,
}
use windows_component_harnes.Journal.Recovery.{recover_running_operations}
use windows_component_harnes.Journal.Guarded.{IsGuarded}
use windows_component_harnes.Journal.Approval.{
  set_approval_record-IsGuarded, set_run_status_record-IsGuarded,
  transition_operation_record-IsGuarded, set_approval_record-operations,
  set_run_status_record-operations,
}
use windows_component_harnes.Journal.Lifecycle.{AllProceed, transition_operation_record-AllProceed}
use windows_component_harnes.Journal.Recovered.{recover_running_operations-stops}

-- One transaction that commits.
pub data Step (j next : Journal) : Type 0 where
  approval :
      (run_id : RunId) (state : ApprovalState) (now : ℕ) (row : JournalRun)
      → set_approval_record run_id state now j ≡ ok (next, row)
      → Step j next
  status :
      (run_id : RunId) (to : RunStatus) (now : ℕ) (row : JournalRun)
      → set_run_status_record run_id to now j ≡ ok (next, row)
      → Step j next
  operation :
      (run_id : RunId) (operation_id : OperationId) (state : OperationState)
      (result error backup : Option Text) (now : ℕ) (row : JournalOperation)
      → transition_operation_record run_id operation_id state result error backup now j
        ≡ ok (next, row)
      → Step j next
  recovery : (now : ℕ) → recover_running_operations now j ≡ next → Step j next
  action :
      (run_id : RunId) (action_id : Text) (state : ManualActionState) (now : ℕ)
      (row : JournalManualAction)
      → set_manual_action_state_record run_id action_id state now j ≡ ok (next, row)
      → Step j next
  added :
      (r : Redactor) (run_id : RunId) (new : ManualAction) (now : ℕ) (row : JournalManualAction)
      → add_manual_action_record r run_id new now j ≡ ok (next, row)
      → Step j next

pub data Steps : Journal → Journal → Type 0 where
  done : {j : Journal} → Steps j j
  more : {j middle next : Journal} → Step j middle → Steps middle next → Steps j next

recovery-IsGuarded : (now : ℕ) (j : Journal) → IsGuarded (recover_running_operations now j)
recovery-IsGuarded now j =
    let (runs, operations, kept) = recover_running_operations-stops now j in
    record {
      runs = λ k r g running. cc (runs k r g, running);
      operations = λ k o g running. absurd (not_both (operations k o g) running);
    }
  where
    not_both : {b : Bool} → b ≡ false → b ≢ true
    not_both p q = cc (p, q)

rest-IsGuarded :
    (j next : Journal)
    → (next.operations ≡ j.operations) × (next.runs ≡ j.runs)
    → IsGuarded j
    → IsGuarded next
rest-IsGuarded j next (o, r) g = record {
  runs = λ k run e. g.runs k run (rw r at e);
  operations = λ k op e. rw r (g.operations k op (rw o at e));
}

Step-IsGuarded : (j next : Journal) → IsGuarded j → Step j next → IsGuarded next
Step-IsGuarded j next g (Step.approval run_id state now row h) =
    set_approval_record-IsGuarded run_id state now j next row g h
Step-IsGuarded j next g (Step.status run_id to now row h) =
    set_run_status_record-IsGuarded run_id to now j next row g h
Step-IsGuarded j next g (Step.operation run_id operation_id state result error backup now row h) =
    transition_operation_record-IsGuarded run_id operation_id state result error backup now j next
      row g h
Step-IsGuarded j next g (Step.recovery now h) = rw (← h) (recovery-IsGuarded now j)
Step-IsGuarded j next g (Step.action run_id action_id state now row h) =
    rest-IsGuarded j next
      (set_manual_action_state_record-rest run_id action_id state now j next row h) g
Step-IsGuarded j next g (Step.added r run_id new now row h) =
    rest-IsGuarded j next (add_manual_action_record-rest r run_id new now j next row h) g

-- Along every sequence of transactions from a guarded journal, whatever runs belongs to an approved
-- run.
pub Steps-IsGuarded : (j next : Journal) → IsGuarded j → Steps j next → IsGuarded next
Steps-IsGuarded j next g Steps.done = g
Steps-IsGuarded j next g (Steps.more {middle = middle} s rest) =
    Steps-IsGuarded middle next (Step-IsGuarded j middle g s) rest

kept :
    (j next : Journal) (k : OperationId) (o : JournalOperation)
    → AllProceed j.operations next.operations
    → OrdMap.get k j.operations ≡ some o
    → (is_completed o.state ≡ true) ⊎ (is_skipped o.state ≡ true)
    → OrdMap.get k next.operations ≡ some o
unfolding AllProceed
kept j next k o a g finished =
    let (o', g', p) = a k o g in
    elim finished [ inl c ↦ rw (p.completed c) at g' | inr s ↦ rw (p.skipped s) at g' ]

Step-finished :
    (j next : Journal) (k : OperationId) (o : JournalOperation)
    → Step j next
    → OrdMap.get k j.operations ≡ some o
    → (is_completed o.state ≡ true) ⊎ (is_skipped o.state ≡ true)
    → OrdMap.get k next.operations ≡ some o
Step-finished j next k o (Step.approval run_id state now row h) g finished =
    rw (set_approval_record-operations run_id state now j next row h) g
Step-finished j next k o (Step.status run_id to now row h) g finished =
    rw (set_run_status_record-operations run_id to now j next row h) g
Step-finished j next k o (Step.operation run_id operation_id state result error backup now row h) g
      finished =
    kept j next k o
      (transition_operation_record-AllProceed run_id operation_id state result error backup now j
        next row h)
      g finished
Step-finished j next k o (Step.recovery now h) g finished =
    kept j next k o (rw (← h) (recover_running_operations-stops now j).2) g finished
Step-finished j next k o (Step.action run_id action_id state now row h) g finished =
    rw (set_manual_action_state_record-rest run_id action_id state now j next row h).0 g
Step-finished j next k o (Step.added r run_id new now row h) g finished =
    rw (add_manual_action_record-rest r run_id new now j next row h).0 g

-- Along every sequence of transactions, an operation that is completed or skipped keeps its row.
pub Steps-finished :
    (j next : Journal) (k : OperationId) (o : JournalOperation)
    → Steps j next
    → OrdMap.get k j.operations ≡ some o
    → (is_completed o.state ≡ true) ⊎ (is_skipped o.state ≡ true)
    → OrdMap.get k next.operations ≡ some o
Steps-finished j next k o Steps.done g finished = g
Steps-finished j next k o (Steps.more {middle = middle} s rest) g finished =
    Steps-finished middle next k o rest (Step-finished j middle k o s g finished) finished

pub Steps-trans : (i j k : Journal) → Steps i j → Steps j k → Steps i k
Steps-trans i j k Steps.done t = t
Steps-trans i j k (Steps.more {middle = middle} s rest) t =
    Steps.more s (Steps-trans middle j k rest t)
