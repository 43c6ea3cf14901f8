-- ===== src/Executor/Moves.antt =====
-- What an execution of crates/reforge-restore/src/executor.rs may do to the journal, as a step relation.
-- Of the executor's own moves only `starts` lets an operation run, and it asks for the prerequisites;
-- what handlers may do is a parameter, a `Charge`.
use windows_component_harnes.Prelude.{ℕ, true, false, ◌≡◌, ◌⊎◌, Option, none, some, In, arith}
use windows_component_harnes.Prelude.OrdMap
use windows_component_harnes.Prelude.Text.{Text, text_ord}
use windows_component_harnes.Domain.Error.{ok}
use windows_component_harnes.Domain.Kinds.{ManualActionState, OperationState, RunStatus}
use windows_component_harnes.Domain.Operation.{ManualAction, Operation, OperationId, RestorePlan}
use windows_component_harnes.Journal.Tables.{
  Journal, JournalManualAction, JournalOperation, JournalRun,
}
use windows_component_harnes.Journal.Transitions.{
  is_completed, is_running, is_running_run, is_skipped, set_run_status_record,
  transition_operation_record,
}
use windows_component_harnes.Journal.Manual.{set_manual_action_state_record}
use windows_component_harnes.Journal.Adding.{Redactor, add_manual_action_record}
use windows_component_harnes.Journal.Steps.{Step, Steps, Steps-finished, Steps-trans}
use windows_component_harnes.Executor.Checks.{is_finished}
use windows_component_harnes.Executor.Outside.{Touch, Touches, Touches-Steps, Touches-trans}

-- An operation is completed or skipped in the journal.
abbrev pub IsFinished : OperationId → Journal → Type 0
IsFinished id j =
    (row : JournalOperation) × (OrdMap.get id j.operations ≡ some row)
    × (is_finished row.state ≡ true)

-- What handlers are trusted to do to the journal, made of its transactions.
pub record Charge : Type 1 where
  pub May : Journal → Journal → Type 0
  pub may_steps : (j next : Journal) → May j next → Steps j next

pub data Move ⦃charge : Charge⦄ (plan : RestorePlan) (j next : Journal) : Type 0 where
  starts :
      (op : Operation) (now : ℕ) (row : JournalOperation)
      → In op plan.operations
      → ((p : OperationId) → In p op.prerequisites → IsFinished p j)
      → transition_operation_record plan.run_id op.id OperationState.running none none none now j
        ≡ ok (next, row)
      → Move plan j next
  settles :
      (op : Operation) (state : OperationState) (result error backup : Option Text) (now : ℕ)
      (row : JournalOperation)
      → In op plan.operations
      → is_running state ≡ false
      → transition_operation_record plan.run_id op.id state result error backup now j
        ≡ ok (next, row)
      → Move plan j next
  concludes :
      (status : RunStatus) (now : ℕ) (row : JournalRun)
      → is_running_run status ≡ false
      → set_run_status_record plan.run_id status now j ≡ ok (next, row)
      → Move plan j next
  completes :
      (id : Text) (now : ℕ) (row : JournalManualAction)
      → set_manual_action_state_record plan.run_id id ManualActionState.completed now j
        ≡ ok (next, row)
      → Move plan j next
  queues :
      (r : Redactor) (action : ManualAction) (now : ℕ) (row : JournalManualAction)
      → add_manual_action_record r plan.run_id action now j ≡ ok (next, row)
      → Move plan j next
  handles : charge.May j next → Move plan j next

pub data Moves ⦃charge : Charge⦄ (plan : RestorePlan) : Journal → Journal → Type 0 where
  stay : {j : Journal} → Moves plan j j
  move : {j middle next : Journal} → Move plan j middle → Moves plan middle next → Moves plan j next

pub Moves-trans :
    ⦃charge : Charge⦄ (plan : RestorePlan) (i j k : Journal)
    → Moves plan i j
    → Moves plan j k
    → Moves plan i k
Moves-trans plan i j k Moves.stay t = t
Moves-trans plan i j k (Moves.move {middle = middle} m rest) t =
    Moves.move m (Moves-trans plan middle j k rest t)

one : {j next : Journal} → Step j next → Steps j next
one s = Steps.more s Steps.done

Move-Steps :
    ⦃charge : Charge⦄ (plan : RestorePlan) (j next : Journal) → Move plan j next → Steps j next
Move-Steps plan j next (Move.starts op now row i p h) =
    one (Step.operation plan.run_id op.id OperationState.running none none none now row h)
Move-Steps plan j next (Move.settles op state result error backup now row i n h) =
    one (Step.operation plan.run_id op.id state result error backup now row h)
Move-Steps plan j next (Move.concludes status now row n h) =
    one (Step.status plan.run_id status now row h)
Move-Steps plan j next (Move.completes id now row h) =
    one (Step.action plan.run_id id ManualActionState.completed now row h)
Move-Steps plan j next (Move.queues r action now row h) =
    one (Step.added r plan.run_id action now row h)
Move-Steps ⦃charge⦄ plan j next (Move.handles t) = charge.may_steps j next t

-- Every move is made of transactions of the journal.
pub Moves-Steps :
    ⦃charge : Charge⦄ (plan : RestorePlan) (j next : Journal) → Moves plan j next → Steps j next
Moves-Steps plan j next Moves.stay = Steps.done
Moves-Steps plan j next (Moves.move {middle = middle} m rest) =
    Steps-trans j middle next (Move-Steps plan j middle m) (Moves-Steps plan middle next rest)

pub IsFinished-Moves :
    ⦃charge : Charge⦄ (plan : RestorePlan) (j next : Journal) (id : OperationId)
    → Moves plan j next
    → IsFinished id j
    → IsFinished id next
IsFinished-Moves plan j next id m (row, e, f) =
    (row, Steps-finished j next id row (Moves-Steps plan j next m) e (either_of row.state f), f)
  where
    either_of :
        (state : OperationState)
        → is_finished state ≡ true
        → (is_completed state ≡ true) ⊎ (is_skipped state ≡ true)
    either_of state f = ground (arith, f)

-- Handlers that may run transactions of every kind.
abbrev pub any_steps : Charge
any_steps = record { May = Steps; may_steps = λ j next s. s }

-- Handlers that leave the operations alone.
abbrev pub touches : Charge
touches = record { May = Touches; may_steps = Touches-Steps }

one_touch : {j next : Journal} → Touch j next → Touches j next
one_touch t = Touches.touch t Touches.none_left

Move-Touches :
    (plan : RestorePlan) (j next : Journal)
    → ((op : Operation) → In op plan.operations → ⊥)
    → Move ⦃charge = touches⦄ plan j next
    → Touches j next
Move-Touches plan j next no_operation (Move.starts op now row i p h) = absurd (no_operation op i)
Move-Touches plan j next no_operation (Move.settles op state result error backup now row i n h) =
    absurd (no_operation op i)
Move-Touches plan j next no_operation (Move.concludes status now row n h) =
    one_touch (Touch.run plan.run_id status now row n h)
Move-Touches plan j next no_operation (Move.completes id now row h) =
    one_touch (Touch.action plan.run_id id ManualActionState.completed now row h)
Move-Touches plan j next no_operation (Move.queues r action now row h) =
    one_touch (Touch.added r plan.run_id action now row h)
Move-Touches plan j next no_operation (Move.handles t) = t

-- The moves of a plan without operations leave the operations alone.
pub Moves-Touches :
    (plan : RestorePlan) (j next : Journal)
    → ((op : Operation) → In op plan.operations → ⊥)
    → Moves ⦃charge = touches⦄ plan j next
    → Touches j next
Moves-Touches plan j next no_operation Moves.stay = Touches.none_left
Moves-Touches plan j next no_operation (Moves.move {middle = middle} m rest) =
    Touches-trans j middle next (Move-Touches plan j middle no_operation m)
      (Moves-Touches plan middle next no_operation rest)
