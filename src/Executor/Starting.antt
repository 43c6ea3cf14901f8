-- ===== src/Executor/Starting.antt =====
-- Which operations start along the moves of an execution of crates/reforge-restore/src/executor.rs.
use windows_component_harnes.Prelude.{
  false, not, ◌&&◌, arith, ◌≡◌, refl, sym, ◌∙◌, ◌⊎◌, inl, inr, some, In,
}
use windows_component_harnes.Prelude.OrdMap
use windows_component_harnes.Prelude.Text.{text_ord}
use windows_component_harnes.Domain.Kinds.{OperationState}
use windows_component_harnes.Domain.Operation.{Operation, OperationId, RestorePlan}
use windows_component_harnes.Journal.Tables.{Journal, JournalOperation}
use windows_component_harnes.Journal.Transitions.{is_running}
use windows_component_harnes.Journal.Approval.{set_run_status_record-operations}
use windows_component_harnes.Journal.Adding.{
  add_manual_action_record-rest, set_manual_action_state_record-rest,
}
use windows_component_harnes.Journal.Lifecycle.{transition_operation_record-row}
use windows_component_harnes.Executor.Outside.{Touches-operations}
use windows_component_harnes.Executor.Moves.{touches, IsFinished, Move, Moves, IsFinished-Moves}

-- The operation is one of the plan, and all its prerequisites are completed or skipped.
abbrev pub IsReadyIn : RestorePlan → OperationId → Journal → Type 0
IsReadyIn plan id j =
    (op : Operation) × In op plan.operations
    × (op.id ≡ id)
    × ((p : OperationId) → In p op.prerequisites → IsFinished p j)

-- No attempt was counted, and what runs ran before.
abbrev pub NotStarted : JournalOperation → JournalOperation → Type 0
NotStarted old new =
    (new.attempt ≡ old.attempt) × ((is_running new.state && not (is_running old.state)) ≡ false)

pub same-NotStarted : (o : JournalOperation) → NotStarted o o
same-NotStarted o = (refl, ground arith)

-- The row of an operation is still there, and has not started, unless the operation is ready.
abbrev pub StartsReady : RestorePlan → OperationId → JournalOperation → Journal → Type 0
StartsReady plan id old next =
    (new : JournalOperation) × (OrdMap.get id next.operations ≡ some new)
    × (NotStarted old new ⊎ IsReadyIn plan id next)

module _ (plan : RestorePlan) where
  IsReadyIn-Moves :
      (j next : Journal) (id : OperationId)
      → Moves ⦃charge = touches⦄ plan j next
      → IsReadyIn plan id j
      → IsReadyIn plan id next
  IsReadyIn-Moves j next id m (op, member, same, done) =
      (op, member, same, λ p i. IsFinished-Moves ⦃charge = touches⦄ plan j next p m (done p i))

  untouched :
      (j next : Journal) (id : OperationId) (old : JournalOperation)
      → next.operations ≡ j.operations
      → OrdMap.get id j.operations ≡ some old
      → StartsReady plan id old next
  untouched j next id old same found = (old, rw same found, inl (same-NotStarted old))

  Move-StartsReady :
      (j next : Journal) (id : OperationId) (old : JournalOperation)
      → Move ⦃charge = touches⦄ plan j next
      → OrdMap.get id j.operations ≡ some old
      → StartsReady plan id old next
  Move-StartsReady j next id old (Move.starts op now row member done h) found =
      let (new, there, change) =
        transition_operation_record-row plan.run_id op.id OperationState.running _ _ _ now j next
          row id old h found in
      let onward : Moves ⦃charge = touches⦄ plan j next =
        Moves.move (Move.starts op now row member done h) Moves.stay in
      (
        new,
        there,
        elim change [
          | inl same ↦ inl (rw same (same-NotStarted old))
          | inr (key, stated, counted) ↦
              inr (IsReadyIn-Moves j next id onward (op, member, sym key, done))
        ],
      )
  Move-StartsReady j next id old (Move.settles op state result error backup now row member n h)
        found =
      let (new, there, change) =
        transition_operation_record-row plan.run_id op.id state result error backup now j next row
          id old h found in
      (
        new,
        there,
        elim change [
          | inl same ↦ inl (rw same (same-NotStarted old))
          | inr (key, stated, counted) ↦ inl (rw n at counted, rw (stated, n) refl)
        ],
      )
  Move-StartsReady j next id old (Move.concludes status now row n h) found =
      untouched j next id old (set_run_status_record-operations plan.run_id status now j next row h)
        found
  Move-StartsReady j next id old (Move.completes action now row h) found =
      untouched j next id old
        (set_manual_action_state_record-rest plan.run_id action _ now j next row h).0 found
  Move-StartsReady j next id old (Move.queues r action now row h) found =
      untouched j next id old
        (add_manual_action_record-rest r plan.run_id action now j next row h).0 found
  Move-StartsReady j next id old (Move.handles t) found =
      untouched j next id old (Touches-operations j next t) found

  -- Along moves, an operation starts only where it is one of the plan whose prerequisites are
  -- finished.
  pub Moves-StartsReady :
      (j next : Journal) (id : OperationId) (old : JournalOperation)
      → Moves ⦃charge = touches⦄ plan j next
      → OrdMap.get id j.operations ≡ some old
      → StartsReady plan id old next
  Moves-StartsReady j next id old Moves.stay found = (old, found, inl (same-NotStarted old))
  Moves-StartsReady j next id old (Moves.move {middle = middle} m rest) found =
      let (between, at_middle, first) = Move-StartsReady j middle id old m found in
      let (new, there, second) = Moves-StartsReady middle next id between rest at_middle in
      (
        new,
        there,
        elim first [
          | inr ready ↦ inr (IsReadyIn-Moves middle next id rest ready)
          | inl (same, runs) ↦ elim second [
            | inr ready ↦ inr ready
            | inl (same', runs') ↦ inl (same' ∙ same, ground (arith, runs, runs'))
          ]
        ],
      )
