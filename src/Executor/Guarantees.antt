-- ===== src/Executor/Guarantees.antt =====
-- What `execute_with_progress` of crates/reforge-restore/src/executor.rs guarantees, for handlers that
-- are trusted with transactions of the journal.
use windows_component_harnes.Prelude.{inr, inl, ◌≡◌, ◌⊎◌, some, In}
use windows_component_harnes.Prelude.OrdMap
use windows_component_harnes.Prelude.Text.{text_ord}
use windows_component_harnes.Domain.Error.{Result, ok}
use windows_component_harnes.Domain.Kinds.{RunStatus}
use windows_component_harnes.Domain.Operation.{Operation, OperationId, RestorePlan}
use windows_component_harnes.Journal.Tables.{Journal, JournalOperation}
use windows_component_harnes.Executor.Session.{ExecutionReport, Session, Setting}
use windows_component_harnes.Executor.Turns.{execute_with_progress}
use windows_component_harnes.Executor.Moves.{any_steps, touches, IsFinished, Moves}
use windows_component_harnes.Executor.Starting.{
  IsReadyIn, NotStarted, Moves-StartsReady, same-NotStarted,
}
use windows_component_harnes.Executor.Entering.{MayRun, IsRefused, execute_with_progress-Enters}
use windows_component_harnes.Executor.Reaching.{Post}
use windows_component_harnes.Executor.Branches.{IsWellBehaved}
use windows_component_harnes.Executor.Finishing.{IsKeyed, execute_with_progress-Reaches}

-- For handlers that leave the operations alone, and a journal whose operations are keyed by their
-- identifiers, an execution, whatever its result, changes the journal by moves only: an operation
-- starts only if it is of the plan and all its prerequisites are finished in the journal of that
-- moment.
pub execute_with_progress-Moves :
    {W : Type 0} (c : Setting W) (plan : RestorePlan) (s : Session W)
    → IsWellBehaved ⦃charge = touches⦄ c
    → IsKeyed s.journal
    → Moves ⦃charge = touches⦄ plan s.journal (execute_with_progress c plan s).1.journal
execute_with_progress-Moves c plan s good k =
    (execute_with_progress-Reaches ⦃charge = touches⦄ c plan good s k).0

-- For handlers that change the journal by its transactions only, and a journal whose operations are
-- keyed by their identifiers: where an execution reports a completed run, every operation of the plan
-- is completed or skipped in the journal that it leaves.
pub execute_with_progress-IsFinished :
    {W : Type 0} (c : Setting W) (plan : RestorePlan) (s : Session W) (report : ExecutionReport)
    (op : Operation)
    → IsWellBehaved ⦃charge = any_steps⦄ c
    → IsKeyed s.journal
    → (execute_with_progress c plan s).0 ≡ ok report
    → report.status ≡ RunStatus.completed
    → In op plan.operations
    → IsFinished op.id (execute_with_progress c plan s).1.journal
execute_with_progress-IsFinished c plan s report op good k e done i =
    at_end (execute_with_progress c plan s).0 e
      (execute_with_progress-Reaches ⦃charge = any_steps⦄ c plan good s k).1
  where
    P : ExecutionReport → Journal → Type 0
    P r j =
        r.status ≡ RunStatus.completed → (o : Operation) → In o plan.operations → IsFinished o.id j

    at_end :
        (r : Result ExecutionReport)
        → r ≡ ok report
        → Post P r (execute_with_progress c plan s).1.journal
        → IsFinished op.id (execute_with_progress c plan s).1.journal
    at_end r e post = (rw e at post) done op i

-- For handlers that leave the operations alone, and a journal whose operations are keyed by their
-- identifiers, the row of every operation is still there after an execution, whatever
-- its result, and the operation has not started, unless it is one of the plan with all prerequisites
-- completed or skipped, and the journal and the target were fit for the plan at first: the run
-- approved, of the plan's package, mode and target, the plan valid, and the operations stored for the
-- run as many as those of the plan and each one of them.
pub execute_with_progress-StartsReady :
    {W : Type 0} (c : Setting W) (plan : RestorePlan) (s : Session W) (id : OperationId)
    (old : JournalOperation)
    → IsWellBehaved ⦃charge = touches⦄ c
    → IsKeyed s.journal
    → OrdMap.get id s.journal.operations ≡ some old
    → (new : JournalOperation) × (OrdMap.get id
          (execute_with_progress c plan s).1.journal.operations
        ≡ some new)
      × (NotStarted old new
          ⊎ (IsReadyIn plan id (execute_with_progress c plan s).1.journal
              × MayRun c plan s.journal))
execute_with_progress-StartsReady c plan s id old good k found =
    let next = (execute_with_progress c plan s).1.journal in
    let (new, there, change) =
      Moves-StartsReady plan s.journal next id old (execute_with_progress-Moves c plan s good k)
        found in
    elim (execute_with_progress-Enters c plan s) [
      | inl (same, refused) ↦ (old, rw same found, inl (same-NotStarted old))
      | inr may ↦ (new, there, elim change [ inl idle ↦ inl idle | inr ready ↦ inr (ready, may) ])
    ]

-- An execution changes nothing, not the journal, the world outside or the progress, and
-- returns no report, unless the journal and the target are fit for the plan: the run approved, of the
-- plan's package, mode and target, the plan valid, and the operations stored for the run as many as
-- those of the plan and each one of them.
pub execute_with_progress-MayRun :
    {W : Type 0} (c : Setting W) (plan : RestorePlan) (s : Session W)
    → IsRefused s (execute_with_progress c plan s) ⊎ MayRun c plan s.journal
execute_with_progress-MayRun c plan s = execute_with_progress-Enters c plan s
