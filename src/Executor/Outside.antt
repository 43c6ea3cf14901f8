-- ===== src/Executor/Outside.antt =====
-- What the handlers of crates/reforge-restore/src/executor.rs may do to the journal: they settle runs
-- and work on manual actions, and leave the operations to the executor.
use windows_component_harnes.Prelude.{ℕ, false, ◌≡◌, refl, ◌∙◌}
use windows_component_harnes.Prelude.Text.{Text}
use windows_component_harnes.Domain.Error.{ok}
use windows_component_harnes.Domain.Kinds.{ManualActionState, RunStatus}
use windows_component_harnes.Domain.Operation.{ManualAction, RunId}
use windows_component_harnes.Journal.Tables.{Journal, JournalManualAction, JournalRun}
use windows_component_harnes.Journal.Transitions.{is_running_run, set_run_status_record}
use windows_component_harnes.Journal.Manual.{set_manual_action_state_record}
use windows_component_harnes.Journal.Adding.{
  Redactor, add_manual_action_record, add_manual_action_record-rest,
  set_manual_action_state_record-rest,
}
use windows_component_harnes.Journal.Approval.{set_run_status_record-operations}
use windows_component_harnes.Journal.Steps.{Step, Steps}

-- One transaction on a run, which it does not set running, or on a manual action.
pub data Touch (j next : Journal) : Type 0 where
  run :
      (run_id : RunId) (status : RunStatus) (now : ℕ) (row : JournalRun)
      → is_running_run status ≡ false
      → set_run_status_record run_id status now j ≡ ok (next, row)
      → Touch j next
  action :
      (run_id : RunId) (id : Text) (state : ManualActionState) (now : ℕ) (row : JournalManualAction)
      → set_manual_action_state_record run_id id state now j ≡ ok (next, row)
      → Touch j next
  added :
      (r : Redactor) (run_id : RunId) (new : ManualAction) (now : ℕ) (row : JournalManualAction)
      → add_manual_action_record r run_id new now j ≡ ok (next, row)
      → Touch j next

pub data Touches : Journal → Journal → Type 0 where
  none_left : {j : Journal} → Touches j j
  touch : {j middle next : Journal} → Touch j middle → Touches middle next → Touches j next

pub Touches-trans : (i j k : Journal) → Touches i j → Touches j k → Touches i k
Touches-trans i j k Touches.none_left t = t
Touches-trans i j k (Touches.touch {middle = middle} s rest) t =
    Touches.touch s (Touches-trans middle j k rest t)

Touch-Step : (j next : Journal) → Touch j next → Step j next
Touch-Step j next (Touch.run run_id status now row n h) = Step.status run_id status now row h
Touch-Step j next (Touch.action run_id id state now row h) = Step.action run_id id state now row h
Touch-Step j next (Touch.added r run_id new now row h) = Step.added r run_id new now row h

pub Touches-Steps : (j next : Journal) → Touches j next → Steps j next
Touches-Steps j next Touches.none_left = Steps.done
Touches-Steps j next (Touches.touch {middle = middle} t rest) =
    Steps.more (Touch-Step j middle t) (Touches-Steps middle next rest)

Touch-operations : (j next : Journal) → Touch j next → next.operations ≡ j.operations
Touch-operations j next (Touch.run run_id status now row n h) =
    set_run_status_record-operations run_id status now j next row h
Touch-operations j next (Touch.action run_id id state now row h) =
    (set_manual_action_state_record-rest run_id id state now j next row h).0
Touch-operations j next (Touch.added r run_id new now row h) =
    (add_manual_action_record-rest r run_id new now j next row h).0

-- Touches leave all operations as they are.
pub Touches-operations : (j next : Journal) → Touches j next → next.operations ≡ j.operations
Touches-operations j next Touches.none_left = refl
Touches-operations j next (Touches.touch {middle = middle} t rest) =
    Touches-operations middle next rest ∙ Touch-operations j middle t
