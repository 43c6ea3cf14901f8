-- ===== src/Journal/Recovery.antt =====
-- `recover_running_operations` of crates/reforge-restore/src/journal.rs, which runs when a journal is
-- opened. The rows of its query are taken in the order of their identifiers.
use windows_component_harnes.Prelude.{ℕ, Option, none, some, List, [], ◌∷◌, if◌then◌else◌}
use windows_component_harnes.Prelude.OrdMap
use windows_component_harnes.Prelude.OrdSet
use windows_component_harnes.Prelude.Text.{text_ord}
use windows_component_harnes.Domain.Kinds.{RunStatus, OperationState}
use windows_component_harnes.Domain.Operation.{RunId}
use windows_component_harnes.Journal.Tables.{
  JournalRun, JournalOperation, Runs, Operations, Journal, EventBody, EventLevel, insert_event,
}
use windows_component_harnes.Journal.Transitions.{is_running, is_running_run}

abbrev pub map_values : {K V : Type 0} → (V → V) → List (K × V) → List (K × V)
map_values f [] = []
map_values f ((k, v) ∷ m) = (k, f v) ∷ map_values f m

unfoldable pub interrupt_operation : ℕ → JournalOperation → JournalOperation
interrupt_operation now o =
    if is_running o.state
    then record o { state = OperationState.interrupted; ended_at = some now }
    else o

unfoldable pub interrupt_run : ℕ → JournalRun → JournalRun
interrupt_run now r =
    if is_running_run r.status
    then record r { status = RunStatus.interrupted; updated_at = now }
    else r

-- `SELECT id FROM runs WHERE status = 'RUNNING'`
abbrev pub running_runs : Runs → List RunId
running_runs [] = []
running_runs ((k, r) ∷ rs) =
    let rest = running_runs rs in if is_running_run r.status then k ∷ rest else rest

-- `… UNION SELECT DISTINCT run_id FROM operations WHERE state = 'RUNNING'`
abbrev pub add_runs_of_running : Operations → List RunId → List RunId
add_runs_of_running [] ids = OrdSet.from_list ids
add_runs_of_running ((k, o) ∷ os) ids =
    let rest = add_runs_of_running os ids in
    if is_running o.state then OrdSet.insert o.run_id rest else rest

abbrev pub mark_interrupted : Option JournalRun → RunId → ℕ → Runs → Runs
mark_interrupted none run_id now runs = runs
mark_interrupted (some r) run_id now runs =
    OrdMap.insert run_id (record r { status = RunStatus.interrupted; updated_at = now }) runs

-- the loop over the runs that were found
unfoldable pub recover_runs : List RunId → ℕ → Journal → Journal
recover_runs [] now j = j
recover_runs (run_id ∷ ids) now j = recover_runs ids now (
    insert_event run_id EventLevel.warn EventBody.journal_recovered now
      (record j { runs = mark_interrupted (OrdMap.get run_id j.runs) run_id now j.runs }))

unfoldable pub recover_running_operations : ℕ → Journal → Journal
recover_running_operations now j =
    let run_ids = add_runs_of_running j.operations (running_runs j.runs) in
    recover_runs run_ids now (record j {
      operations = map_values (interrupt_operation now) j.operations;
      runs = map_values (interrupt_run now) j.runs;
    })
