-- ===== src/Journal/Recovered.antt =====
-- Recovery of crates/reforge-restore/src/journal.rs leaves nothing running.
use windows_component_harnes.Prelude.{
  ℕ, true, false, ◌≡◌, ◌≢◌, refl, inl, inr, Option, none, some, List, [], ◌∷◌, arith, Bool-cases,
}
use windows_component_harnes.Prelude.Order.{◌==◌}
use windows_component_harnes.Prelude.OrdMap
use windows_component_harnes.Prelude.Text.{Text, text_ord}
use windows_component_harnes.Domain.Kinds.{OperationState}
use windows_component_harnes.Domain.Operation.{RunId, OperationId}
use windows_component_harnes.Journal.Tables.{
  JournalRun, JournalOperation, Runs, Operations, Journal, insert_event,
}
use windows_component_harnes.Journal.Transitions.{
  is_running_run, is_running, is_completed, is_skipped,
}
use windows_component_harnes.Journal.Recovery.{
  map_values, interrupt_operation, interrupt_run, running_runs, add_runs_of_running,
  mark_interrupted, recover_runs, recover_running_operations,
}
use windows_component_harnes.Journal.Lifecycle.{Proceeds, Proceeds-refl, AllProceed}

abbrev applied : {V : Type 0} → (V → V) → Option V → Option V
applied f none = none
applied f (some v) = some (f v)

get-map_values :
    {V : Type 0} (f : V → V) (k : Text) (m : List (Text × V))
    → OrdMap.get k (map_values f m) ≡ applied f (OrdMap.get k m)
unfolding OrdMap.get
get-map_values f k [] = refl
get-map_values f k ((i, v) ∷ m) = elim (Bool-cases (k == i)) [
  | inl e ↦ rw e refl
  | inr e ↦ rw e (get-map_values f k m)
]

-- No run is running.
abbrev pub NoneRuns : Runs → Type 0
NoneRuns runs =
    (k : RunId) (r : JournalRun) → OrdMap.get k runs ≡ some r → is_running_run r.status ≡ false

mark_interrupted-NoneRuns :
    (o : Option JournalRun) (i : RunId) (now : ℕ) (runs : Runs)
    → NoneRuns runs
    → NoneRuns (mark_interrupted o i now runs)
mark_interrupted-NoneRuns none i now runs h k r g = h k r g
mark_interrupted-NoneRuns (some s) i now runs h k r g =
    elim (OrdMap.get-insert_cases k i _ r runs g) [
      | inl (p, q) ↦ rw (← q) refl
      | inr old ↦ h k r old
    ]

recover_runs-NoneRuns :
    (ids : List RunId) (now : ℕ) (j : Journal)
    → NoneRuns j.runs
    → NoneRuns (recover_runs ids now j).runs
unfolding recover_runs insert_event
recover_runs-NoneRuns [] now j h k r g = h k r g
recover_runs-NoneRuns (i ∷ ids) now j h k r g =
    recover_runs-NoneRuns ids now _ (mark_interrupted-NoneRuns (OrdMap.get i j.runs) i now j.runs h)
      k r g

recover_runs-operations :
    (ids : List RunId) (now : ℕ) (j : Journal) → (recover_runs ids now j).operations ≡ j.operations
unfolding recover_runs insert_event
recover_runs-operations [] now j = refl
recover_runs-operations (i ∷ ids) now j = recover_runs-operations ids now _

interrupted_run-stopped :
    (now : ℕ) (o : Option JournalRun) (r : JournalRun)
    → applied (interrupt_run now) o ≡ some r
    → is_running_run r.status ≡ false
unfolding interrupt_run
interrupted_run-stopped now none r h = cc
interrupted_run-stopped now (some s) r h = elim (Bool-cases (is_running_run s.status)) [
  | inl e ↦ ground (arith, e)
  | inr e ↦ ground (arith, e)
]

interrupted_operation-stopped :
    (now : ℕ) (o : Option JournalOperation) (r : JournalOperation)
    → applied (interrupt_operation now) o ≡ some r
    → is_running r.state ≡ false
unfolding interrupt_operation
interrupted_operation-stopped now none r h = cc
interrupted_operation-stopped now (some s) r h = ground arith

running-unfinished :
    (s : OperationState) → is_running s ≡ true → (is_completed s ≢ true) × (is_skipped s ≢ true)
running-unfinished s h = (λ c. ground arith, λ c. ground arith)

interrupt_operation-Proceeds :
    (now : ℕ) (o : JournalOperation) → Proceeds o (interrupt_operation now o)
unfolding interrupt_operation
interrupt_operation-Proceeds now o = elim (Bool-cases (is_running o.state)) [
  | inl e ↦ rw e (record {
    run = refl;
    completed = λ c. absurd ((running-unfinished o.state e).0 c);
    skipped = λ c. absurd ((running-unfinished o.state e).1 c);
    attempts = refl;
  })
  | inr e ↦ rw e (Proceeds-refl o)
]

-- Nothing of these operations is running.
abbrev pub NoneRunning : Operations → Type 0
NoneRunning operations =
    (k : OperationId) (o : JournalOperation)
    → OrdMap.get k operations ≡ some o
    → is_running o.state ≡ false

-- Recovery leaves no run and no operation running, and keeps every operation: the completed and the
-- skipped ones as they are, each in its run.
pub recover_running_operations-stops :
    (now : ℕ) (j : Journal)
    → NoneRuns (recover_running_operations now j).runs
      × NoneRunning (recover_running_operations now j).operations
      × AllProceed j.operations (recover_running_operations now j).operations
unfolding recover_running_operations AllProceed
recover_running_operations-stops now j =
    let ids = add_runs_of_running j.operations (running_runs j.runs) in
    let middle : Journal = record j {
      operations = map_values (interrupt_operation now) j.operations;
      runs = map_values (interrupt_run now) j.runs;
    } in
    let kept = recover_runs-operations ids now middle in
    (
      recover_runs-NoneRuns ids now middle (λ k r g.
          interrupted_run-stopped now (OrdMap.get k j.runs) r
            (rw (get-map_values (interrupt_run now) k j.runs) at g)),
      λ k o g.
          interrupted_operation-stopped now (OrdMap.get k j.operations) o
            (rw (kept, get-map_values (interrupt_operation now) k j.operations) at g),
      λ k o g. (
        interrupt_operation now o,
        rw (kept, get-map_values (interrupt_operation now) k j.operations, g) refl,
        interrupt_operation-Proceeds now o,
      ),
    )
