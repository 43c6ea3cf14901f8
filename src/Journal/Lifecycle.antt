-- ===== src/Journal/Lifecycle.antt =====
-- How operations of crates/reforge-restore/src/journal.rs proceed: what is finished stays, and
-- attempts are counted.
use windows_component_harnes.Prelude.{
  ℕ, ◌+◌, Bool, true, false, not, ◌&&◌, ◌≡◌, refl, sym, ◌⊎◌, inl, inr, Option, some, arith,
  Bool-cases, if◌then◌else◌,
}
use windows_component_harnes.Prelude.Order.{◌==◌, ==_iff}
use windows_component_harnes.Prelude.OrdMap
use windows_component_harnes.Prelude.Text.{Text, text_ord}
use windows_component_harnes.Domain.Error.{ok}
use windows_component_harnes.Domain.Kinds.{OperationState}
use windows_component_harnes.Domain.Operation.{RunId, OperationId}
use windows_component_harnes.Journal.Tables.{JournalOperation, Operations, Journal}
use windows_component_harnes.Journal.Transitions.{
  is_running, is_completed, is_skipped, not_restartable, transition_operation_record,
}
use windows_component_harnes.Journal.Guarded.{Transition, transition_operation_record-Transition}

-- What may become of an operation: it stays in its run; completed or skipped, it stays as it is; and
-- its attempts are one more exactly where it starts, which is where it runs and did not run before.
pub record Proceeds (old new : JournalOperation) : Type 0 where
  pub run : new.run_id ≡ old.run_id
  pub completed : is_completed old.state ≡ true → new ≡ old
  pub skipped : is_skipped old.state ≡ true → new ≡ old
  pub attempts : new.attempt ≡ (
      if is_running new.state && not (is_running old.state) then old.attempt + 1 else old.attempt)

-- Every operation is still there and has proceeded.
unfoldable pub AllProceed : Operations → Operations → Type 0
AllProceed old new =
    (k : OperationId) (o : JournalOperation)
    → OrdMap.get k old ≡ some o
    → (o' : JournalOperation) × (OrdMap.get k new ≡ some o') × Proceeds o o'

pub Proceeds-refl : (o : JournalOperation) → Proceeds o o
Proceeds-refl o = record {
  run = refl;
  completed = λ h. refl;
  skipped = λ h. refl;
  attempts = untouched (is_running o.state);
}
  where
    untouched : (b : Bool) → o.attempt ≡ (if b && not b then o.attempt + 1 else o.attempt)
    untouched true = refl
    untouched false = refl

restartable-stopped : (s : OperationState) → not_restartable s ≡ false → is_running s ≡ false
restartable-stopped s h = ground arith

Transition-AllProceed :
    (run_id : RunId) (operation_id : OperationId) (state : OperationState) (now : ℕ)
    (j next : Journal)
    → Transition run_id operation_id state now j next
    → AllProceed j.operations next.operations
unfolding AllProceed
Transition-AllProceed run_id operation_id state now j next t k o h = elim t.outcome [
  | inl same ↦ (o, rw same h, Proceeds-refl o)
  | inr (open_c, open_s, (row, of_run, stated, counted, ops, runs)) ↦
      elim (Bool-cases (k == operation_id)) [
        | inr e ↦ (
          o,
          rw ops (ground (arith, OrdMap.get-insert k operation_id row j.operations)),
          Proceeds-refl o,
        )
        | inl e ↦
            let same : o ≡ t.before =
              ground (arith, (==_iff k operation_id).0 e, h, t.found_operation) in
            (
              row,
              rw ops (ground (arith, OrdMap.get-insert k operation_id row j.operations)),
              rw same (record {
                run = of_run;
                completed = λ c. cc (open_c, c);
                skipped = λ c. cc (open_s, c);
                attempts = elim (Bool-cases (is_running state)) [
                  | inl starts ↦
                      rw (stated, starts, restartable-stopped t.before.state (t.restartable starts))
                        (rw starts at counted)
                  | inr other ↦ rw (stated, other) (rw other at counted)
                ];
              }),
            )
      ]
]

-- A change of an operation's state keeps every operation: the completed and the skipped ones as they
-- are, each in its run, with its attempts one more exactly where it runs and did not run before, and
-- the same elsewhere.
pub transition_operation_record-AllProceed :
    (run_id : RunId) (operation_id : OperationId) (state : OperationState)
    (result error backup : Option Text) (now : ℕ) (j next : Journal) (row : JournalOperation)
    → transition_operation_record run_id operation_id state result error backup now j
      ≡ ok (next, row)
    → AllProceed j.operations next.operations
transition_operation_record-AllProceed run_id operation_id state result error backup now j next row
      h =
    Transition-AllProceed run_id operation_id state now j next (
      transition_operation_record-Transition run_id operation_id state result error backup now j
        next row h)

-- What a change of an operation's state does to each row: that of the operation gets the state, and
-- its attempts are counted where it starts; all others stay, as does a row that is finished already.
pub transition_operation_record-row :
    (run_id : RunId) (operation_id : OperationId) (state : OperationState)
    (result error backup : Option Text) (now : ℕ) (j next : Journal) (row : JournalOperation)
    (k : OperationId) (o : JournalOperation)
    → transition_operation_record run_id operation_id state result error backup now j
      ≡ ok (next, row)
    → OrdMap.get k j.operations ≡ some o
    → (o' : JournalOperation) × (OrdMap.get k next.operations ≡ some o')
      × ((o' ≡ o)
          ⊎ ((k ≡ operation_id)
              × (o'.state ≡ state)
              × (o'.attempt ≡ (if is_running state then o.attempt + 1 else o.attempt))))
transition_operation_record-row run_id operation_id state result error backup now j next row k o h
      found =
    let t =
      transition_operation_record-Transition run_id operation_id state result error backup now j
        next row h in
    elim t.outcome [
      | inl same ↦ (o, rw same found, inl refl)
      | inr (open_c, open_s, (new, of_run, stated, counted, ops, runs)) ↦
          elim (Bool-cases (k == operation_id)) [
            | inr e ↦ (
              o,
              rw ops (ground (arith, OrdMap.get-insert k operation_id new j.operations)),
              inl refl,
            )
            | inl e ↦
                let key : k ≡ operation_id = (==_iff k operation_id).0 e in
                let same : t.before ≡ o = ground (arith, key, found, t.found_operation) in
                (
                  new,
                  rw ops (ground (arith, OrdMap.get-insert k operation_id new j.operations)),
                  inr (key, stated, rw (sym same) counted),
                )
          ]
    ]
