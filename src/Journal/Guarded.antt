-- ===== src/Journal/Guarded.antt =====
-- What a guarded journal is, and what a transition of crates/reforge-restore/src/journal.rs that
-- returns has checked and written.
use windows_component_harnes.Prelude.{
  ℕ, ◌+◌, ◌^◌, leb, Bool, true, false, not, ◌&&◌, ◌||◌, ◌≡◌, refl, sym, ap, ◌∙◌, ◌⊎◌, inl, inr,
  Option, none, some, arith, Bool-cases, if◌then◌else◌,
}
use windows_component_harnes.Prelude.Order.{◌==◌, ==_iff}
use windows_component_harnes.Prelude.OrdMap
use windows_component_harnes.Prelude.Text.{Text, text_ord}
use windows_component_harnes.Domain.Error.{
  ErrorEnvelope, coded_error, security_policy, schema_invalid, ok, reject_if, ◌>>=◌, >>=-eq-ok,
  ok-injective,
}
use windows_component_harnes.Domain.Kinds.{OperationState}
use windows_component_harnes.Domain.Operation.{RunId, OperationId}
use windows_component_harnes.Journal.Tables.{JournalRun, JournalOperation, Journal, insert_event}
use windows_component_harnes.Journal.Transitions.{
  is_approved, is_running_run, is_running, is_completed, is_skipped, both, only_current,
  not_restartable, found, fetched, join_run, fetch_operation, of_run, next_attempt,
  changed_operation, write_operation, make_transition, started_run, transition_operation_record,
}

-- Whatever runs belongs to an approved run.
pub record IsGuarded (j : Journal) : Type 0 where
  pub runs :
      (k : RunId) (r : JournalRun)
      → OrdMap.get k j.runs ≡ some r
      → is_running_run r.status ≡ true
      → is_approved r.approval_state ≡ true
  pub operations :
      (k : OperationId) (o : JournalOperation)
      → OrdMap.get k j.operations ≡ some o
      → is_running o.state ≡ true
      → (r : JournalRun) × (OrdMap.get o.run_id j.runs ≡ some r)
        × (is_approved r.approval_state ≡ true)

-- Nothing changes, or one operation that was not finished is written, and its run where it starts.
abbrev pub Outcome :
    RunId
    → OperationId
    → OperationState
    → ℕ
    → Journal
    → Journal
    → JournalOperation
    → JournalRun
    → Type 0
Outcome run_id operation_id state now j next o run =
    (next ≡ j)
    ⊎ ((is_completed o.state ≡ false)
        × (is_skipped o.state ≡ false)
        × ((row : JournalOperation) × (row.run_id ≡ o.run_id)
            × (row.state ≡ state)
            × (row.attempt ≡ (if is_running state then o.attempt + 1 else o.attempt))
            × (next.operations ≡ OrdMap.insert operation_id row j.operations)
            × (next.runs ≡ (
                if is_running state
                then OrdMap.insert run_id (started_run run now) j.runs
                else j.runs))))

-- What a transition that returns a row has found and written.
pub record Transition (run_id : RunId) (operation_id : OperationId) (state : OperationState)
    (now : ℕ) (j next : Journal) : Type 0 where
  pub before : JournalOperation
  pub run : JournalRun
  pub found_operation : OrdMap.get operation_id j.operations ≡ some before
  pub of_the_run : before.run_id ≡ run_id
  pub found_run : OrdMap.get run_id j.runs ≡ some run
  pub approved : is_running state ≡ true → is_approved run.approval_state ≡ true
  pub restartable : is_running state ≡ true → not_restartable before.state ≡ false
  pub keeps_completed : is_completed before.state ≡ true → is_completed state ≡ true
  pub keeps_skipped : is_skipped before.state ≡ true → is_skipped state ≡ true
  pub outcome : Outcome run_id operation_id state now j next before run

abbrev pub refusal : ErrorEnvelope
refusal = coded_error security_policy none none

pub not_rejected : (b : Bool) (e : ErrorEnvelope) (u : Unit {0}) → reject_if b e ≡ ok u → b ≡ false
not_rejected b e u h = ground arith

pub passes : (a b : Bool) → (a && not b) ≡ false → a ≡ true → b ≡ true
passes a b h e = ground arith

find_pair :
    (o : Option JournalOperation) (r : Option JournalRun) (c : JournalOperation × JournalRun)
    → found (join_run o r) ≡ ok c
    → (o ≡ some c.0) × (r ≡ some c.1)
find_pair none r c h = cc
find_pair (some o) none c h = cc
find_pair (some o) (some r) c h = (cc (h), cc (h))

of_run-some :
    (run_id : RunId) (o : Option JournalOperation) (c : JournalOperation)
    → of_run run_id o ≡ some c
    → (o ≡ some c) × (c.run_id ≡ run_id)
of_run-some run_id none c h = cc
of_run-some run_id (some o) c h = elim (Bool-cases (o.run_id == run_id)) [
  | inl e ↦
      let same : o ≡ c = ground arith in (ap some same, rw (← same) ((==_iff o.run_id run_id).0 e))
  | inr e ↦ cc (rw e at h)
]

next_attempt-ok : (b : Bool) (n m : ℕ) → next_attempt b n ≡ ok m → m ≡ (if b then n + 1 else n)
next_attempt-ok b n m h = ground arith

changed_operation-keeps :
    (o : JournalOperation) (state : OperationState) (attempt : ℕ)
    (result error backup : Option Text) (now : ℕ)
    → ((changed_operation o state attempt result error backup now).run_id ≡ o.run_id)
      × ((changed_operation o state attempt result error backup now).state ≡ state)
      × ((changed_operation o state attempt result error backup now).attempt ≡ attempt)
unfolding changed_operation
changed_operation-keeps o state attempt result error backup now =
    elim (Bool-cases (is_running state)) [
      | inl e ↦ rw e (refl, refl, refl)
      | inr e ↦ rw e (refl, refl, refl)
    ]

module _ (run_id : RunId) (operation_id : OperationId) (state : OperationState)
    (result error backup : Option Text) (now : ℕ) where
  make_transition-writes :
      (o : JournalOperation) (run : JournalRun) (j next : Journal) (row : JournalOperation)
      → make_transition run_id operation_id state result error backup now o run j ≡ ok (next, row)
      → (w : JournalOperation) × (w.run_id ≡ o.run_id)
        × (w.state ≡ state)
        × (w.attempt ≡ (if is_running state then o.attempt + 1 else o.attempt))
        × (next ≡ write_operation run_id operation_id state w run now j)
  unfolding make_transition
  make_transition-writes o run j next row h =
      let (u, small, h1) =
        >>=-eq-ok (reject_if (leb (2 ^ 32) o.attempt) (coded_error schema_invalid none none)) _ h in
      let (attempt, counted, h2) = >>=-eq-ok (next_attempt (is_running state) o.attempt) _ h1 in
      let w = changed_operation o state attempt result error backup now in
      let (r, read, h3) =
        >>=-eq-ok
          (fetched (
            fetch_operation run_id operation_id
              (write_operation run_id operation_id state w run now j)))
          _ h2 in
      let (same_run, same_state, same_attempt) =
        changed_operation-keeps o state attempt result error backup now in
      (
        w,
        same_run,
        same_state,
        same_attempt ∙ next_attempt-ok (is_running state) o.attempt attempt counted,
        sym (ap (λ p. p.0) (ok-injective h3)),
      )

  make_transition-Outcome :
      (o : JournalOperation) (run : JournalRun) (j next : Journal) (row : JournalOperation)
      → (only_current is_completed o.state state || only_current is_skipped o.state state) ≡ false
      → (if both is_completed o.state state || both is_skipped o.state state
          then (fetched (fetch_operation run_id operation_id j) >>= λ unchanged. ok (j, unchanged))
          else make_transition run_id operation_id state result error backup now o run j)
        ≡ ok (next, row)
      → Outcome run_id operation_id state now j next o run
  unfolding write_operation insert_event
  make_transition-Outcome o run j next row g h =
      elim (Bool-cases (both is_completed o.state state || both is_skipped o.state state)) [
        | inl finished ↦
            let (r, read, h1) =
              >>=-eq-ok (fetched (fetch_operation run_id operation_id j)) _ (rw finished at h) in
            inl (sym (ap (λ p. p.0) (ok-injective h1)))
        | inr unfinished ↦
            let (w, same_run, same_state, counted, written) =
              make_transition-writes o run j next row (rw unfinished at h) in
            inr (
              ground (arith, g, unfinished),
              ground (arith, g, unfinished),
              (
                w,
                same_run,
                same_state,
                counted,
                ap (λ (n : Journal). n.operations) written,
                ap (λ (n : Journal). n.runs) written,
              ),
            )
      ]

  -- A transition that returns has passed its guards, and it writes one operation, or nothing where
  -- the operation is finished already.
  pub transition_operation_record-Transition :
      (j next : Journal) (row : JournalOperation)
      → transition_operation_record run_id operation_id state result error backup now j
        ≡ ok (next, row)
      → Transition run_id operation_id state now j next
  unfolding transition_operation_record
  transition_operation_record-Transition j next row h =
      let (c, looked, h1) =
        >>=-eq-ok
          (found (join_run (fetch_operation run_id operation_id j) (OrdMap.get run_id j.runs))) _
          h in
      let (fo, fr) = find_pair _ _ c looked in
      let (fo', same) = of_run-some run_id (OrdMap.get operation_id j.operations) c.0 fo in
      let (u1, p1, h2) =
        >>=-eq-ok (reject_if (is_running state && not (is_approved c.1.approval_state)) refusal) _
          h1 in
      let (u2, p2, h3) =
        >>=-eq-ok (reject_if (is_running state && not_restartable c.0.state) refusal) _ h2 in
      let (u3, p3, h4) =
        >>=-eq-ok
          (reject_if
            (only_current is_completed c.0.state state || only_current is_skipped c.0.state state)
            refusal)
          _ h3 in
      let g3 = not_rejected _ refusal u3 p3 in
      record {
        before = c.0;
        run = c.1;
        found_operation = fo';
        of_the_run = same;
        found_run = fr;
        approved = passes (is_running state) _ (not_rejected _ refusal u1 p1);
        restartable = ground (arith, not_rejected _ refusal u2 p2);
        keeps_completed = ground (arith, g3);
        keeps_skipped = ground (arith, g3);
        outcome = make_transition-Outcome c.0 c.1 j next row g3 h4;
      }
