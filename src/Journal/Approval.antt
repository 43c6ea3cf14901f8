-- ===== src/Journal/Approval.antt =====
-- Nothing runs without approval in crates/reforge-restore/src/journal.rs: each transition keeps it.
use windows_component_harnes.Prelude.{
  ℕ, true, not, ◌&&◌, ◌≡◌, refl, sym, ap, inl, inr, Option, none, some, arith, Bool-cases,
}
use windows_component_harnes.Prelude.Order.{◌==◌, ==_iff}
use windows_component_harnes.Prelude.OrdMap
use windows_component_harnes.Prelude.Text.{Text, text_ord}
use windows_component_harnes.Domain.Error.{ok, reject_if, >>=-eq-ok, ok-injective}
use windows_component_harnes.Domain.Kinds.{RunStatus, ApprovalState, OperationState}
use windows_component_harnes.Domain.Operation.{RunId, OperationId}
use windows_component_harnes.Journal.Tables.{
  JournalRun, JournalOperation, Runs, Journal, EventBody, insert_event,
}
use windows_component_harnes.Journal.Transitions.{
  is_approved, is_running_run, is_running, found, fetched, commit_run, started_run, may_run,
  transition_operation_record, set_approval_record, set_run_status_record,
  valid_approval_transition,
}
use windows_component_harnes.Journal.Guarded.{
  IsGuarded, Transition, refusal, not_rejected, passes, transition_operation_record-Transition,
}

-- The run at `k` is there and approved.
abbrev IsApprovedIn : Runs → RunId → Type 0
IsApprovedIn runs k =
    (r : JournalRun) × (OrdMap.get k runs ≡ some r) × (is_approved r.approval_state ≡ true)

-- A run is written over without taking its approval away.
abbrev KeepsApproval : Runs → RunId → JournalRun → Type 0
KeepsApproval runs i new =
    (c : JournalRun)
    → OrdMap.get i runs ≡ some c
    → is_approved c.approval_state ≡ true
    → is_approved new.approval_state ≡ true

IsApprovedIn-insert :
    (runs : Runs) (i : RunId) (new : JournalRun)
    → KeepsApproval runs i new
    → (k : RunId) → IsApprovedIn runs k
    → IsApprovedIn (OrdMap.insert i new runs) k
IsApprovedIn-insert runs i new keeps k (r, h, a) = elim (Bool-cases (k == i)) [
  | inl e ↦
      (new, ground (arith, OrdMap.get-insert k i new runs), keeps r (rw (← (==_iff k i).0 e) h) a)
  | inr e ↦ (r, ground (arith, OrdMap.get-insert k i new runs), a)
]

-- A guarded journal stays guarded where one run is written that keeps its approval, and that is
-- approved if it runs.
put_run-IsGuarded :
    (j next : Journal) (i : RunId) (new : JournalRun)
    → IsGuarded j
    → KeepsApproval j.runs i new
    → (is_running_run new.status ≡ true → is_approved new.approval_state ≡ true)
    → next.runs ≡ OrdMap.insert i new j.runs
    → next.operations ≡ j.operations
    → IsGuarded next
put_run-IsGuarded j next i new g keeps fit e f = record {
  runs = λ k r h running. elim (OrdMap.get-insert_cases k i new r j.runs (rw e at h)) [
    | inl (p, q) ↦ rw (← q) (fit (rw q running))
    | inr old ↦ g.runs k r old running
  ];
  operations = λ k o h running.
      rw e (IsApprovedIn-insert j.runs i new keeps o.run_id (g.operations k o (rw f at h) running));
}

started_run-keeps :
    (r : JournalRun) (now : ℕ) → (started_run r now).approval_state ≡ r.approval_state
unfolding started_run
started_run-keeps r now = elim (Bool-cases (may_run r.status)) [
  | inl e ↦ rw e refl
  | inr e ↦ rw e refl
]

put_operation-IsGuarded :
    (j next : Journal) (i : OperationId) (new : JournalOperation)
    → IsGuarded j
    → (is_running new.state ≡ true → IsApprovedIn j.runs new.run_id)
    → next.runs ≡ j.runs
    → next.operations ≡ OrdMap.insert i new j.operations
    → IsGuarded next
put_operation-IsGuarded j next i new g fit e f = record {
  runs = λ k r h running. g.runs k r (rw e at h) running;
  operations = λ k o h running. elim (OrdMap.get-insert_cases k i new o j.operations (rw f at h)) [
    | inl (p, q) ↦ rw (e, ← q) (fit (rw q running))
    | inr old ↦ rw e (g.operations k o old running)
  ];
}

Transition-IsGuarded :
    (run_id : RunId) (operation_id : OperationId) (state : OperationState) (now : ℕ)
    (j next : Journal)
    → IsGuarded j
    → Transition run_id operation_id state now j next
    → IsGuarded next
Transition-IsGuarded run_id operation_id state now j next g t = elim t.outcome [
  | inl same ↦ rw same g
  | inr (_, _, (row, of_run, stated, counted, ops, runs)) ↦ elim (Bool-cases (is_running state)) [
    | inr still ↦
        put_operation-IsGuarded j next operation_id row g (λ h. cc (stated, still, h))
          (rw still at runs) ops
    | inl starting ↦
        let new = started_run t.run now in
        let approved : is_approved new.approval_state ≡ true =
          rw (started_run-keeps t.run now) (t.approved starting) in
        let middle : Journal = record j { runs = OrdMap.insert run_id new j.runs } in
        let g' =
          put_run-IsGuarded j middle run_id new g (λ c h a. approved) (λ h. approved) refl refl in
        put_operation-IsGuarded middle next operation_id row g'
          (λ h.
            (new, rw (of_run, t.of_the_run) (OrdMap.get-insert_self run_id new j.runs), approved))
          (rw starting at runs) ops
  ]
]

valid-keeps :
    (a b : ApprovalState)
    → valid_approval_transition a b ≡ true
    → is_approved a ≡ true
    → is_approved b ≡ true
unfolding valid_approval_transition
valid-keeps a b h k = ground arith

pub found-some : {A : Type 0} (o : Option A) (a : A) → found o ≡ ok a → o ≡ some a
found-some none a h = cc
found-some (some b) a h = cc (h)

-- A change of an operation's state keeps the journal guarded.
pub transition_operation_record-IsGuarded :
    (run_id : RunId) (operation_id : OperationId) (state : OperationState)
    (result error backup : Option Text) (now : ℕ) (j next : Journal) (row : JournalOperation)
    → IsGuarded j
    → transition_operation_record run_id operation_id state result error backup now j
      ≡ ok (next, row)
    → IsGuarded next
transition_operation_record-IsGuarded run_id operation_id state result error backup now j next row g
      h =
    Transition-IsGuarded run_id operation_id state now j next g (
      transition_operation_record-Transition run_id operation_id state result error backup now j
        next row h)

commit_run-writes :
    (run_id : RunId) (body : EventBody) (run : JournalRun) (now : ℕ) (j next : Journal)
    (row : JournalRun)
    → commit_run run_id body run now j ≡ ok (next, row)
    → (next.runs ≡ OrdMap.insert run_id run j.runs) × (next.operations ≡ j.operations)
unfolding commit_run insert_event
commit_run-writes run_id body run now j next row h =
    let (r, read, h1) =
      >>=-eq-ok (fetched (OrdMap.get run_id (OrdMap.insert run_id run j.runs))) _ h in
    let written = sym (ap (λ q. q.0) (ok-injective h1)) in
    (ap (λ (n : Journal). n.runs) written, ap (λ (n : Journal). n.operations) written)

some-eq : {a b : JournalRun} (o : Option JournalRun) → o ≡ some a → o ≡ some b → a ≡ b
some-eq o p q = ground arith

-- A change of a run's approval keeps the journal guarded.
pub set_approval_record-IsGuarded :
    (run_id : RunId) (state : ApprovalState) (now : ℕ) (j next : Journal) (row : JournalRun)
    → IsGuarded j
    → set_approval_record run_id state now j ≡ ok (next, row)
    → IsGuarded next
unfolding set_approval_record
set_approval_record-IsGuarded run_id state now j next row g h =
    let (c, looked, h1) = >>=-eq-ok (found (OrdMap.get run_id j.runs)) _ h in
    let there = found-some (OrdMap.get run_id j.runs) c looked in
    let (u, p, h2) =
      >>=-eq-ok (reject_if (not (valid_approval_transition c.approval_state state)) refusal) _ h1 in
    let valid : valid_approval_transition c.approval_state state ≡ true =
      ground (arith, not_rejected _ refusal u p) in
    let (runs, operations) = commit_run-writes run_id _ _ now j next row h2 in
    put_run-IsGuarded j next run_id _ g
      (λ d e a.
        valid-keeps c.approval_state state valid
          (rw (some-eq (OrdMap.get run_id j.runs) there e) a))
      (λ running. valid-keeps c.approval_state state valid (g.runs run_id c there running)) runs
      operations

-- A change of a run's status keeps the journal guarded.
pub set_run_status_record-IsGuarded :
    (run_id : RunId) (status : RunStatus) (now : ℕ) (j next : Journal) (row : JournalRun)
    → IsGuarded j
    → set_run_status_record run_id status now j ≡ ok (next, row)
    → IsGuarded next
unfolding set_run_status_record
set_run_status_record-IsGuarded run_id status now j next row g h =
    let (c, looked, h1) = >>=-eq-ok (found (OrdMap.get run_id j.runs)) _ h in
    let there = found-some (OrdMap.get run_id j.runs) c looked in
    let (u, p, h2) =
      >>=-eq-ok (reject_if (is_running_run status && not (is_approved c.approval_state)) refusal) _
        h1 in
    let (runs, operations) = commit_run-writes run_id _ _ now j next row h2 in
    put_run-IsGuarded j next run_id _ g (λ d e a. rw (some-eq (OrdMap.get run_id j.runs) there e) a)
      (passes (is_running_run status) (is_approved c.approval_state) (not_rejected _ refusal u p))
      runs operations

-- A change of a run's approval leaves the operations as they are.
pub set_approval_record-operations :
    (run_id : RunId) (state : ApprovalState) (now : ℕ) (j next : Journal) (row : JournalRun)
    → set_approval_record run_id state now j ≡ ok (next, row)
    → next.operations ≡ j.operations
unfolding set_approval_record
set_approval_record-operations run_id state now j next row h =
    let (c, looked, h1) = >>=-eq-ok (found (OrdMap.get run_id j.runs)) _ h in
    let (u, p, h2) =
      >>=-eq-ok (reject_if (not (valid_approval_transition c.approval_state state)) refusal) _ h1 in
    (commit_run-writes run_id _ _ now j next row h2).1

-- A change of a run's status leaves the operations as they are.
pub set_run_status_record-operations :
    (run_id : RunId) (status : RunStatus) (now : ℕ) (j next : Journal) (row : JournalRun)
    → set_run_status_record run_id status now j ≡ ok (next, row)
    → next.operations ≡ j.operations
unfolding set_run_status_record
set_run_status_record-operations run_id status now j next row h =
    let (c, looked, h1) = >>=-eq-ok (found (OrdMap.get run_id j.runs)) _ h in
    let (u, p, h2) =
      >>=-eq-ok (reject_if (is_running_run status && not (is_approved c.approval_state)) refusal) _
        h1 in
    (commit_run-writes run_id _ _ now j next row h2).1
