-- ===== src/Executor/Leaves.antt =====
-- The calls of the executor of crates/reforge-restore/src/executor.rs on the journal, one by one: each
-- is a move, and what it returns is what the journal then has.
use windows_component_harnes.Prelude.{
  ◌^◌, leb, ℕ, true, false, not, ◌&&◌, ◌||◌, ◌≡◌, refl, sym, ap, ◌∙◌, inl, inr, Option, none, some,
  In, arith, Bool-cases,
}
use windows_component_harnes.Prelude.OrdMap
use windows_component_harnes.Prelude.Text.{Text, text_ord}
use windows_component_harnes.Domain.Error.{
  ErrorEnvelope, Result, ok, err, stuck, coded_error, reject_if, schema_invalid, security_policy,
  >>=-eq-ok, ok-injective,
}
use windows_component_harnes.Domain.Kinds.{OperationState, RunStatus}
use windows_component_harnes.Domain.Operation.{Operation, OperationId, RestorePlan, RunId}
use windows_component_harnes.Journal.Tables.{Journal, JournalOperation, JournalRun, insert_event}
use windows_component_harnes.Journal.Transitions.{
  is_approved, is_completed, is_running, is_running_run, is_skipped, not_restartable, only_current,
  both, found, fetched, of_run, fetch_operation, join_run, commit_run, changed_operation,
  next_attempt, write_operation, make_transition, set_run_status_record,
  transition_operation_record,
}
use windows_component_harnes.Executor.Session.{
  Session, Setting, Payload, give, optional, transact, transition_operation, mark_operation_running,
  set_run_status, Exec, ◌>>=◌, ◌>>◌,
}
use windows_component_harnes.Executor.Moves.{Charge, IsFinished, Move, Moves}
use windows_component_harnes.Executor.Reaching.{Reaches, give_then, then_reaches, transact-Reaches}

-- the row of an operation, in a state
abbrev pub IsRow : OperationId → OperationState → JournalOperation → Journal → Type 0
IsRow id state row j = (OrdMap.get id j.operations ≡ some row) × (row.state ≡ state)

fetched-some : {A : Type 0} (o : Option A) (a : A) → fetched o ≡ ok a → o ≡ some a
fetched-some none a h = cc
fetched-some (some b) a h = ap some (ok-injective h)

of_run-row :
    (run_id : RunId) (o : Option JournalOperation) (row : JournalOperation)
    → of_run run_id o ≡ some row
    → o ≡ some row
of_run-row run_id none row h = cc
of_run-row run_id (some o) row h = ground (arith, h)

changed_operation-state :
    (o : JournalOperation) (state : OperationState) (attempt : ℕ)
    (result error backup : Option Text) (now : ℕ)
    → (changed_operation o state attempt result error backup now).state ≡ state
unfolding changed_operation
changed_operation-state o state attempt result error backup now =
    elim (Bool-cases (is_running state)) [ inl e ↦ rw e refl | inr e ↦ rw e refl ]

find_joined :
    (o : Option JournalOperation) (r : Option JournalRun) (current : JournalOperation × JournalRun)
    → found (join_run o r) ≡ ok current
    → o ≡ some current.0
find_joined none r current h = cc
find_joined (some o) none current h = cc
find_joined (some o) (some r) current h = cc (h)

both_finished :
    (a b : OperationState) → (both is_completed a b || both is_skipped a b) ≡ true → a ≡ b
both_finished a b h = ground (arith, h)

make_transition-IsRow :
    (run_id : RunId) (id : OperationId) (state : OperationState) (result error backup : Option Text)
    (now : ℕ) (o : JournalOperation) (run : JournalRun) (j next : Journal) (row : JournalOperation)
    → make_transition run_id id state result error backup now o run j ≡ ok (next, row)
    → IsRow id state row next
unfolding make_transition write_operation insert_event
make_transition-IsRow run_id id state result error backup now o run j next row h =
    let (u, p, h1) =
      >>=-eq-ok (reject_if (leb (2 ^ 32) o.attempt) (coded_error schema_invalid none none)) _ h in
    let (attempt, a, h2) = >>=-eq-ok (next_attempt (is_running state) o.attempt) _ h1 in
    let new = changed_operation o state attempt result error backup now in
    let (r, read, h3) =
      >>=-eq-ok (fetched (of_run run_id (OrdMap.get id (OrdMap.insert id new j.operations)))) _
        h2 in
    let there =
      of_run-row run_id (OrdMap.get id (OrdMap.insert id new j.operations)) r
        (fetched-some _ r read) in
    let both_are = ok-injective h3 in
    let same_row : r ≡ row = ap (λ q. q.1) both_are in
    let written = ap (λ (q : Journal × JournalOperation). q.0.operations) both_are in
    let now_new : some new ≡ some r = sym (OrdMap.get-insert_self id new j.operations) ∙ there in
    let new_row : new ≡ row = ground (arith, now_new, same_row) in
    (
      rw (sym written) (there ∙ ap some same_row),
      ap (λ (x : JournalOperation). x.state) (sym new_row)
          ∙ changed_operation-state o state attempt result error backup now,
    )

pub transition_operation_record-IsRow :
    (run_id : RunId) (id : OperationId) (state : OperationState) (result error backup : Option Text)
    (now : ℕ) (j next : Journal) (row : JournalOperation)
    → transition_operation_record run_id id state result error backup now j ≡ ok (next, row)
    → IsRow id state row next
unfolding transition_operation_record
transition_operation_record-IsRow run_id id state result error backup now j next row h =
    let (current, looked, h1) =
      >>=-eq-ok (found (join_run (fetch_operation run_id id j) (OrdMap.get run_id j.runs))) _ h in
    let refusal = coded_error security_policy none none in
    let (u, p, h2) =
      >>=-eq-ok (reject_if (is_running state && not (is_approved current.1.approval_state)) refusal)
        _ h1 in
    let (v, q, h3) =
      >>=-eq-ok (reject_if (is_running state && not_restartable current.0.state) refusal) _ h2 in
    let (w, r, h4) =
      >>=-eq-ok
        (reject_if
          (only_current is_completed current.0.state state
            || only_current is_skipped current.0.state state)
          refusal)
        _ h3 in
    let fetch =
      find_joined (fetch_operation run_id id j) (OrdMap.get run_id j.runs) current looked in
    elim (Bool-cases
      (both is_completed current.0.state state || both is_skipped current.0.state state)) [
        | inr e ↦
            make_transition-IsRow run_id id state result error backup now current.0 current.1 j next
              row (rw e at h4)
        | inl e ↦
            let (x, read, h5) = >>=-eq-ok (fetched (fetch_operation run_id id j)) _ (rw e at h4) in
            let both_are = ok-injective h5 in
            let same_row : x ≡ row = ap (λ z. z.1) both_are in
            let same : j ≡ next = ap (λ z. z.0) both_are in
            let first = fetched-some (fetch_operation run_id id j) x read in
            let there = of_run-row run_id (OrdMap.get id j.operations) x first in
            let is_current : current.0 ≡ x = ground (arith, fetch, first) in
            (
              rw (sym same) (there ∙ ap some same_row),
              ap (λ (z : JournalOperation). z.state) (sym same_row ∙ sym is_current)
                  ∙ both_finished current.0.state state e,
            )
      ]

pub set_run_status_record-status :
    (run_id : RunId) (status : RunStatus) (now : ℕ) (j next : Journal) (row : JournalRun)
    → set_run_status_record run_id status now j ≡ ok (next, row)
    → row.status ≡ status
unfolding set_run_status_record commit_run insert_event
set_run_status_record-status run_id status now j next row h =
    let (current, looked, h1) = >>=-eq-ok (found (OrdMap.get run_id j.runs)) _ h in
    let refusal = coded_error security_policy none none in
    let (u, p, h2) =
      >>=-eq-ok
        (reject_if (is_running_run status && not (is_approved current.approval_state)) refusal) _
        h1 in
    let new : JournalRun = record current { status = status; updated_at = now } in
    let (r, read, h3) =
      >>=-eq-ok (fetched (OrdMap.get run_id (OrdMap.insert run_id new j.runs))) _ h2 in
    let there = fetched-some (OrdMap.get run_id (OrdMap.insert run_id new j.runs)) r read in
    let now_new : some new ≡ some r = sym (OrdMap.get-insert_self run_id new j.runs) ∙ there in
    let same : new ≡ r = ground (arith, now_new) in
    ap (λ (x : JournalRun). x.status) (sym (same ∙ ap (λ z. z.1) (ok-injective h3)))

module _ {W : Type 0} ⦃charge : Charge⦄ (c : Setting W) (plan : RestorePlan) where
  transition_operation-Reaches :
      (P : JournalOperation → Journal → Type 0) (id : OperationId) (state : OperationState)
      (result : Option Payload) (error : Option ErrorEnvelope) (backup : Option Text)
      (s : Session W)
      → ((r e b : Option Text) (now : ℕ) (next : Journal) (row : JournalOperation)
          → optional c.payload_text result ≡ ok r
          → optional c.error_text error ≡ ok e
          → optional (λ x. c.payload_text (Payload.backup_value x)) backup ≡ ok b
          → transition_operation_record plan.run_id id state r e b now s.journal ≡ ok (next, row)
          → Moves plan s.journal next × P row next)
      → Reaches plan P s (transition_operation c plan.run_id id state result error backup s)
  unfolding transition_operation
  transition_operation-Reaches P id state result error backup s h =
      encoded (optional c.payload_text result) (optional c.error_text error)
        (optional (λ x. c.payload_text (Payload.backup_value x)) backup)
        (λ r e b now next row. h r e b now next row)
    where
      read_again : JournalOperation → Exec W JournalOperation
      read_again row = give (c.check_operation row) >> give (ok row)

      encoded :
          (r e b : Result (Option Text))
          → ((r' e' b' : Option Text) (now : ℕ) (next : Journal) (row : JournalOperation)
              → r ≡ ok r'
              → e ≡ ok e'
              → b ≡ ok b'
              → transition_operation_record plan.run_id id state r' e' b' now s.journal
                ≡ ok (next, row)
              → Moves plan s.journal next × P row next)
          → Reaches plan P s (
              (give r >>= λ rj. give e >>= λ ej. give b >>= λ bj.
              transact c (transition_operation_record plan.run_id id state rj ej bj) >>= read_again)
                s)
      encoded stuck e b k = (Moves.stay, tt)
      encoded (err x) e b k = (Moves.stay, tt)
      encoded (ok r) stuck b k = (Moves.stay, tt)
      encoded (ok r) (err x) b k = (Moves.stay, tt)
      encoded (ok r) (ok e) stuck k = (Moves.stay, tt)
      encoded (ok r) (ok e) (err x) k = (Moves.stay, tt)
      encoded (ok r) (ok e) (ok b) k =
          then_reaches plan P P
            (transact c (transition_operation_record plan.run_id id state r e b)) read_again s
            (transact-Reaches plan c P (transition_operation_record plan.run_id id state r e b) s
              (λ now next row. k r e b now next row refl refl refl))
            λ row t _ p.
              give_then plan P (c.check_operation row) (λ done. give (ok row)) t
                λ done _. (Moves.stay, p)

  pub settled-Reaches :
      (op : Operation) (state : OperationState) (result : Option Payload)
      (error : Option ErrorEnvelope) (backup : Option Text) (s : Session W)
      → In op plan.operations
      → is_running state ≡ false
      → Reaches plan
          (IsRow op.id state)
          s
          (transition_operation c plan.run_id op.id state result error backup s)
  settled-Reaches op state result error backup s member n =
      transition_operation-Reaches (IsRow op.id state) op.id state result error backup s
        λ r e b now next row _ _ _ h. (
          Moves.move (Move.settles op state r e b now row member n h) Moves.stay,
          transition_operation_record-IsRow plan.run_id op.id state r e b now s.journal next row h,
        )

  pub started-Reaches :
      (op : Operation) (s : Session W)
      → In op plan.operations
      → ((p : OperationId) → In p op.prerequisites → IsFinished p s.journal)
      → Reaches plan
          (IsRow op.id OperationState.running)
          s
          (mark_operation_running c plan.run_id op.id s)
  unfolding mark_operation_running
  started-Reaches op s member done =
      transition_operation-Reaches (IsRow op.id OperationState.running) op.id OperationState.running
        none none none s
        λ r e b now next row hr he hb h.
          let r0 : none ≡ r = ok-injective hr in
          let e0 : none ≡ e = ok-injective he in
          let b0 : none ≡ b = ok-injective hb in
          (
            Moves.move (Move.starts op now row member done (rw (sym r0, sym e0, sym b0) at h))
                Moves.stay,
            transition_operation_record-IsRow plan.run_id op.id OperationState.running r e b now
                s.journal next row h,
          )

  pub status-Reaches :
      (status : RunStatus) (s : Session W)
      → is_running_run status ≡ false
      → Reaches plan
          (λ (row : JournalRun) j. row.status ≡ status)
          s
          (set_run_status c plan.run_id status s)
  unfolding set_run_status
  status-Reaches status s n =
      transact-Reaches plan c (λ (row : JournalRun) j. row.status ≡ status)
        (set_run_status_record plan.run_id status) s
        λ now next row h. (
          Moves.move (Move.concludes status now row n h) Moves.stay,
          set_run_status_record-status plan.run_id status now s.journal next row h,
        )
