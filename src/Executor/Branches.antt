-- ===== src/Executor/Branches.antt =====
-- The branches of the loop body of the executor, crates/reforge-restore/src/executor.rs: each goes on
-- only with the operation finished or with something that waits for the user, or returns a report
-- that is not the completed one.
use windows_component_harnes.Prelude.{
  true, false, ◌≡◌, ◌≢◌, refl, sym, ◌∙◌, inl, inr, Option, none, some, [], In, if◌then◌else◌,
}
use windows_component_harnes.Prelude.OrdMap
use windows_component_harnes.Prelude.Text.{Text, codes, text_ord}
use windows_component_harnes.Domain.Error.{ErrorEnvelope, ok, cancelled, interrupted}
use windows_component_harnes.Domain.Kinds.{OperationState, RunStatus}
use windows_component_harnes.Domain.Operation.{Operation, OperationId, RestorePlan}
use windows_component_harnes.Journal.Tables.{Journal, JournalOperation, JournalRun}
use windows_component_harnes.Journal.Transitions.{is_running, is_running_run}
use windows_component_harnes.Executor.Session.{
  ExecutionReport, Session, Setting, Handler, Exec, Payload, Detail, give, reject, either,
  transition_operation, set_run_status, mark_operation_running, report_progress, ◌>>=◌, ◌>>◌,
}
use windows_component_harnes.Executor.Checks.{
  States, is_finished, correlate_error, correlated_code_error,
}
use windows_component_harnes.Executor.Run.{
  Loop, Turn, put_state, counted, total_of, persist_failure, persist_blocked_retry, fail, report,
  stop, stop_turn, cancelled_operation_turn, settle, start, interrupted_turn, is_interrupted_run,
}
use windows_component_harnes.Executor.Moves.{Charge, IsFinished, Moves, IsFinished-Moves}
use windows_component_harnes.Executor.Reaching.{
  Reaches, reached, refused, then_reaches, either_reaches,
}
use windows_component_harnes.Executor.Leaves.{
  IsRow, settled-Reaches, started-Reaches, status-Reaches,
}

-- Handlers and the backup hook do to the journal what they are trusted to do.
pub record IsWellBehaved {W : Type 0} ⦃charge : Charge⦄ (c : Setting W) : Type 0 where
  pub satisfied :
      (h : Handler W) (op : Operation) (s : Session W)
      → In h c.handlers
      → charge.May s.journal (h.is_satisfied op s).1.journal
  pub executed :
      (h : Handler W) (op : Operation) (s : Session W)
      → In h c.handlers
      → charge.May s.journal (h.execute op s).1.journal
  pub backed_up :
      (hook : Operation → Exec W (Option Text)) (op : Operation) (s : Session W)
      → c.backup_hook ≡ some hook
      → charge.May s.journal (hook op s).1.journal

-- What the loop takes for finished is finished in the journal.
abbrev pub Tracks : States → Journal → Type 0
Tracks states j =
    (k : OperationId) (row : JournalOperation)
    → OrdMap.get k states ≡ some row
    → is_finished row.state ≡ true
    → IsFinished k j

-- What a turn on an operation leaves.
pub record IsTurn (op : Operation) (before after : Loop) (j : Journal) : Type 0 where
  pub tracks : Tracks after.states j
  pub finished : after.waiting_for_user ≡ false → IsFinished op.id j
  pub still_waiting : after.waiting_for_user ≡ false → before.waiting_for_user ≡ false

abbrev pub TurnPost : Operation → Loop → Turn → Journal → Type 0
TurnPost op before (Turn.goes_on after) j = IsTurn op before after j
TurnPost op before (Turn.returns r) j = r.status ≢ RunStatus.completed

abbrev pub NotCompleted : ExecutionReport → Journal → Type 0
NotCompleted r j = r.status ≢ RunStatus.completed

-- a start, and what the loop then keeps
abbrev pub IsStarted : Loop → JournalOperation × Loop → Journal → Type 0
IsStarted before started j =
    Tracks started.1.states j × (started.1.waiting_for_user ≡ before.waiting_for_user)

pub Tracks-Moves :
    ⦃charge : Charge⦄ (plan : RestorePlan) (states : States) (j next : Journal)
    → Moves plan j next
    → Tracks states j
    → Tracks states next
Tracks-Moves plan states j next m t k row e f = IsFinished-Moves plan j next k m (t k row e f)

pub Tracks-insert :
    (states : States) (j : Journal) (id : OperationId) (state : OperationState)
    (row : JournalOperation)
    → IsRow id state row j
    → Tracks states j
    → Tracks (OrdMap.insert id row states) j
Tracks-insert states j id state row (there, _) t k r e f =
    elim (OrdMap.get-insert_cases k id row r states e) [
      | inl (same, is_row) ↦ rw same (row, there, rw is_row f)
      | inr old ↦ t k r old f
    ]

module _ {W : Type 0} ⦃charge : Charge⦄ (c : Setting W) (plan : RestorePlan) where
  pub stop-Reaches :
      (status : RunStatus) (s : Session W)
      → is_running_run status ≡ false
      → Reaches plan (λ (r : ExecutionReport) j. r.status ≡ status) s (stop c plan status s)
  unfolding stop report
  stop-Reaches status s n =
      then_reaches plan (λ (run : JournalRun) j. run.status ≡ status)
        (λ (r : ExecutionReport) j. r.status ≡ status) (set_run_status c plan.run_id status)
        (λ run. report c plan run.status) s (status-Reaches c plan status s n)
        λ run t _ same. (Moves.stay, same)

module _ {W : Type 0} ⦃charge : Charge⦄ (c : Setting W) (plan : RestorePlan) (op : Operation)
    (member : In op plan.operations) where
  pub persist_failure-Reaches :
      {A : Type 0} (P : A → Journal → Type 0) (error : ErrorEnvelope) (backup : Option Text)
      (s : Session W)
      → Reaches plan P s (persist_failure c plan op error backup s)
  unfolding persist_failure
  persist_failure-Reaches P error backup s =
      then_reaches plan (IsRow op.id OperationState.failed) P
        (transition_operation c plan.run_id op.id OperationState.failed none
          (some (correlate_error op error)) backup)
        (λ row. set_run_status c plan.run_id RunStatus.failed >>= λ (run : JournalRun).
          reject (correlate_error op error))
        s
        (settled-Reaches c plan op OperationState.failed none (some (correlate_error op error))
          backup s member refl)
        λ row t _ _.
          then_reaches plan (λ (run : JournalRun) j. run.status ≡ RunStatus.failed) P
            (set_run_status c plan.run_id RunStatus.failed)
            (λ run. reject (correlate_error op error)) t
            (status-Reaches c plan RunStatus.failed t refl)
            λ run u _ _. refused plan P u (correlate_error op error)

  pub persist_blocked_retry-Reaches :
      {A : Type 0} (P : A → Journal → Type 0) (error : ErrorEnvelope) (s : Session W)
      → Reaches plan P s (persist_blocked_retry c plan op error s)
  unfolding persist_blocked_retry
  persist_blocked_retry-Reaches P error s =
      then_reaches plan (IsRow op.id OperationState.failed) P
        (transition_operation c plan.run_id op.id OperationState.failed (some Payload.blocked_retry)
          (some (correlate_error op error)) none)
        (λ row. set_run_status c plan.run_id RunStatus.waiting_for_user >>= λ (run : JournalRun).
          reject (correlate_error op error))
        s
        (settled-Reaches c plan op OperationState.failed (some Payload.blocked_retry)
          (some (correlate_error op error)) none s member refl)
        λ row t _ _.
          then_reaches plan (λ (run : JournalRun) j. run.status ≡ RunStatus.waiting_for_user) P
            (set_run_status c plan.run_id RunStatus.waiting_for_user)
            (λ run. reject (correlate_error op error)) t
            (status-Reaches c plan RunStatus.waiting_for_user t refl)
            λ run u _ _. refused plan P u (correlate_error op error)

  pub stop_turn-Reaches :
      (before : Loop) (status : RunStatus) (s : Session W)
      → is_running_run status ≡ false
      → status ≢ RunStatus.completed
      → Reaches plan (TurnPost op before) s (stop_turn c plan status s)
  unfolding stop_turn
  stop_turn-Reaches before status s n other =
      then_reaches plan (λ (r : ExecutionReport) j. r.status ≡ status) (TurnPost op before)
        (stop c plan status) (λ r. give (ok (Turn.returns r))) s (stop-Reaches c plan status s n)
        λ r t _ same. (Moves.stay, λ done. other (sym same ∙ done))

  pub cancelled_operation_turn-Reaches :
      (before : Loop) (backup : Option Text) (s : Session W)
      → Reaches plan (TurnPost op before) s (cancelled_operation_turn c plan op backup s)
  unfolding cancelled_operation_turn
  cancelled_operation_turn-Reaches before backup s =
      let payload = Payload.outcome_payload Detail.cancelled_reason [] (some (codes "CANCELLED")) in
      let error = correlated_code_error op cancelled in
      then_reaches plan (IsRow op.id OperationState.cancelled) (TurnPost op before)
        (transition_operation c plan.run_id op.id OperationState.cancelled (some payload)
          (some error) backup)
        (λ row. stop_turn c plan RunStatus.cancelled) s
        (settled-Reaches c plan op OperationState.cancelled (some payload) (some error) backup s
          member refl)
        λ row t _ _. stop_turn-Reaches before RunStatus.cancelled t refl (λ e. cc (e))

  pub interrupted_turn-Reaches :
      (before : Loop) (backup : Option Text) (error : ErrorEnvelope) (s : Session W)
      → Reaches plan (TurnPost op before) s (interrupted_turn c plan op backup error s)
  unfolding interrupted_turn
  interrupted_turn-Reaches before backup error s =
      let which : JournalRun → ErrorEnvelope = λ run.
        if is_interrupted_run run.status then error else correlated_code_error op interrupted in
      then_reaches plan (IsRow op.id OperationState.interrupted) (TurnPost op before)
        (transition_operation c plan.run_id op.id OperationState.interrupted none (some error)
          backup)
        (λ row. set_run_status c plan.run_id RunStatus.interrupted >>= λ (run : JournalRun).
          reject (which run))
        s
        (settled-Reaches c plan op OperationState.interrupted none (some error) backup s member
          refl)
        λ row t _ _.
          then_reaches plan (λ (run : JournalRun) j. run.status ≡ RunStatus.interrupted)
            (TurnPost op before) (set_run_status c plan.run_id RunStatus.interrupted)
            (λ run. reject (which run)) t (status-Reaches c plan RunStatus.interrupted t refl)
            λ run u _ _. refused plan (TurnPost op before) u (which run)

  pub settle-Reaches :
      (state : OperationState) (payload : Option Payload) (before l : Loop) (s : Session W)
      → is_finished state ≡ true
      → is_running state ≡ false
      → l.waiting_for_user ≡ before.waiting_for_user
      → Tracks l.states s.journal
      → Reaches plan (TurnPost op before) s (settle c plan op state payload l s)
  unfolding settle
  settle-Reaches state payload before l s f n same t =
      let next : JournalOperation → Loop = λ row. counted (put_state op row l) in
      then_reaches plan (IsRow op.id state) (TurnPost op before)
        (transition_operation c plan.run_id op.id state payload none none)
        (λ row.
          report_progress c op state (next row).completed (total_of plan)
          >> give (ok (Turn.goes_on (next row))))
        s (settled-Reaches c plan op state payload none none s member n)
        λ row u m there. (
          Moves.stay,
          record {
            tracks =
                Tracks-insert l.states u.journal op.id state row there
                  (Tracks-Moves plan l.states s.journal u.journal m t);
            finished = λ _. (row, there.0, rw there.1 f);
            still_waiting = λ e. sym same ∙ e;
          },
        )

  pub start-Reaches :
      (before : Loop) (s : Session W)
      → Tracks before.states s.journal
      → ((p : OperationId) → In p op.prerequisites → IsFinished p s.journal)
      → Reaches plan (IsStarted before) s (start c plan op before s)
  unfolding start
  start-Reaches before s t done =
      let marked = mark_operation_running c plan.run_id op.id in
      then_reaches plan (IsRow op.id OperationState.running) (IsStarted before)
        (either marked (fail c plan op none) (λ row. give (ok row)))
        (λ row.
          report_progress c op OperationState.running before.completed (total_of plan)
          >> give (ok (row, put_state op row before)))
        s
        (either_reaches plan (IsRow op.id OperationState.running)
          (IsRow op.id OperationState.running) marked (fail c plan op none) (λ row. give (ok row)) s
          (started-Reaches c plan op s member done)
          (λ e u _. persist_failure-Reaches (IsRow op.id OperationState.running) e none u)
          (λ row u _ there. reached plan (IsRow op.id OperationState.running) u row there))
        λ row u m there. (
          Moves.stay,
          (
            Tracks-insert before.states u.journal op.id OperationState.running row there
                (Tracks-Moves plan before.states s.journal u.journal m t),
            refl,
          ),
        )
