-- ===== src/Executor/Handling.antt =====
-- Running an operation's handler, crates/reforge-restore/src/executor.rs: from the choice of the
-- handler to the record of its outcome.
use windows_component_harnes.Prelude.{
  ℕ, Bool, true, false, not, ◌&&◌, ◌≡◌, refl, sym, ap, ◌∙◌, inl, inr, Option, none, some, List, [],
  ◌∷◌, In, arith, Bool-cases, if◌then◌else◌,
}
use windows_component_harnes.Prelude.OrdMap
use windows_component_harnes.Prelude.Text.{Text, codes, text_ord}
use windows_component_harnes.Domain.Error.{
  operation_failed, coded_error, ok-injective, Result, ok, err, stuck,
}
use windows_component_harnes.Domain.Kinds.{OperationState, RunStatus}
use windows_component_harnes.Domain.Operation.{Operation, OperationKind, RestorePlan}
use windows_component_harnes.Journal.Tables.{JournalManualAction, JournalOperation}
use windows_component_harnes.Journal.Transitions.{is_running}
use windows_component_harnes.Executor.Session.{
  OperationDisposition, OperationOutcome, OperationSatisfaction, Session, Setting, Handler, Exec,
  Payload, give, either, transition_operation, report_progress, ask_cancelled, ◌>>=◌, ◌>>◌,
}
use windows_component_harnes.Executor.Queue.{is_open_manual_action, queue_blocked_operation_action}
use windows_component_harnes.Executor.Checks.{is_finished, handler_for, select_handler}
use windows_component_harnes.Executor.Run.{
  Loop, Turn, put_state, counted, waiting, total_of, detail_of, disposition_reason,
  disposition_state, disposition_error, is_waiting, may_continue, fail, stop_turn,
  cancelled_operation_turn, start, combine_backup,
}
use windows_component_harnes.Executor.Turns.{
  after_outcome, queue_if_blocked, record_outcome, handler_failed, prepare_backup, run_handler,
  satisfied_or_run, handle_operation,
}
use windows_component_harnes.Executor.Moves.{Charge, IsFinished, Move, Moves, Moves-trans}
use windows_component_harnes.Executor.Reaching.{
  Post, Anything, Reaches, then_reaches, either_reaches,
}
use windows_component_harnes.Executor.Leaves.{IsRow, settled-Reaches}
use windows_component_harnes.Executor.Branches.{
  IsWellBehaved, Tracks, Tracks-insert, Tracks-Moves, TurnPost, IsStarted, persist_failure-Reaches,
  stop_turn-Reaches, cancelled_operation_turn-Reaches, settle-Reaches, start-Reaches,
}
use windows_component_harnes.Executor.Execution.{
  IsReady, IsReady-Moves, if_reaches, ask-Reaches, handler_failed-Reaches,
}
use windows_component_harnes.Executor.Queueing.{queue_blocked_operation_action-Reaches}

module _ {W : Type 0} ⦃charge : Charge⦄ (c : Setting W) (plan : RestorePlan) where
  -- A call outside that keeps to the transactions of the journal.
  outside-Reaches :
      {A : Type 0} (m : Exec W A) (s : Session W)
      → charge.May s.journal (m s).1.journal
      → Reaches plan (Anything {A = A}) s (m s)
  outside-Reaches {A = A} m s h = (Moves.move (Move.handles h) Moves.stay, any (m s).0)
    where
      any : (r : Result A) → Post (Anything {A = A}) r (m s).1.journal
      any (ok a) = tt
      any (err e) = tt
      any stuck = tt

  some-injective : {x y : Handler W} → some x ≡ some y → x ≡ y
  some-injective e = cc (e)

  select_handler-In :
      (kind : OperationKind) (hs : List (Handler W)) (selected : Option (Handler W)) (h : Handler W)
      → ((g : Handler W) → In g hs → In g c.handlers)
      → ((g : Handler W) → selected ≡ some g → In g c.handlers)
      → select_handler c kind hs selected ≡ ok (some h)
      → In h c.handlers
  unfolding select_handler
  select_handler-In kind [] selected h sub old e = old h (ok-injective e)
  select_handler-In kind (g ∷ hs) none h sub old e = elim (Bool-cases (g.handles kind)) [
    | inr n ↦ select_handler-In kind hs none h (λ f i. sub f (inr i)) old (rw n at e)
    | inl y ↦
        select_handler-In kind hs (some g) h (λ f i. sub f (inr i))
          (λ f same. rw (some-injective same) at (sub g (inl refl))) (rw y at e)
  ]
  select_handler-In kind (g ∷ hs) (some f) h sub old e = elim (Bool-cases (g.handles kind)) [
    | inr n ↦ select_handler-In kind hs (some f) h (λ f i. sub f (inr i)) old (rw n at e)
    | inl y ↦ cc (rw y at e)
  ]

  pub handler_for-In :
      (kind : OperationKind) (h : Handler W) → handler_for c kind ≡ ok h → In h c.handlers
  unfolding handler_for
  handler_for-In kind h e =
      select_handler-In kind c.handlers none h (λ g i. i) (λ g same. cc (same))
        (picked (select_handler c kind c.handlers none) e)
    where
      picked :
          (r : Result (Option (Handler W)))
          → elim r [
            | ok (some g) ↦ ok g
            | ok none ↦ err (coded_error operation_failed none none)
            | err x ↦ err x
            | stuck ↦ stuck
          ]
            ≡ ok h
          → r ≡ ok (some h)
      picked (ok (some g)) e = ap ok (ap some (ok-injective e))
      picked (ok none) e = cc (e)
      picked (err x) e = cc (e)
      picked stuck e = cc (e)

  module _ (good : IsWellBehaved c) (op : Operation) (member : In op plan.operations)
      (before : Loop) where
    after_outcome-Reaches :
        (d : OperationDisposition) (l : Loop) (s : Session W)
        → Tracks l.states s.journal
        → (is_finished (disposition_state d) ≡ true → IsFinished op.id s.journal)
        → l.waiting_for_user ≡ before.waiting_for_user
        → Reaches plan (TurnPost op before) s (after_outcome c plan op d l s)
    after_outcome-Reaches OperationDisposition.completed l s t f same = (
      Moves.stay,
      record { tracks = t; finished = λ _. f refl; still_waiting = λ e. sym same ∙ e },
    )
    after_outcome-Reaches OperationDisposition.skipped l s t f same = (
      Moves.stay,
      record { tracks = t; finished = λ _. f refl; still_waiting = λ e. sym same ∙ e },
    )
    after_outcome-Reaches OperationDisposition.waiting_for_user l s t f same =
        if_reaches plan (TurnPost op before) (not (may_continue op.kind))
          (stop_turn c plan RunStatus.waiting_for_user) (give (ok (Turn.goes_on (waiting l)))) s
          (λ _.
            stop_turn-Reaches c plan op member before RunStatus.waiting_for_user s refl
              (λ e. cc (e)))
          (λ _. (
            Moves.stay,
            record { tracks = t; finished = λ e. cc (e); still_waiting = λ e. cc (e) },
          ))
    after_outcome-Reaches OperationDisposition.waiting_for_reboot l s t f same =
        stop_turn-Reaches c plan op member before RunStatus.waiting_for_reboot s refl (λ e. cc (e))
    after_outcome-Reaches OperationDisposition.cancelled l s t f same =
        stop_turn-Reaches c plan op member before RunStatus.cancelled s refl (λ e. cc (e))

    queue_if_blocked-Reaches :
        (attempt : ℕ) (backup : Option Text) (outcome : OperationOutcome) (s : Session W)
        → Reaches plan Anything s (queue_if_blocked c plan op attempt backup outcome s)
    unfolding queue_if_blocked
    queue_if_blocked-Reaches attempt backup outcome s =
        let queue = queue_blocked_operation_action c plan.run_id op attempt outcome.result in
        let put : Exec W JournalManualAction =
          either queue (fail c plan op backup) (λ a. give (ok a)) in
        if_reaches plan Anything
          (is_waiting outcome.disposition && not (is_open_manual_action op.kind))
          (put >>= λ row. give (ok tt)) (give (ok tt)) s
          (λ _.
            then_reaches plan Anything Anything put (λ row. give (ok tt)) s
              (either_reaches plan Anything Anything queue (fail c plan op backup)
                (λ a. give (ok a)) s
                (queue_blocked_operation_action-Reaches c plan op attempt outcome.result s)
                (λ e t _. persist_failure-Reaches c plan op member Anything e backup t)
                (λ a t _ _. (Moves.stay, tt)))
              λ row t _ _. (Moves.stay, tt))
          (λ _. (Moves.stay, tt))

    disposition_state-runs : (d : OperationDisposition) → is_running (disposition_state d) ≡ false
    disposition_state-runs d = ground arith

    next-keeps :
        (b : Bool) (row : JournalOperation) (l : Loop)
        → ((if b then counted (put_state op row l) else put_state op row l).states
            ≡ OrdMap.insert op.id row l.states)
          × ((if b then counted (put_state op row l) else put_state op row l).waiting_for_user
              ≡ l.waiting_for_user)
    next-keeps true row l = (refl, refl)
    next-keeps false row l = (refl, refl)

    record_outcome-Reaches :
        (attempt : ℕ) (backup : Option Text) (l : Loop) (outcome : OperationOutcome) (s : Session W)
        → Tracks l.states s.journal
        → l.waiting_for_user ≡ before.waiting_for_user
        → Reaches plan (TurnPost op before) s (record_outcome c plan op attempt backup l outcome s)
    unfolding record_outcome
    record_outcome-Reaches attempt backup l outcome s t same =
        let d = outcome.disposition in
        let state = disposition_state d in
        let payload =
          Payload.outcome_payload (detail_of outcome.result) outcome.evidence
            (disposition_reason d) in
        let store : Exec W JournalOperation =
          transition_operation c plan.run_id op.id state (some payload) (disposition_error op d)
            (combine_backup c plan backup outcome.backup) in
        let next : JournalOperation → Loop =
          λ row. if is_finished state then counted (put_state op row l) else put_state op row l in
        let after : JournalOperation → Exec W Turn = λ row.
          report_progress c op state (next row).completed (total_of plan)
          >> after_outcome c plan op d (next row) in
        then_reaches plan Anything (TurnPost op before)
          (queue_if_blocked c plan op attempt backup outcome) (λ done. store >>= after) s
          (queue_if_blocked-Reaches attempt backup outcome s)
          λ _ u m _.
            then_reaches plan (IsRow op.id state) (TurnPost op before) store after u
              (settled-Reaches c plan op state (some payload) (disposition_error op d)
                (combine_backup c plan backup outcome.backup) u member (disposition_state-runs d))
              λ row v n there.
                let tracked : Tracks (OrdMap.insert op.id row l.states) v.journal =
                  Tracks-insert l.states v.journal op.id state row there (
                    Tracks-Moves plan l.states s.journal v.journal
                      (Moves-trans plan s.journal u.journal v.journal m n) t) in
                let (same_states, same_waiting) = next-keeps (is_finished state) row l in
                let told = report_progress c op state (next row).completed (total_of plan) v in
                after_outcome-Reaches d (next row) told.1 (rw same_states tracked)
                  (λ f. (row, there.0, rw there.1 f)) (same_waiting ∙ same)

    run_handler-Reaches :
        (h : Handler W) (s : Session W)
        → In h c.handlers
        → Tracks before.states s.journal
        → IsReady op s.journal
        → Reaches plan (TurnPost op before) s (run_handler c plan op h before s)
    unfolding run_handler
    run_handler-Reaches h s known t r =
        let call : Option Text → JournalOperation × Loop → Exec W Turn = λ backup started.
          either (h.execute op) (handler_failed c plan op backup)
            (record_outcome c plan op started.0.attempt backup started.1) in
        let ask : JournalOperation × Loop → Option Text → Exec W Turn = λ started backup.
          ask_cancelled c >>= λ stopped.
          if stopped then cancelled_operation_turn c plan op backup else call backup started in
        then_reaches plan (IsStarted before) (TurnPost op before) (start c plan op before)
          (λ started. prepare_backup c plan op c.backup_hook >>= ask started) s
          (start-Reaches c plan op member before s t r)
          λ started u m (t', same).
            then_reaches plan Anything (TurnPost op before) (prepare_backup c plan op c.backup_hook)
              (ask started) u (backup-Reaches c.backup_hook u refl)
              λ backup v n _.
                then_reaches plan Anything (TurnPost op before) (ask_cancelled c)
                  (λ stopped.
                    if stopped
                    then cancelled_operation_turn c plan op backup
                    else call backup started)
                  v (ask-Reaches c plan v)
                  λ stopped w o _.
                    if_reaches plan (TurnPost op before) stopped
                      (cancelled_operation_turn c plan op backup) (call backup started) w
                      (λ _. cancelled_operation_turn-Reaches c plan op member before backup w)
                      λ _.
                        either_reaches plan Anything (TurnPost op before) (h.execute op)
                          (handler_failed c plan op backup)
                          (record_outcome c plan op started.0.attempt backup started.1) w
                          (outside-Reaches (h.execute op) w (good.executed h op w known))
                          (λ e x _. handler_failed-Reaches c plan op member before backup e x)
                          λ outcome x p _.
                            record_outcome-Reaches started.0.attempt backup started.1 outcome x
                              (Tracks-Moves plan started.1.states u.journal x.journal
                                (Moves-trans plan u.journal v.journal x.journal n
                                  (Moves-trans plan v.journal w.journal x.journal o p))
                                t')
                              same
      where
        backup-Reaches :
            (hook : Option (Operation → Exec W (Option Text))) (u : Session W)
            → c.backup_hook ≡ hook
            → Reaches plan Anything u (prepare_backup c plan op hook u)
        backup-Reaches none u e = (Moves.stay, tt)
        backup-Reaches (some hook) u e =
            either_reaches plan Anything Anything (hook op) (fail c plan op none) (λ a. give (ok a))
              u (outside-Reaches (hook op) u (good.backed_up hook op u e))
              (λ x v _. persist_failure-Reaches c plan op member Anything x none v)
              (λ a v _ _. (Moves.stay, tt))

    satisfied_or_run-Reaches :
        (h : Handler W) (sat : OperationSatisfaction) (s : Session W)
        → In h c.handlers
        → Tracks before.states s.journal
        → IsReady op s.journal
        → Reaches plan (TurnPost op before) s (satisfied_or_run c plan op h before sat s)
    satisfied_or_run-Reaches h OperationSatisfaction.not_satisfied s known t r =
        run_handler-Reaches h s known t r
    satisfied_or_run-Reaches h (OperationSatisfaction.satisfied result evidence) s known t r =
        settle-Reaches c plan op member OperationState.skipped
          (some (
            Payload.outcome_payload (detail_of result) evidence
              (some (codes "SKIPPED_ALREADY_SATISFIED"))))
          before before s refl refl refl t

    pub handle_operation-Reaches :
        (s : Session W)
        → Tracks before.states s.journal
        → IsReady op s.journal
        → Reaches plan (TurnPost op before) s (handle_operation c plan op before s)
    unfolding handle_operation
    handle_operation-Reaches s t r =
        let choose : Exec W (Handler W) =
          either (give (handler_for c op.kind)) (fail c plan op none) (λ a. give (ok a)) in
        let satisfied : Handler W → Exec W OperationSatisfaction =
          λ h. either (h.is_satisfied op) (fail c plan op none) (λ a. give (ok a)) in
        let last : Handler W → OperationSatisfaction → Exec W Turn = λ h sat.
          ask_cancelled c >>= λ stopped.
          if stopped
          then stop_turn c plan RunStatus.cancelled
          else satisfied_or_run c plan op h before sat in
        then_reaches plan (λ (h : Handler W) j. In h c.handlers) (TurnPost op before) choose
          (λ h. satisfied h >>= last h) s (chosen (handler_for c op.kind) refl)
          λ h u m known.
            then_reaches plan Anything (TurnPost op before) (satisfied h) (last h) u
              (either_reaches plan Anything Anything (h.is_satisfied op) (fail c plan op none)
                (λ a. give (ok a)) u
                (outside-Reaches (h.is_satisfied op) u (good.satisfied h op u known))
                (λ e v _. persist_failure-Reaches c plan op member Anything e none v)
                (λ a v _ _. (Moves.stay, tt)))
              λ sat v n _.
                then_reaches plan Anything (TurnPost op before) (ask_cancelled c)
                  (λ stopped.
                    if stopped
                    then stop_turn c plan RunStatus.cancelled
                    else satisfied_or_run c plan op h before sat)
                  v (ask-Reaches c plan v)
                  λ stopped w o _.
                    let path =
                      Moves-trans plan s.journal u.journal w.journal m
                        (Moves-trans plan u.journal v.journal w.journal n o) in
                    if_reaches plan (TurnPost op before) stopped
                      (stop_turn c plan RunStatus.cancelled)
                      (satisfied_or_run c plan op h before sat) w
                      (λ _.
                        stop_turn-Reaches c plan op member before RunStatus.cancelled w refl
                          (λ e. cc (e)))
                      λ _.
                        satisfied_or_run-Reaches h sat w known
                          (Tracks-Moves plan before.states s.journal w.journal path t)
                          (IsReady-Moves plan op s.journal w.journal path r)
      where
        chosen :
            (x : Result (Handler W))
            → handler_for c op.kind ≡ x
            → Reaches plan
                (λ (h : Handler W) j. In h c.handlers)
                s
                (either (give x) (fail c plan op none) (λ a. give (ok a)) s)
        chosen (ok h) e = (Moves.stay, handler_for-In op.kind h e)
        chosen (err e) f =
            persist_failure-Reaches c plan op member (λ (h : Handler W) j. In h c.handlers) e none s
        chosen stuck e = (Moves.stay, tt)
