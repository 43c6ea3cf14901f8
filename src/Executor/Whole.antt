-- ===== src/Executor/Whole.antt =====
-- `execute_with_progress` of crates/reforge-restore/src/executor.rs: an execution changes the journal
-- by permitted moves only, and reports a completed run only when every operation is finished.
use windows_component_harnes.Prelude.{
  not, ◌&&◌, ◌||◌, ◌≡◌, refl, Option, none, some, List, [], In, arith, if◌then◌else◌, ltb,
}
use windows_component_harnes.Prelude.OrdMap
use windows_component_harnes.Prelude.Text.{Text, codes, text_ord}
use windows_component_harnes.Domain.Error.{ok, operation_failed, schema_invalid, security_policy}
use windows_component_harnes.Domain.Kinds.{ManualActionState, OperationState, RunStatus}
use windows_component_harnes.Domain.Operation.{Operation, RestorePlan}
use windows_component_harnes.Journal.Tables.{JournalOperation}
use windows_component_harnes.Journal.Transitions.{is_pending}
use windows_component_harnes.Executor.Session.{
  Session, Setting, Exec, Payload, Detail, give, reject, read, report_progress, ask_cancelled,
  ◌>>=◌, ◌>>◌,
}
use windows_component_harnes.Executor.Queue.{blocked_operation_action_state, complete_action}
use windows_component_harnes.Executor.Checks.{
  is_finished, correlated_code_error, precondition_error, prerequisites_complete,
  has_waiting_for_user_prerequisite, approved_manual_actions, precondition_satisfied,
}
use windows_component_harnes.Executor.Run.{
  Loop, Turn, counted, waiting, total_of, fail, persist_blocked_retry, stop_turn, run_verification,
}
use windows_component_harnes.Executor.Turns.{
  handle_operation, is_verify, complete_blocker, attempt_operation, with_prerequisites, by_blocker,
  execute_operation,
}
use windows_component_harnes.Executor.Moves.{Charge, Moves, Moves-trans}
use windows_component_harnes.Executor.Reaching.{Anything, Reaches, then_reaches, either_reaches}
use windows_component_harnes.Executor.Branches.{
  IsWellBehaved, Tracks, Tracks-Moves, IsTurn, TurnPost, persist_failure-Reaches,
  persist_blocked_retry-Reaches, stop_turn-Reaches, settle-Reaches,
}
use windows_component_harnes.Executor.Execution.{
  IsReady, IsReady-Moves, prerequisites-IsReady, if_reaches, ask-Reaches, run_verification-Reaches,
}
use windows_component_harnes.Executor.Queueing.{
  complete_action-Reaches, blocked_operation_action_state-Reaches,
}
use windows_component_harnes.Executor.Handling.{handle_operation-Reaches}

module _ {W : Type 0} ⦃charge : Charge⦄ (c : Setting W) (plan : RestorePlan)
    (good : IsWellBehaved c) where
  module _ (op : Operation) (member : In op plan.operations) (before : Loop) where
    complete_blocker-Reaches :
        (blocker : Option Text) (s : Session W)
        → Reaches plan Anything s (complete_blocker c plan op blocker s)
    complete_blocker-Reaches none s = (Moves.stay, tt)
    complete_blocker-Reaches (some id) s =
        let complete : Exec W (Unit {0}) =
          complete_action c plan.run_id id >>= λ row. give (ok tt) in
        either_reaches plan Anything Anything complete (fail c plan op none) (λ a. give (ok a)) s
          (then_reaches plan Anything Anything (complete_action c plan.run_id id)
            (λ row. give (ok tt)) s (complete_action-Reaches c plan id s)
            λ row t _ _. (Moves.stay, tt))
          (λ e t _. persist_failure-Reaches c plan op member Anything e none t)
          (λ a t _ _. (Moves.stay, tt))

    attempt_operation-Reaches :
        (persisted : JournalOperation) (blocker : Option Text) (s : Session W)
        → Tracks before.states s.journal
        → IsReady op s.journal
        → Reaches plan
            (TurnPost op before)
            s
            (attempt_operation c plan op persisted blocker before s)
    unfolding attempt_operation
    attempt_operation-Reaches persisted blocker s t r =
        let work : Exec W Turn =
          if is_verify c plan op.kind
          then run_verification c plan op before
          else handle_operation c plan op before in
        let run : Exec W Turn = complete_blocker c plan op blocker >>= λ done. work in
        let retry : Exec W Turn =
          if op.non_idempotent && (not (is_pending persisted.state) || ltb 0 persisted.attempt)
          then persist_blocked_retry c plan op (correlated_code_error op security_policy)
          else run in
        let tested : List Text → Exec W Turn = λ approved.
          if not (precondition_satisfied c op.precondition approved)
          then fail c plan op none (precondition_error op)
          else retry in
        let go_on : Exec W Turn = read (approved_manual_actions plan.run_id) >>= tested in
        then_reaches plan Anything (TurnPost op before) (ask_cancelled c)
          (λ stopped. if stopped then stop_turn c plan RunStatus.cancelled else go_on) s
          (ask-Reaches c plan s)
          λ stopped u m _.
            if_reaches plan (TurnPost op before) stopped (stop_turn c plan RunStatus.cancelled)
              go_on u
              (λ _.
                stop_turn-Reaches c plan op member before RunStatus.cancelled u refl (λ e. cc (e)))
              λ _.
                then_reaches plan Anything (TurnPost op before)
                  (read (approved_manual_actions plan.run_id)) tested u (Moves.stay, tt)
                  λ approved v n _.
                    if_reaches plan (TurnPost op before)
                      (not (precondition_satisfied c op.precondition approved))
                      (fail c plan op none (precondition_error op)) retry v
                      (λ _.
                        persist_failure-Reaches c plan op member (TurnPost op before)
                          (precondition_error op) none v)
                      λ _.
                        if_reaches plan (TurnPost op before)
                          (op.non_idempotent
                            && (not (is_pending persisted.state) || ltb 0 persisted.attempt))
                          (persist_blocked_retry c plan op
                            (correlated_code_error op security_policy))
                          run v
                          (λ _.
                            persist_blocked_retry-Reaches c plan op member (TurnPost op before)
                              (correlated_code_error op security_policy) v)
                          λ _.
                            then_reaches plan Anything (TurnPost op before)
                              (complete_blocker c plan op blocker) (λ done. work) v
                              (complete_blocker-Reaches blocker v)
                              λ _ w o _.
                                let path =
                                  Moves-trans plan s.journal u.journal w.journal m
                                    (Moves-trans plan u.journal v.journal w.journal n o) in
                                let t' =
                                  Tracks-Moves plan before.states s.journal w.journal path t in
                                let r' = IsReady-Moves plan op s.journal w.journal path r in
                                if_reaches plan (TurnPost op before) (is_verify c plan op.kind)
                                  (run_verification c plan op before)
                                  (handle_operation c plan op before) w
                                  (λ _. run_verification-Reaches c plan op member before w t' r')
                                  (λ _.
                                    handle_operation-Reaches c plan good op member before w t' r')

    waits :
        (s : Session W)
        → Tracks before.states s.journal
        → IsTurn op before (waiting before) s.journal
    waits s t = record { tracks = t; finished = λ e. cc (e); still_waiting = λ e. cc (e) }

    with_prerequisites-Reaches :
        (persisted : JournalOperation) (blocker : Option Text) (s : Session W)
        → Tracks before.states s.journal
        → Reaches plan
            (TurnPost op before)
            s
            (with_prerequisites c plan op persisted blocker before s)
    unfolding with_prerequisites
    with_prerequisites-Reaches persisted blocker s t =
        let incomplete : Exec W Turn =
          if has_waiting_for_user_prerequisite op before.states
          then give (ok (Turn.goes_on (waiting before)))
          else fail c plan op none (correlated_code_error op operation_failed) in
        if_reaches plan (TurnPost op before) (not (prerequisites_complete op before.states))
          incomplete (attempt_operation c plan op persisted blocker before) s
          (λ _.
            if_reaches plan (TurnPost op before)
              (has_waiting_for_user_prerequisite op before.states)
              (give (ok (Turn.goes_on (waiting before))))
              (fail c plan op none (correlated_code_error op operation_failed)) s
              (λ _. (Moves.stay, waits s t))
              (λ _.
                persist_failure-Reaches c plan op member (TurnPost op before)
                  (correlated_code_error op operation_failed) none s))
          λ h.
            attempt_operation-Reaches persisted blocker s t
              (prerequisites-IsReady op before.states s.journal t (ground (arith, h)))

    by_blocker-Reaches :
        (persisted : JournalOperation) (o : Option (Text × ManualActionState)) (s : Session W)
        → Tracks before.states s.journal
        → Reaches plan (TurnPost op before) s (by_blocker c plan op persisted before o s)
    unfolding by_blocker
    by_blocker-Reaches persisted none s t = with_prerequisites-Reaches persisted none s t
    by_blocker-Reaches persisted (some (id, ManualActionState.pending)) s t =
        (Moves.stay, waits s t)
    by_blocker-Reaches persisted (some (id, ManualActionState.skipped)) s t =
        settle-Reaches c plan op member OperationState.skipped
          (some (
            Payload.outcome_payload (Detail.manual_action_skipped id) []
              (some (codes "SKIPPED_BY_USER"))))
          before before s refl refl refl t
    by_blocker-Reaches persisted (some (id, ManualActionState.acknowledged)) s t =
        with_prerequisites-Reaches persisted (some id) s t
    by_blocker-Reaches persisted (some (id, ManualActionState.completed)) s t =
        with_prerequisites-Reaches persisted none s t

    abbrev turn_on : Option JournalOperation → Exec W Turn
    turn_on none = reject (correlated_code_error op schema_invalid)
    turn_on (some persisted) =
        if is_finished persisted.state
        then (report_progress c op persisted.state (counted before).completed (total_of plan)
            >> give (ok (Turn.goes_on (counted before))))
        else (blocked_operation_action_state c plan.run_id op persisted
            >>= by_blocker c plan op persisted before)

    turn_on-Reaches :
        (o : Option JournalOperation) (s : Session W)
        → OrdMap.get op.id before.states ≡ o
        → Tracks before.states s.journal
        → Reaches plan (TurnPost op before) s (turn_on o s)
    turn_on-Reaches none s e t = (Moves.stay, tt)
    turn_on-Reaches (some persisted) s e t =
        if_reaches plan (TurnPost op before) (is_finished persisted.state)
          (report_progress c op persisted.state (counted before).completed (total_of plan)
            >> give (ok (Turn.goes_on (counted before))))
          (blocked_operation_action_state c plan.run_id op persisted
            >>= by_blocker c plan op persisted before)
          s
          (λ f. (
            Moves.stay,
            record { tracks = t; finished = λ _. t op.id persisted e f; still_waiting = λ w. w },
          ))
          λ _.
            then_reaches plan Anything (TurnPost op before)
              (blocked_operation_action_state c plan.run_id op persisted)
              (by_blocker c plan op persisted before) s
              (blocked_operation_action_state-Reaches c plan op persisted s)
              λ o u m _.
                by_blocker-Reaches persisted o u
                  (Tracks-Moves plan before.states s.journal u.journal m t)

    pub execute_operation-Reaches :
        (s : Session W)
        → Tracks before.states s.journal
        → Reaches plan (TurnPost op before) s (execute_operation c plan op before s)
    unfolding execute_operation
    execute_operation-Reaches s t = turn_on-Reaches (OrdMap.get op.id before.states) s refl t
