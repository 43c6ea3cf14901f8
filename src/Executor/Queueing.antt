-- ===== src/Executor/Queueing.antt =====
-- The calls of the executor, crates/reforge-restore/src/executor.rs, on the queue of manual actions:
-- each is a move.
use windows_component_harnes.Prelude.{◌||◌, ℕ, not, Option, none, some, List, length, ltb}
use windows_component_harnes.Prelude.Order.{◌==◌}
use windows_component_harnes.Prelude.Text.{Text, text_ord}
use windows_component_harnes.Domain.Error.{
  ErrorEnvelope, Result, ok, err, stuck, coded_error, reject_if, security_policy,
}
use windows_component_harnes.Domain.Kinds.{ManualActionState}
use windows_component_harnes.Domain.Operation.{ManualAction, Operation, RestorePlan}
use windows_component_harnes.Journal.Tables.{JournalManualAction, JournalOperation}
use windows_component_harnes.Journal.Manual.{set_manual_action_state_record}
use windows_component_harnes.Journal.Adding.{
  safe_manual_text, safe_instructions, max_manual_instructions, add_manual_action_record,
}
use windows_component_harnes.Executor.Session.{
  Session, Setting, Exec, give, reject, read, either, transact, ◌>>=◌, ◌>>◌,
}
use windows_component_harnes.Executor.Queue.{
  safe_action_id, normalize_manual_action, get_action, match_or, create_action, complete_action,
  list_manual_actions, find_action, ensure_matches, operation_blocker_action_id,
  operation_blocker_action, queue_blocked_operation_action, blocked_operation_action_state,
  is_open_manual_action, waits_for_user, with_state,
}
use windows_component_harnes.Executor.Moves.{Charge, Move, Moves}
use windows_component_harnes.Executor.Reaching.{
  Anything, Reaches, give_then, then_reaches, either_reaches, transact-Reaches,
}
use windows_component_harnes.Executor.Execution.{if_reaches}

module _ {W : Type 0} ⦃charge : Charge⦄ (c : Setting W) (plan : RestorePlan) where
  pub give_any :
      {A : Type 0} (r : Result A) (s : Session W) → Reaches plan (Anything {A = A}) s (give r s)
  give_any (ok a) s = (Moves.stay, tt)
  give_any (err e) s = (Moves.stay, tt)
  give_any stuck s = (Moves.stay, tt)

  safe_action_id-Reaches :
      (id : Text) (s : Session W) → Reaches plan Anything s (safe_action_id c id s)
  safe_action_id-Reaches id s =
      give_then plan Anything (safe_manual_text c.redactor id)
        (λ safe.
          give (reject_if (not (safe == id)) (coded_error security_policy none none))
          >> give (ok safe))
        s
        λ safe _.
          give_then plan Anything
            (reject_if (not (safe == id)) (coded_error security_policy none none))
            (λ done. give (ok safe)) s λ done _. (Moves.stay, tt)

  pub normalize_manual_action-Reaches :
      (action : ManualAction) (s : Session W)
      → Reaches plan Anything s (normalize_manual_action c action s)
  unfolding normalize_manual_action
  normalize_manual_action-Reaches action s =
      let build : Text → Text → Text → List Text → ManualAction = λ id title reason instructions.
        record action { id = id; title = title; reason = reason; instructions = instructions } in
      let fields : Text → Exec W ManualAction = λ id.
        give (safe_manual_text c.redactor action.title) >>= λ title.
        give (safe_manual_text c.redactor action.reason) >>= λ reason.
        give (safe_instructions c.redactor action.instructions) >>= λ instructions.
        give (ok (build id title reason instructions)) in
      give_then plan Anything
        (reject_if (ltb max_manual_instructions (length action.instructions))
          (coded_error security_policy none none))
        (λ done. safe_action_id c action.id >>= fields) s
        λ done _.
          then_reaches plan Anything Anything (safe_action_id c action.id) fields s
            (safe_action_id-Reaches action.id s)
            λ id t _ _.
              give_then plan Anything (safe_manual_text c.redactor action.title)
                (λ title. give (safe_manual_text c.redactor action.reason) >>= λ reason.
                  give (safe_instructions c.redactor action.instructions) >>= λ instructions.
                  give (ok (build id title reason instructions)))
                t
                λ title _.
                  give_then plan Anything (safe_manual_text c.redactor action.reason)
                    (λ reason.
                      give (safe_instructions c.redactor action.instructions) >>= λ instructions.
                      give (ok (build id title reason instructions)))
                    t
                    λ reason _.
                      give_then plan Anything (safe_instructions c.redactor action.instructions)
                        (λ instructions. give (ok (build id title reason instructions))) t
                        λ instructions _. (Moves.stay, tt)

  pub get_action-Reaches :
      (id : Text) (s : Session W) → Reaches plan Anything s (get_action c plan.run_id id s)
  unfolding get_action
  get_action-Reaches id s =
      then_reaches plan Anything Anything (safe_action_id c id)
        (λ safe. read (λ j. find_action safe (list_manual_actions plan.run_id j))) s
        (safe_action_id-Reaches id s) λ safe t _ _. (Moves.stay, tt)

  match_or-Reaches :
      (otherwise : Exec W JournalManualAction) (action : ManualAction)
      (o : Option JournalManualAction) (s : Session W)
      → Reaches plan Anything s (otherwise s)
      → Reaches plan Anything s (match_or c otherwise action o s)
  match_or-Reaches otherwise action none s h = h
  match_or-Reaches otherwise action (some a) s h = give_any (ensure_matches a action) s

  create_action-Reaches :
      (given : ManualAction) (s : Session W)
      → Reaches plan Anything s (create_action c plan.run_id given s)
  unfolding create_action
  create_action-Reaches given s =
      let insert : ManualAction → Exec W JournalManualAction =
        λ action. transact c (add_manual_action_record c.redactor plan.run_id action) in
      let again : ManualAction → ErrorEnvelope → Exec W JournalManualAction =
        λ action e. get_action c plan.run_id action.id >>= match_or c (reject e) action in
      let add : ManualAction → Exec W JournalManualAction =
        λ action. either (insert action) (again action) (λ a. give (ok a)) in
      then_reaches plan Anything Anything (normalize_manual_action c given)
        (λ action. get_action c plan.run_id action.id >>= match_or c (add action) action) s
        (normalize_manual_action-Reaches given s)
        λ action t _ _.
          then_reaches plan Anything Anything (get_action c plan.run_id action.id)
            (match_or c (add action) action) t (get_action-Reaches action.id t)
            λ existing u _ _. match_or-Reaches (add action) action existing u (
              either_reaches plan Anything Anything (insert action) (again action)
                (λ a. give (ok a)) u
                (transact-Reaches plan c Anything
                  (add_manual_action_record c.redactor plan.run_id action) u
                  λ now next row h.
                    (Moves.move (Move.queues c.redactor action now row h) Moves.stay, tt))
                (λ e v _.
                  then_reaches plan Anything Anything (get_action c plan.run_id action.id)
                    (match_or c (reject e) action) v (get_action-Reaches action.id v)
                    λ o w _ _. match_or-Reaches (reject e) action o w (Moves.stay, tt))
                (λ a v _ _. (Moves.stay, tt)))

  pub queue_blocked_operation_action-Reaches :
      (op : Operation) (attempt : ℕ) (outcome : Option Text) (s : Session W)
      → Reaches plan Anything s (queue_blocked_operation_action c plan.run_id op attempt outcome s)
  unfolding queue_blocked_operation_action
  queue_blocked_operation_action-Reaches op attempt outcome s =
      create_action-Reaches (operation_blocker_action c op attempt outcome) s

  pub complete_action-Reaches :
      (id : Text) (s : Session W) → Reaches plan Anything s (complete_action c plan.run_id id s)
  unfolding complete_action
  complete_action-Reaches id s =
      then_reaches plan Anything Anything (safe_action_id c id)
        (λ safe.
          transact c (set_manual_action_state_record plan.run_id safe ManualActionState.completed))
        s (safe_action_id-Reaches id s)
        λ safe t _ _.
          transact-Reaches plan c Anything
            (set_manual_action_state_record plan.run_id safe ManualActionState.completed) t
            λ now next row h. (Moves.move (Move.completes safe now row h) Moves.stay, tt)

  pub blocked_operation_action_state-Reaches :
      (op : Operation) (persisted : JournalOperation) (s : Session W)
      → Reaches plan Anything s (blocked_operation_action_state c plan.run_id op persisted s)
  unfolding blocked_operation_action_state
  blocked_operation_action_state-Reaches op persisted s =
      let id = operation_blocker_action_id op persisted.attempt in
      if_reaches plan Anything
        (not (waits_for_user persisted.state) || is_open_manual_action op.kind) (give (ok none))
        (get_action c plan.run_id id >>= λ found. give (ok (with_state id found))) s
        (λ _. (Moves.stay, tt))
        (λ _.
          then_reaches plan Anything Anything (get_action c plan.run_id id)
            (λ found. give (ok (with_state id found))) s (get_action-Reaches id s)
            λ found t _ _. (Moves.stay, tt))
