-- ===== src/Executor/ManualKeeps.antt =====
-- `ManualActionHandler` of crates/reforge-restore/src/manual_actions.rs leaves the operations of
-- the journal alone.
use windows_component_harnes.Prelude.{
  ◌≡◌, refl, sym, ◌∙◌, inl, inr, Option, none, some, [], ◌∷◌, In,
}
use windows_component_harnes.Prelude.Text.{Text, text_ord}
use windows_component_harnes.Domain.Error.{Result, ok, err, stuck, ok-injective}
use windows_component_harnes.Domain.Kinds.{ManualActionState, RestoreMode}
use windows_component_harnes.Domain.Operation.{
  ManualAction, Operation, OperationKind, RestorePlan, RunId,
}
use windows_component_harnes.Journal.Tables.{JournalManualAction, JournalOperation}
use windows_component_harnes.Journal.Transitions.{fetch_operation}
use windows_component_harnes.Executor.Outside.{Touches}
use windows_component_harnes.Executor.Session.{
  OperationDisposition, OperationOutcome, OperationSatisfaction, Session, Setting, Exec, give, read,
  ask_cancelled, ◌>>=◌,
}
use windows_component_harnes.Executor.Queue.{get_action, complete_action, normalize_manual_action}
use windows_component_harnes.Executor.Branches.{IsWellBehaved}
use windows_component_harnes.Executor.Moves.{touches, Moves, Moves-Touches}
use windows_component_harnes.Executor.Reaching.{Anything, Reaches, give_then, then_reaches}
use windows_component_harnes.Executor.Execution.{if_reaches, ask-Reaches}
use windows_component_harnes.Executor.Queueing.{
  complete_action-Reaches, get_action-Reaches, give_any, normalize_manual_action-Reaches,
}
use windows_component_harnes.Executor.ManualHandler.{
  HandlerDetail, operation_run_id, or_operation_error, outcome_of, display_checked, load_action,
  satisfied_by, satisfied_after_reboot, check_kind, act_on, run_kind, cancelled_or,
  manual_action_handler,
}

module _ {W : Type 0} (c : Setting W) (parse_run_id : Text → Option RunId)
    (detail_text : HandlerDetail → Text) (plan : RestorePlan) (op : Operation)
    (idle : (o : Operation) → In o plan.operations → ⊥)
    (same_run : (r : RunId) → operation_run_id parse_run_id op ≡ ok r → plan.run_id ≡ r) where
  load_action-Reaches :
      (action : ManualAction) (s : Session W)
      → Reaches ⦃charge = touches⦄ plan Anything s
          (load_action c parse_run_id detail_text op action s)
  unfolding load_action
  load_action-Reaches action s =
      let compare_with : ManualAction → Option JournalManualAction → Exec W JournalManualAction =
        λ expected found. give (or_operation_error op found) >>= λ persisted.
        give (display_checked c parse_run_id detail_text op expected persisted) in
      let look : ManualAction → RunId → Exec W JournalManualAction =
        λ expected run_id. get_action c run_id expected.id >>= compare_with expected in
      then_reaches ⦃charge = touches⦄ plan Anything Anything (normalize_manual_action c action)
        (λ expected. give (operation_run_id parse_run_id op) >>= look expected) s
        (normalize_manual_action-Reaches ⦃charge = touches⦄ c plan action s)
        λ expected t _ _.
          give_then ⦃charge = touches⦄ plan Anything (operation_run_id parse_run_id op)
            (look expected) t
            λ run_id e. rw (sym (same_run run_id e)) (
              then_reaches ⦃charge = touches⦄ plan Anything Anything
                (get_action c plan.run_id expected.id) (compare_with expected) t
                (get_action-Reaches ⦃charge = touches⦄ c plan expected.id t)
                λ found u _ _.
                  give_then ⦃charge = touches⦄ plan Anything (or_operation_error op found)
                    (λ persisted.
                      give (display_checked c parse_run_id detail_text op expected persisted))
                    u
                    λ persisted _.
                      give_any ⦃charge = touches⦄ c plan
                        (display_checked c parse_run_id detail_text op expected persisted) u)

  act_on-Reaches :
      (persisted : JournalManualAction) (state : ManualActionState) (s : Session W)
      → Reaches ⦃charge = touches⦄ plan Anything s
          (act_on c parse_run_id detail_text op persisted state s)
  act_on-Reaches persisted ManualActionState.pending s = (Moves.stay, tt)
  act_on-Reaches persisted ManualActionState.completed s = (Moves.stay, tt)
  act_on-Reaches persisted ManualActionState.skipped s = (Moves.stay, tt)
  act_on-Reaches persisted ManualActionState.acknowledged s =
      let done : JournalManualAction → Exec W OperationOutcome = λ a. give (
        ok (
          outcome_of c parse_run_id detail_text OperationDisposition.completed
            (HandlerDetail.action_in a.id a.state))) in
      give_then ⦃charge = touches⦄ plan Anything (operation_run_id parse_run_id op)
        (λ run_id. complete_action c run_id persisted.id >>= done) s
        λ run_id e. rw (sym (same_run run_id e)) (
          then_reaches ⦃charge = touches⦄ plan Anything Anything
            (complete_action c plan.run_id persisted.id) done s
            (complete_action-Reaches ⦃charge = touches⦄ c plan persisted.id s)
            λ a t _ _. (Moves.stay, tt))

  run_kind-Reaches :
      (kind : OperationKind) (s : Session W)
      → Reaches ⦃charge = touches⦄ plan Anything s (run_kind c parse_run_id detail_text op kind s)
  run_kind-Reaches (OperationKind.open_manual_action action) s =
      then_reaches ⦃charge = touches⦄ plan Anything Anything
        (load_action c parse_run_id detail_text op action)
        (λ persisted. act_on c parse_run_id detail_text op persisted persisted.state) s
        (load_action-Reaches action s) λ persisted t _ _. act_on-Reaches persisted persisted.state t
  run_kind-Reaches _ s = (Moves.stay, tt)

  check_kind-Reaches :
      (kind : OperationKind) (s : Session W)
      → Reaches ⦃charge = touches⦄ plan Anything s (check_kind c parse_run_id detail_text op kind s)
  check_kind-Reaches (OperationKind.open_manual_action action) s =
      then_reaches ⦃charge = touches⦄ plan Anything Anything
        (load_action c parse_run_id detail_text op action)
        (λ persisted. give (ok (satisfied_by c parse_run_id detail_text persisted))) s
        (load_action-Reaches action s) λ persisted t _ _. (Moves.stay, tt)
  check_kind-Reaches (OperationKind.require_reboot reason) s =
      let answer : Option JournalOperation → Exec W OperationSatisfaction = λ found.
        give (or_operation_error op found) >>= λ persisted.
        give (ok (satisfied_after_reboot c parse_run_id detail_text persisted)) in
      give_then ⦃charge = touches⦄ plan Anything (operation_run_id parse_run_id op)
        (λ run_id. read (fetch_operation run_id op.id) >>= answer) s
        λ run_id e.
          give_then ⦃charge = touches⦄ plan Anything
            (or_operation_error op (fetch_operation run_id op.id s.journal))
            (λ persisted. give (ok (satisfied_after_reboot c parse_run_id detail_text persisted))) s
            λ persisted _. (Moves.stay, tt)
  check_kind-Reaches _ s = (Moves.stay, tt)

  handler-Touches :
      (s : Session W)
      → Touches s.journal
          ((manual_action_handler c parse_run_id detail_text).is_satisfied op s).1.journal
        × Touches s.journal
            ((manual_action_handler c parse_run_id detail_text).execute op s).1.journal
  unfolding manual_action_handler
  handler-Touches s =
      let run = run_kind c parse_run_id detail_text op op.kind in
      let checked = check_kind-Reaches op.kind s in
      let executed =
        then_reaches ⦃charge = touches⦄ plan Anything Anything (ask_cancelled c)
          (cancelled_or c parse_run_id detail_text run) s (ask-Reaches ⦃charge = touches⦄ c plan s)
          λ stopped t _ _.
            if_reaches ⦃charge = touches⦄ plan Anything stopped
              (give (
                ok (
                  outcome_of c parse_run_id detail_text OperationDisposition.cancelled
                    HandlerDetail.was_cancelled)))
              run t (λ _. (Moves.stay, tt)) (λ _. run_kind-Reaches op.kind t) in
      (
        Moves-Touches plan s.journal _ idle checked.0,
        Moves-Touches plan s.journal _ idle executed.0,
      )

-- a plan of a run, of which only the run counts here
abbrev plan_of : RunId → RestorePlan
plan_of run_id = record {
  format_version = 1;
  run_id = run_id;
  package_id = [];
  mode = RestoreMode.rebuild;
  target_fingerprint = [];
  selected_components = [];
  operations = [];
  conflicts = [];
  manual_actions = [];
  warnings = [];
}

manual_action_handler-Touches :
    {W : Type 0} (c : Setting W) (parse_run_id : Text → Option RunId)
    (detail_text : HandlerDetail → Text) (op : Operation) (s : Session W)
    → Touches s.journal
        ((manual_action_handler c parse_run_id detail_text).is_satisfied op s).1.journal
      × Touches s.journal
          ((manual_action_handler c parse_run_id detail_text).execute op s).1.journal
manual_action_handler-Touches c parse_run_id detail_text op s =
    of_result (operation_run_id parse_run_id op) refl
  where
    of_result :
        (r : Result RunId)
        → operation_run_id parse_run_id op ≡ r
        → Touches s.journal
            ((manual_action_handler c parse_run_id detail_text).is_satisfied op s).1.journal
          × Touches s.journal
              ((manual_action_handler c parse_run_id detail_text).execute op s).1.journal
    of_result (ok run) e =
        handler-Touches c parse_run_id detail_text (plan_of run) op (λ o i. i)
          (λ r f. ok-injective (sym e ∙ f)) s
    of_result (err x) e =
        handler-Touches c parse_run_id detail_text (plan_of []) op (λ o i. i) (λ r f. cc (e, f)) s
    of_result stuck e =
        handler-Touches c parse_run_id detail_text (plan_of []) op (λ o i. i) (λ r f. cc (e, f)) s

-- A setting whose only handler is that of manual actions and reboots, and that has no backup hook, is
-- well-behaved.
pub manual_action_handler-IsWellBehaved :
    {W : Type 0} (base c : Setting W) (parse_run_id : Text → Option RunId)
    (detail_text : HandlerDetail → Text)
    → c.handlers ≡ manual_action_handler base parse_run_id detail_text ∷ []
    → c.backup_hook ≡ none
    → IsWellBehaved ⦃charge = touches⦄ c
manual_action_handler-IsWellBehaved base c parse_run_id detail_text only no_hook = record {
  satisfied = λ h op s i. elim (rw only at i) [
    | inl e ↦ rw e (manual_action_handler-Touches base parse_run_id detail_text op s).0
    | inr left ↦ absurd left
  ];
  executed = λ h op s i. elim (rw only at i) [
    | inl e ↦ rw e (manual_action_handler-Touches base parse_run_id detail_text op s).1
    | inr left ↦ absurd left
  ];
  backed_up = λ hook op s e. absurd (no_some (sym no_hook ∙ e));
}
  where
    no_some : {A : Type 0} {a : A} → none ≡ some a → ⊥
    no_some e = cc (e)
