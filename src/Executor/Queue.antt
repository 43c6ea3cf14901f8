-- ===== src/Executor/Queue.antt =====
-- `ManualActionQueue` and the actions for blocked operations of
-- crates/reforge-restore/src/manual_actions.rs, as far as the executor uses them.
use windows_component_harnes.Prelude.{
  ◌||◌, ℕ, Bool, true, false, not, ◌&&◌, Option, none, some, List, [], ◌∷◌, ◌++◌, length, ltb,
  if◌then◌else◌,
}
use windows_component_harnes.Prelude.Order.{◌==◌}
use windows_component_harnes.Prelude.OrdMap.{OrdMap}
use windows_component_harnes.Prelude.Text.{Text, codes, text_ord}
use windows_component_harnes.Domain.Error.{Result, ok, err, coded_error, reject_if, security_policy}
use windows_component_harnes.Domain.Ids.Decimal.{decimal}
use windows_component_harnes.Domain.Kinds.{ManualActionState, RiskLevel, OperationState}
use windows_component_harnes.Domain.Operation.{Operation, OperationKind, ManualAction, RunId}
use windows_component_harnes.Journal.Tables.{JournalManualAction, JournalOperation, Journal}
use windows_component_harnes.Journal.Manual.{set_manual_action_state_record}
use windows_component_harnes.Journal.Adding.{
  safe_manual_text, safe_instructions, max_manual_instructions, add_manual_action_record,
}
use windows_component_harnes.Executor.Session.{
  Setting, Exec, ◌>>=◌, ◌>>◌, give, reject, read, or_fail, transact,
}

abbrev pub of_this_run : RunId → OrdMap Text JournalManualAction → List JournalManualAction
of_this_run run_id [] = []
of_this_run run_id ((k, a) ∷ m) =
    let rest = of_this_run run_id m in if a.run_id == run_id then a ∷ rest else rest

-- `Journal::list_manual_actions`
unfoldable pub list_manual_actions : RunId → Journal → List JournalManualAction
list_manual_actions run_id j = of_this_run run_id j.manual_actions

abbrev pub find_action : Text → List JournalManualAction → Option JournalManualAction
find_action id [] = none
find_action id (a ∷ rest) = if a.id == id then some a else find_action id rest

abbrev pub same_risk : RiskLevel → RiskLevel → Bool
same_risk RiskLevel.low RiskLevel.low = true
same_risk RiskLevel.medium RiskLevel.medium = true
same_risk RiskLevel.high RiskLevel.high = true
same_risk RiskLevel.critical RiskLevel.critical = true
same_risk _ _ = false

abbrev pub same_texts : List Text → List Text → Bool
same_texts [] [] = true
same_texts (s ∷ ss) (t ∷ ts) = s == t && same_texts ss ts
same_texts _ _ = false

unfoldable pub ensure_matches : JournalManualAction → ManualAction → Result JournalManualAction
ensure_matches existing action =
    if existing.id == action.id
      && (existing.title == action.title
          && (existing.reason == action.reason
              && (same_risk existing.risk action.risk
                  && same_texts existing.instructions action.instructions)))
    then ok existing
    else err (coded_error security_policy none none)

unfoldable pub operation_blocker_action_id : Operation → ℕ → Text
operation_blocker_action_id operation attempt =
    codes "operation-blocker:" ++ (operation.id ++ (codes ":" ++ decimal attempt))

abbrev pub is_open_manual_action : OperationKind → Bool
is_open_manual_action (OperationKind.open_manual_action action) = true
is_open_manual_action _ = false

abbrev pub with_state : Text → Option JournalManualAction → Option (Text × ManualActionState)
with_state id none = none
with_state id (some a) = some (id, a.state)

abbrev pub waits_for_user : OperationState → Bool
waits_for_user OperationState.waiting_for_user = true
waits_for_user _ = false

module _ {W : Type 0} (c : Setting W) where
  abbrev pub safe_action_id : Text → Exec W Text
  safe_action_id id = do
    safe ← give (safe_manual_text c.redactor id)
    give (reject_if (not (safe == id)) (coded_error security_policy none none))
    give (ok safe)

  unfoldable pub normalize_manual_action : ManualAction → Exec W ManualAction
  normalize_manual_action action = do
    give (
        reject_if (ltb max_manual_instructions (length action.instructions))
          (coded_error security_policy none none))
    id ← safe_action_id action.id
    title ← give (safe_manual_text c.redactor action.title)
    reason ← give (safe_manual_text c.redactor action.reason)
    instructions ← give (safe_instructions c.redactor action.instructions)
    give (
        ok (record action { id = id; title = title; reason = reason; instructions = instructions }))

  -- `ManualActionQueue::get`
  unfoldable pub get_action : RunId → Text → Exec W (Option JournalManualAction)
  get_action run_id id = do
    safe ← safe_action_id id
    read (λ j. find_action safe (list_manual_actions run_id j))

  abbrev pub match_or :
      Exec W JournalManualAction
      → ManualAction
      → Option JournalManualAction
      → Exec W JournalManualAction
  match_or otherwise action none = otherwise
  match_or otherwise action (some existing) = give (ensure_matches existing action)

  -- `ManualActionQueue::create`
  unfoldable pub create_action : RunId → ManualAction → Exec W JournalManualAction
  create_action run_id given = do
    action ← normalize_manual_action given
    existing ← get_action run_id action.id
    let add =
        or_fail (transact c (add_manual_action_record c.redactor run_id action))
          (λ e. get_action run_id action.id >>= match_or (reject e) action)
    match_or add action existing

  -- `ManualActionQueue::complete`
  unfoldable pub complete_action : RunId → Text → Exec W JournalManualAction
  complete_action run_id id = do
    safe ← safe_action_id id
    transact c (set_manual_action_state_record run_id safe ManualActionState.completed)

  unfoldable pub operation_blocker_action : Operation → ℕ → Option Text → ManualAction
  operation_blocker_action operation attempt outcome = record {
    id = operation_blocker_action_id operation attempt;
    component = some operation.component;
    title = codes "Resolve restore blocker";
    reason = c.blocker_reason outcome;
    risk = RiskLevel.high;
    instructions =
        codes "Review the redacted operation result and resolve the documented blocker."
        ∷ codes
            "Acknowledge this action only after the target, provider, source, lock, reauthentication, or policy condition is resolved."
        ∷ codes "Resume the existing run; Reforge will recheck the operation before continuing."
        ∷ [];
    docs_url = none;
    state = ManualActionState.pending;
    independent_operations_may_continue = true;
    acknowledged_at = none;
    verification = none;
  }

  -- `queue_blocked_operation_action` of the executor
  unfoldable pub queue_blocked_operation_action :
      RunId → Operation → ℕ → Option Text → Exec W JournalManualAction
  queue_blocked_operation_action run_id operation attempt outcome =
      create_action run_id (operation_blocker_action operation attempt outcome)

  -- `blocked_operation_action_state` of the executor
  unfoldable pub blocked_operation_action_state :
      RunId → Operation → JournalOperation → Exec W (Option (Text × ManualActionState))
  blocked_operation_action_state run_id operation persisted =
      if not (waits_for_user persisted.state) || is_open_manual_action operation.kind
      then give (ok none)
      else let id = operation_blocker_action_id operation persisted.attempt in
        get_action run_id id >>= λ found. give (ok (with_state id found))
