-- ===== src/Journal/Manual.antt =====
-- `set_manual_action_state_record` and `valid_manual_action_transition` of
-- crates/reforge-restore/src/journal.rs.
use windows_component_harnes.Prelude.{
  ℕ, ◌≤◌, Bool, true, false, not, ◌≡◌, refl, sym, ap, inl, inr, Option, none, some, arith,
  Bool-cases, if◌then◌else◌,
}
use windows_component_harnes.Prelude.Order.{◌==◌, ==_iff}
use windows_component_harnes.Prelude.OrdMap
use windows_component_harnes.Prelude.Text.{Text, text_ord}
use windows_component_harnes.Domain.Error.{
  Result, ok, ◌>>=◌, ◌>>◌, coded_error, reject_if, user_action_required, >>=-eq-ok, ok-injective,
}
use windows_component_harnes.Domain.Kinds.{ManualActionState}
use windows_component_harnes.Domain.Operation.{RunId}
use windows_component_harnes.Journal.Tables.{
  JournalManualAction, Journal, EventBody, EventLevel, insert_event,
}
use windows_component_harnes.Journal.Transitions.{found, fetched, or_else}
use windows_component_harnes.Journal.Guarded.{not_rejected}
use windows_component_harnes.Journal.Approval.{found-some}

unfoldable pub valid_manual_action_transition : ManualActionState → ManualActionState → Bool
valid_manual_action_transition ManualActionState.pending ManualActionState.pending = true
valid_manual_action_transition ManualActionState.pending ManualActionState.acknowledged = true
valid_manual_action_transition ManualActionState.pending ManualActionState.skipped = true
valid_manual_action_transition ManualActionState.acknowledged ManualActionState.acknowledged = true
valid_manual_action_transition ManualActionState.acknowledged ManualActionState.completed = true
valid_manual_action_transition ManualActionState.acknowledged ManualActionState.skipped = true
valid_manual_action_transition ManualActionState.completed ManualActionState.completed = true
valid_manual_action_transition ManualActionState.skipped ManualActionState.skipped = true
valid_manual_action_transition _ _ = false

abbrev pub is_pending_action : ManualActionState → Bool
is_pending_action ManualActionState.pending = true
is_pending_action _ = false

abbrev pub action_of_run : RunId → Option JournalManualAction → Option JournalManualAction
action_of_run run_id none = none
action_of_run run_id (some a) = if a.run_id == run_id then some a else none

-- `fetch_manual_action`: `WHERE id = ?1 AND run_id = ?2`
abbrev pub fetch_manual_action : RunId → Text → Journal → Option JournalManualAction
fetch_manual_action run_id action_id j =
    action_of_run run_id (OrdMap.get action_id j.manual_actions)

unfoldable pub changed_action : JournalManualAction → ManualActionState → ℕ → JournalManualAction
changed_action a state now = record a {
  state = state;
  acknowledged_at =
      if is_pending_action state then a.acknowledged_at else or_else a.acknowledged_at now;
}

abbrev pub put_action : Text → JournalManualAction → Journal → Journal
put_action action_id a j = record j { manual_actions = OrdMap.insert action_id a j.manual_actions }

unfoldable pub set_manual_action_state_record :
    RunId → Text → ManualActionState → ℕ → Journal → Result (Journal × JournalManualAction)
set_manual_action_state_record run_id action_id state now j = do
  current ← found (fetch_manual_action run_id action_id j)
  reject_if (not (valid_manual_action_transition current.state state))
      (coded_error user_action_required none none)
  let next =
      insert_event run_id EventLevel.info (EventBody.manual_action_changed action_id state) now
        (put_action action_id (changed_action current state now) j)
  row ← fetched (fetch_manual_action run_id action_id next)
  ok (next, row)

-- how far an action has come
abbrev pub progress : ManualActionState → ℕ
progress ManualActionState.pending = 0
progress ManualActionState.acknowledged = 1
progress ManualActionState.completed = 2
progress ManualActionState.skipped = 2

-- An action only moves forward, one that is completed or skipped keeps its state, and a time of
-- acknowledgement, once set, stays.
pub record Advances (old new : JournalManualAction) : Type 0 where
  pub forward : progress old.state ≤ progress new.state
  pub final : progress old.state ≡ 2 → new.state ≡ old.state
  pub acknowledged : (t : ℕ) → old.acknowledged_at ≡ some t → new.acknowledged_at ≡ some t

valid-forward :
    (a b : ManualActionState) → valid_manual_action_transition a b ≡ true → progress a ≤ progress b
unfolding valid_manual_action_transition
valid-forward a b h = ground arith

valid-final :
    (a b : ManualActionState) → valid_manual_action_transition a b ≡ true → progress a ≡ 2 → b ≡ a
unfolding valid_manual_action_transition
valid-final a b h e = ground arith

changed_action-Advances :
    (a : JournalManualAction) (state : ManualActionState) (now : ℕ)
    → valid_manual_action_transition a.state state ≡ true
    → Advances a (changed_action a state now)
unfolding changed_action
changed_action-Advances a state now h = record {
  forward = valid-forward a.state state h;
  final = valid-final a.state state h;
  acknowledged = λ t e. ground (arith, e);
}

action_of_run-some :
    (run_id : RunId) (o : Option JournalManualAction) (a : JournalManualAction)
    → action_of_run run_id o ≡ some a
    → o ≡ some a
action_of_run-some run_id none a h = cc
action_of_run-some run_id (some b) a h = ground arith

-- A change of a manual action's state keeps every action, and each only advances.
pub set_manual_action_state_record-Advances :
    (run_id : RunId) (action_id : Text) (state : ManualActionState) (now : ℕ) (j next : Journal)
    (row : JournalManualAction)
    → set_manual_action_state_record run_id action_id state now j ≡ ok (next, row)
    → (k : Text) (a : JournalManualAction) → OrdMap.get k j.manual_actions ≡ some a
    → (a' : JournalManualAction) × (OrdMap.get k next.manual_actions ≡ some a') × Advances a a'
unfolding set_manual_action_state_record insert_event
set_manual_action_state_record-Advances run_id action_id state now j next row h k a g =
    let (c, looked, h1) = >>=-eq-ok (found (fetch_manual_action run_id action_id j)) _ h in
    let there =
      action_of_run-some run_id (OrdMap.get action_id j.manual_actions) c
        (found-some (fetch_manual_action run_id action_id j) c looked) in
    let refusal = coded_error user_action_required none none in
    let (u, p, h2) =
      >>=-eq-ok (reject_if (not (valid_manual_action_transition c.state state)) refusal) _ h1 in
    let valid : valid_manual_action_transition c.state state ≡ true =
      ground (arith, not_rejected _ refusal u p) in
    let new = changed_action c state now in
    let (r, read, h3) =
      >>=-eq-ok
        (fetched (
          action_of_run run_id
            (OrdMap.get action_id (OrdMap.insert action_id new j.manual_actions))))
        _ h2 in
    let written = ap (λ (n : Journal). n.manual_actions) (sym (ap (λ q. q.0) (ok-injective h3))) in
    rw written (elim (Bool-cases (k == action_id)) [
      | inl e ↦
          let same : a ≡ c = ground (arith, (==_iff k action_id).0 e, g, there) in
          (
            new,
            ground (arith, OrdMap.get-insert k action_id new j.manual_actions),
            rw same (changed_action-Advances c state now valid),
          )
      | inr e ↦ (
        a,
        ground (arith, OrdMap.get-insert k action_id new j.manual_actions),
        record { forward = omega arith; final = λ _. refl; acknowledged = λ t q. q },
      )
    ])
