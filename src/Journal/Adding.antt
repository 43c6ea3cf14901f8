-- ===== src/Journal/Adding.antt =====
-- `add_manual_action_record` of crates/reforge-restore/src/journal.rs. The redactor is a parameter: a
-- text that is safe to keep, or an error; the JSON of the instructions passes through it too. Of a
-- list of safe instructions the row keeps the list.
use windows_component_harnes.Prelude.{
  ℕ, ◌||◌, not, ◌≡◌, sym, ap, none, List, [], ◌∷◌, length, ltb, if◌then◌else◌,
}
use windows_component_harnes.Prelude.OrdMap
use windows_component_harnes.Prelude.OrdMap.{is_some}
use windows_component_harnes.Prelude.Text.{Text, text_ord, is_empty, len, has_control}
use windows_component_harnes.Domain.Error.{
  user_action_required, Result, ok, err, ◌>>=◌, ◌>>◌, coded_error, reject_if, operation_failed,
  schema_invalid, security_policy, >>=-eq-ok, ok-injective,
}
use windows_component_harnes.Domain.Operation.{RunId, ManualAction}
use windows_component_harnes.Journal.Tables.{
  JournalManualAction, Journal, EventBody, EventLevel, insert_event,
}
use windows_component_harnes.Journal.Transitions.{found, fetched}
use windows_component_harnes.Journal.Manual.{
  action_of_run, fetch_manual_action, put_action, set_manual_action_state_record, changed_action,
  valid_manual_action_transition,
}
use windows_component_harnes.Domain.Kinds.{ManualActionState}

-- what the journal asks of the redactor
pub record Redactor : Type 0 where
  pub safe_text : Text → Result Text
  pub safe_list : List Text → Result Text

abbrev pub max_manual_text_bytes : ℕ
max_manual_text_bytes = 1024

abbrev pub max_manual_instructions : ℕ
max_manual_instructions = 256

abbrev pub bounded_text : Text → ℕ → Result Text
bounded_text value max_bytes =
    if is_empty value || (ltb max_bytes (len value) || has_control value)
    then err (coded_error schema_invalid none none)
    else ok value

module _ (r : Redactor) where
  unfoldable pub safe_manual_text : Text → Result Text
  safe_manual_text value = r.safe_text value >>= λ safe. bounded_text safe max_manual_text_bytes

  unfoldable pub safe_instructions : List Text → Result (List Text)
  safe_instructions [] = ok []
  safe_instructions (i ∷ is) = do
    safe ← safe_manual_text i
    rest ← safe_instructions is
    ok (safe ∷ rest)

  abbrev pub new_row : RunId → Text → ManualAction → Text → Text → List Text → JournalManualAction
  new_row run_id id action title reason instructions = record {
    id = id;
    run_id = run_id;
    state = action.state;
    title = title;
    reason = reason;
    risk = action.risk;
    instructions = instructions;
    acknowledged_at = action.acknowledged_at;
  }

  -- The insertion fails on a key that is taken and on a run that does not exist.
  unfoldable pub add_manual_action_record :
      RunId → ManualAction → ℕ → Journal → Result (Journal × JournalManualAction)
  add_manual_action_record run_id action now j = do
    id ← bounded_text action.id max_manual_text_bytes
    title ← safe_manual_text action.title
    reason ← safe_manual_text action.reason
    reject_if (ltb max_manual_instructions (length action.instructions))
        (coded_error security_policy none none)
    instructions ← safe_instructions action.instructions
    stored ← r.safe_list instructions
    reject_if (OrdMap.contains_key id j.manual_actions || not (OrdMap.contains_key run_id j.runs))
        (coded_error operation_failed none none)
    let row = new_row run_id id action title reason instructions
    ok (
      insert_event run_id EventLevel.info (EventBody.manual_action_added id) now
          (put_action id row j),
      row,
    )

  -- Adding an action leaves runs and operations alone.
  pub add_manual_action_record-rest :
      (run_id : RunId) (action : ManualAction) (now : ℕ) (j next : Journal)
      (row : JournalManualAction)
      → add_manual_action_record run_id action now j ≡ ok (next, row)
      → (next.operations ≡ j.operations) × (next.runs ≡ j.runs)
  unfolding add_manual_action_record insert_event
  add_manual_action_record-rest run_id action now j next row h =
      let (id, e1, h1) = >>=-eq-ok (bounded_text action.id max_manual_text_bytes) _ h in
      let (title, e2, h2) = >>=-eq-ok (safe_manual_text action.title) _ h1 in
      let (reason, e3, h3) = >>=-eq-ok (safe_manual_text action.reason) _ h2 in
      let (u, e4, h4) =
        >>=-eq-ok
          (reject_if (ltb max_manual_instructions (length action.instructions))
            (coded_error security_policy none none))
          _ h3 in
      let (instructions, e5, h5) = >>=-eq-ok (safe_instructions action.instructions) _ h4 in
      let (stored, e6, h6) = >>=-eq-ok (r.safe_list instructions) _ h5 in
      let (v, e7, h7) =
        >>=-eq-ok
          (reject_if
            (OrdMap.contains_key id j.manual_actions || not (OrdMap.contains_key run_id j.runs))
            (coded_error operation_failed none none))
          _ h6 in
      let now_is = sym (ap (λ q. q.0) (ok-injective h7)) in
      (ap (λ (n : Journal). n.operations) now_is, ap (λ (n : Journal). n.runs) now_is)

-- So does a change of an action's state.
pub set_manual_action_state_record-rest :
    (run_id : RunId) (action_id : Text) (state : ManualActionState) (now : ℕ) (j next : Journal)
    (row : JournalManualAction)
    → set_manual_action_state_record run_id action_id state now j ≡ ok (next, row)
    → (next.operations ≡ j.operations) × (next.runs ≡ j.runs)
unfolding set_manual_action_state_record insert_event
set_manual_action_state_record-rest run_id action_id state now j next row h =
    let (c, looked, h1) = >>=-eq-ok (found (fetch_manual_action run_id action_id j)) _ h in
    let refusal = coded_error user_action_required none none in
    let (u, p, h2) =
      >>=-eq-ok (reject_if (not (valid_manual_action_transition c.state state)) refusal) _ h1 in
    let new = changed_action c state now in
    let (r, read, h3) =
      >>=-eq-ok
        (fetched (
          action_of_run run_id
            (OrdMap.get action_id (OrdMap.insert action_id new j.manual_actions))))
        _ h2 in
    let written = sym (ap (λ q. q.0) (ok-injective h3)) in
    (ap (λ (n : Journal). n.operations) written, ap (λ (n : Journal). n.runs) written)
