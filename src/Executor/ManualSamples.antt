-- ===== src/Executor/ManualSamples.antt =====
-- Tests of the handler of manual actions, crates/reforge-restore/src/manual_actions.rs.
use windows_component_harnes.Prelude.{true, ◌≡◌, refl, none, some, [], ◌∷◌}
use windows_component_harnes.Prelude.OrdMap
use windows_component_harnes.Prelude.Text.{codes, text_ord}
use windows_component_harnes.Domain.Error.{ok}
use windows_component_harnes.Domain.Kinds.{RiskLevel, ManualActionState}
use windows_component_harnes.Domain.Operation.{ManualAction, Operation, OperationKind}
use windows_component_harnes.Journal.Tables.{JournalManualAction, insert_event}
use windows_component_harnes.Executor.Session.{
  OperationDisposition, OperationSatisfaction, Handler, Session,
}
use windows_component_harnes.Executor.Queue.{
  complete_action, get_action, normalize_manual_action, list_manual_actions,
}
use windows_component_harnes.Executor.ManualHandler.{
  operation_run_id, load_action, manual_action_handler,
}
use windows_component_harnes.Domain.Ids.{rsplit_once, strip_prefix}
use windows_component_harnes.Journal.Manual.{
  changed_action, set_manual_action_state_record, valid_manual_action_transition,
}
use windows_component_harnes.Executor.Truthful.{
  IsReported, IsSettled, manual_action_handler-IsReported, manual_action_handler-IsSettled,
}
use windows_component_harnes.Journal.Adding.{safe_instructions, safe_manual_text}
use windows_component_harnes.Executor.Samples.{
  World, approved, no_detail, parse_run, reboot, run_1, setting,
}

abbrev sign_in : ManualAction
sign_in = record {
  id = codes "sign-in";
  component = none;
  title = codes "Sign in";
  reason = codes "The account is new.";
  risk = RiskLevel.low;
  instructions = codes "Open the browser." ∷ [];
  docs_url = none;
  state = ManualActionState.pending;
  independent_operations_may_continue = true;
  acknowledged_at = none;
  verification = none;
}

abbrev sign_in_operation : Operation
sign_in_operation = record reboot { kind = OperationKind.open_manual_action sign_in }

abbrev stored_in : ManualActionState → JournalManualAction
stored_in state = record {
  id = codes "sign-in";
  run_id = run_1;
  state = state;
  title = codes "Sign in";
  reason = codes "The account is new.";
  risk = RiskLevel.low;
  instructions = codes "Open the browser." ∷ [];
  acknowledged_at = none;
}

abbrev acting_in : ManualActionState → Session World
acting_in state = record approved {
  journal = record approved.journal { manual_actions = (codes "sign-in", stored_in state) ∷ [] };
}

abbrev handler : Handler World
handler = manual_action_handler setting parse_run no_detail

acknowledged_completes :
    (handler.execute sign_in_operation (acting_in ManualActionState.acknowledged)).0
    ≡ ok (record {
      disposition = OperationDisposition.completed;
      result = some [];
      evidence = [];
      backup = none;
    })
unfolding manual_action_handler load_action normalize_manual_action get_action safe_manual_text
    safe_instructions operation_run_id list_manual_actions strip_prefix rsplit_once complete_action
    set_manual_action_state_record valid_manual_action_transition changed_action insert_event
    OrdMap.get OrdMap.insert
acknowledged_completes = refl

manual_action_handler-IsReported_example :
    IsReported setting parse_run sign_in_operation
      (acting_in ManualActionState.acknowledged)
      OperationDisposition.completed
manual_action_handler-IsReported_example =
    manual_action_handler-IsReported setting parse_run no_detail sign_in_operation
      (acting_in ManualActionState.acknowledged)
      (record {
        disposition = OperationDisposition.completed;
        result = some [];
        evidence = [];
        backup = none;
      })
      acknowledged_completes

skipped_settles :
    (handler.is_satisfied sign_in_operation (acting_in ManualActionState.skipped)).0
    ≡ ok (OperationSatisfaction.satisfied (some []) [])
unfolding manual_action_handler load_action normalize_manual_action get_action safe_manual_text
    safe_instructions operation_run_id list_manual_actions strip_prefix rsplit_once
skipped_settles = refl

manual_action_handler-IsSettled_example :
    IsSettled setting parse_run sign_in_operation (acting_in ManualActionState.skipped).journal
manual_action_handler-IsSettled_example =
    manual_action_handler-IsSettled setting parse_run no_detail sign_in_operation
      (acting_in ManualActionState.skipped) (some []) [] skipped_settles
