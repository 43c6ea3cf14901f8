-- ===== src/Executor/Checks.antt =====
-- The tests that the executor of crates/reforge-restore/src/executor.rs makes before an operation
-- runs, and `precondition_satisfied` of crates/reforge-restore/src/operations.rs.
use windows_component_harnes.Prelude.{
  Bool, true, false, not, ◌&&◌, ◌||◌, Option, none, some, List, [], ◌∷◌, ◌++◌, all, any, length,
  nat_eq, if◌then◌else◌,
}
use windows_component_harnes.Prelude.Order.{◌==◌}
use windows_component_harnes.Prelude.OrdMap
use windows_component_harnes.Prelude.OrdMap.{OrdMap}
use windows_component_harnes.Prelude.Text.{Text, codes, text_ord, starts_with}
use windows_component_harnes.Domain.Error.{
  ErrorEnvelope, ReforgeErrorCode, Result, ok, err, stuck, coded_error, reject_if, operation_failed,
  package_not_found, schema_invalid, security_policy, target_conflict, user_action_required,
}
use windows_component_harnes.Domain.Kinds.{ManualActionState, OperationState, RestoreMode}
use windows_component_harnes.Domain.Operation.{
  Operation, OperationId, OperationKind, Precondition, RestorePlan, RunId,
}
use windows_component_harnes.Operations.Version.{version_at_least}
use windows_component_harnes.Journal.Tables.{
  Journal, JournalManualAction, JournalOperation, Operations,
}
use windows_component_harnes.Journal.Transitions.{is_approved, is_completed, is_skipped, found}
use windows_component_harnes.Executor.Session.{Handler, Setting, Exec, ◌>>=◌, ◌>>◌, give, read}
use windows_component_harnes.Executor.Queue.{list_manual_actions, waits_for_user}

abbrev pub States : Type 0
States = OrdMap OperationId JournalOperation

abbrev pub is_finished : OperationState → Bool
is_finished state = is_completed state || is_skipped state

abbrev pub correlated_code_error : Operation → ReforgeErrorCode → ErrorEnvelope
correlated_code_error operation code =
    coded_error code (some operation.component) (some operation.id)

abbrev pub correlate_error : Operation → ErrorEnvelope → ErrorEnvelope
correlate_error operation error = record error {
  component = some operation.component;
  operation = some operation.id;
}

abbrev pub precondition_error : Operation → ErrorEnvelope
precondition_error operation = elim operation.precondition [
  | Precondition.manual_approval _ ↦ correlated_code_error operation user_action_required
  | Precondition.artifact_present _ ↦ correlated_code_error operation package_not_found
  | _ ↦ correlated_code_error operation target_conflict
]

abbrev pub state_test : (OperationState → Bool) → Option JournalOperation → Bool
state_test test none = false
state_test test (some o) = test o.state

unfoldable pub prerequisites_complete : Operation → States → Bool
prerequisites_complete operation states =
    all (λ p. state_test is_finished (OrdMap.get p states)) operation.prerequisites

unfoldable pub has_waiting_for_user_prerequisite : Operation → States → Bool
has_waiting_for_user_prerequisite operation states =
    any (λ p. state_test waits_for_user (OrdMap.get p states)) operation.prerequisites

abbrev pub is_acknowledged : ManualActionState → Bool
is_acknowledged ManualActionState.acknowledged = true
is_acknowledged ManualActionState.completed = true
is_acknowledged _ = false

unfoldable pub acknowledged_ids : List JournalManualAction → List Text
acknowledged_ids [] = []
acknowledged_ids (a ∷ rest) =
    let later = acknowledged_ids rest in if is_acknowledged a.state then a.id ∷ later else later

-- `approved_manual_actions`; the set is only asked for its elements
abbrev pub approved_manual_actions : RunId → Journal → List Text
approved_manual_actions run_id j = acknowledged_ids (list_manual_actions run_id j)

abbrev pub same_mode : RestoreMode → RestoreMode → Bool
same_mode RestoreMode.rebuild RestoreMode.rebuild = true
same_mode RestoreMode.migration RestoreMode.migration = true
same_mode _ _ = false

abbrev pub insert_all : List Operation → OrdMap OperationId Operation → OrdMap OperationId Operation
insert_all [] m = m
insert_all (o ∷ os) m = insert_all os (OrdMap.insert o.id o m)

abbrev pub of_that_run : RunId → Operations → List JournalOperation
of_that_run run_id [] = []
of_that_run run_id ((k, o) ∷ m) =
    let rest = of_that_run run_id m in if o.run_id == run_id then o ∷ rest else rest

-- `Journal::list_operations`
unfoldable pub list_operations : RunId → Journal → List JournalOperation
list_operations run_id j = of_that_run run_id j.operations

-- `Journal::require_approved`
unfoldable pub require_approved : RunId → Journal → Result (Unit {0})
require_approved run_id j = elim (OrdMap.get run_id j.runs) [
  | none ↦ err (coded_error operation_failed none none)
  | some run ↦
      reject_if (not (is_approved run.approval_state)) (coded_error security_policy none none)
]

module _ {W : Type 0} (c : Setting W) where
  unfoldable pub precondition_satisfied : Precondition → List Text → Bool
  precondition_satisfied Precondition.always approved = true
  precondition_satisfied (Precondition.target_fingerprint fingerprint) approved =
      c.target_fingerprint == fingerprint
  precondition_satisfied (Precondition.component_absent component) approved =
      not (c.target_component_present component)
  precondition_satisfied (Precondition.component_version component none) approved =
      c.target_component_present component
  precondition_satisfied (Precondition.component_version component (some minimum)) approved =
      c.target_component_present component && elim (c.target_component_version component) [
        | none ↦ false
        | some actual ↦ version_at_least actual minimum
      ]
  precondition_satisfied (Precondition.artifact_present object) approved =
      any (λ entry. entry == object) c.objects
  precondition_satisfied (Precondition.manual_approval action) approved =
      any (λ a. a == action) approved

  abbrev pub one_handler : Option (Handler W) → Handler W → Result (Option (Handler W))
  one_handler none h = ok (some h)
  one_handler (some other) h = err (coded_error security_policy none none)

  -- the loop of `handler_for`
  unfoldable pub select_handler :
      OperationKind → List (Handler W) → Option (Handler W) → Result (Option (Handler W))
  select_handler kind [] selected = ok selected
  select_handler kind (h ∷ hs) selected =
      if not (h.handles kind)
      then select_handler kind hs selected
      else elim (one_handler selected h) [
        | ok now ↦ select_handler kind hs now
        | err e ↦ err e
        | stuck ↦ stuck
      ]

  unfoldable pub handler_for : OperationKind → Result (Handler W)
  handler_for kind = elim (select_handler kind c.handlers none) [
    | ok (some h) ↦ ok h
    | ok none ↦ err (coded_error operation_failed none none)
    | err e ↦ err e
    | stuck ↦ stuck
  ]

  -- the tests on one operation of the journal
  abbrev pub accept : Option Operation → JournalOperation → States → Result (Unit {0})
  accept none o states = err (coded_error schema_invalid none none)
  accept (some operation) o states =
      if not (c.same_operation o.operation operation)
      then err (coded_error security_policy (some operation.component) (some operation.id))
      else reject_if (OrdMap.contains_key o.id states) (coded_error schema_invalid none none)

  -- the loop of `validate_execution` over the operations of the journal
  unfoldable pub collect_states :
      OrdMap OperationId Operation → List JournalOperation → States → Exec W States
  collect_states expected [] states = give (ok states)
  collect_states expected (o ∷ os) states =
      give (accept (OrdMap.get o.id expected) o states)
      >> collect_states expected os (OrdMap.insert o.id o states)

  unfoldable pub validate_execution : RestorePlan → Exec W States
  validate_execution plan = do
    give (
        reject_if (not (c.target_fingerprint == plan.target_fingerprint))
          (coded_error target_conflict none none))
    give (
        reject_if
          (any
            (λ (o : Operation). not (starts_with o.id (codes "op_" ++ (plan.run_id ++ codes "_"))))
            plan.operations)
          (coded_error schema_invalid none none))
    give (c.validate_restore_plan plan)
    stored ← read (λ j. OrdMap.get plan.run_id j.runs)
    run ← give (found stored)
    give (
        reject_if (not (run.package_id == plan.package_id) || not (same_mode run.mode plan.mode))
          (coded_error schema_invalid none none))
    give (
        reject_if (not (run.target_fingerprint == plan.target_fingerprint))
          (coded_error target_conflict none none))
    persisted ← read (list_operations plan.run_id)
    give (
        reject_if (not (nat_eq (length persisted) (length plan.operations)))
          (coded_error schema_invalid none none))
    collect_states (insert_all plan.operations []) persisted []
