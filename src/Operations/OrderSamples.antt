-- ===== src/Operations/OrderSamples.antt =====
-- Concrete specs for `topological_order` of crates/reforge-restore/src/operations.rs: a write that
-- waits for another, and two that wait for each other.
use windows_component_harnes.Prelude.{Bool, false, ◌≡◌, ◌≢◌, refl, none, List, [], ◌∷◌}
use windows_component_harnes.Prelude.Order.{◌==◌}
use windows_component_harnes.Prelude.OrdMap
use windows_component_harnes.Prelude.OrdSet
use windows_component_harnes.Prelude.Sort.{insert_by, sort_by}
use windows_component_harnes.Prelude.Text.{Text, codes, text_ord}
use windows_component_harnes.Domain.Error.{
  ErrorEnvelope, default_retryability, ok, err, stuck, coded_error, dependency_cycle,
}
use windows_component_harnes.Domain.Ids.{strip_prefix, rsplit_once, operation_id, for_run}
use windows_component_harnes.Domain.Ids.Decimal.{digits, decimal}
use windows_component_harnes.Domain.Operation.{Operation, OperationKind, Precondition, RunId}
use windows_component_harnes.Operations.Phase.{
  OperationPhase, OperationSpec, rank, operation_kind_key,
}
use windows_component_harnes.Operations.Keys.{safe_key_text, normalized_destination}
use windows_component_harnes.Operations.Overlap.{Specs, cmp_sort_key, entry_le, ordered_keys}
use windows_component_harnes.Operations.Arrays.{at, set, replicate}
use windows_component_harnes.Operations.Topology.{
  assign_ids, index_keys, count_edge, count_prerequisites, count_specs, ready_key, first_ready,
  lookup_ids, scoped_idempotency_key, release, place, drain, order_keys, topological_order,
}
use windows_component_harnes.Operations.Blocked.{IsSorted, IsCyclic}
use windows_component_harnes.Operations.DependencyOrder.{
  topological_order-IsSorted, topological_order-ne-stuck, topological_order-IsCyclic,
}

abbrev this_run : RunId
this_run = codes "0190-run"

abbrev is_this_run : Text → Bool
is_this_run t = t == this_run

abbrev reboot_behind : Text → List Text → OperationSpec
reboot_behind key prerequisites = record {
  key = key;
  component = codes "tool";
  kind = OperationKind.require_reboot (codes "driver");
  phase = OperationPhase.manual;
  prerequisites = prerequisites;
  precondition = Precondition.always;
  idempotency_key = key;
  verification = [];
  requires_elevation = false;
  non_idempotent = false;
}

abbrev a_behind_b : Specs
a_behind_b =
    (codes "a", reboot_behind (codes "a") (codes "b" ∷ []))
    ∷ (codes "b", reboot_behind (codes "b") [])
    ∷ []

abbrev both_wait : Specs
both_wait =
    (codes "a", reboot_behind (codes "a") (codes "b" ∷ []))
    ∷ (codes "b", reboot_behind (codes "b") (codes "a" ∷ []))
    ∷ []

abbrev reboot_as : Text → Text → List Text → Operation
reboot_as id key prerequisites = record {
  id = id;
  component = codes "tool";
  kind = OperationKind.require_reboot (codes "driver");
  prerequisites = prerequisites;
  precondition = Precondition.always;
  idempotency_key = key;
  verification = [];
  requires_elevation = false;
  non_idempotent = false;
}

abbrev b_then_a : List Operation
b_then_a =
    reboot_as (codes "op_0190-run_1") (codes "restore-v1:0190-run:b") []
    ∷ reboot_as (codes "op_0190-run_0") (codes "restore-v1:0190-run:a") (codes "op_0190-run_1" ∷ [])
    ∷ []

ordered-b_then_a : topological_order is_this_run a_behind_b this_run 0 ≡ ok b_then_a
unfolding topological_order order_keys assign_ids index_keys count_edge count_prerequisites
    count_specs ready_key first_ready lookup_ids scoped_idempotency_key release place drain at set
    replicate ordered_keys entry_le cmp_sort_key rank operation_kind_key normalized_destination
    sort_by insert_by for_run operation_id strip_prefix rsplit_once digits decimal OrdMap.get
    OrdMap.insert OrdMap.remove OrdSet.insert default_retryability safe_key_text
ordered-b_then_a = refl

refused-both_wait :
    topological_order is_this_run both_wait this_run 0
    ≡ err (coded_error dependency_cycle none none)
unfolding topological_order order_keys assign_ids index_keys count_edge count_prerequisites
    count_specs ready_key first_ready lookup_ids scoped_idempotency_key release place drain at set
    replicate ordered_keys entry_le cmp_sort_key rank operation_kind_key normalized_destination
    sort_by insert_by for_run operation_id strip_prefix rsplit_once digits decimal OrdMap.get
    OrdMap.insert OrdMap.remove OrdSet.insert default_retryability safe_key_text
refused-both_wait = refl

topological_order-IsSorted_example : IsSorted is_this_run a_behind_b this_run 0 b_then_a
topological_order-IsSorted_example =
    topological_order-IsSorted is_this_run a_behind_b this_run 0 b_then_a ((refl, tt), (tt, tt))
      ordered-b_then_a

topological_order-ne-stuck_example : topological_order is_this_run both_wait this_run 0 ≢ stuck
topological_order-ne-stuck_example =
    topological_order-ne-stuck is_this_run both_wait this_run 0 ((refl, tt), (tt, tt))

topological_order-IsCyclic_example :
    ((e : ErrorEnvelope)
      → topological_order is_this_run both_wait this_run 0 ≡ err e
      → e.code ≡ dependency_cycle
      → IsCyclic both_wait)
    × (IsCyclic both_wait
        → (ops : List Operation) → topological_order is_this_run both_wait this_run 0 ≢ ok ops)
topological_order-IsCyclic_example =
    topological_order-IsCyclic is_this_run both_wait this_run 0 ((refl, tt), (tt, tt)) refl
