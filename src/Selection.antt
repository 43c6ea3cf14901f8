-- ===== src/Selection.antt =====
-- `build_selection_closure` of crates/reforge-domain/src/selection.rs: a user's selection is closed
-- under required dependencies and checked against the policy. The proofs are in the modules below.
mod Index
mod Closing
mod Policy
mod Picking
mod Edges
mod Worklist
mod Fuel
mod Sound
mod Accepted
mod Lookup
mod Permits
mod Picks
mod AllPicks
mod Closes
mod Returning
pub mod Total
pub mod Closure
pub mod Safety
mod Samples
use windows_component_harnes.Prelude.{suc, ◌&&◌, none, [], length, ltb}
use windows_component_harnes.Domain.Error.{
  Result, ok, ◌>>=◌, ◌>>◌, coded_error, reject_if, security_policy,
}
use windows_component_harnes.Domain.Component.{ComponentGraph}
use windows_component_harnes.Domain.Selection.{SelectionInput, SelectionClosure}
use Index.{
  Components, Artifacts, Adjacency, Decisions, index_components, index_artifacts, index_edges,
  index_artifact_selection, user_selected_components,
}
use Closing.{max_selected_components, Work, close, start}
use Policy.{is_some_and}
use Picking.{warn_added, expose_optional_edges, validate_components, check_owners, Picked, pick}

-- What follows the worklist: the checks of the policy, the artifacts, and the frozen record.
unfoldable pub freeze :
    SelectionInput → Components → Artifacts → Adjacency → Decisions → Work → Result SelectionClosure
freeze input components artifacts adjacency explicit_artifacts closed = do
  added_warnings ← warn_added closed.auto_added []
  edge_warnings ←
      expose_optional_edges adjacency closed.selected components closed.selected added_warnings
  component_warnings ← validate_components components input.policy closed.selected edge_warnings
  check_owners artifacts closed.selected input.artifacts
  picked ←
      pick components input.policy explicit_artifacts closed.selected
        (record { artifacts = []; total_bytes = 0; warnings = component_warnings })
  reject_if (is_some_and input.policy.max_bytes (λ maximum. ltb maximum picked.total_bytes))
      (coded_error security_policy none none)
  ok (record {
    selected_components = closed.selected;
    selected_artifacts = picked.artifacts;
    auto_added_dependencies = closed.auto_added;
    total_bytes = picked.total_bytes;
    warnings = picked.warnings;
  })

-- The loop pops each component at most once, so its fuel is one more than their number.
unfoldable pub build_selection_closure : ComponentGraph → SelectionInput → Result SelectionClosure
build_selection_closure graph input = do
  components ← index_components graph
  artifacts ← index_artifacts graph
  let adjacency = index_edges graph
  explicit_artifacts ← index_artifact_selection input artifacts
  reject_if (ltb max_selected_components (length input.components))
      (coded_error security_policy none none)
  roots ← user_selected_components input components
  closed ← close components adjacency (suc (length components)) (start roots)
  freeze input components artifacts adjacency explicit_artifacts closed
