-- ===== src/Selection/Accepted.antt =====
-- An accepted selection taken apart: what each stage of `build_selection_closure` returned.
use windows_component_harnes.Prelude.{suc, false, ◌≡◌, ap, sym, List, [], length, ltb}
use windows_component_harnes.Domain.Error.{ok, >>=-eq-ok, reject_if-eq-ok, ok-injective}
use windows_component_harnes.Domain.Component.{ComponentId, ComponentGraph}
use windows_component_harnes.Domain.Selection.{SelectionInput, SelectionClosure}
use windows_component_harnes.Selection.{build_selection_closure, freeze}
use windows_component_harnes.Selection.Index.{
  Components, Artifacts, Decisions, index_components, index_artifacts, index_edges,
  index_artifact_selection, user_selected_components,
}
use windows_component_harnes.Selection.Closing.{Work, close, start}
use windows_component_harnes.Selection.Policy.{Warnings, is_some_and}
use windows_component_harnes.Selection.Picking.{
  warn_added, expose_optional_edges, validate_components, check_owners, Picked, pick,
}

-- The worklist ran to its end from the user's components.
pub record IsClosed (graph : ComponentGraph) (input : SelectionInput) (components : Components)
    (closed : Work) : Type 0 where
  pub roots : List ComponentId
  pub chosen : user_selected_components input components ≡ ok roots
  pub closing :
      close components (index_edges graph) (suc (length components)) (start roots) ≡ ok closed

pub record IsAccepted (graph : ComponentGraph) (input : SelectionInput) (result : SelectionClosure)
    : Type 0 where
  pub components : Components
  pub artifacts : Artifacts
  pub decisions : Decisions
  pub closed : Work
  pub added_warnings : Warnings
  pub edge_warnings : Warnings
  pub component_warnings : Warnings
  pub picked : Picked
  pub indexed : index_components graph ≡ ok components
  pub artifacts_indexed : index_artifacts graph ≡ ok artifacts
  pub decided : index_artifact_selection input artifacts ≡ ok decisions
  pub closes : IsClosed graph input components closed
  pub validated :
      validate_components components input.policy closed.selected edge_warnings
      ≡ ok component_warnings
  pub owners : check_owners artifacts closed.selected input.artifacts ≡ ok tt
  pub picking :
      pick components input.policy decisions closed.selected
        (record { artifacts = []; total_bytes = 0; warnings = component_warnings })
      ≡ ok picked
  pub fits : is_some_and input.policy.max_bytes (λ maximum. ltb maximum picked.total_bytes) ≡ false
  pub selected : result.selected_components ≡ closed.selected
  pub auto_added : result.auto_added_dependencies ≡ closed.auto_added
  pub selected_artifacts : result.selected_artifacts ≡ picked.artifacts
  pub total_bytes : result.total_bytes ≡ picked.total_bytes

pub build-IsAccepted :
    (graph : ComponentGraph) (input : SelectionInput) (result : SelectionClosure)
    → build_selection_closure graph input ≡ ok result
    → IsAccepted graph input result
unfolding build_selection_closure freeze
build-IsAccepted graph input result h =
    let (components, indexed, h1) = >>=-eq-ok (index_components graph) _ h in
    let (artifacts, artifacts_indexed, h2) = >>=-eq-ok (index_artifacts graph) _ h1 in
    let (decisions, decided, h3) = >>=-eq-ok (index_artifact_selection input artifacts) _ h2 in
    let (_, h4) = reject_if-eq-ok _ _ _ h3 in
    let (roots, chosen, h5) = >>=-eq-ok (user_selected_components input components) _ h4 in
    let (closed, closing, h6) =
      >>=-eq-ok (close components (index_edges graph) (suc (length components)) (start roots)) _
        h5 in
    let (w1, _, h7) = >>=-eq-ok (warn_added closed.auto_added []) _ h6 in
    let (w2, _, h8) =
      >>=-eq-ok
        (expose_optional_edges (index_edges graph) closed.selected components closed.selected w1) _
        h7 in
    let (w3, validated, h9) =
      >>=-eq-ok (validate_components components input.policy closed.selected w2) _ h8 in
    let (u, owners, h10) =
      >>=-eq-ok (check_owners artifacts closed.selected input.artifacts) _ h9 in
    let (picked, picking, h11) =
      >>=-eq-ok
        (pick components input.policy decisions closed.selected
          (record { artifacts = []; total_bytes = 0; warnings = w3 }))
        _ h10 in
    let (fits, h12) = reject_if-eq-ok _ _ _ h11 in
    record {
      components = components;
      artifacts = artifacts;
      decisions = decisions;
      closed = closed;
      added_warnings = w1;
      edge_warnings = w2;
      component_warnings = w3;
      picked = picked;
      indexed = indexed;
      artifacts_indexed = artifacts_indexed;
      decided = decided;
      closes = record { roots = roots; chosen = chosen; closing = closing };
      validated = validated;
      owners = owners;
      picking = picking;
      fits = fits;
      selected = ap (λ (r : SelectionClosure). r.selected_components) (sym (ok-injective h12));
      auto_added =
          ap (λ (r : SelectionClosure). r.auto_added_dependencies) (sym (ok-injective h12));
      selected_artifacts =
          ap (λ (r : SelectionClosure). r.selected_artifacts) (sym (ok-injective h12));
      total_bytes = ap (λ (r : SelectionClosure). r.total_bytes) (sym (ok-injective h12));
    }
