-- ===== src/Selection/Total.antt =====
-- `build_selection_closure` always returns: its loop has enough fuel, and its `expect`s hold.
use windows_component_harnes.Prelude.{suc, ◌≢◌, [], length}
use windows_component_harnes.Prelude.OrdSet
use windows_component_harnes.Prelude.Text.{text_ord}
use windows_component_harnes.Domain.Error.{stuck}
use windows_component_harnes.Domain.Returns.{
  Returns, stuck_after, stuck_after_reject, returns_rules,
}
use windows_component_harnes.Domain.Component.{ComponentGraph}
use windows_component_harnes.Domain.Selection.{SelectionInput}
use windows_component_harnes.Selection.{build_selection_closure, freeze}
use windows_component_harnes.Selection.Index.{
  Components, Artifacts, Adjacency, Decisions, index_components, index_artifacts, index_edges,
  index_artifact_selection, user_selected_components, all_artifacts,
}
use windows_component_harnes.Selection.Closing.{Work, close, start}
use windows_component_harnes.Selection.Policy.{Warnings}
use windows_component_harnes.Selection.Picking.{validate_components, Picked, pick}
use windows_component_harnes.Selection.Fuel.{close-start-ne-stuck}
use windows_component_harnes.Selection.Closes.{closed-IsSound}
use windows_component_harnes.Selection.Returning.{
  AreKnown, index_components_from-Returns, index_artifacts_from-Returns,
  index_artifact_selection_from-Returns, user_selected_from-Returns, warn_added-Returns,
  expose_optional_edges-Returns, check_owners-Returns, validate_components-Returns, pick-Returns,
}

-- The stages behind the worklist return, where all selected components are known.
freeze-Returns :
    (input : SelectionInput) (components : Components) (artifacts : Artifacts)
    (adjacency : Adjacency) (decisions : Decisions) (closed : Work)
    → AreKnown components input.policy closed.selected
    → Returns (freeze input components artifacts adjacency decisions closed)
unfolding freeze
freeze-Returns input components artifacts adjacency decisions closed known =
    search
      (
        returns_rules, warn_added-Returns, expose_optional_edges-Returns, checked,
        check_owners-Returns, picks,
      )
      depth 16
  where
    checked :
        (w : Warnings) → Returns (validate_components components input.policy closed.selected w)
    checked w = validate_components-Returns components input.policy closed.selected w known

    picks : (p : Picked) → Returns (pick components input.policy decisions closed.selected p)
    picks p = pick-Returns components input.policy decisions closed.selected p known

-- `build_selection_closure` returns a selection or an error of the program on every input: its loop
-- ends within the fuel given, and no `expect` of it panics.
pub build_selection_closure-ne-stuck :
    (graph : ComponentGraph) (input : SelectionInput) → build_selection_closure graph input ≢ stuck
unfolding build_selection_closure index_components index_artifacts index_artifact_selection
build_selection_closure-ne-stuck graph input h =
    let (components, _, h1) =
      stuck_after (index_components graph) _ (index_components_from-Returns [] graph.components)
        h in
    let (artifacts, _, h2) =
      stuck_after (index_artifacts graph) _ (index_artifacts_from-Returns [] (all_artifacts graph))
        h1 in
    let (decisions, _, h3) =
      stuck_after (index_artifact_selection input artifacts) _
        (index_artifact_selection_from-Returns artifacts [] input.artifacts) h2 in
    let h4 = stuck_after_reject _ _ _ h3 in
    let (roots, chosen, h5) =
      stuck_after (user_selected_components input components) _
        (unfold user_selected_components in
          user_selected_from-Returns components [] input.components)
        h4 in
    let fuel_is_enough : Returns
        (close components (index_edges graph) (suc (length components)) (start roots)) =
      record { at = close-start-ne-stuck components (index_edges graph) input roots chosen } in
    let (closed, closing, h6) =
      stuck_after (close components (index_edges graph) (suc (length components)) (start roots)) _
        fuel_is_enough h5 in
    let sound =
      closed-IsSound {graph = graph} {input = input} {components = components} {closed = closed}
        (record { roots = roots; chosen = chosen; closing = closing }) in
    (freeze-Returns input components artifacts (index_edges graph) decisions closed
        (λ s i. sound.known s ((OrdSet.In-contains s closed.selected).1 i))).at
      h6
