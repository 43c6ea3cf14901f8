-- ===== src/Selection/Safety.antt =====
-- The policy holds for everything that an accepted selection includes.
use windows_component_harnes.Prelude.{
  ℕ, ◌≤◌, ◌<◌, ◌^◌, Bool, true, false, ◌≡◌, ◌⊎◌, inl, inr, Option, some, List, [], ◌∷◌, In, arith,
  Option-cases,
}
use windows_component_harnes.Prelude.OrdMap
use windows_component_harnes.Prelude.OrdMap.{is_some}
use windows_component_harnes.Prelude.OrdSet
use windows_component_harnes.Prelude.Text.{text_ord}
use windows_component_harnes.Domain.Error.{ok, >>=-eq-ok}
use windows_component_harnes.Domain.Component.{
  ComponentId, ArtifactId, Component, ArtifactRef, ComponentGraph,
}
use windows_component_harnes.Domain.Selection.{
  SelectionInput, SelectionClosure, SelectionPolicy, SecretSelectionPolicy,
  LargeDataSelectionPolicy,
}
use windows_component_harnes.Selection.{build_selection_closure}
use windows_component_harnes.Selection.Index.{Components}
use windows_component_harnes.Selection.Policy.{
  Warnings, is_secret_artifact, is_large, validate_component_policy, default_artifact_selection,
}
use windows_component_harnes.Selection.Picking.{
  expect_component, validate_components, path_is_invalid, is_included,
}
use windows_component_harnes.Selection.Lookup.{
  index_components-get, index_components-In, Decided, index_artifact_selection-Decided,
}
use windows_component_harnes.Selection.Permits.{IsPermitted, validate_component_policy-IsPermitted}
use windows_component_harnes.Selection.AllPicks.{IsPick, pick-IsPick}
use windows_component_harnes.Selection.Accepted.{IsAccepted, build-IsAccepted}

validate_components-IsPermitted :
    (components : Components) (policy : SelectionPolicy) (ss : List ComponentId) (w w' : Warnings)
    → validate_components components policy ss w ≡ ok w'
    → (s : ComponentId) (c : Component) → In s ss
    → OrdMap.get s components ≡ some c
    → IsPermitted policy c
unfolding validate_components
validate_components-IsPermitted components policy [] w w' h s c i g = absurd i
validate_components-IsPermitted components policy (t ∷ ss) w w' h s c i g =
    let (d, found, h1) = >>=-eq-ok (expect_component (OrdMap.get t components)) _ h in
    let (v, valid, h2) = >>=-eq-ok (validate_component_policy policy d w) _ h1 in
    elim i [
      | inl e ↦
          let same : d ≡ c = expected (OrdMap.get t components) d found (rw e at g) in
          rw (← same) (validate_component_policy-IsPermitted policy d w v valid)
      | inr j ↦ validate_components-IsPermitted components policy ss v w' h2 s c j g
    ]
  where
    expected :
        (o : Option Component) (d : Component) → expect_component o ≡ ok d → o ≡ some c → d ≡ c
    expected o d p q = ground arith

-- Every selected component is permitted: none is sensitive where secrets are excluded, none is an
-- unknown binary where those are excluded, and an unknown binary has an executable hash in the safe
-- grammar.
pub selected-IsPermitted :
    (graph : ComponentGraph) (input : SelectionInput) (result : SelectionClosure)
    → build_selection_closure graph input ≡ ok result
    → (c : Component) → In c graph.components
    → OrdSet.contains c.id result.selected_components ≡ true
    → IsPermitted input.policy c
selected-IsPermitted graph input result h c listed selected =
    let a = build-IsAccepted graph input result h in
    validate_components-IsPermitted a.components input.policy a.closed.selected a.edge_warnings
      a.component_warnings a.validated c.id c
      ((OrdSet.In-contains c.id a.closed.selected).0 (rw a.selected at selected))
      (index_components-get graph a.components c a.indexed listed)

-- An artifact that a selection may include: it belongs to a selected component, the user asked for
-- it or it is selected by default, its path is a valid token, it holds no secret where secrets are
-- excluded, and if it is large then the policy allows confirmed large data and the user decided.
pub record IsJustified (graph : ComponentGraph) (input : SelectionInput)
    (selected : List ComponentId) (x : ArtifactId) : Type 0 where
  pub owner : Component
  pub artifact : ArtifactRef
  pub listed : In owner graph.components
  pub owner_selected : OrdSet.contains owner.id selected ≡ true
  pub owned : In artifact owner.artifacts
  pub named : artifact.id ≡ x
  pub decision : Decided input x true ⊎ (default_artifact_selection artifact ≡ true)
  pub path : path_is_invalid artifact.source_path ≡ false
  pub no_secret :
      input.policy.secrets ≡ SecretSelectionPolicy.exclude
      → is_secret_artifact owner artifact ≡ false
  pub large :
      is_large artifact ≡ true
      → (input.policy.large_data ≡ LargeDataSelectionPolicy.require_confirmation)
        × ((b : Bool) × Decided input x b)

module _ (graph : ComponentGraph) (input : SelectionInput) (result : SelectionClosure)
    (a : IsAccepted graph input result) where
  picked-IsPick :
      IsPick input.policy a.decisions a.components a.closed.selected
        (record { artifacts = []; total_bytes = 0; warnings = a.component_warnings })
        a.picked
  picked-IsPick =
      pick-IsPick input.policy a.decisions a.components a.closed.selected _ a.picked a.picking

  decision_of :
      (art : ArtifactRef)
      → is_included a.decisions art ≡ true
      → Decided input art.id true ⊎ (default_artifact_selection art ≡ true)
  decision_of art included = elim (Option-cases (OrdMap.get art.id a.decisions)) [
    | inl absent ↦ inr (ground (arith))
    | inr (b, e) ↦ inl (
        index_artifact_selection-Decided input a.artifacts a.decisions art.id true a.decided
          (ground (arith)))
  ]

  explicit_decision :
      (art : ArtifactRef)
      → is_some (OrdMap.get art.id a.decisions) ≡ true
      → (b : Bool) × Decided input art.id b
  explicit_decision art h = elim (Option-cases (OrdMap.get art.id a.decisions)) [
    | inl absent ↦ cc (rw absent at h)
    | inr (b, e) ↦
        (b, index_artifact_selection-Decided input a.artifacts a.decisions art.id b a.decided e)
  ]

  picked-IsJustified :
      (x : ArtifactId)
      → OrdSet.contains x a.picked.artifacts ≡ true
      → IsJustified graph input a.closed.selected x
  unfolding OrdSet.contains
  picked-IsJustified x h = elim (picked-IsPick.from x h) [
    | inl none_yet ↦ cc
    | inr (s, c, art, i, g, owned, named, w) ↦
        let (listed, at) = index_components-In graph a.components s c a.indexed g in
        record {
          owner = c;
          artifact = art;
          listed = listed;
          owner_selected = rw at ((OrdSet.In-contains s a.closed.selected).1 i);
          owned = owned;
          named = named;
          decision = rw (← named) (decision_of art w.included);
          path = w.path;
          no_secret = w.allowed.no_secret;
          large = λ e.
              let (confirm, explicit) = w.allowed.large e in
              (confirm, rw (← named) (explicit_decision art explicit));
        }
  ]

-- Every selected artifact is justified.
pub selected_artifact-IsJustified :
    (graph : ComponentGraph) (input : SelectionInput) (result : SelectionClosure)
    → build_selection_closure graph input ≡ ok result
    → (x : ArtifactId) → OrdSet.contains x result.selected_artifacts ≡ true
    → IsJustified graph input result.selected_components x
selected_artifact-IsJustified graph input result h x selected =
    let a = build-IsAccepted graph input result h in
    rw a.selected (picked-IsJustified graph input result a x (rw a.selected_artifacts at selected))

-- The total is below 2 ^ 64, and within the size limit that the policy sets, if it sets one.
pub total_bytes_bounded :
    (graph : ComponentGraph) (input : SelectionInput) (result : SelectionClosure)
    → build_selection_closure graph input ≡ ok result
    → (result.total_bytes < 2 ^ 64)
      × ((maximum : ℕ) → input.policy.max_bytes ≡ some maximum → result.total_bytes ≤ maximum)
total_bytes_bounded graph input result h =
    let a = build-IsAccepted graph input result h in
    (
      rw a.total_bytes ((picked-IsPick graph input result a).bounded (omega arith)),
      λ maximum e. rw a.total_bytes (ground (arith, a.fits)),
    )
