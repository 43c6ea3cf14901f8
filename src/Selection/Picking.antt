-- ===== src/Selection/Picking.antt =====
-- The parts of `build_selection_closure` behind the worklist: the warnings, the check of the
-- owners, and the choice of the artifacts (crates/reforge-domain/src/selection.rs).
use windows_component_harnes.Prelude.{
  ℕ, Bool, true, false, not, ◌&&◌, ◌+◌, ◌^◌, Option, none, some, List, [], ◌∷◌, ◌++◌, length, ltb,
  if◌then◌else◌, Ordering,
}
use windows_component_harnes.Prelude.OrdMap
use windows_component_harnes.Prelude.OrdMap.{is_some}
use windows_component_harnes.Prelude.OrdSet
use windows_component_harnes.Prelude.Sort.{sort_by}
use windows_component_harnes.Prelude.Text.{text_ord, codes, cmp_text}
use windows_component_harnes.Domain.Error.{
  Result, ok, err, stuck, ◌>>=◌, ◌>>◌, coded_error, reject_if, selection_incomplete,
  security_policy,
}
use windows_component_harnes.Domain.Paths.{PathToken, valid, invalid, validate}
use windows_component_harnes.Domain.Component.{
  ComponentId, ArtifactId, Component, ArtifactRef, DependencyEdge,
}
use windows_component_harnes.Domain.Selection.{ArtifactSelection, SelectionPolicy}
use windows_component_harnes.Selection.Index.{
  Components, Artifacts, Adjacency, Decisions, edges_at, owner_of,
}
use windows_component_harnes.Selection.Policy.{
  Warnings, push_warning, validate_component_policy, validate_artifact_policy,
  default_artifact_selection, is_some_and,
}

unfoldable pub warn_added : List ComponentId → Warnings → Result Warnings
warn_added [] warnings = ok warnings
warn_added (d ∷ ds) warnings =
    push_warning warnings (codes "Required dependency was automatically added: " ++ d)
    >>= warn_added ds

unfoldable pub expose_edges :
    Components → List ComponentId → List DependencyEdge → Warnings → Result Warnings
expose_edges components selected [] warnings = ok warnings
expose_edges components selected (e ∷ es) warnings =
    let state =
      if OrdMap.contains_key e.to components
      then codes "available but not selected"
      else codes "unavailable in the inventory" in
    (if not e.required && not (OrdSet.contains e.to selected)
      then push_warning warnings (codes "Optional dependency " ++ (state ++ (codes ": " ++ e.to)))
      else ok warnings)
    >>= expose_edges components selected es

unfoldable pub expose_optional_edges :
    Adjacency → List ComponentId → Components → List ComponentId → Warnings → Result Warnings
expose_optional_edges adjacency selected components [] warnings = ok warnings
expose_optional_edges adjacency selected components (s ∷ ss) warnings =
    expose_edges components selected (edges_at (OrdMap.get s adjacency)) warnings
    >>= expose_optional_edges adjacency selected components ss

-- `expect("selected component IDs are indexed")`
abbrev pub expect_component : Option Component → Result Component
expect_component none = stuck
expect_component (some c) = ok c

unfoldable pub validate_components :
    Components → SelectionPolicy → List ComponentId → Warnings → Result Warnings
validate_components components policy [] warnings = ok warnings
validate_components components policy (s ∷ ss) warnings = do
  c ← expect_component (OrdMap.get s components)
  warned ← validate_component_policy policy c warnings
  validate_components components policy ss warned

abbrev pub owner_is_missing : Option (ComponentId × ArtifactRef) → List ComponentId → Bool
owner_is_missing found selected = is_some_and found (λ o. not (OrdSet.contains o.0 selected))

unfoldable pub check_owners :
    Artifacts → List ComponentId → List ArtifactSelection → Result (Unit {0})
check_owners artifacts selected [] = ok tt
check_owners artifacts selected (s ∷ ss) = do
  reject_if (s.include && owner_is_missing (OrdMap.get s.artifact artifacts) selected)
      (coded_error selection_incomplete (owner_of (OrdMap.get s.artifact artifacts)) none)
  check_owners artifacts selected ss

-- MAX_SELECTED_ARTIFACTS
abbrev pub max_selected_artifacts : ℕ
max_selected_artifacts = 1_000_000

pub record Picked : Type 0 where
  pub artifacts : List ArtifactId
  pub total_bytes : ℕ  -- u64
  pub warnings : Warnings

-- `u64::checked_add`
abbrev pub checked_add : ℕ → ℕ → Option ℕ
checked_add a b = if ltb (a + b) (2 ^ 64) then some (a + b) else none

abbrev pub path_is_invalid : PathToken → Bool
path_is_invalid token = elim (validate token) [ valid u ↦ false | invalid e ↦ true ]

abbrev pub unwrap_or : Option Bool → Bool → Bool
unwrap_or none d = d
unwrap_or (some b) d = b

abbrev pub is_included : Decisions → ArtifactRef → Bool
is_included decisions a = unwrap_or (OrdMap.get a.id decisions) (default_artifact_selection a)

abbrev pub add_bytes : ComponentId → ℕ → ℕ → Result ℕ
add_bytes c total size = elim (checked_add total size) [
  | none ↦ err (coded_error security_policy (some c) none)
  | some sum ↦ ok sum
]

-- an included artifact: the body of the loop behind its `continue`
unfoldable pub pick_included :
    SelectionPolicy → Decisions → Component → ArtifactRef → Picked → Result Picked
pick_included policy decisions c a p = do
  reject_if (path_is_invalid a.source_path) (coded_error security_policy (some c.id) none)
  warned ← validate_artifact_policy policy c a (is_some (OrdMap.get a.id decisions)) p.warnings
  total ← add_bytes c.id p.total_bytes a.size_bytes
  let artifacts = OrdSet.insert a.id p.artifacts
  reject_if (ltb max_selected_artifacts (length artifacts))
      (coded_error security_policy (some c.id) none)
  ok (record { artifacts = artifacts; total_bytes = total; warnings = warned })

unfoldable pub pick_artifacts :
    SelectionPolicy → Decisions → Component → List ArtifactRef → Picked → Result Picked
pick_artifacts policy decisions c [] p = ok p
pick_artifacts policy decisions c (a ∷ as') p =
    (if is_included decisions a then pick_included policy decisions c a p else ok p)
    >>= pick_artifacts policy decisions c as'

unfoldable pub artifact_le : ArtifactRef → ArtifactRef → Bool
artifact_le a b = elim (cmp_text a.id b.id) [ Ordering.gt ↦ false | _ ↦ true ]

unfoldable pub pick :
    Components → SelectionPolicy → Decisions → List ComponentId → Picked → Result Picked
pick components policy decisions [] p = ok p
pick components policy decisions (s ∷ ss) p = do
  c ← expect_component (OrdMap.get s components)
  next ← pick_artifacts policy decisions c (sort_by artifact_le c.artifacts) p
  pick components policy decisions ss next
