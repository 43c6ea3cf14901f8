-- ===== src/Selection/Index.antt =====
-- The indexes that `build_selection_closure` of crates/reforge-domain/src/selection.rs works on.
use windows_component_harnes.Prelude.{
  ℕ, Bool, true, false, not, ◌&&◌, Option, none, some, List, [], ◌∷◌, ◌++◌, any, ltb, nat_eq,
  if◌then◌else◌, Ordering,
}
use windows_component_harnes.Prelude.Order.{◌==◌}
use windows_component_harnes.Prelude.OrdMap
use windows_component_harnes.Prelude.OrdMap.{OrdMap}
use windows_component_harnes.Prelude.OrdSet
use windows_component_harnes.Prelude.Sort.{sort_by}
use windows_component_harnes.Prelude.Text.{text_ord, cmp_text}
use windows_component_harnes.Domain.Error.{
  Result, ok, err, coded_error, schema_invalid, selection_incomplete,
}
use windows_component_harnes.Domain.Kinds.{DependencyKind}
use windows_component_harnes.Domain.Component.{
  ComponentId, ArtifactId, Component, ArtifactRef, DependencyEdge, ComponentGraph,
}
use windows_component_harnes.Domain.Selection.{ArtifactSelection, SelectionInput}

abbrev pub Components : Type 0
Components = OrdMap ComponentId Component

-- an artifact and the component that owns it
abbrev pub Artifacts : Type 0
Artifacts = OrdMap ArtifactId (ComponentId × ArtifactRef)

abbrev pub Adjacency : Type 0
Adjacency = OrdMap ComponentId (List DependencyEdge)

unfoldable pub index_components_from : Components → List Component → Result Components
index_components_from m [] = ok m
index_components_from m (c ∷ cs) =
    let rest = index_components_from (OrdMap.insert c.id c m) cs in
    if OrdMap.contains_key c.id m then err (coded_error schema_invalid (some c.id) none) else rest

unfoldable pub index_components : ComponentGraph → Result Components
unfolding index_components_from
index_components graph = index_components_from [] graph.components

abbrev pub flat_map : {A B : Type 0} → (A → List B) → List A → List B
flat_map f [] = []
flat_map f (x ∷ xs) = f x ++ flat_map f xs

abbrev pub owned : Component → List ArtifactRef → List (ComponentId × ArtifactRef)
owned c [] = []
owned c (a ∷ as') = (c.id, a) ∷ owned c as'

-- the two nested loops over the components and their artifacts, as one over the pairs
abbrev pub all_artifacts : ComponentGraph → List (ComponentId × ArtifactRef)
all_artifacts graph = flat_map (λ c. owned c c.artifacts) graph.components

unfoldable pub index_artifacts_from :
    Artifacts → List (ComponentId × ArtifactRef) → Result Artifacts
index_artifacts_from m [] = ok m
index_artifacts_from m ((owner, a) ∷ rest) =
    let next = index_artifacts_from (OrdMap.insert a.id (owner, a) m) rest in
    if OrdMap.contains_key a.id m then err (coded_error schema_invalid (some owner) none) else next

unfoldable pub index_artifacts : ComponentGraph → Result Artifacts
unfolding index_artifacts_from
index_artifacts graph = index_artifacts_from [] (all_artifacts graph)

unfoldable pub dependency_kind_order : DependencyKind → ℕ
dependency_kind_order DependencyKind.required_runtime = 0
dependency_kind_order DependencyKind.required_package = 1
dependency_kind_order DependencyKind.installed_through = 2
dependency_kind_order DependencyKind.configures = 3
dependency_kind_order DependencyKind.uses_secret = 4
dependency_kind_order DependencyKind.optional_feature = 5
dependency_kind_order DependencyKind.provides_executable = 6
dependency_kind_order DependencyKind.contains = 7
dependency_kind_order DependencyKind.restores_before = 8
dependency_kind_order DependencyKind.verifies_with = 9
dependency_kind_order DependencyKind.related_only = 10

abbrev pub bool_eq : Bool → Bool → Bool
bool_eq true b = b
bool_eq false b = not b

-- the key of `seen`, which serves membership tests only
abbrev pub same_key : DependencyEdge → DependencyEdge → Bool
unfolding dependency_kind_order
same_key a b =
    a.source == b.source
    && (a.to == b.to
        && (nat_eq (dependency_kind_order a.kind) (dependency_kind_order b.kind)
            && bool_eq a.required b.required))

-- the edges that the adjacency map has for a component
abbrev pub edges_at : Option (List DependencyEdge) → List DependencyEdge
edges_at none = []
edges_at (some es) = es

-- `indexed.entry(edge.from).or_default().push(edge)`
abbrev pub push_edge : DependencyEdge → Adjacency → Adjacency
push_edge e m = OrdMap.insert e.source (edges_at (OrdMap.get e.source m) ++ e ∷ []) m

unfoldable pub index_edges_from : List DependencyEdge → Adjacency → List DependencyEdge → Adjacency
index_edges_from seen m [] = m
index_edges_from seen m (e ∷ es) = elim (any (same_key e) seen) [
  | true ↦ index_edges_from seen m es
  | false ↦ index_edges_from (e ∷ seen) (push_edge e m) es
]

abbrev pub bool_le : Bool → Bool → Bool
bool_le true b = b
bool_le false b = true

unfoldable pub edge_le : DependencyEdge → DependencyEdge → Bool
unfolding dependency_kind_order
edge_le a b = elim (cmp_text a.to b.to) [
  | Ordering.lt ↦ true
  | Ordering.gt ↦ false
  | Ordering.eq ↦
      if nat_eq (dependency_kind_order a.kind) (dependency_kind_order b.kind)
      then bool_le a.required b.required
      else ltb (dependency_kind_order a.kind) (dependency_kind_order b.kind)
]

abbrev pub map_values : {K V W : Type 0} → (V → W) → OrdMap K V → OrdMap K W
map_values f [] = []
map_values f ((k, v) ∷ m) = (k, f v) ∷ map_values f m

abbrev pub all_edges : ComponentGraph → List DependencyEdge
all_edges graph = graph.edges ++ flat_map (λ (c : Component). c.dependencies) graph.components

unfoldable pub index_edges : ComponentGraph → Adjacency
unfolding index_edges_from sort_by edge_le
index_edges graph = map_values (sort_by edge_le) (index_edges_from [] [] (all_edges graph))

abbrev pub Decisions : Type 0
Decisions = OrdMap ArtifactId Bool

abbrev pub owner_of : Option (ComponentId × ArtifactRef) → Option ComponentId
owner_of none = none
owner_of (some (owner, a)) = some owner

unfoldable pub index_artifact_selection_from :
    Artifacts → Decisions → List ArtifactSelection → Result Decisions
index_artifact_selection_from artifacts m [] = ok m
index_artifact_selection_from artifacts m (s ∷ rest) =
    let next =
      index_artifact_selection_from artifacts (OrdMap.insert s.artifact s.include m) rest in
    if not (OrdMap.contains_key s.artifact artifacts)
    then err (coded_error selection_incomplete none none)
    else if OrdMap.contains_key s.artifact m
    then err (coded_error selection_incomplete (owner_of (OrdMap.get s.artifact artifacts)) none)
    else next

unfoldable pub index_artifact_selection : SelectionInput → Artifacts → Result Decisions
unfolding index_artifact_selection_from
index_artifact_selection input artifacts =
    index_artifact_selection_from artifacts [] input.artifacts

unfoldable pub user_selected_from :
    Components → List ComponentId → List ComponentId → Result (List ComponentId)
user_selected_from components selected [] = ok selected
user_selected_from components selected (c ∷ cs) =
    let rest = user_selected_from components (OrdSet.insert c selected) cs in
    if not (OrdMap.contains_key c components)
    then err (coded_error selection_incomplete none none)
    else if OrdSet.contains c selected
    then err (coded_error selection_incomplete (some c) none)
    else rest

unfoldable pub user_selected_components : SelectionInput → Components → Result (List ComponentId)
unfolding user_selected_from
user_selected_components input components = user_selected_from components [] input.components
