-- ===== src/Selection/Closing.antt =====
-- The worklist loop of `build_selection_closure` in crates/reforge-domain/src/selection.rs, which
-- closes the selection under required dependencies.
use windows_component_harnes.Prelude.{
  ℕ, zero, suc, not, none, some, List, [], ◌∷◌, reverse, length, ltb, if◌then◌else◌,
}
use windows_component_harnes.Prelude.OrdMap
use windows_component_harnes.Prelude.OrdSet
use windows_component_harnes.Prelude.Text.{text_ord}
use windows_component_harnes.Domain.Error.{
  Result, ok, err, stuck, ◌>>=◌, coded_error, selection_incomplete, security_policy,
}
use windows_component_harnes.Domain.Component.{ComponentId, DependencyEdge}
use windows_component_harnes.Selection.Index.{Components, Adjacency, edges_at}

-- MAX_SELECTED_COMPONENTS
abbrev pub max_selected_components : ℕ
max_selected_components = 250_000

-- The variables of the loop. The top of the stack `pending` is the head of the list.
pub record Work : Type 0 where
  pub selected : List ComponentId
  pub auto_added : List ComponentId
  pub pending : List ComponentId

abbrev pub add_dependency : ComponentId → Work → Work
add_dependency target w = record {
  selected = OrdSet.insert target w.selected;
  auto_added = OrdSet.insert target w.auto_added;
  pending = target ∷ w.pending;
}

-- the body of the loop over the edges of `source`
unfoldable pub follow_edge : Components → ComponentId → DependencyEdge → Work → Result Work
follow_edge components source edge w =
    if not edge.required
    then ok w
    else if not (OrdMap.contains_key edge.to components)
    then err (coded_error selection_incomplete (some source) none)
    else if OrdSet.contains edge.to w.selected
    then ok w
    else if ltb max_selected_components (length (OrdSet.insert edge.to w.selected))
    then err (coded_error security_policy (some source) none)
    else ok (add_dependency edge.to w)

unfoldable pub follow_edges : Components → ComponentId → List DependencyEdge → Work → Result Work
follow_edges components source [] w = ok w
follow_edges components source (e ∷ es) w =
    follow_edge components source e w >>= follow_edges components source es

-- `while let Some(source) = pending.pop()`, with fuel
unfoldable pub close : Components → Adjacency → ℕ → Work → Result Work
close components adjacency zero w = stuck
close components adjacency (suc fuel) w = elim w.pending [
  | [] ↦ ok w
  | source ∷ rest ↦
      follow_edges components source (edges_at (OrdMap.get source adjacency))
        (record w { pending = rest })
      >>= close components adjacency fuel
]

-- the loop's start: `roots.iter().cloned().collect()`, whose last element is popped first
abbrev pub start : List ComponentId → Work
start roots = record { selected = roots; auto_added = []; pending = reverse roots }
