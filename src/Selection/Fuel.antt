-- ===== src/Selection/Fuel.antt =====
-- The worklist loop stops: a round pops one component, and only components that were not selected
-- before are pushed.
use windows_component_harnes.Prelude.{
  ℕ, zero, suc, ◌+◌, ◌≤◌, ◌<◌, true, false, ◌≡◌, ◌≢◌, refl, inl, inr, List, [], ◌∷◌, arith, length,
  length-reverse, Bool-cases, if◌then◌else◌,
}
use windows_component_harnes.Prelude.Order.{◌==◌, ==_iff}
use windows_component_harnes.Prelude.OrdMap
use windows_component_harnes.Prelude.OrdSet
use windows_component_harnes.Prelude.Text.{text_ord}
use windows_component_harnes.Domain.Error.{ok, stuck, >>=-eq-ok, >>=-eq-stuck, ok-injective}
use windows_component_harnes.Domain.Component.{ComponentId, DependencyEdge}
use windows_component_harnes.Domain.Selection.{SelectionInput}
use windows_component_harnes.Selection.Index.{
  Components, Adjacency, edges_at, user_selected_from, user_selected_components,
}
use windows_component_harnes.Selection.Closing.{Work, follow_edge, follow_edges, close, start}
use windows_component_harnes.Selection.Worklist.{follow_edge_cases}

-- how many components are not selected
abbrev pub unselected : Components → List ComponentId → ℕ
unselected [] s = 0
unselected ((k, c) ∷ m) s = (if OrdSet.contains k s then 0 else 1) + unselected m s

unselected-insert_le :
    (m : Components) (x : ComponentId) (s : List ComponentId)
    → unselected m (OrdSet.insert x s) ≤ unselected m s
unselected-insert_le [] x s = omega arith
unselected-insert_le ((k, c) ∷ m) x s =
    ground (arith, OrdSet.contains-insert k x s, unselected-insert_le m x s)

-- Selecting a known component that was not selected leaves one fewer.
unselected-insert_lt :
    (m : Components) (x : ComponentId) (s : List ComponentId)
    → OrdMap.contains_key x m ≡ true
    → OrdSet.contains x s ≡ false
    → suc (unselected m (OrdSet.insert x s)) ≤ unselected m s
unfolding OrdMap.get
unselected-insert_lt [] x s k n = cc
unselected-insert_lt ((j, c) ∷ m) x s k n = elim (Bool-cases (x == j)) [
  | inl e ↦
      let same : x ≡ j = (==_iff x j).0 e in
      let gone : OrdSet.contains j (OrdSet.insert x s) ≡ true =
        rw (← same) (OrdSet.contains-insert_self x s) in
      let absent : OrdSet.contains j s ≡ false = rw same at n in
      ground (arith, unselected-insert_le m x s)
  | inr e ↦
      let known : OrdMap.contains_key x m ≡ true = ground arith in
      ground (arith, OrdSet.contains-insert j x s, unselected-insert_lt m x s known n)
]

unselected-nil : (m : Components) → unselected m [] ≡ length m
unfolding OrdSet.contains
unselected-nil [] = refl
unselected-nil ((k, c) ∷ m) = omega (arith, unselected-nil m)

abbrev pub load : Components → Work → ℕ
load components w = length w.pending + unselected components w.selected

module _ (components : Components) (source : ComponentId) where
  follow_edge-load :
      (e : DependencyEdge) (w w' : Work)
      → follow_edge components source e w ≡ ok w'
      → load components w' ≤ load components w
  follow_edge-load e w w' h = elim (follow_edge_cases components source e w w' h) [
    | inl (r, p) ↦ rw p (omega arith)
    | inr (inl (r, k, s, p)) ↦ rw p (omega arith)
    | inr (inr (r, k, s, p)) ↦
        rw (← p) (omega (arith, unselected-insert_lt components e.to w.selected k s))
  ]

  follow_edges-load :
      (es : List DependencyEdge) (w w' : Work)
      → follow_edges components source es w ≡ ok w'
      → load components w' ≤ load components w
  unfolding follow_edges
  follow_edges-load [] w w' h = rw (ok-injective h) (omega arith)
  follow_edges-load (e ∷ es) w w' h =
      let (v, first, rest) = >>=-eq-ok (follow_edge components source e w) _ h in
      omega (arith, follow_edge-load e w v first, follow_edges-load es v w' rest)

  follow_edge-ne-stuck : (e : DependencyEdge) (w : Work) → follow_edge components source e w ≢ stuck
  unfolding follow_edge
  follow_edge-ne-stuck e w h = ground arith

  follow_edges-ne-stuck :
      (es : List DependencyEdge) (w : Work) → follow_edges components source es w ≢ stuck
  unfolding follow_edges
  follow_edges-ne-stuck [] w h = cc
  follow_edges-ne-stuck (e ∷ es) w h = elim (>>=-eq-stuck (follow_edge components source e w) _ h) [
    | inl p ↦ follow_edge-ne-stuck e w p
    | inr (v, p, q) ↦ follow_edges-ne-stuck es v q
  ]

-- With more fuel than load the loop ends, by its own condition or by an error.
pub close-ne-stuck :
    (components : Components) (adjacency : Adjacency) (fuel : ℕ) (w : Work)
    → load components w < fuel
    → close components adjacency fuel w ≢ stuck
unfolding close
close-ne-stuck components adjacency zero w lt h = absurd (omega arith)
close-ne-stuck components adjacency (suc fuel) w lt h =
    on_stack w.pending refl (close-ne-stuck components adjacency fuel)
  where
    on_stack :
        (p : List ComponentId)
        → w.pending ≡ p
        → ((v : Work) → load components v < fuel → close components adjacency fuel v ≢ stuck)
        → ⊥
    on_stack [] e next = cc (rw (e, close) at h)
    on_stack (source ∷ rest) e next =
        elim (>>=-eq-stuck
          (follow_edges components source (edges_at (OrdMap.get source adjacency))
            (record w { pending = rest }))
          (close components adjacency fuel) (rw (e, close) at h)) [
            | inl p ↦ follow_edges-ne-stuck components source _ _ p
            | inr (v, p, q) ↦
                let popped : length w.pending ≡ suc (length rest) = rw e in
                next v (omega (arith, follow_edges-load components source _ _ v p)) q
          ]

user_selected_from-le :
    (components : Components) (selected cs roots : List ComponentId)
    → user_selected_from components selected cs ≡ ok roots
    → length selected + unselected components selected ≤ length components
    → length roots + unselected components roots ≤ length components
unfolding user_selected_from
user_selected_from-le components selected [] roots h le = rw (← ok-injective h) le
user_selected_from-le components selected (c ∷ cs) roots h le = ground (
  arith,
  user_selected_from-le components (OrdSet.insert c selected) cs roots,
  unselected-insert_lt components c selected,
  OrdSet.length-insert_le c selected,
)

-- The fuel that `build_selection_closure` gives the loop is enough.
pub close-start-ne-stuck :
    (components : Components) (adjacency : Adjacency) (input : SelectionInput)
    (roots : List ComponentId)
    → user_selected_components input components ≡ ok roots
    → close components adjacency (suc (length components)) (start roots) ≢ stuck
unfolding user_selected_components
close-start-ne-stuck components adjacency input roots h =
    close-ne-stuck components adjacency _ (start roots) (
      omega (
        arith,
        length-reverse roots,
        unselected-nil components,
        user_selected_from-le components [] input.components roots h,
      ))
