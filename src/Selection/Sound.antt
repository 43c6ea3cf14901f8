-- ===== src/Selection/Sound.antt =====
-- What the worklist loop keeps: every selected component is needed, known, and either a root or
-- automatically added.
use windows_component_harnes.Prelude.{
  ℕ, zero, suc, true, false, ◌||◌, ◌≡◌, refl, ◌⊎◌, inl, inr, List, [], ◌∷◌, In, arith, Bool-cases,
}
use windows_component_harnes.Prelude.Order.{◌==◌, ==_iff}
use windows_component_harnes.Prelude.OrdMap
use windows_component_harnes.Prelude.OrdSet
use windows_component_harnes.Prelude.Text.{text_ord}
use windows_component_harnes.Domain.Error.{ok, >>=-eq-ok, ok-injective}
use windows_component_harnes.Domain.Component.{ComponentId, DependencyEdge, ComponentGraph}
use windows_component_harnes.Selection.Index.{
  Components, all_edges, index_edges, user_selected_from,
}
use windows_component_harnes.Selection.Edges.{index_edges-ComesFrom}
use windows_component_harnes.Selection.Closing.{
  Work, add_dependency, follow_edge, follow_edges, close,
}
use windows_component_harnes.Selection.Worklist.{follow_edge_cases, close_cases, IsSelected}

-- The least set that holds the user's choice and is closed under required dependencies.
pub data Needed (graph : ComponentGraph) (chosen : List ComponentId) : ComponentId → Type 0 where
  root : {x : ComponentId} → In x chosen → Needed graph chosen x
  dependency :
      {x : ComponentId} (e : DependencyEdge)
      → In e (all_edges graph)
      → e.required ≡ true
      → Needed graph chosen e.source
      → e.to ≡ x
      → Needed graph chosen x

module _ (graph : ComponentGraph) (components : Components) (roots chosen : List ComponentId) where
  pub record IsSound (w : Work) : Type 0 where
    pub needed : (x : ComponentId) → IsSelected x w → Needed graph chosen x
    pub stacked : (x : ComponentId) → In x w.pending → Needed graph chosen x
    pub known : (x : ComponentId) → IsSelected x w → OrdMap.contains_key x components ≡ true
    pub split :
        (x : ComponentId)
        → OrdSet.contains x w.selected ≡ (OrdSet.contains x roots || OrdSet.contains x w.auto_added)
    pub apart :
        (x : ComponentId) → OrdSet.contains x w.auto_added ≡ true → OrdSet.contains x roots ≡ false

  add_dependency-IsSound :
      (e : DependencyEdge) (w : Work)
      → Needed graph chosen e.to
      → OrdMap.contains_key e.to components ≡ true
      → OrdSet.contains e.to w.selected ≡ false
      → IsSound w
      → IsSound (add_dependency e.to w)
  add_dependency-IsSound e w n k s inv = record {
    needed = λ x h. elim (was x h) [ inl p ↦ rw p n | inr p ↦ inv.needed x p ];
    stacked = λ x h. elim h [ inl p ↦ rw p n | inr p ↦ inv.stacked x p ];
    known = λ x h. elim (was x h) [ inl p ↦ rw p k | inr p ↦ inv.known x p ];
    split = λ x. ground (
      arith,
      inv.split x,
      OrdSet.contains-insert x e.to w.selected,
      OrdSet.contains-insert x e.to w.auto_added,
    );
    apart = λ x h. elim (Bool-cases (x == e.to)) [
      | inl p ↦
          let same : x ≡ e.to = (==_iff x e.to).0 p in
          ground (arith, inv.split e.to, subst_roots x same)
      | inr p ↦ inv.apart x (ground (arith, OrdSet.contains-insert x e.to w.auto_added))
    ];
  }
    where
      was : (x : ComponentId) → IsSelected x (add_dependency e.to w) → (x ≡ e.to) ⊎ IsSelected x w
      was x h = elim (Bool-cases (x == e.to)) [
        | inl p ↦ inl ((==_iff x e.to).0 p)
        | inr p ↦ inr (ground (arith, OrdSet.contains-insert x e.to w.selected))
      ]

      subst_roots :
          (x : ComponentId) → x ≡ e.to → OrdSet.contains x roots ≡ OrdSet.contains e.to roots
      subst_roots x p = rw p

  module _ (source : ComponentId) (n : Needed graph chosen source) where
    follow_edges-IsSound :
        (es : List DependencyEdge) (w w' : Work)
        → ((e : DependencyEdge) → In e es → In e (all_edges graph) × (e.source ≡ source))
        → follow_edges components source es w ≡ ok w'
        → IsSound w
        → IsSound w'
    unfolding follow_edges
    follow_edges-IsSound [] w w' from h inv = rw (← ok-injective h) inv
    follow_edges-IsSound (e ∷ es) w w' from h inv =
        let (v, first, rest) = >>=-eq-ok (follow_edge components source e w) _ h in
        follow_edges-IsSound es v w' (λ d i. from d (inr i)) rest
          (elim (follow_edge_cases components source e w v first) [
            | inl (r, p) ↦ rw (← p) inv
            | inr (inl (r, k, s, p)) ↦ rw (← p) inv
            | inr (inr (r, k, s, p)) ↦
                let (listed, at) = from e (inl refl) in
                rw (← p) (add_dependency-IsSound e w (dependency e listed r (rw at n) refl) k s inv)
          ])

  pub close-IsSound :
      (fuel : ℕ) (w w' : Work)
      → close components (index_edges graph) fuel w ≡ ok w'
      → IsSound w
      → IsSound w'
  unfolding close
  close-IsSound zero w w' h inv = cc
  close-IsSound (suc fuel) w w' h inv =
      elim (close_cases components (index_edges graph) fuel w w' h) [
        | inl (e, p) ↦ rw (← p) inv
        | inr (source, rest, v, e, first, next) ↦ close-IsSound fuel v w' next (
            follow_edges-IsSound source (inv.stacked source (rw e (inl refl))) _ _ v
              (index_edges-ComesFrom graph source) first
              (record {
                needed = inv.needed;
                stacked = λ x i. inv.stacked x (rw e (inr i));
                known = inv.known;
                split = inv.split;
                apart = inv.apart;
              }))
      ]

-- The roots are what the user chose, without repetitions, and all of it is known.
pub user_selected_from_lem :
    (components : Components) (selected cs roots : List ComponentId)
    → user_selected_from components selected cs ≡ ok roots
    → (x : ComponentId)
    → (OrdSet.contains x roots ≡ (OrdSet.contains x selected || OrdSet.contains x cs))
      × (OrdSet.contains x cs ≡ true → OrdMap.contains_key x components ≡ true)
unfolding user_selected_from OrdSet.contains
user_selected_from_lem components selected [] roots h x = (ground (arith, ok-injective h), λ e. cc)
user_selected_from_lem components selected (c ∷ cs) roots h x =
    let (known, rest) = accepted (Bool-cases (OrdMap.contains_key c components)) in
    let (r, k) = user_selected_from_lem components (OrdSet.insert c selected) cs roots rest x in
    (
      ground (arith, OrdSet.contains-insert x c selected, r),
      λ e. elim (Bool-cases (x == c)) [
        | inl p ↦ rw ((==_iff x c).0 p) known
        | inr p ↦ k (ground arith)
      ],
    )
  where
    accepted :
        (OrdMap.contains_key c components ≡ true) ⊎ (OrdMap.contains_key c components ≡ false)
        → (OrdMap.contains_key c components ≡ true)
          × (user_selected_from components (OrdSet.insert c selected) cs ≡ ok roots)
    accepted k = ground arith
