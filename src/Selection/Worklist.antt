-- ===== src/Selection/Worklist.antt =====
-- The worklist loop: what one edge, the edges of one component, and the whole loop do.
use windows_component_harnes.Prelude.{
  ℕ, zero, suc, true, false, ◌≡◌, refl, ◌⊎◌, inl, inr, List, [], ◌∷◌, In, arith, Bool-cases,
}
use windows_component_harnes.Prelude.Order.{◌==◌, ==_iff}
use windows_component_harnes.Prelude.OrdMap
use windows_component_harnes.Prelude.OrdSet
use windows_component_harnes.Prelude.Text.{text_ord}
use windows_component_harnes.Domain.Error.{ok, >>=-eq-ok, ok-injective}
use windows_component_harnes.Domain.Component.{ComponentId, DependencyEdge}
use windows_component_harnes.Selection.Index.{Components, Adjacency}
use windows_component_harnes.Selection.Edges.{edges_of}
use windows_component_harnes.Selection.Closing.{
  Work, add_dependency, follow_edge, follow_edges, close,
}

abbrev pub IsSelected : ComponentId → Work → Type 0
IsSelected x w = OrdSet.contains x w.selected ≡ true

-- `w'` comes from `w` by adding dependencies: what is new is pending.
pub record Grows (w w' : Work) : Type 0 where
  pub selected : (x : ComponentId) → IsSelected x w → IsSelected x w'
  pub pending : (x : ComponentId) → In x w.pending → In x w'.pending
  pub fresh : (x : ComponentId) → IsSelected x w' → IsSelected x w ⊎ In x w'.pending

Grows-refl : (w : Work) → Grows w w
Grows-refl w = record { selected = λ x h. h; pending = λ x h. h; fresh = λ x h. inl h }

Grows-trans : {u v w : Work} → Grows u v → Grows v w → Grows u w
Grows-trans g h = record {
  selected = λ x p. h.selected x (g.selected x p);
  pending = λ x p. h.pending x (g.pending x p);
  fresh = λ x p. elim (h.fresh x p) [
    | inl q ↦ elim (g.fresh x q) [ inl r ↦ inl r | inr r ↦ inr (h.pending x r) ]
    | inr q ↦ inr q
  ];
}

Grows-add_dependency : (t : ComponentId) (w : Work) → Grows w (add_dependency t w)
Grows-add_dependency t w = record {
  selected = λ x h. OrdSet.contains-insert_of x t w.selected h;
  pending = λ x h. inr h;
  fresh = λ x h. elim (Bool-cases (x == t)) [
    | inl e ↦ inr (inl ((==_iff x t).0 e))
    | inr e ↦ inl (ground (arith, OrdSet.contains-insert x t w.selected))
  ];
}

-- What a processed edge left behind: its target is selected, and known, if it is required.
abbrev pub IsFollowed : Components → DependencyEdge → Work → Type 0
IsFollowed components e w = e.required ≡ true → IsSelected e.to w

module _ (components : Components) (source : ComponentId) where
  -- the three ways in which one edge is accepted
  pub follow_edge_cases :
      (e : DependencyEdge) (w w' : Work)
      → follow_edge components source e w ≡ ok w'
      → (e.required ≡ false) × (w ≡ w')
        ⊎ (e.required ≡ true)
          × (OrdMap.contains_key e.to components ≡ true)
          × (OrdSet.contains e.to w.selected ≡ true)
          × (w ≡ w')
        ⊎ (e.required ≡ true)
          × (OrdMap.contains_key e.to components ≡ true)
          × (OrdSet.contains e.to w.selected ≡ false)
          × (add_dependency e.to w ≡ w')
  unfolding follow_edge
  follow_edge_cases e w w' h = ground arith

  follow_edge-Grows :
      (e : DependencyEdge) (w w' : Work)
      → follow_edge components source e w ≡ ok w'
      → Grows w w' × IsFollowed components e w'
  follow_edge-Grows e w w' h = elim (follow_edge_cases e w w' h) [
    | inl (r, p) ↦ rw (← p) (Grows-refl w, λ q. cc)
    | inr (inl (r, k, s, p)) ↦ rw (← p) (Grows-refl w, λ q. s)
    | inr (inr (r, k, s, p)) ↦
        rw (← p) (Grows-add_dependency e.to w, λ q. OrdSet.contains-insert_self e.to w.selected)
  ]

  pub follow_edges-Grows :
      (es : List DependencyEdge) (w w' : Work)
      → follow_edges components source es w ≡ ok w'
      → Grows w w' × ((e : DependencyEdge) → In e es → IsFollowed components e w')
  unfolding follow_edges
  follow_edges-Grows [] w w' h = rw (ok-injective h) (Grows-refl w', λ e b. absurd b)
  follow_edges-Grows (e ∷ es) w w' h =
      let (v, first, rest) = >>=-eq-ok (follow_edge components source e w) _ h in
      let (g, followed) = follow_edge-Grows e w v first in
      let (g', all) = follow_edges-Grows es v w' rest in
      (
        Grows-trans g g',
        λ d i. elim i [ inl p ↦ rw p (λ q. g'.selected e.to (followed q)) | inr j ↦ all d j ],
      )

-- All required dependencies of `s` are selected.
abbrev pub IsClosedAt : Adjacency → ComponentId → Work → Type 0
IsClosedAt adjacency s w =
    (e : DependencyEdge) → In e (edges_of adjacency s) → e.required ≡ true → IsSelected e.to w

-- The loop's invariant: a selected component is pending or closed.
abbrev pub IsHandled : Adjacency → Work → Type 0
IsHandled adjacency w =
    (s : ComponentId) → IsSelected s w → In s w.pending ⊎ IsClosedAt adjacency s w

module _ (components : Components) (adjacency : Adjacency) where
  -- one round: the top of the stack was popped and its edges were followed
  round-IsHandled :
      (source : ComponentId) (rest : List ComponentId) (w w' : Work)
      → w.pending ≡ source ∷ rest
      → follow_edges components source (edges_of adjacency source) (record w { pending = rest })
        ≡ ok w'
      → IsHandled adjacency w
      → IsHandled adjacency w'
  round-IsHandled source rest w w' top h inv s selected =
      let (g, all) = follow_edges-Grows components source _ _ w' h in
      elim (g.fresh s selected) [
        | inr p ↦ inl p
        | inl old ↦ elim (inv s old) [
          | inr closed ↦ inr (λ e i r. g.selected e.to (closed e i r))
          | inl p ↦ popped g all (rw top at p)
        ]
      ]
    where
      popped :
          Grows (record w { pending = rest }) w'
          → ((e : DependencyEdge) → In e (edges_of adjacency source) → IsFollowed components e w')
          → In s (source ∷ rest)
          → In s w'.pending ⊎ IsClosedAt adjacency s w'
      popped g all (inl p) = inr (rw p all)
      popped g all (inr p) = inl (g.pending s p)

  -- A run of the loop that ends with a value has nothing pending, or makes a round and goes on.
  pub close_cases :
      (fuel : ℕ) (w w' : Work)
      → close components adjacency (suc fuel) w ≡ ok w'
      → (w.pending ≡ []) × (w ≡ w')
        ⊎ ((source : ComponentId) × (rest : List ComponentId) × (v : Work) × (w.pending
              ≡ source ∷ rest)
            × (follow_edges components source
                  (edges_of adjacency source)
                  (record w { pending = rest })
                ≡ ok v)
            × (close components adjacency fuel v ≡ ok w'))
  unfolding close
  close_cases fuel w w' h = on_stack w.pending refl h
    where
      on_stack :
          (p : List ComponentId)
          → w.pending ≡ p
          → close components adjacency (suc fuel) w ≡ ok w'
          → (w.pending ≡ []) × (w ≡ w')
            ⊎ ((source : ComponentId) × (rest : List ComponentId) × (v : Work) × (w.pending
                  ≡ source ∷ rest)
                × (follow_edges components source
                      (edges_of adjacency source)
                      (record w { pending = rest })
                    ≡ ok v)
                × (close components adjacency fuel v ≡ ok w'))
      on_stack [] e k = inl (e, ok-injective (rw (e, close) at k))
      on_stack (source ∷ rest) e k =
          let (v, first, next) = >>=-eq-ok _ _ (rw (e, close) at k) in
          inr (source, rest, v, e, first, next)

  -- Unless it fails, the loop ends with every selected component closed.
  pub close-IsClosedAt :
      (fuel : ℕ) (w w' : Work)
      → close components adjacency fuel w ≡ ok w'
      → IsHandled adjacency w
      → (s : ComponentId) → IsSelected s w'
      → IsClosedAt adjacency s w'
  unfolding close
  close-IsClosedAt zero w w' h inv s i = cc
  close-IsClosedAt (suc fuel) w w' h inv s i = elim (close_cases fuel w w' h) [
    | inl (e, p) ↦ elim (inv s (rw p i)) [
      | inl pending ↦ absurd (rw e at pending)
      | inr closed ↦ rw (← p) closed
    ]
    | inr (source, rest, v, e, first, next) ↦
        close-IsClosedAt fuel v w' next (round-IsHandled source rest w v e first inv) s i
  ]
