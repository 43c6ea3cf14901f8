-- ===== src/Selection/Edges.antt =====
-- What `index_edges` keeps: every edge of the inventory by its source, target and requirement, and
-- nothing else.
use windows_component_harnes.Prelude.{
  Bool, true, false, ◌≡◌, refl, sym, ◌∙◌, ap, ◌⊎◌, inl, inr, ◌↔◌, List, [], ◌∷◌, ◌++◌, In,
  In-append, In-append_left, In-append_right, any, arith, Bool-cases, &&-split, if◌then◌else◌,
}
use windows_component_harnes.Prelude.Order.{◌==◌, ==_iff}
use windows_component_harnes.Prelude.OrdMap
use windows_component_harnes.Prelude.OrdMap.{OrdMap}
use windows_component_harnes.Prelude.Sort.{sort_by, In-sort_by}
use windows_component_harnes.Prelude.Text.{text_ord}
use windows_component_harnes.Domain.Component.{ComponentId, DependencyEdge, ComponentGraph}
use windows_component_harnes.Selection.Index.{
  Adjacency, edges_at, push_edge, same_key, bool_eq, index_edges_from, index_edges, map_values,
  edge_le, all_edges, dependency_kind_order,
}

abbrev pub edges_of : Adjacency → ComponentId → List DependencyEdge
edges_of m s = edges_at (OrdMap.get s m)

-- The map lists an edge that agrees with `e` in its target and requirement.
abbrev pub Listed : Adjacency → DependencyEdge → Type 0
Listed m e =
    (e' : DependencyEdge) × In e' (edges_of m e.source)
    × (e'.to ≡ e.to)
    × (e'.required ≡ e.required)

edges_of-push_edge :
    (s : ComponentId) (e : DependencyEdge) (m : Adjacency)
    → edges_of (push_edge e m) s ≡ (if s == e.source then edges_of m s ++ e ∷ [] else edges_of m s)
edges_of-push_edge s e m =
    ground
      (arith, ==_iff s e.source, OrdMap.get-insert s e.source (edges_of m e.source ++ e ∷ []) m)

In-push_edge :
    (x : DependencyEdge) (s : ComponentId) (e : DependencyEdge) (m : Adjacency)
    → In x (edges_of m s)
    → In x (edges_of (push_edge e m) s)
In-push_edge x s e m h = elim (Bool-cases (s == e.source)) [
  | inl p ↦ rw (edges_of-push_edge s e m, p) (In-append_left x (edges_of m s) (e ∷ []) h)
  | inr p ↦ rw (edges_of-push_edge s e m, p) h
]

In-push_edge_self : (e : DependencyEdge) (m : Adjacency) → In e (edges_of (push_edge e m) e.source)
In-push_edge_self e m =
    rw (edges_of-push_edge e.source e m, (==_iff e.source e.source).1 refl)
      (In-append_right e (edges_of m e.source) (e ∷ []) (inl refl))

Listed-push_edge : (d e : DependencyEdge) (m : Adjacency) → Listed m d → Listed (push_edge e m) d
Listed-push_edge d e m (x, h, t, r) = (x, In-push_edge x d.source e m h, t, r)

bool_eq-eq : (a b : Bool) → bool_eq a b ≡ true → a ≡ b
bool_eq-eq true b h = sym h
bool_eq-eq false true h = cc
bool_eq-eq false false h = refl

same_key-fields :
    (a b : DependencyEdge)
    → same_key a b ≡ true
    → (a.source ≡ b.source) × (a.to ≡ b.to) × (a.required ≡ b.required)
unfolding dependency_kind_order
same_key-fields a b h =
    let (s, h1) = &&-split _ _ h in
    let (t, h2) = &&-split _ _ h1 in
    let (_, r) = &&-split _ _ h2 in
    ((==_iff a.source b.source).0 s, (==_iff a.to b.to).0 t, bool_eq-eq a.required b.required r)

-- An edge whose key was seen is listed, if all that was seen is.
Listed-seen :
    (m : Adjacency) (e : DependencyEdge) (seen : List DependencyEdge)
    → ((d : DependencyEdge) → In d seen → Listed m d)
    → any (same_key e) seen ≡ true
    → Listed m e
Listed-seen m e [] known h = cc
Listed-seen m e (d ∷ seen) known h = elim (Bool-cases (same_key e d)) [
  | inl p ↦
      let (s, t, r) = same_key-fields e d p in
      let (x, at, to, req) = known d (inl refl) in (x, rw s at, to ∙ sym t, req ∙ sym r)
  | inr p ↦ Listed-seen m e seen (λ d' i. known d' (inr i)) (ground arith)
]

index_edges_from-Listed :
    (seen : List DependencyEdge) (m : Adjacency) (es : List DependencyEdge)
    → ((d : DependencyEdge) → In d seen → Listed m d)
    → (d : DependencyEdge) → Listed m d ⊎ In d es
    → Listed (index_edges_from seen m es) d
unfolding index_edges_from
index_edges_from-Listed seen m [] known d (inl h) = h
index_edges_from-Listed seen m [] known d (inr h) = absurd h
index_edges_from-Listed seen m (e ∷ es) known d h = elim (Bool-cases (any (same_key e) seen)) [
  | inl old ↦
      rw (old, index_edges_from)
        (index_edges_from-Listed seen m es known d (elim h [
          | inl l ↦ inl l
          | inr (inl p) ↦ inl (rw p (Listed-seen m e seen known old))
          | inr (inr i) ↦ inr i
        ]))
  | inr new ↦
      rw (new, index_edges_from)
        (index_edges_from-Listed (e ∷ seen) (push_edge e m) es
          (λ d' i. elim i [
            | inl p ↦ rw p (e, In-push_edge_self e m, refl, refl)
            | inr j ↦ Listed-push_edge d' e m (known d' j)
          ])
          d
          (elim h [
            | inl l ↦ inl (Listed-push_edge d e m l)
            | inr (inl p) ↦ inl (rw p (e, In-push_edge_self e m, refl, refl))
            | inr (inr i) ↦ inr i
          ]))
]

-- Every edge that the map has for `s` comes from the list and leaves `s`.
abbrev ComesFrom : List DependencyEdge → Adjacency → Type 0
ComesFrom es m =
    (s : ComponentId) (e : DependencyEdge) → In e (edges_of m s) → In e es × (e.source ≡ s)

index_edges_from-ComesFrom :
    (all seen : List DependencyEdge) (m : Adjacency) (es : List DependencyEdge)
    → ((e : DependencyEdge) → In e es → In e all)
    → ComesFrom all m
    → ComesFrom all (index_edges_from seen m es)
unfolding index_edges_from
index_edges_from-ComesFrom all seen m [] sub known = known
index_edges_from-ComesFrom all seen m (e ∷ es) sub known =
    elim (Bool-cases (any (same_key e) seen)) [
      | inl old ↦
          rw (old, index_edges_from)
            (index_edges_from-ComesFrom all seen m es (λ x i. sub x (inr i)) known)
      | inr new ↦
          rw (new, index_edges_from)
            (index_edges_from-ComesFrom all (e ∷ seen) (push_edge e m) es (λ x i. sub x (inr i))
              (λ s x i. pushed s x (Bool-cases (s == e.source)) i))
    ]
  where
    pushed :
        (s : ComponentId) (x : DependencyEdge)
        → ((s == e.source) ≡ true) ⊎ ((s == e.source) ≡ false)
        → In x (edges_of (push_edge e m) s)
        → In x all × (x.source ≡ s)
    pushed s x (inr p) i = known s x (rw (edges_of-push_edge s e m, p) at i)
    pushed s x (inl p) i =
        elim (In-append x (edges_of m s) (e ∷ []) (rw (edges_of-push_edge s e m, p) at i)) [
          | inl old ↦ known s x old
          | inr (inl q) ↦ (
            rw q (sub e (inl refl)),
            ap (λ (z : DependencyEdge). z.source) q ∙ sym ((==_iff s e.source).0 p),
          )
          | inr (inr bad) ↦ absurd bad
        ]

In-edges_of-map_values :
    (f : List DependencyEdge → List DependencyEdge) (m : Adjacency) (s : ComponentId)
    (e : DependencyEdge)
    → ((es : List DependencyEdge) → In e (f es) ↔ In e es)
    → In e (edges_of (map_values f m) s) ↔ In e (edges_of m s)
unfolding OrdMap.get
In-edges_of-map_values f [] s e h = (λ i. i, λ i. i)
In-edges_of-map_values f ((k, es) ∷ m) s e h = elim (Bool-cases (s == k)) [
  | inl p ↦ rw p (h es)
  | inr p ↦ rw p (In-edges_of-map_values f m s e h)
]

pub index_edges-Listed :
    (graph : ComponentGraph) (e : DependencyEdge)
    → In e (all_edges graph)
    → Listed (index_edges graph) e
unfolding index_edges
index_edges-Listed graph e i =
    let (x, at, t, r) =
      index_edges_from-Listed [] [] (all_edges graph) (λ d b. absurd b) e (inr i) in
    (x, (In-edges_of-map_values (sort_by edge_le) _ e.source x (In-sort_by edge_le x)).1 at, t, r)

pub index_edges-ComesFrom :
    (graph : ComponentGraph) (s : ComponentId) (e : DependencyEdge)
    → In e (edges_of (index_edges graph) s)
    → In e (all_edges graph) × (e.source ≡ s)
unfolding index_edges OrdMap.get
index_edges-ComesFrom graph s e i =
    index_edges_from-ComesFrom (all_edges graph) [] [] (all_edges graph) (λ x j. j)
      (λ s' x b. absurd b) s e
      ((In-edges_of-map_values (sort_by edge_le) _ s e (In-sort_by edge_le e)).0 i)
