-- ===== src/Selection/Lookup.antt =====
-- The indexes hold what the inventory and the selection list, under its identifier.
use windows_component_harnes.Prelude.{
  Bool, false, ◌≡◌, refl, sym, ◌⊎◌, inl, inr, some, List, [], ◌∷◌, In, arith, Bool-cases,
}
use windows_component_harnes.Prelude.Order.{◌==◌, ==_iff}
use windows_component_harnes.Prelude.OrdMap
use windows_component_harnes.Prelude.Text.{text_ord}
use windows_component_harnes.Domain.Error.{ok, ok-injective}
use windows_component_harnes.Domain.Component.{ComponentId, ArtifactId, Component, ComponentGraph}
use windows_component_harnes.Domain.Selection.{ArtifactSelection, SelectionInput}
use windows_component_harnes.Selection.Index.{
  Components, Artifacts, Decisions, index_components_from, index_components,
  index_artifact_selection_from, index_artifact_selection,
}

-- a new key leaves the other entries as they are
get-insert_fresh :
    (j : ComponentId) (c d : Component) (m : Components)
    → OrdMap.contains_key c.id m ≡ false
    → OrdMap.get j m ≡ some d
    → OrdMap.get j (OrdMap.insert c.id c m) ≡ some d
get-insert_fresh j c d m fresh h = elim (Bool-cases (j == c.id)) [
  | inl e ↦
      let same : OrdMap.get c.id m ≡ some d = rw ((==_iff j c.id).0 e) at h in cc (rw same at fresh)
  | inr e ↦ rw (OrdMap.get-insert j c.id c m, e) h
]

index_components_from-step :
    (m m' : Components) (c : Component) (cs : List Component)
    → index_components_from m (c ∷ cs) ≡ ok m'
    → (OrdMap.contains_key c.id m ≡ false)
      × (index_components_from (OrdMap.insert c.id c m) cs ≡ ok m')
unfolding index_components_from
index_components_from-step m m' c cs h = ground arith

index_components_from-get :
    (m m' : Components) (cs : List Component)
    → index_components_from m cs ≡ ok m'
    → (d : Component) (j : ComponentId) → (OrdMap.get j m ≡ some d) ⊎ In d cs × (d.id ≡ j)
    → OrdMap.get j m' ≡ some d
unfolding index_components_from
index_components_from-get m m' [] h d j (inl g) = rw (← ok-injective h) g
index_components_from-get m m' [] h d j (inr (b, e)) = absurd b
index_components_from-get m m' (c ∷ cs) h d j p =
    let (fresh, rest) = index_components_from-step m m' c cs h in
    index_components_from-get (OrdMap.insert c.id c m) m' cs rest d j (elim p [
      | inl g ↦ inl (get-insert_fresh j c d m fresh g)
      | inr (inl same, e) ↦ inl (rw (← e) (rw same (OrdMap.get-insert_self c.id c m)))
      | inr (inr i, e) ↦ inr (i, e)
    ])

-- A component of the inventory is found under its identifier.
pub index_components-get :
    (graph : ComponentGraph) (m : Components) (c : Component)
    → index_components graph ≡ ok m
    → In c graph.components
    → OrdMap.get c.id m ≡ some c
unfolding index_components
index_components-get graph m c h i =
    index_components_from-get [] m graph.components h c c.id (inr (i, refl))

index_components_from-In :
    (all : List Component) (m m' : Components) (cs : List Component)
    → index_components_from m cs ≡ ok m'
    → ((c : Component) → In c cs → In c all)
    → ((j : ComponentId) (d : Component) → OrdMap.get j m ≡ some d → In d all × (d.id ≡ j))
    → (j : ComponentId) (d : Component) → OrdMap.get j m' ≡ some d
    → In d all × (d.id ≡ j)
unfolding index_components_from
index_components_from-In all m m' [] h sub known j d g = known j d (rw (ok-injective h) g)
index_components_from-In all m m' (c ∷ cs) h sub known j d g =
    let (fresh, rest) = index_components_from-step m m' c cs h in
    index_components_from-In all (OrdMap.insert c.id c m) m' cs rest (λ x i. sub x (inr i))
      (λ k x p. elim (OrdMap.get-insert_cases k c.id c x m p) [
        | inl (at, same) ↦ rw (← same) (sub c (inl refl), sym at)
        | inr old ↦ known k x old
      ])
      j d g

-- What is found under an identifier is a component of the inventory, with that identifier.
pub index_components-In :
    (graph : ComponentGraph) (m : Components) (j : ComponentId) (d : Component)
    → index_components graph ≡ ok m
    → OrdMap.get j m ≡ some d
    → In d graph.components × (d.id ≡ j)
unfolding index_components OrdMap.get
index_components-In graph m j d h g =
    index_components_from-In graph.components [] m graph.components h (λ c i. i) (λ k x p. cc) j d g

-- The user's decision about an artifact.
abbrev pub Decided : SelectionInput → ArtifactId → Bool → Type 0
Decided input x include =
    (s : ArtifactSelection) × In s input.artifacts × (s.artifact ≡ x) × (s.include ≡ include)

index_artifact_selection_from-step :
    (artifacts : Artifacts) (m m' : Decisions) (s : ArtifactSelection) (ss : List ArtifactSelection)
    → index_artifact_selection_from artifacts m (s ∷ ss) ≡ ok m'
    → index_artifact_selection_from artifacts (OrdMap.insert s.artifact s.include m) ss ≡ ok m'
unfolding index_artifact_selection_from
index_artifact_selection_from-step artifacts m m' s ss h = ground arith

index_artifact_selection_from-Decided :
    (input : SelectionInput) (artifacts : Artifacts) (m m' : Decisions)
    (ss : List ArtifactSelection)
    → index_artifact_selection_from artifacts m ss ≡ ok m'
    → ((s : ArtifactSelection) → In s ss → In s input.artifacts)
    → ((x : ArtifactId) (b : Bool) → OrdMap.get x m ≡ some b → Decided input x b)
    → (x : ArtifactId) (b : Bool) → OrdMap.get x m' ≡ some b
    → Decided input x b
unfolding index_artifact_selection_from
index_artifact_selection_from-Decided input artifacts m m' [] h sub known x b g =
    known x b (rw (ok-injective h) g)
index_artifact_selection_from-Decided input artifacts m m' (s ∷ ss) h sub known x b g =
    index_artifact_selection_from-Decided input artifacts (OrdMap.insert s.artifact s.include m) m'
      ss (index_artifact_selection_from-step artifacts m m' s ss h) (λ y i. sub y (inr i))
      (λ y c p. elim (OrdMap.get-insert_cases y s.artifact s.include c m p) [
        | inl (at, same) ↦ (s, sub s (inl refl), sym at, same)
        | inr old ↦ known y c old
      ])
      x b g

pub index_artifact_selection-Decided :
    (input : SelectionInput) (artifacts : Artifacts) (m : Decisions) (x : ArtifactId) (b : Bool)
    → index_artifact_selection input artifacts ≡ ok m
    → OrdMap.get x m ≡ some b
    → Decided input x b
unfolding index_artifact_selection OrdMap.get
index_artifact_selection-Decided input artifacts m x b h g =
    index_artifact_selection_from-Decided input artifacts [] m input.artifacts h (λ s i. i)
      (λ y c p. cc) x b g
