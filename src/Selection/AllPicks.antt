-- ===== src/Selection/AllPicks.antt =====
-- The loop over the selected components: what is picked, and how many bytes it has.
use windows_component_harnes.Prelude.{
  ℕ, ◌+◌, ◌<◌, ◌^◌, true, ◌≡◌, refl, sym, ◌⊎◌, inl, inr, Option, some, List, [], ◌∷◌, In, arith,
  ◌∙◌,
}
use windows_component_harnes.Prelude.OrdMap
use windows_component_harnes.Prelude.OrdMap.{is_some}
use windows_component_harnes.Prelude.OrdSet
use windows_component_harnes.Prelude.Sort.{sort_by, In-sort_by}
use windows_component_harnes.Prelude.Text.{text_ord}
use windows_component_harnes.Domain.Error.{ok, >>=-eq-ok, ok-injective}
use windows_component_harnes.Domain.Component.{ComponentId, ArtifactId, Component, ArtifactRef}
use windows_component_harnes.Domain.Selection.{SelectionPolicy}
use windows_component_harnes.Selection.Index.{Components, Decisions}
use windows_component_harnes.Selection.Picking.{
  expect_component, Picked, is_included, pick_artifacts, artifact_le, pick,
}
use windows_component_harnes.Selection.Picks.{
  WasPicked, included_bytes-sort_by, component_bytes, pick_artifacts-IsPickOf,
}

-- the bytes that a list of selected components contributes
pub bytes_of : Decisions → Components → List ComponentId → ℕ
unfolding component_bytes
bytes_of decisions components [] = 0
bytes_of decisions components (s ∷ ss) =
    component_bytes decisions (OrdMap.get s components) + bytes_of decisions components ss

some_eq : {A : Type 0} {a b : A} → some a ≡ some b → a ≡ b
some_eq h = cc

module _ (policy : SelectionPolicy) (decisions : Decisions) where
  -- What the outer loop returns, for the components with the given identifiers.
  pub record IsPick (components : Components) (ss : List ComponentId) (p p' : Picked) : Type 0 where
    pub from :
        (x : ArtifactId)
        → OrdSet.contains x p'.artifacts ≡ true
        → (OrdSet.contains x p.artifacts ≡ true)
          ⊎ ((s : ComponentId) × (c : Component) × (a : ArtifactRef) × In s ss
              × (OrdMap.get s components ≡ some c)
              × In a c.artifacts
              × (a.id ≡ x)
              × WasPicked policy decisions c a)
    pub keeps :
        (x : ArtifactId)
        → OrdSet.contains x p.artifacts ≡ true
        → OrdSet.contains x p'.artifacts ≡ true
    pub picks :
        (s : ComponentId) (c : Component) (a : ArtifactRef)
        → In s ss
        → OrdMap.get s components ≡ some c
        → In a c.artifacts
        → is_included decisions a ≡ true
        → OrdSet.contains a.id p'.artifacts ≡ true
    pub bytes : p'.total_bytes ≡ p.total_bytes + bytes_of decisions components ss
    pub bounded : p.total_bytes < 2 ^ 64 → p'.total_bytes < 2 ^ 64

  expect_component-ok :
      (o : Option Component) (c : Component) → expect_component o ≡ ok c → o ≡ some c
  expect_component-ok o c h = ground arith

  pub pick-IsPick :
      (components : Components) (ss : List ComponentId) (p p' : Picked)
      → pick components policy decisions ss p ≡ ok p'
      → IsPick components ss p p'
  unfolding pick bytes_of
  pick-IsPick components [] p p' h =
      let same = ok-injective h in
      record {
        from = λ x k. inl (rw same k);
        keeps = λ x k. rw (← same) k;
        picks = λ s c a i. absurd i;
        bytes = rw (← same) (omega arith);
        bounded = λ small. rw (← same) small;
      }
  pick-IsPick components (s ∷ ss) p p' h =
      let (c, found, h1) = >>=-eq-ok (expect_component (OrdMap.get s components)) _ h in
      let (q, first, rest) =
        >>=-eq-ok (pick_artifacts policy decisions c (sort_by artifact_le c.artifacts) p)
          (pick components policy decisions ss) h1 in
      let here = expect_component-ok (OrdMap.get s components) c found in
      let one =
        pick_artifacts-IsPickOf policy decisions c (sort_by artifact_le c.artifacts) p q first in
      let more = pick-IsPick components ss q p' rest in
      record {
        from = λ x k. elim (more.from x k) [
          | inr (t, d, a, i, g, j, n, w) ↦ inr (t, d, a, inr i, g, j, n, w)
          | inl old ↦ elim (one.from x old) [
            | inl older ↦ inl older
            | inr (a, i, n, w) ↦
                inr (s, c, a, inl refl, here, (In-sort_by artifact_le a c.artifacts).0 i, n, w)
          ]
        ];
        keeps = λ x k. more.keeps x (one.keeps x k);
        picks = λ t d a i g j included. elim i [
          | inl e ↦
              let same : d ≡ c = some_eq (sym (rw e at g) ∙ here) in
              more.keeps a.id
                (one.picks a ((In-sort_by artifact_le a c.artifacts).1 (rw same at j)) included)
          | inr k ↦ more.picks t d a k g j included
        ];
        bytes =
            rw here
              (omega (arith, one.bytes, more.bytes, included_bytes-sort_by decisions c.artifacts));
        bounded = λ small. more.bounded (one.bounded small);
      }
