-- ===== src/Selection/Picks.antt =====
-- The artifact loops of `build_selection_closure`: what is picked, and how many bytes it has.
use windows_component_harnes.Prelude.{
  ℕ, ◌+◌, ◌<◌, ◌^◌, Bool, true, false, ◌≡◌, refl, sym, ◌⊎◌, inl, inr, Option, none, some, List, [],
  ◌∷◌, In, arith, Bool-cases, if◌then◌else◌, ◌∙◌, ap,
}
use windows_component_harnes.Prelude.Order.{◌==◌, ==_iff}
use windows_component_harnes.Prelude.OrdMap
use windows_component_harnes.Prelude.OrdMap.{is_some}
use windows_component_harnes.Prelude.OrdSet
use windows_component_harnes.Prelude.Sort.{insert_by, sort_by}
use windows_component_harnes.Prelude.Text.{text_ord}
use windows_component_harnes.Domain.Error.{ok, >>=-eq-ok, reject_if-eq-ok, ok-injective}
use windows_component_harnes.Domain.Component.{ComponentId, ArtifactId, Component, ArtifactRef}
use windows_component_harnes.Domain.Selection.{SelectionPolicy}
use windows_component_harnes.Selection.Index.{Decisions}
use windows_component_harnes.Selection.Policy.{validate_artifact_policy}
use windows_component_harnes.Selection.Picking.{
  Picked, path_is_invalid, is_included, pick_included, pick_artifacts, artifact_le, add_bytes,
}
use windows_component_harnes.Selection.Permits.{IsAllowed, validate_artifact_policy-IsAllowed}

-- what is known of an artifact that was picked from a component
pub record WasPicked (policy : SelectionPolicy) (decisions : Decisions) (c : Component)
    (a : ArtifactRef) : Type 0 where
  pub included : is_included decisions a ≡ true
  pub path : path_is_invalid a.source_path ≡ false
  pub allowed : IsAllowed policy (is_some (OrdMap.get a.id decisions)) c a

unfoldable pub included_bytes : Decisions → List ArtifactRef → ℕ
included_bytes decisions [] = 0
included_bytes decisions (a ∷ as') =
    (if is_included decisions a then a.size_bytes else 0) + included_bytes decisions as'

included_bytes-insert_by :
    (decisions : Decisions) (a : ArtifactRef) (as' : List ArtifactRef)
    → included_bytes decisions (insert_by artifact_le a as') ≡ included_bytes decisions (a ∷ as')
unfolding included_bytes insert_by
included_bytes-insert_by decisions a [] = refl
included_bytes-insert_by decisions a (b ∷ as') =
    ground (arith, included_bytes-insert_by decisions a as')

pub included_bytes-sort_by :
    (decisions : Decisions) (as' : List ArtifactRef)
    → included_bytes decisions (sort_by artifact_le as') ≡ included_bytes decisions as'
unfolding sort_by included_bytes
included_bytes-sort_by decisions [] = refl
included_bytes-sort_by decisions (a ∷ as') = ground (
  arith,
  included_bytes-insert_by decisions a (sort_by artifact_le as'),
  included_bytes-sort_by decisions as',
)

add_bytes-ok :
    (c : ComponentId) (total size sum : ℕ)
    → add_bytes c total size ≡ ok sum
    → (sum ≡ total + size) × (sum < 2 ^ 64)
add_bytes-ok c total size sum h = ground arith

unfoldable pub component_bytes : Decisions → Option Component → ℕ
unfolding included_bytes
component_bytes decisions none = 0
component_bytes decisions (some c) = included_bytes decisions c.artifacts

module _ (policy : SelectionPolicy) (decisions : Decisions) where
  pick_included-ok :
      (c : Component) (a : ArtifactRef) (p p' : Picked)
      → pick_included policy decisions c a p ≡ ok p'
      → (path_is_invalid a.source_path ≡ false)
        × IsAllowed policy (is_some (OrdMap.get a.id decisions)) c a
        × (OrdSet.insert a.id p.artifacts ≡ p'.artifacts)
        × (p'.total_bytes ≡ p.total_bytes + a.size_bytes)
        × (p'.total_bytes < 2 ^ 64)
  unfolding pick_included
  pick_included-ok c a p p' h =
      let (path, h1) = reject_if-eq-ok _ _ _ h in
      let (warned, valid, h2) =
        >>=-eq-ok
          (validate_artifact_policy policy c a (is_some (OrdMap.get a.id decisions)) p.warnings) _
          h1 in
      let (total, added, h3) = >>=-eq-ok (add_bytes c.id p.total_bytes a.size_bytes) _ h2 in
      let (_, h4) = reject_if-eq-ok _ _ _ h3 in
      let (sum, small) = add_bytes-ok c.id p.total_bytes a.size_bytes total added in
      let same = ok-injective h4 in
      (
        path,
        validate_artifact_policy-IsAllowed policy c a _ _ warned valid,
        ap (λ (q : Picked). q.artifacts) same,
        sym (ap (λ (q : Picked). q.total_bytes) same) ∙ sum,
        rw (← ap (λ (q : Picked). q.total_bytes) same) small,
      )

  pub record IsPickOf (c : Component) (as' : List ArtifactRef) (p p' : Picked) : Type 0 where
    pub from :
        (x : ArtifactId)
        → OrdSet.contains x p'.artifacts ≡ true
        → (OrdSet.contains x p.artifacts ≡ true)
          ⊎ ((a : ArtifactRef) × In a as' × (a.id ≡ x) × WasPicked policy decisions c a)
    pub keeps :
        (x : ArtifactId)
        → OrdSet.contains x p.artifacts ≡ true
        → OrdSet.contains x p'.artifacts ≡ true
    pub picks :
        (a : ArtifactRef)
        → In a as'
        → is_included decisions a ≡ true
        → OrdSet.contains a.id p'.artifacts ≡ true
    pub bytes : p'.total_bytes ≡ p.total_bytes + included_bytes decisions as'
    pub bounded : p.total_bytes < 2 ^ 64 → p'.total_bytes < 2 ^ 64

  -- one artifact, included or passed over
  pick_one :
      (c : Component) (a : ArtifactRef) (p p' : Picked)
      → (if is_included decisions a then pick_included policy decisions c a p else ok p) ≡ ok p'
      → IsPickOf c (a ∷ []) p p'
  pick_one c a p p' h = split (is_included decisions a) refl h
    where
      split :
          (b : Bool)
          → is_included decisions a ≡ b
          → (if b then pick_included policy decisions c a p else ok p) ≡ ok p'
          → IsPickOf c (a ∷ []) p p'
      split true e k =
          let (path, allowed, artifacts, total, small) = pick_included-ok c a p p' k in
          record {
            from = λ x h. elim (Bool-cases (x == a.id)) [
              | inl q ↦ inr (
                a,
                inl refl,
                sym ((==_iff x a.id).0 q),
                record { included = e; path = path; allowed = allowed },
              )
              | inr q ↦ inl (ground (arith, artifacts, OrdSet.contains-insert x a.id p.artifacts))
            ];
            keeps = λ x h. rw (← artifacts) (OrdSet.contains-insert_of x a.id p.artifacts h);
            picks = λ b i included. elim i [
              | inl q ↦ rw (q, ← artifacts) (OrdSet.contains-insert_self a.id p.artifacts)
              | inr bad ↦ absurd bad
            ];
            bytes = unfold included_bytes in rw e (omega (arith, total));
            bounded = λ _. small;
          }
      split false e k =
          let same = ok-injective k in
          record {
            from = λ x h. inl (rw same h);
            keeps = λ x h. rw (← same) h;
            picks = λ b i included. elim i [ inl q ↦ cc (rw q at included) | inr bad ↦ absurd bad ];
            bytes = unfold included_bytes in rw (e, ← same) (omega arith);
            bounded = λ small. rw (← same) small;
          }

  pub pick_artifacts-IsPickOf :
      (c : Component) (as' : List ArtifactRef) (p p' : Picked)
      → pick_artifacts policy decisions c as' p ≡ ok p'
      → IsPickOf c as' p p'
  unfolding pick_artifacts included_bytes
  pick_artifacts-IsPickOf c [] p p' h =
      let same = ok-injective h in
      record {
        from = λ x k. inl (rw same k);
        keeps = λ x k. rw (← same) k;
        picks = λ a i. absurd i;
        bytes = rw (← same) (omega arith);
        bounded = λ small. rw (← same) small;
      }
  pick_artifacts-IsPickOf c (a ∷ as') p p' h =
      let (q, first, rest) = >>=-eq-ok _ (pick_artifacts policy decisions c as') h in
      let one = pick_one c a p q first in
      let more = pick_artifacts-IsPickOf c as' q p' rest in
      record {
        from = λ x k. elim (more.from x k) [
          | inr (b, i, n, w) ↦ inr (b, inr i, n, w)
          | inl old ↦ elim (one.from x old) [
            | inl older ↦ inl older
            | inr (b, inl i, n, w) ↦ inr (b, inl i, n, w)
            | inr (b, inr bad, n, w) ↦ absurd bad
          ]
        ];
        keeps = λ x k. more.keeps x (one.keeps x k);
        picks = λ b i included. elim i [
          | inl e ↦ more.keeps b.id (one.picks b (inl e) included)
          | inr j ↦ more.picks b j included
        ];
        bytes = omega (arith, one.bytes, more.bytes);
        bounded = λ small. more.bounded (one.bounded small);
      }
