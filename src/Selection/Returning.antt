-- ===== src/Selection/Returning.antt =====
-- The stages of `build_selection_closure` return: a value or an error of the program.
use windows_component_harnes.Prelude.{
  ℕ, Bool, true, false, ◌≡◌, refl, inl, inr, Option, none, some, List, [], ◌∷◌, In, arith,
}
use windows_component_harnes.Prelude.OrdMap
use windows_component_harnes.Prelude.OrdMap.{is_some}
use windows_component_harnes.Prelude.OrdSet
use windows_component_harnes.Prelude.Sort.{sort_by}
use windows_component_harnes.Prelude.Text.{Text, text_ord}
use windows_component_harnes.Domain.Error.{err, ◌>>=◌, reject_if, coded_error, security_policy}
use windows_component_harnes.Domain.Returns.{
  Returns, Returns-reject_if, Returns-bind, returns_rules,
}
use windows_component_harnes.Domain.Component.{ComponentId, Component, ArtifactRef, DependencyEdge}
use windows_component_harnes.Domain.Selection.{
  ArtifactSelection, SelectionPolicy, SecretSelectionPolicy, LargeDataSelectionPolicy,
  UnknownBinarySelectionPolicy,
}
use windows_component_harnes.Selection.Index.{
  Components, Artifacts, Adjacency, Decisions, index_components_from, index_artifacts_from,
  index_artifact_selection_from, user_selected_from,
}
use windows_component_harnes.Selection.Policy.{
  Warnings, push_warning, push_warning_unless, check_sensitive, check_unknown_binary, check_large,
  validate_component_policy, validate_artifact_policy,
}
use windows_component_harnes.Selection.Picking.{
  warn_added, expose_edges, expose_optional_edges, expect_component, validate_components,
  check_owners, Picked, pick_included, pick_artifacts, artifact_le, pick, add_bytes,
}

pub index_components_from-Returns :
    (m : Components) (cs : List Component) → Returns (index_components_from m cs)
unfolding index_components_from
index_components_from-Returns m [] = search returns_rules
index_components_from-Returns m (c ∷ cs) =
    let next = index_components_from-Returns (OrdMap.insert c.id c m) cs in
    record { at = λ h. ground (arith, next.at) }

pub index_artifacts_from-Returns :
    (m : Artifacts) (as' : List (ComponentId × ArtifactRef)) → Returns (index_artifacts_from m as')
unfolding index_artifacts_from
index_artifacts_from-Returns m [] = search returns_rules
index_artifacts_from-Returns m ((o, a) ∷ as') =
    let next = index_artifacts_from-Returns (OrdMap.insert a.id (o, a) m) as' in
    record { at = λ h. ground (arith, next.at) }

pub index_artifact_selection_from-Returns :
    (artifacts : Artifacts) (m : Decisions) (ss : List ArtifactSelection)
    → Returns (index_artifact_selection_from artifacts m ss)
unfolding index_artifact_selection_from
index_artifact_selection_from-Returns artifacts m [] = search returns_rules
index_artifact_selection_from-Returns artifacts m (s ∷ ss) =
    let next =
      index_artifact_selection_from-Returns artifacts (OrdMap.insert s.artifact s.include m) ss in
    record { at = λ h. ground (arith, next.at) }

pub user_selected_from-Returns :
    (components : Components) (selected cs : List ComponentId)
    → Returns (user_selected_from components selected cs)
unfolding user_selected_from
user_selected_from-Returns components selected [] = search returns_rules
user_selected_from-Returns components selected (c ∷ cs) =
    let next = user_selected_from-Returns components (OrdSet.insert c selected) cs in
    record { at = λ h. ground (arith, next.at) }

pub push_warning-Returns : (w : Warnings) (t : Text) → Returns (push_warning w t)
unfolding push_warning
push_warning-Returns w t = search returns_rules

pub push_warning_unless-Returns :
    (b : Bool) (w : Warnings) (t : Text) → Returns (push_warning_unless b w t)
push_warning_unless-Returns true w t = search returns_rules
push_warning_unless-Returns false w t = push_warning-Returns w t

ruleset warning_rules = (returns_rules, push_warning-Returns, push_warning_unless-Returns)

pub warn_added-Returns : (ds : List ComponentId) (w : Warnings) → Returns (warn_added ds w)
unfolding warn_added
warn_added-Returns [] w = search returns_rules
warn_added-Returns (d ∷ ds) w = search (warning_rules, warn_added-Returns ds)

pub expose_edges-Returns :
    (components : Components) (selected : List ComponentId) (es : List DependencyEdge)
    (w : Warnings)
    → Returns (expose_edges components selected es w)
unfolding expose_edges
expose_edges-Returns components selected [] w = search returns_rules
expose_edges-Returns components selected (e ∷ es) w =
    search (warning_rules, expose_edges-Returns components selected es)

pub expose_optional_edges-Returns :
    (adjacency : Adjacency) (selected : List ComponentId) (components : Components)
    (ss : List ComponentId) (w : Warnings)
    → Returns (expose_optional_edges adjacency selected components ss w)
unfolding expose_optional_edges
expose_optional_edges-Returns adjacency selected components [] w = search returns_rules
expose_optional_edges-Returns adjacency selected components (s ∷ ss) w = search (
  warning_rules,
  expose_edges-Returns,
  expose_optional_edges-Returns adjacency selected components ss,
)

pub check_sensitive-Returns :
    (policy : SelectionPolicy) (c : Component) (t : Text) (w : Warnings)
    → Returns (check_sensitive policy c t w)
unfolding check_sensitive
check_sensitive-Returns policy c t w = on policy.secrets
  where
    on :
        (p : SecretSelectionPolicy)
        → Returns (elim p [
          | SecretSelectionPolicy.exclude ↦ err (coded_error security_policy (some c.id) none)
          | SecretSelectionPolicy.vault_explicit ↦ push_warning w t
        ])
    on SecretSelectionPolicy.exclude = search returns_rules
    on SecretSelectionPolicy.vault_explicit = push_warning-Returns w t

pub check_unknown_binary-Returns :
    (policy : SelectionPolicy) (c : Component) (w : Warnings)
    → Returns (check_unknown_binary policy c w)
check_unknown_binary-Returns policy c w = on policy.unknown_binaries refl
  where
    on :
        (u : UnknownBinarySelectionPolicy)
        → policy.unknown_binaries ≡ u
        → Returns (check_unknown_binary policy c w)
    on UnknownBinarySelectionPolicy.exclude e =
        unfold check_unknown_binary in rw (e, check_unknown_binary) (search returns_rules)
    on UnknownBinarySelectionPolicy.portable_binary_explicit e =
        unfold check_unknown_binary in rw (e, check_unknown_binary) (search (warning_rules))

pub validate_component_policy-Returns :
    (policy : SelectionPolicy) (c : Component) (w : Warnings)
    → Returns (validate_component_policy policy c w)
unfolding validate_component_policy
validate_component_policy-Returns policy c w =
    search (returns_rules, check_sensitive-Returns, check_unknown_binary-Returns)

pub check_large-Returns :
    (policy : SelectionPolicy) (c : Component) (a : ArtifactRef) (explicit : Bool) (w : Warnings)
    → Returns (check_large policy c a explicit w)
check_large-Returns policy c a explicit w = on policy.large_data refl
  where
    on :
        (u : LargeDataSelectionPolicy)
        → policy.large_data ≡ u
        → Returns (check_large policy c a explicit w)
    on LargeDataSelectionPolicy.exclude e =
        unfold check_large in rw (e, check_large) (search returns_rules)
    on LargeDataSelectionPolicy.require_confirmation e =
        unfold check_large in rw (e, check_large) (search (warning_rules))

pub validate_artifact_policy-Returns :
    (policy : SelectionPolicy) (c : Component) (a : ArtifactRef) (explicit : Bool) (w : Warnings)
    → Returns (validate_artifact_policy policy c a explicit w)
unfolding validate_artifact_policy
validate_artifact_policy-Returns policy c a explicit w =
    search (warning_rules, check_sensitive-Returns, check_large-Returns)

pub check_owners-Returns :
    (artifacts : Artifacts) (selected : List ComponentId) (ss : List ArtifactSelection)
    → Returns (check_owners artifacts selected ss)
unfolding check_owners
check_owners-Returns artifacts selected [] = search returns_rules
check_owners-Returns artifacts selected (s ∷ ss) =
    Returns-bind (reject_if _ _) (λ (_ : Unit {0}). check_owners artifacts selected ss)
      (Returns-reject_if _ _) (λ _. check_owners-Returns artifacts selected ss)

pub add_bytes-Returns : (c : ComponentId) (total size : ℕ) → Returns (add_bytes c total size)
add_bytes-Returns c total size = record { at = λ h. ground arith }

pub pick_included-Returns :
    (policy : SelectionPolicy) (decisions : Decisions) (c : Component) (a : ArtifactRef)
    (p : Picked)
    → Returns (pick_included policy decisions c a p)
unfolding pick_included
pick_included-Returns policy decisions c a p =
    search (returns_rules, validate_artifact_policy-Returns, add_bytes-Returns) depth 9

pub pick_artifacts-Returns :
    (policy : SelectionPolicy) (decisions : Decisions) (c : Component) (as' : List ArtifactRef)
    (p : Picked)
    → Returns (pick_artifacts policy decisions c as' p)
unfolding pick_artifacts
pick_artifacts-Returns policy decisions c [] p = search returns_rules
pick_artifacts-Returns policy decisions c (a ∷ as') p =
    search (returns_rules, pick_included-Returns, pick_artifacts-Returns policy decisions c as')

-- `expect` holds where the component is known.
pub expect_component-Returns :
    (o : Option Component) → is_some o ≡ true → Returns (expect_component o)
expect_component-Returns o h = record { at = λ p. ground arith }

module _ (components : Components) (policy : SelectionPolicy) where
  abbrev pub AreKnown : List ComponentId → Type 0
  AreKnown ss = (s : ComponentId) → In s ss → OrdMap.contains_key s components ≡ true

  pub validate_components-Returns :
      (ss : List ComponentId) (w : Warnings)
      → AreKnown ss
      → Returns (validate_components components policy ss w)
  unfolding validate_components
  validate_components-Returns [] w known = search returns_rules
  validate_components-Returns (s ∷ ss) w known =
      let here = expect_component-Returns (OrdMap.get s components) (known s (inl refl)) in
      Returns-bind (expect_component (OrdMap.get s components))
        (λ c. validate_component_policy policy c w >>= validate_components components policy ss)
        here
        λ c.
          Returns-bind (validate_component_policy policy c w)
            (validate_components components policy ss)
            (validate_component_policy-Returns policy c w)
            (λ v. validate_components-Returns ss v (λ t i. known t (inr i)))

  pub pick-Returns :
      (decisions : Decisions) (ss : List ComponentId) (p : Picked)
      → AreKnown ss
      → Returns (pick components policy decisions ss p)
  unfolding pick
  pick-Returns decisions [] p known = search returns_rules
  pick-Returns decisions (s ∷ ss) p known =
      let here = expect_component-Returns (OrdMap.get s components) (known s (inl refl)) in
      let sorted = λ (c : Component). sort_by artifact_le c.artifacts in
      Returns-bind (expect_component (OrdMap.get s components))
        (λ c.
          pick_artifacts policy decisions c (sorted c) p >>= pick components policy decisions ss)
        here
        λ c.
          Returns-bind (pick_artifacts policy decisions c (sorted c) p)
            (pick components policy decisions ss)
            (pick_artifacts-Returns policy decisions c (sorted c) p)
            (λ q. pick-Returns decisions ss q (λ t i. known t (inr i)))
