-- ===== src/Operations/VersionOrder.antt =====
-- The order of versions that `version_at_least` decides
-- (crates/reforge-restore/src/operations.rs).
use windows_component_harnes.Prelude.{
  ℕ, true, ◌≡◌, refl, ◌⊎◌, inl, inr, Option, none, some, List, [], ◌∷◌, arith, Bool-cases,
}
use windows_component_harnes.Prelude.Order.{◌==◌, ==_iff}
use windows_component_harnes.Prelude.Text.{text_ord}
use windows_component_harnes.Domain.Component.{VersionValue}
use windows_component_harnes.Operations.Version.{
  version_at_least, version_text, numeric_version_parts, parts_at_least, both_at_least,
}

parts_at_least_trans :
    (as' bs cs : List ℕ)
    → parts_at_least as' bs ≡ true
    → parts_at_least bs cs ≡ true
    → parts_at_least as' cs ≡ true
unfolding parts_at_least
parts_at_least_trans [] [] cs h k = k
parts_at_least_trans [] (b ∷ bs) [] h k = refl
parts_at_least_trans [] (b ∷ bs) (c ∷ cs) h k = ground (arith, parts_at_least_trans [] bs cs)
parts_at_least_trans (a ∷ as') [] [] h k = h
parts_at_least_trans (a ∷ as') [] (c ∷ cs) h k = ground (arith, parts_at_least_trans as' [] cs)
parts_at_least_trans (a ∷ as') (b ∷ bs) [] h k = ground (arith, parts_at_least_trans as' bs [])
parts_at_least_trans (a ∷ as') (b ∷ bs) (c ∷ cs) h k =
    ground (arith, parts_at_least_trans as' bs cs)

parts_at_least_total :
    (as' bs : List ℕ) → (parts_at_least as' bs ≡ true) ⊎ (parts_at_least bs as' ≡ true)
unfolding parts_at_least
parts_at_least_total [] [] = inl refl
parts_at_least_total [] (b ∷ bs) = ground (arith, parts_at_least_total [] bs)
parts_at_least_total (a ∷ as') [] = ground (arith, parts_at_least_total as' [])
parts_at_least_total (a ∷ as') (b ∷ bs) = ground (arith, parts_at_least_total as' bs)

both_at_least_trans :
    (x y z : Option (List ℕ))
    → both_at_least x y ≡ true
    → both_at_least y z ≡ true
    → both_at_least x z ≡ true
both_at_least_trans (some a) (some b) (some c) h k = parts_at_least_trans a b c h k
both_at_least_trans none y z h k = cc
both_at_least_trans (some a) none z h k = cc
both_at_least_trans (some a) (some b) none h k = cc

abbrev AreNumericAtLeast : VersionValue → VersionValue → Type 0
AreNumericAtLeast u v =
    both_at_least (numeric_version_parts (version_text u)) (numeric_version_parts (version_text v))
    ≡ true

version_at_least_cases :
    (u v : VersionValue)
    → version_at_least u v ≡ true
    → (version_text u ≡ version_text v) ⊎ AreNumericAtLeast u v
unfolding version_at_least
version_at_least_cases u v h = elim (Bool-cases (version_text u == version_text v)) [
  | inl e ↦ inl ((==_iff (version_text u) (version_text v)).0 e)
  | inr e ↦ inr (rw e at h)
]

version_at_least_numeric :
    (u v : VersionValue) → AreNumericAtLeast u v → version_at_least u v ≡ true
unfolding version_at_least
version_at_least_numeric u v h = ground arith

version_at_least_same :
    (u v : VersionValue) → version_text u ≡ version_text v → version_at_least u v ≡ true
unfolding version_at_least
version_at_least_same u v e = rw ((==_iff (version_text u) (version_text v)).1 e) refl

-- The relation is a preorder: every version is at least itself, and of three versions, each of the
-- first two at least the next, the first is at least the last.
pub version_at_least_preorder :
    (u v w : VersionValue)
    → (version_at_least u u ≡ true)
      × (version_at_least u v ≡ true → version_at_least v w ≡ true → version_at_least u w ≡ true)
version_at_least_preorder u v w = (
  version_at_least_same u u refl,
  λ h k. elim (version_at_least_cases u v h) [
    | inl e ↦ elim (version_at_least_cases v w k) [
      | inl f ↦ version_at_least_same u w (cc (e, f))
      | inr n ↦ version_at_least_numeric u w (rw e n)
    ]
    | inr m ↦ elim (version_at_least_cases v w k) [
      | inl f ↦ version_at_least_numeric u w (rw (← f) m)
      | inr n ↦ version_at_least_numeric u w (
          both_at_least_trans (numeric_version_parts (version_text u))
            (numeric_version_parts (version_text v)) (numeric_version_parts (version_text w)) m n)
    ]
  ],
)

-- Of two versions whose texts are numeric, one is at least the other.
pub version_at_least_total :
    (u v : VersionValue) (as' bs : List ℕ)
    → numeric_version_parts (version_text u) ≡ some as'
    → numeric_version_parts (version_text v) ≡ some bs
    → (version_at_least u v ≡ true) ⊎ (version_at_least v u ≡ true)
unfolding version_at_least
version_at_least_total u v as' bs p q = ground (arith, parts_at_least_total as' bs)
