-- ===== src/Operations/Growth.antt =====
-- How `order_overlapping_writes` may change the specs: they stay, and their prerequisites grow
-- (crates/reforge-restore/src/operations.rs).
use windows_component_harnes.Prelude.{true, ◌≡◌, refl, inl, inr, some, arith, Bool-cases}
use windows_component_harnes.Prelude.Order.{◌==◌, ==_iff}
use windows_component_harnes.Prelude.OrdMap
use windows_component_harnes.Prelude.OrdSet
use windows_component_harnes.Prelude.Text.{Text, text_ord}
use windows_component_harnes.Operations.Phase.{OperationSpec}
use windows_component_harnes.Operations.Overlap.{Specs, add_prerequisite}

-- What a spec may become: its kind stays, and its prerequisites may grow.
pub record Extends (old new : OperationSpec) : Type 0 where
  pub kind : new.kind ≡ old.kind
  pub prerequisites :
      (p : Text)
      → OrdSet.contains p old.prerequisites ≡ true
      → OrdSet.contains p new.prerequisites ≡ true

pub Extends-refl : (s : OperationSpec) → Extends s s
Extends-refl s = record { kind = refl; prerequisites = λ p h. h }

pub Extends-trans : (a b c : OperationSpec) → Extends a b → Extends b c → Extends a c
Extends-trans a b c f g = record {
  kind = cc (f.kind, g.kind);
  prerequisites = λ p h. g.prerequisites p (f.prerequisites p h);
}

-- Every spec is still there, extended.
unfoldable pub Grows : Specs → Specs → Type 0
Grows old new =
    (k : Text) (s : OperationSpec)
    → OrdMap.get k old ≡ some s
    → (s' : OperationSpec) × (OrdMap.get k new ≡ some s') × Extends s s'

pub Grows-refl : (m : Specs) → Grows m m
unfolding Grows
Grows-refl m k s h = (s, h, Extends-refl s)

pub Grows-trans : (a b c : Specs) → Grows a b → Grows b c → Grows a c
unfolding Grows
Grows-trans a b c f g k s h =
    let (t, ht, et) = f k s h in let (u, hu, eu) = g k t ht in (u, hu, Extends-trans s t u et eu)

-- `left` is among the prerequisites of the spec at `right`.
unfoldable pub IsBefore : Specs → Text → Text → Type 0
IsBefore specs left right =
    (s : OperationSpec) × (OrdMap.get right specs ≡ some s)
    × (OrdSet.contains left s.prerequisites ≡ true)

pub IsBefore-Grows :
    (a b : Specs) (left right : Text) → Grows a b → IsBefore a left right → IsBefore b left right
unfolding Grows IsBefore
IsBefore-Grows a b left right g (s, h, c) =
    let (t, ht, et) = g right s h in (t, ht, et.prerequisites left c)

module _ (left right : Text) (spec : OperationSpec) (specs : Specs) where
  unfoldable pub added : Specs
  added = OrdMap.insert right (add_prerequisite left spec) specs

  pub added-Grows : OrdMap.get right specs ≡ some spec → Grows specs added
  unfolding Grows added add_prerequisite
  added-Grows found k s h = elim (Bool-cases (k == right)) [
    | inl e ↦
        let same : s ≡ spec = ground (arith, (==_iff k right).0 e, found, h) in
        (
          add_prerequisite left spec,
          ground (arith, OrdMap.get-insert k right (add_prerequisite left spec) specs),
          rw same (record {
            kind = refl;
            prerequisites = λ p c. OrdSet.contains-insert_of p left spec.prerequisites c;
          }),
        )
    | inr e ↦ (
      s,
      ground (arith, OrdMap.get-insert k right (add_prerequisite left spec) specs),
      Extends-refl s,
    )
  ]

  pub added-IsBefore : IsBefore added left right
  unfolding IsBefore added add_prerequisite
  added-IsBefore = (
    add_prerequisite left spec,
    OrdMap.get-insert_self right (add_prerequisite left spec) specs,
    OrdSet.contains-insert_self left spec.prerequisites,
  )
