-- ===== src/Prelude/OrdMap.antt =====
-- `BTreeMap` of the standard library: a list of entries in ascending order of their keys.
use Prim.Native.Nat.{Ordering}
use mathlib.Core.Path.{◌≡◌, refl}
use mathlib.Core.Logic.{◌⊎◌}
use mathlib.Core.Bool.{Bool, true, false}
use mathlib.Core.Option.{Option, none, some}
use mathlib.Core.List.{List, [], ◌∷◌, map}
use native.Mathlib.Omega.{arith}
use windows_component_harnes.Prelude.Tests.{if◌then◌else◌}
use windows_component_harnes.Prelude.Order.{Ord, ◌==◌, ==_iff}

abbrev pub OrdMap : Type 0 → Type 0 → Type 0
OrdMap K V = List (K × V)

abbrev pub is_some {ℓ} : {A : Type ℓ} → Option A → Bool
is_some none = false
is_some (some a) = true

module _ {K V : Type 0} ⦃o : Ord K⦄ where
  unfoldable pub get : K → OrdMap K V → Option V
  get k [] = none
  get k ((j, v) ∷ m) = if k == j then some v else get k m

  abbrev pub contains_key : K → OrdMap K V → Bool
  contains_key k m = is_some (get k m)

  -- the map after `insert`; the method's own result is `get k m`
  unfoldable pub insert : K → V → OrdMap K V → OrdMap K V
  insert k v [] = (k, v) ∷ []
  insert k v ((j, w) ∷ m) = elim (o.cmp k j) [
    | Ordering.lt ↦ (k, v) ∷ (j, w) ∷ m
    | Ordering.eq ↦ (k, v) ∷ m
    | Ordering.gt ↦ (j, w) ∷ insert k v m
  ]

  -- the map after `remove`
  unfoldable pub remove : K → OrdMap K V → OrdMap K V
  remove k [] = []
  remove k ((j, v) ∷ m) = let rest = remove k m in if k == j then rest else (j, v) ∷ rest

  pub get-remove :
      (j k : K) (m : OrdMap K V) → get j (remove k m) ≡ (if j == k then none else get j m)
  unfolding get remove
  get-remove j k [] = ground arith
  get-remove j k ((i, v) ∷ m) =
      ground (arith, get-remove j k m, o.cmp_eq k i, o.cmp_eq j i, o.cmp_eq j k)

  abbrev pub keys : OrdMap K V → List K
  keys = map (λ e. e.0)

  pub get-insert :
      (j k : K) (v : V) (m : OrdMap K V)
      → get j (insert k v m) ≡ (if j == k then some v else get j m)
  unfolding get insert
  get-insert j k v [] = refl
  get-insert j k v ((i, w) ∷ m) =
      ground (arith, get-insert j k v m, o.cmp_eq k i, o.cmp_eq j i, o.cmp_eq j k)

  pub get-insert_self : (k : K) (v : V) (m : OrdMap K V) → get k (insert k v m) ≡ some v
  get-insert_self k v m = ground (arith, get-insert k k v m, ==_iff k k)

  -- What is found after an insertion was inserted or was there before.
  pub get-insert_cases :
      (j k : K) (v w : V) (m : OrdMap K V)
      → get j (insert k v m) ≡ some w
      → (j ≡ k) × (v ≡ w) ⊎ (get j m ≡ some w)
  get-insert_cases j k v w m h = ground (arith, get-insert j k v m, ==_iff j k)
