-- ===== src/Prelude/OrdSet.antt =====
-- `BTreeSet` of the standard library: a strictly ascending list.
use Prim.Native.Nat.{suc, ◌≤◌, Ordering}
use mathlib.Core.Path.{◌≡◌, refl}
use mathlib.Core.Logic.{◌↔◌, ◌⊎◌, inl, inr}
use mathlib.Core.Bool.{Bool, true, false, ◌||◌}
use mathlib.Core.List.{List, [], ◌∷◌}
use native.Mathlib.Omega.{arith}
use windows_component_harnes.Prelude.Tests.{if◌then◌else◌, ||-split}
use windows_component_harnes.Prelude.Lists.{length, All, In}
use windows_component_harnes.Prelude.Order.{Ord, ◌==◌, ==_iff}

module _ {A : Type 0} ⦃o : Ord A⦄ where
  unfoldable pub contains : A → List A → Bool
  contains x [] = false
  contains x (y ∷ s) = x == y || contains x s

  -- the set after `insert`; the method's own result is `not (contains x s)`
  unfoldable pub insert : A → List A → List A
  insert x [] = x ∷ []
  insert x (y ∷ s) = elim (o.cmp x y) [
    | Ordering.lt ↦ x ∷ y ∷ s
    | Ordering.eq ↦ y ∷ s
    | Ordering.gt ↦ y ∷ insert x s
  ]

  -- `into_iter().collect()` of a list into a set
  unfoldable pub from_list : List A → List A
  from_list [] = []
  from_list (x ∷ s) = insert x (from_list s)

  pub contains-insert : (x y : A) (s : List A) → contains x (insert y s) ≡ (x == y || contains x s)
  unfolding contains insert
  contains-insert x y [] = refl
  contains-insert x y (z ∷ s) =
      ground (arith, contains-insert x y s, o.cmp_eq y z, o.cmp_eq x z, o.cmp_eq x y)

  pub contains-insert_self : (x : A) (s : List A) → contains x (insert x s) ≡ true
  contains-insert_self x s = ground (arith, contains-insert x x s, ==_iff x x)

  pub contains-insert_of :
      (x y : A) (s : List A) → contains x s ≡ true → contains x (insert y s) ≡ true
  contains-insert_of x y s h = ground (arith, contains-insert x y s)

  pub contains-from_list : (x : A) (s : List A) → contains x (from_list s) ≡ contains x s
  unfolding from_list contains
  contains-from_list x [] = refl
  contains-from_list x (y ∷ s) =
      ground (arith, contains-insert x y (from_list s), contains-from_list x s)

  abbrev pub Below : A → List A → Type 0
  Below x = All (λ y. o.cmp x y ≡ Ordering.lt)

  abbrev pub IsAscending : List A → Type 0
  IsAscending [] = Unit
  IsAscending (x ∷ s) = Below x s × IsAscending s

  Below-trans : (x y : A) (s : List A) → o.cmp x y ≡ Ordering.lt → Below y s → Below x s
  Below-trans x y [] h b = tt
  Below-trans x y (z ∷ s) h (p, b) = (o.cmp_trans x y z h p, Below-trans x y s h b)

  Below-insert : (x y : A) (s : List A) → o.cmp x y ≡ Ordering.lt → Below x s → Below x (insert y s)
  unfolding insert
  Below-insert x y [] h b = (h, tt)
  Below-insert x y (z ∷ s) h (p, b) = ground (arith, Below-insert x y s h b)

  not-contains-Below : (x : A) (s : List A) → Below x s → contains x s ≡ false
  unfolding contains
  not-contains-Below x [] b = refl
  not-contains-Below x (y ∷ s) (p, b) = ground (arith, not-contains-Below x s b)

  pub insert-IsAscending : (x : A) (s : List A) → IsAscending s → IsAscending (insert x s)
  unfolding insert
  insert-IsAscending x [] a = (tt, tt)
  insert-IsAscending x (y ∷ s) (b, a) =
      ground
        (arith, insert-IsAscending x s a, Below-insert y x s, Below-trans x y s, b, o.cmp_flip y x)

  pub from_list-IsAscending : (s : List A) → IsAscending (from_list s)
  unfolding from_list
  from_list-IsAscending [] = tt
  from_list-IsAscending (x ∷ s) = insert-IsAscending x (from_list s) (from_list-IsAscending s)

  -- A set grows by one exactly when the element is new.
  pub length-insert :
      (x : A) (s : List A)
      → IsAscending s
      → length (insert x s) ≡ (if contains x s then length s else suc (length s))
  unfolding insert contains
  length-insert x [] a = refl
  length-insert x (y ∷ s) (b, a) =
      ground (arith, length-insert x s a, not-contains-Below x s, Below-trans x y s, b)

  pub length-insert_le : (x : A) (s : List A) → length (insert x s) ≤ suc (length s)
  unfolding insert
  length-insert_le x [] = omega arith
  length-insert_le x (y ∷ s) = ground (arith, length-insert_le x s)

  pub In-contains : (x : A) (s : List A) → (contains x s ≡ true) ↔ In x s
  unfolding contains
  In-contains x [] = (λ e. cc, λ b. absurd b)
  In-contains x (y ∷ s) = (
    λ h. elim (||-split (x == y) (contains x s) h) [
      | inl e ↦ inl ((==_iff x y).0 e)
      | inr e ↦ inr ((In-contains x s).0 e)
    ],
    λ h. elim h [ inl e ↦ rw ((==_iff x y).1 e) | inr e ↦ ground (arith, (In-contains x s).1 e) ],
  )

  pub In-insert : (x y : A) (s : List A) → In x (insert y s) → (x ≡ y) ⊎ In x s
  In-insert x y s i =
      elim (||-split (x == y) (contains x s)
        (ground (arith, contains-insert x y s, (In-contains x (insert y s)).1 i))) [
          | inl e ↦ inl ((==_iff x y).0 e)
          | inr e ↦ inr ((In-contains x s).0 e)
        ]

  pub In-insert_self : (x : A) (s : List A) → In x (insert x s)
  In-insert_self x s = (In-contains x (insert x s)).0 (contains-insert_self x s)

  pub In-insert_of : (x y : A) (s : List A) → In x s → In x (insert y s)
  In-insert_of x y s i =
      (In-contains x (insert y s)).0 (contains-insert_of x y s ((In-contains x s).1 i))

  pub not-In-Below : (x : A) (s : List A) → Below x s → ¬ In x s
  not-In-Below x s b i = ground (arith, not-contains-Below x s b, (In-contains x s).1 i)
