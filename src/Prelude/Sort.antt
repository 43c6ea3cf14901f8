-- ===== src/Prelude/Sort.antt =====
-- `sort_by` of the standard library, a stable sort, as an insertion sort.
use mathlib.Core.Bool.{Bool, true, false}
use mathlib.Core.Logic.{◌↔◌, inl, inr}
use mathlib.Core.List.{List, [], ◌∷◌}
use windows_component_harnes.Prelude.Lists.{In}
use windows_component_harnes.Prelude.Tests.{Bool-cases}

module _ {A : Type 0} (le : A → A → Bool) where
  -- An element goes before the first that it does not pass, so that equal elements keep their order.
  unfoldable pub insert_by : A → List A → List A
  insert_by x [] = x ∷ []
  insert_by x (y ∷ ys) = elim (le x y) [ true ↦ x ∷ y ∷ ys | false ↦ y ∷ insert_by x ys ]

  unfoldable pub sort_by : List A → List A
  unfolding insert_by
  sort_by [] = []
  sort_by (x ∷ xs) = insert_by x (sort_by xs)

  pub In-insert_by : (x y : A) (ys : List A) → In x (insert_by y ys) ↔ In x (y ∷ ys)
  unfolding insert_by
  In-insert_by x y [] = (λ h. h, λ h. h)
  In-insert_by x y (z ∷ ys) = elim (Bool-cases (le y z)) [
    | inl e ↦ rw (e, insert_by) (λ h. h, λ h. h)
    | inr e ↦
        rw (e, insert_by) (rotate (In-insert_by x y ys).0, rotate_back (In-insert_by x y ys).1)
  ]
    where
      rotate :
          (In x (insert_by y ys) → In x (y ∷ ys)) → In x (z ∷ insert_by y ys) → In x (y ∷ z ∷ ys)
      rotate f (inl h) = inr (inl h)
      rotate f (inr h) = elim (f h) [ inl p ↦ inl p | inr p ↦ inr (inr p) ]

      rotate_back :
          (In x (y ∷ ys) → In x (insert_by y ys)) → In x (y ∷ z ∷ ys) → In x (z ∷ insert_by y ys)
      rotate_back f (inl h) = inr (f (inl h))
      rotate_back f (inr (inl h)) = inl h
      rotate_back f (inr (inr h)) = inr (f (inr h))

  pub In-sort_by : (x : A) (ys : List A) → In x (sort_by ys) ↔ In x ys
  unfolding sort_by
  In-sort_by x [] = (λ h. h, λ h. h)
  In-sort_by x (y ∷ ys) = (
    λ h. elim ((In-insert_by x y (sort_by ys)).0 h) [
      | inl e ↦ inl e
      | inr p ↦ inr ((In-sort_by x ys).0 p)
    ],
    λ h.
        (In-insert_by x y (sort_by ys)).1
          (elim h [ inl e ↦ inl e | inr p ↦ inr ((In-sort_by x ys).1 p) ]),
  )
