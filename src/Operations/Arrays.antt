-- ===== src/Operations/Arrays.antt =====
-- Vectors of Rust's standard library, indexed in bounds: an index out of bounds panics.
use windows_component_harnes.Prelude.{
  ℕ, zero, suc, ◌<◌, ◌≡◌, ◌≢◌, refl, ap, sym, In, inl, inr, List, [], ◌∷◌, length, arith,
}
use windows_component_harnes.Domain.Error.{ok-injective, Result, ok, stuck}

module _ {A : Type 0} where
  -- `v[i]`
  unfoldable pub at : List A → ℕ → Result A
  at [] i = stuck
  at (x ∷ xs) zero = ok x
  at (x ∷ xs) (suc i) = at xs i

  -- `v[i] = x`, at an index that was read
  unfoldable pub set : List A → ℕ → A → List A
  set [] i v = []
  set (x ∷ xs) zero v = v ∷ xs
  set (x ∷ xs) (suc i) v = x ∷ set xs i v

  -- `vec![x; n]`
  unfoldable pub replicate : ℕ → A → List A
  replicate zero x = []
  replicate (suc n) x = x ∷ replicate n x

  pub length-set : (xs : List A) (i : ℕ) (v : A) → length (set xs i v) ≡ length xs
  unfolding set
  length-set [] i v = refl
  length-set (x ∷ xs) zero v = refl
  length-set (x ∷ xs) (suc i) v = ap suc (length-set xs i v)

  pub length-replicate : (n : ℕ) (x : A) → length (replicate n x) ≡ n
  unfolding replicate
  length-replicate zero x = refl
  length-replicate (suc n) x = ap suc (length-replicate n x)

  pub at_total : (xs : List A) (i : ℕ) → i < length xs → (x : A) × (at xs i ≡ ok x)
  unfolding at
  at_total [] i h = absurd (omega arith)
  at_total (x ∷ xs) zero h = (x, refl)
  at_total (x ∷ xs) (suc i) h = at_total xs i (omega arith)

  pub at_bound : (xs : List A) (i : ℕ) {x : A} → at xs i ≡ ok x → i < length xs
  unfolding at
  at_bound [] i h = cc
  at_bound (x ∷ xs) zero h = omega arith
  at_bound (x ∷ xs) (suc i) h = omega (arith, at_bound xs i h)

  pub at-set_self : (xs : List A) (i : ℕ) (v : A) → i < length xs → at (set xs i v) i ≡ ok v
  unfolding at set
  at-set_self [] i v h = absurd (omega arith)
  at-set_self (x ∷ xs) zero v h = refl
  at-set_self (x ∷ xs) (suc i) v h = at-set_self xs i v (omega arith)

  pub at-set_other : (xs : List A) (i j : ℕ) (v : A) → i ≢ j → at (set xs i v) j ≡ at xs j
  unfolding at set
  at-set_other [] i j v h = refl
  at-set_other (x ∷ xs) zero zero v h = absurd (h refl)
  at-set_other (x ∷ xs) zero (suc j) v h = refl
  at-set_other (x ∷ xs) (suc i) zero v h = refl
  at-set_other (x ∷ xs) (suc i) (suc j) v h = at-set_other xs i j v (λ e. h (ap suc e))

  pub at-replicate : (n : ℕ) (x : A) (i : ℕ) → i < n → at (replicate n x) i ≡ ok x
  unfolding at replicate
  at-replicate zero x i h = absurd (omega arith)
  at-replicate (suc n) x zero h = refl
  at-replicate (suc n) x (suc i) h = at-replicate n x i (omega arith)

  pub at-In : (xs : List A) (i : ℕ) (x : A) → at xs i ≡ ok x → In x xs
  unfolding at
  at-In [] i x e = cc
  at-In (y ∷ xs) zero x e = inl (sym (ok-injective e))
  at-In (y ∷ xs) (suc i) x e = inr (at-In xs i x e)

  pub In-at : (xs : List A) (x : A) → In x xs → (i : ℕ) × (at xs i ≡ ok x)
  unfolding at
  In-at [] x h = absurd h
  In-at (y ∷ xs) x (inl e) = (0, ap ok (sym e))
  In-at (y ∷ xs) x (inr h) = let (i, e) = In-at xs x h in (suc i, e)
