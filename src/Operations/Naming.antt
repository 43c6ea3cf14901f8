-- ===== src/Operations/Naming.antt =====
-- The identifiers that `topological_order` of crates/reforge-restore/src/operations.rs assigns: no
-- two keys share one.
use windows_component_harnes.Prelude.{
  ℕ, suc, ◌+◌, ◌^◌, ◌<◌, Bool, true, ltb, ◌≡◌, refl, sym, ap, ◌∙◌, inl, inr, some, List, [], ◌∷◌,
  arith, Bool-cases,
}
use windows_component_harnes.Prelude.OrdMap
use windows_component_harnes.Prelude.Text.{Text, text_ord}
use windows_component_harnes.Domain.Error.{◌>>=◌}
use windows_component_harnes.Domain.Ensures.{Ensures, Ensures-ok, Ensures-bind}
use windows_component_harnes.Domain.Ids.{for_run}
use windows_component_harnes.Domain.Ids.RoundTrip.{for_run_injective}
use windows_component_harnes.Domain.Operation.{OperationId, RunId}
use windows_component_harnes.Operations.Topology.{
  OperationIds, checked_sum, or_schema_error, assign_ids,
}
use windows_component_harnes.Operations.Building.{
  NoCycle, or_schema_error-Ensures, security_error-Ensures,
}

-- No two keys share an identifier.
abbrev pub IsInjective : OperationIds → Type 0
IsInjective ids =
    (j k : Text) (i : OperationId) → OrdMap.get j ids ≡ some i → OrdMap.get k ids ≡ some i → j ≡ k

abbrev IsSum : ℕ → ℕ → ℕ → Type 0
IsSum a b c = (c ≡ a + b) × (c < 2 ^ 64)

checked_sum_bound : (a b : ℕ) → Ensures (IsSum a b) NoCycle (checked_sum a b)
checked_sum_bound a b = elim (Bool-cases (ltb (a + b) (2 ^ 64))) [
  | inl e ↦ rw e (Ensures-ok (IsSum a b) NoCycle (a + b) (refl, ground (arith, e)))
  | inr e ↦ rw e (security_error-Ensures (IsSum a b))
]

module _ (is_run_id : Text → Bool) (run_id : RunId) (valid : is_run_id run_id ≡ true) where
  -- the identifiers are those of ordinals below the bound
  abbrev IsNumbered : ℕ → OperationIds → Type 0
  IsNumbered bound ids =
      (k : Text) (i : OperationId)
      → OrdMap.get k ids ≡ some i
      → (o : ℕ) × (o < bound) × (o < 2 ^ 64) × (for_run is_run_id run_id o ≡ some i)

  IsNumbered-insert :
      (o : ℕ) (key : Text) (id : OperationId) (ids : OperationIds)
      → o < 2 ^ 64
      → for_run is_run_id run_id o ≡ some id
      → IsNumbered o ids
      → IsNumbered (suc o) (OrdMap.insert key id ids)
  IsNumbered-insert o key id ids b e n k i h = elim (OrdMap.get-insert_cases k key id i ids h) [
    | inl (f, same) ↦ (o, omega arith, b, e ∙ ap some same)
    | inr old ↦ let (p, hp, hb, g) = n k i old in (p, omega (arith, hp), hb, g)
  ]

  IsInjective-insert :
      (o : ℕ) (key : Text) (id : OperationId) (ids : OperationIds)
      → o < 2 ^ 64
      → for_run is_run_id run_id o ≡ some id
      → IsNumbered o ids
      → IsInjective ids
      → IsInjective (OrdMap.insert key id ids)
  IsInjective-insert o key id ids b e n u j k i hj hk =
      elim (OrdMap.get-insert_cases j key id i ids hj) [
        | inl (fj, same) ↦ elim (OrdMap.get-insert_cases k key id i ids hk) [
          | inl (fk, _) ↦ fj ∙ sym fk
          | inr old ↦ absurd (fresh k i old same)
        ]
        | inr old ↦ elim (OrdMap.get-insert_cases k key id i ids hk) [
          | inl (fk, same) ↦ absurd (fresh j i old same)
          | inr old' ↦ u j k i old old'
        ]
      ]
    where
      fresh : (k : Text) (i : OperationId) → OrdMap.get k ids ≡ some i → id ≡ i → ⊥
      fresh k i old same =
          let (p, hp, hb, g) = n k i old in
          let equal =
            (for_run_injective is_run_id run_id p o valid hb b).1
              (g ∙ ap some (sym same) ∙ sym e) in
          omega (arith, equal, hp)

  pub assign_ids-IsInjective :
      (first index : ℕ) (keys : List Text) (ids : OperationIds)
      → IsNumbered (first + index) ids
      → IsInjective ids
      → Ensures IsInjective NoCycle (assign_ids is_run_id run_id first index keys ids)
  unfolding assign_ids
  assign_ids-IsInjective first index [] ids n u = Ensures-ok IsInjective NoCycle ids u
  assign_ids-IsInjective first index (key ∷ keys) ids n u =
      Ensures-bind (IsSum first index) IsInjective NoCycle (checked_sum first index)
        (λ o. or_schema_error (for_run is_run_id run_id o) >>= λ id.
          assign_ids is_run_id run_id first (suc index) keys (OrdMap.insert key id ids))
        (checked_sum_bound first index)
        λ o (e, b).
          Ensures-bind (λ id. for_run is_run_id run_id o ≡ some id) IsInjective NoCycle
            (or_schema_error (for_run is_run_id run_id o))
            (λ id. assign_ids is_run_id run_id first (suc index) keys (OrdMap.insert key id ids))
            (or_schema_error-Ensures (λ id. for_run is_run_id run_id o ≡ some id)
              (for_run is_run_id run_id o) (λ id h. h))
            λ id h.
              let next : suc o ≡ first + suc index = omega (arith, e) in
              let before : IsNumbered o ids = rw e n in
              assign_ids-IsInjective first (suc index) keys (OrdMap.insert key id ids)
                (rw next at (IsNumbered-insert o key id ids b h before))
                (IsInjective-insert o key id ids b h before u)
