-- ===== src/Operations/DependencyOrder.antt =====
-- `topological_order` of crates/reforge-restore/src/operations.rs as a whole: what a
-- successful order is, and what a reported cycle means.
use windows_component_harnes.Prelude.{
  ℕ, Bool, true, ◌≡◌, ◌≢◌, refl, sym, ap, ◌∙◌, inl, inr, Option, none, some, List, [], ◌∷◌, In,
  arith,
}
use windows_component_harnes.Prelude.OrdMap
use windows_component_harnes.Prelude.OrdSet
use windows_component_harnes.Prelude.Text.{Text, text_ord}
use windows_component_harnes.Domain.Error.{
  >>=-eq-ok, ErrorEnvelope, ok, err, stuck, ◌>>=◌, dependency_cycle, ok-injective,
}
use windows_component_harnes.Domain.Ensures.{Ensures-value, Ensures-error, Ensures-ne-stuck}
use windows_component_harnes.Domain.Operation.{Operation, OperationId, RunId}
use windows_component_harnes.Operations.Overlap.{Specs, ordered_keys}
use windows_component_harnes.Operations.ReadyKey.{ready_ord}
use windows_component_harnes.Operations.Topology.{
  expect, OperationIds, lookup_ids, assign_ids, topological_order,
}
use windows_component_harnes.Operations.Building.{NoCycle}
use windows_component_harnes.Operations.Sorting.{IsOrdered, ids_of, IsMade}
use windows_component_harnes.Operations.Blocked.{IsSorted, IsCyclic, IsHonest}
use windows_component_harnes.Operations.Naming.{IsInjective, assign_ids-IsInjective}
use windows_component_harnes.Operations.WholeOrder.{topological_order-Ensures}

-- For specs whose keys are those of a map, the operations of a successful order are as many as the
-- specs, each is that of one spec under the identifier assigned to its key, every spec has one, and
-- every prerequisite of an operation stands before it.
pub topological_order-IsSorted :
    (is_run_id : Text → Bool) (specs : Specs) (run_id : RunId) (first : ℕ) (ops : List Operation)
    → OrdSet.IsAscending (OrdMap.keys specs)
    → topological_order is_run_id specs run_id first ≡ ok ops
    → IsSorted is_run_id specs run_id first ops
topological_order-IsSorted is_run_id specs run_id first ops asc e =
    Ensures-value (IsSorted is_run_id specs run_id first) (IsHonest specs)
      (topological_order is_run_id specs run_id first) ops
      (topological_order-Ensures specs asc is_run_id run_id first) e

-- For specs whose keys are those of a map, the order comes to an end within its fuel, no index is out
-- of bounds and no `expect` fails.
pub topological_order-ne-stuck :
    (is_run_id : Text → Bool) (specs : Specs) (run_id : RunId) (first : ℕ)
    → OrdSet.IsAscending (OrdMap.keys specs)
    → topological_order is_run_id specs run_id first ≢ stuck
topological_order-ne-stuck is_run_id specs run_id first asc =
    Ensures-ne-stuck (IsSorted is_run_id specs run_id first) (IsHonest specs)
      (topological_order is_run_id specs run_id first)
      (topological_order-Ensures specs asc is_run_id run_id first)

expect-some : {A : Type 0} (o : Option A) (a : A) → expect o ≡ ok a → o ≡ some a
expect-some none a e = cc
expect-some (some b) a e = ap some (ok-injective e)

abbrev no_ids : OperationIds
no_ids = []

not_found : (k : Text) (i : OperationId) → OrdMap.get k no_ids ≢ some i
unfolding OrdMap.get
not_found k i e = cc

lookup_ids-In :
    (ids : OperationIds) (qs : List Text) (ps : List OperationId) (q : Text)
    → lookup_ids ids qs ≡ ok ps
    → In q qs
    → (i : OperationId) × (OrdMap.get q ids ≡ some i) × In i ps
unfolding lookup_ids
lookup_ids-In ids [] ps q e i = absurd i
lookup_ids-In ids (r ∷ qs) ps q e i =
    let (id, found, e') =
      >>=-eq-ok (expect (OrdMap.get r ids)) (λ id. lookup_ids ids qs >>= λ rest. ok (id ∷ rest))
        e in
    let (rest, f, g) = >>=-eq-ok (lookup_ids ids qs) (λ rest. ok (id ∷ rest)) e' in
    let all : id ∷ rest ≡ ps = ok-injective g in
    elim i [
      | inl same ↦ (
        id,
        (ap (λ k. OrdMap.get k ids) same ∙ expect-some (OrdMap.get r ids) id found),
        rw (sym all) (inl refl),
      )
      | inr later ↦
          let (j, h, k) = lookup_ids-In ids qs rest q f later in (j, h, rw (sym all) (inr k))
    ]

module _ (run_id : RunId) (specs : Specs) (ids : OperationIds) (injective : IsInjective ids)
    (c : IsCyclic specs) where
  -- Operations that wait for each other are in no order.
  blocked_absent :
      (seen : List OperationId) (ops : List Operation)
      → IsOrdered seen ops
      → ((op : Operation) → In op ops → IsMade run_id specs ids op)
      → ((k : Text) (i : OperationId) → In k c.blocked → OrdMap.get k ids ≡ some i → ¬ In i seen)
      → (k : Text) (i : OperationId) → In k c.blocked
      → OrdMap.get k ids ≡ some i
      → ¬ In i (ids_of ops)
  blocked_absent seen [] o made unseen k i b e h = absurd h
  blocked_absent seen (op ∷ ops) (before, o) made unseen k i b e h = elim h [
    | inl same ↦ now k i b e same
    | inr later ↦
        blocked_absent (op.id ∷ seen) ops o (λ p j. made p (inr j))
          (λ l j bl f n. elim n [ inl same ↦ now l j bl f same | inr old ↦ unseen l j bl f old ]) k
          i b e later
  ]
    where
      now :
          (k : Text) (i : OperationId) → In k c.blocked → OrdMap.get k ids ≡ some i → ¬ (i ≡ op.id)
      now k i b e same =
          let (key, spec, ps, sa, ia, la, eq) = made op (inl refl) in
          let (s, q, sk, named, bq) = c.waits k b in
          let same_key : key ≡ k = injective key k op.id ia (e ∙ ap some same) in
          let same_spec : some s ≡ some spec = sym sk ∙ (rw same_key at sa) in
          let t : s ≡ spec = ground (arith, same_spec) in
          let (j, jq, jp) = lookup_ids-In ids spec.prerequisites ps q la (rw t at named) in
          let prereqs : op.prerequisites ≡ ps = ap (λ r. r.prerequisites) eq in
          unseen q j bq jq (before j (rw prereqs jp))

-- For specs whose keys are those of a map and a valid run identifier: an error with the code of a
-- dependency cycle means that some keys wait for each other, and where some do, no order is returned.
pub topological_order-IsCyclic :
    (is_run_id : Text → Bool) (specs : Specs) (run_id : RunId) (first : ℕ)
    → OrdSet.IsAscending (OrdMap.keys specs)
    → is_run_id run_id ≡ true
    → ((e : ErrorEnvelope)
        → topological_order is_run_id specs run_id first ≡ err e
        → e.code ≡ dependency_cycle
        → IsCyclic specs)
      × (IsCyclic specs
          → (ops : List Operation) → topological_order is_run_id specs run_id first ≢ ok ops)
topological_order-IsCyclic is_run_id specs run_id first asc valid = (
  λ e h.
      Ensures-error (IsSorted is_run_id specs run_id first) (IsHonest specs)
        (topological_order is_run_id specs run_id first) e
        (topological_order-Ensures specs asc is_run_id run_id first) h,
  λ c ops h.
      let v = topological_order-IsSorted is_run_id specs run_id first ops asc h in
      let injective =
        Ensures-value IsInjective NoCycle
          (assign_ids is_run_id run_id first 0 (ordered_keys specs) []) v.ids
          (assign_ids-IsInjective is_run_id run_id valid first 0 (ordered_keys specs) []
            (λ k i e. absurd (not_found k i e)) (λ j k i e f. absurd (not_found j i e)))
          v.assigned in
      let (s, q, sk, named, bq) = c.waits c.start c.some_blocked in
      let (i, ia, there) = v.placed c.start s sk in
      blocked_absent run_id specs v.ids injective c [] ops v.ordered v.made (λ k j b e n. n) c.start
        i c.some_blocked ia there,
)
