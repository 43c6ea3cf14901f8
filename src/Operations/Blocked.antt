-- ===== src/Operations/Blocked.antt =====
-- How the main loop of `topological_order` in crates/reforge-restore/src/operations.rs ends: all keys
-- are placed, or those that are left wait for each other.
use windows_component_harnes.Prelude.{
  ℕ, zero, suc, ◌+◌, ◌<◌, Bool, true, false, ◌≡◌, ◌≢◌, sym, ap, ◌∙◌, inl, inr, none, some, List, [],
  ◌∷◌, In, nat_eq, length, if◌then◌else◌, arith, Bool-cases,
}
use windows_component_harnes.Prelude.OrdMap
use windows_component_harnes.Prelude.Text.{Text, text_ord}
use windows_component_harnes.Domain.Error.{
  ErrorEnvelope, ok, err, coded_error, dependency_cycle, ok-injective,
}
use windows_component_harnes.Domain.Ensures.{Ensures, Ensures-ok, Ensures-err, Ensures-if}
use windows_component_harnes.Domain.Operation.{Operation, OperationId, RunId}
use windows_component_harnes.Operations.Phase.{OperationSpec}
use windows_component_harnes.Operations.Overlap.{Specs, ordered_keys}
use windows_component_harnes.Operations.Arrays.{at, at_total, at_bound}
use windows_component_harnes.Operations.ReadyKey.{ready_ord}
use windows_component_harnes.Operations.Tally.{
  pigeonhole, listed, Edge, tally, tally-open, unlisted_cases,
}
use windows_component_harnes.Operations.Topology.{OperationIds, Sorting, assign_ids}
use windows_component_harnes.Operations.Sorting.{IsOrdered, ids_of, IsGraph, IsMade, IsSorting}
use windows_component_harnes.Operations.DistinctKeys.{ordered_keys-at, length-ordered_keys}

-- The operations are those of all specs, each behind its prerequisites.
pub record IsSorted (is_run_id : Text → Bool) (specs : Specs) (run_id : RunId) (first : ℕ)
    (ops : List Operation) : Type 0 where
  pub ids : OperationIds
  pub assigned : assign_ids is_run_id run_id first 0 (ordered_keys specs) [] ≡ ok ids
  pub ordered : IsOrdered [] ops
  pub made : (op : Operation) → In op ops → IsMade run_id specs ids op
  pub placed :
      (k : Text) (s : OperationSpec)
      → OrdMap.get k specs ≡ some s
      → (i : OperationId) × (OrdMap.get k ids ≡ some i) × In i (ids_of ops)
  pub size : length ops ≡ length specs

-- Keys that wait for each other: each has a prerequisite among them.
pub record IsCyclic (specs : Specs) : Type 0 where
  pub blocked : List Text
  pub start : Text
  pub some_blocked : In start blocked
  pub waits :
      (k : Text)
      → In k blocked
      → (s : OperationSpec) × (q : Text) × (OrdMap.get k specs ≡ some s)
        × In q s.prerequisites
        × In q blocked

-- an error reports a cycle only where there is one
abbrev pub IsHonest : Specs → ErrorEnvelope → Type 0
IsHonest specs e = e.code ≡ dependency_cycle → IsCyclic specs

-- the keys at the places that are not listed
abbrev open_keys : ℕ → List Text → List ℕ → List Text
open_keys index [] done = []
open_keys index (k ∷ keys) done =
    let rest = open_keys (suc index) keys done in if listed index done then rest else k ∷ rest

In-open_keys :
    (index : ℕ) (keys : List Text) (done : List ℕ) (d : ℕ) (k : Text)
    → at keys d ≡ ok k
    → listed (index + d) done ≡ false
    → In k (open_keys index keys done)
unfolding at
In-open_keys index [] done d k a o = cc
In-open_keys index (l ∷ keys) done zero k a o =
    let here : index + 0 ≡ index = omega arith in rw (rw here at o) (inl (sym (ok-injective a)))
In-open_keys index (l ∷ keys) done (suc d) k a o =
    let next : index + suc d ≡ suc index + d = omega arith in
    let later = In-open_keys (suc index) keys done d k a (rw next at o) in
    elim (Bool-cases (listed index done)) [ inl e ↦ rw e later | inr e ↦ rw e (inr later) ]

open_keys-In :
    (index : ℕ) (keys : List Text) (done : List ℕ) (k : Text)
    → In k (open_keys index keys done)
    → (d : ℕ) × (at keys d ≡ ok k) × (listed (index + d) done ≡ false)
unfolding at
open_keys-In index [] done k i = absurd i
open_keys-In index (l ∷ keys) done k i =
    let here : index + 0 ≡ index = omega arith in
    elim (Bool-cases (listed index done)) [
      | inl e ↦ moved (open_keys-In (suc index) keys done k (rw e at i))
      | inr e ↦ elim (rw e at i) [
        | inl same ↦ (0, ap ok (sym same), rw here e)
        | inr later ↦ moved (open_keys-In (suc index) keys done k later)
      ]
    ]
  where
    moved :
        (d : ℕ) × (at keys d ≡ ok k) × (listed (suc index + d) done ≡ false)
        → (d : ℕ) × (at (l ∷ keys) d ≡ ok k) × (listed (index + d) done ≡ false)
    moved (d, a, o) =
        let next : index + suc d ≡ suc index + d = omega arith in (suc d, a, rw next o)

pub from_zero : (d : ℕ) → 0 + d ≡ d
from_zero d = omega arith

module _ (is_run_id : Text → Bool) (specs : Specs) (run_id : RunId) (first : ℕ) (ids : OperationIds)
    (es : List Edge) (dependents : List (List ℕ))
    (g : IsGraph specs (ordered_keys specs) ids es dependents) where
  -- Where the loop ends early, the keys that are left wait for each other.
  left-IsCyclic :
      (done : List ℕ) (s : Sorting) (d : ℕ)
      → IsSorting run_id specs (ordered_keys specs) ids es [] done s
      → s.ready ≡ []
      → d < length (ordered_keys specs)
      → listed d done ≡ false
      → IsCyclic specs
  left-IsCyclic done s d v empty hd o =
      let keys = ordered_keys specs in
      let (k, ka) = at_total keys d hd in
      record {
        blocked = open_keys 0 keys done;
        start = k;
        some_blocked = In-open_keys 0 keys done d k ka (rw (from_zero d) o);
        waits = λ l i.
            let (e, la, oe) = open_keys-In 0 keys done l i in
            let (p, edge, op) =
              tally-open es e done (waiting e (at_bound keys e la) (rw (from_zero e) at oe)) in
            let named = g.sound p e edge in
            let same : named.key ≡ l = ok-injective (sym named.key_at ∙ la) in
            (
              named.spec,
              named.prerequisite,
              rw same at named.spec_at,
              named.named,
              In-open_keys 0 keys done p named.prerequisite named.prerequisite_at
                  (rw (from_zero p) op),
            );
      }
    where
      waiting :
          (e : ℕ) → e < length (ordered_keys specs) → listed e done ≡ false → tally es e done ≢ 0
      waiting e he oe z =
          let (x, i, _) = v.ready_complete e he (omega (arith, z)) oe in absurd (rw empty at i)

  finished-IsSorted :
      (done : List ℕ) (s : Sorting)
      → assign_ids is_run_id run_id first 0 (ordered_keys specs) [] ≡ ok ids
      → IsSorting run_id specs (ordered_keys specs) ids es [] done s
      → ((d : ℕ) → d < length (ordered_keys specs) → listed d done ≡ true)
      → length s.result ≡ length (ordered_keys specs)
      → IsSorted is_run_id specs run_id first s.result
  finished-IsSorted done s a v full size = record {
    ids = ids;
    assigned = a;
    ordered = v.ordered;
    made = v.made;
    placed = λ k sp h.
        let (d, ka) = ordered_keys-at specs k sp h in
        let (i, ia) = g.id_of d k ka in
        (i, ia, v.placed d k i (full d (at_bound (ordered_keys specs) d ka)) ka ia);
    size = size ∙ length-ordered_keys specs;
  }

  -- the test at the end of the loop
  pub drained-Ensures :
      (done : List ℕ) (s : Sorting)
      → assign_ids is_run_id run_id first 0 (ordered_keys specs) [] ≡ ok ids
      → s.ready ≡ []
      → IsSorting run_id specs (ordered_keys specs) ids es [] done s
      → Ensures (IsSorted is_run_id specs run_id first) (IsHonest specs) (
          if nat_eq (length s.result) (length (ordered_keys specs))
          then ok s.result
          else err (coded_error dependency_cycle none none))
  drained-Ensures done s a empty v =
      let P = IsSorted is_run_id specs run_id first in
      let n = length (ordered_keys specs) in
      Ensures-if P (IsHonest specs) (nat_eq (length s.result) n) (ok s.result)
        (err (coded_error dependency_cycle none none))
        (λ e.
          let size : length s.result ≡ n = ground (arith, e) in
          Ensures-ok P (IsHonest specs) s.result (finished-IsSorted done s a v (full size) size))
        (λ e. Ensures-err P (IsHonest specs) (coded_error dependency_cycle none none) λ _.
          elim (unlisted_cases n done) [
            | inl all ↦
                absurd (ground (arith, e, all, v.size, pigeonhole n done v.distinct v.below))
            | inr (d, hd, o) ↦ left-IsCyclic done s d v empty hd o
          ])
    where
      full :
          length s.result ≡ length (ordered_keys specs)
          → (d : ℕ) → d < length (ordered_keys specs)
          → listed d done ≡ true
      full size d hd = elim (Bool-cases (listed d done)) [
        | inl l ↦ l
        | inr o ↦
            let more =
              pigeonhole (length (ordered_keys specs)) (d ∷ done) (o, v.distinct) (hd, v.below) in
            absurd (omega (arith, more, size, v.size))
      ]
