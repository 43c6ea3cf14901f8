-- ===== src/Operations/WholeOrder.antt =====
-- The loops of `topological_order` in crates/reforge-restore/src/operations.rs put together.
use windows_component_harnes.Prelude.{
  ℕ, suc, Bool, ◌≡◌, refl, sym, ap, ◌∙◌, inl, inr, none, List, [], nat_eq, length, if◌then◌else◌,
  arith, Option-cases,
}
use windows_component_harnes.Prelude.OrdMap
use windows_component_harnes.Prelude.OrdSet
use windows_component_harnes.Prelude.Text.{Text, text_ord}
use windows_component_harnes.Domain.Error.{
  ErrorEnvelope, Result, ok, err, ◌>>=◌, coded_error, dependency_cycle, ok-injective,
}
use windows_component_harnes.Domain.Ensures.{Ensures-weaken, Ensures, Ensures-bind, Ensures-bind_eq}
use windows_component_harnes.Domain.Operation.{Operation, RunId}
use windows_component_harnes.Operations.Overlap.{Specs, ordered_keys}
use windows_component_harnes.Operations.Arrays.{
  In-at, at-In, at, replicate, at_bound, at-replicate, length-replicate,
}
use windows_component_harnes.Operations.ReadyKey.{ReadyKey, ready_ord}
use windows_component_harnes.Operations.Tally.{edges_between, occurrences, Edge}
use windows_component_harnes.Operations.Topology.{
  OperationIds, Counts, assign_ids, index_keys, count_specs, first_ready, drain, order_keys,
  topological_order,
}
use windows_component_harnes.Operations.Building.{NoCycle, HasIds, assign_ids-Ensures, IsTally}
use windows_component_harnes.Operations.Counting.{IsCounted, count_specs-Ensures}
use windows_component_harnes.Operations.Sorting.{IsGraph, IsSorting}
use windows_component_harnes.Operations.Blocked.{from_zero, drained-Ensures, IsSorted, IsHonest}
use windows_component_harnes.Operations.Releasing.{IsStart, first_ready-IsStart}
use windows_component_harnes.Operations.Placing.{drain-IsSorting}
use windows_component_harnes.Operations.DistinctKeys.{ordered_keys-apart, ordered_keys-get}

module _ (specs : Specs) (ascending : OrdSet.IsAscending (OrdMap.keys specs)) where
  counted-IsGraph :
      (ids : OperationIds) (c : Counts)
      → HasIds (ordered_keys specs) [] ids
      → (b : IsCounted specs (ordered_keys specs) (ordered_keys specs) 0 [] c)
      → IsGraph specs (ordered_keys specs) ids b.edges c.dependents
  counted-IsGraph ids c has b = record {
    spec_of = ordered_keys-get specs;
    id_of = λ d k ka. elim (Option-cases (OrdMap.get k ids)) [
      | inr found ↦ found
      | inl e ↦ absurd (ground (arith, e, has k (inl (at-In (ordered_keys specs) d k ka))))
    ];
    apart = λ d e k a f. ordered_keys-apart specs d e k ascending a f;
    sound =
        λ p d i. elim (b.sound p d i) [ inl none_before ↦ absurd none_before | inr edge ↦ edge ];
    complete = λ d k q s ka sa i.
        let (p, pa, edge) = b.complete d k q s ka sa i in (p, pa, rw (from_zero d) at edge);
    lists = b.is_tally.lists;
    paired = b.is_tally.paired;
  }

  start-IsSorting :
      (run_id : RunId) (ids : OperationIds) (es : List Edge) (c : Counts) (ready : List ReadyKey)
      (dependents : List (List ℕ)) (g : IsGraph specs (ordered_keys specs) ids es dependents)
      → IsTally (length (ordered_keys specs)) es c
      → IsStart run_id specs
          (ordered_keys specs)
          ids
          es
          dependents
          g
          (length (ordered_keys specs))
          ready
      → IsSorting run_id specs
          (ordered_keys specs)
          ids
          es
          []
          []
          (record { specs = specs; indegree = c.indegree; ready = ready; result = [] })
  start-IsSorting run_id ids es c ready dependents g t v = record {
    degrees = t.degrees;
    counted = λ d hd. t.tallied d hd ∙ ap ok (omega arith);
    ascending = v.ascending;
    ready_entry = v.entry;
    ready_unlisted = λ x i. refl;
    ready_free = λ x i. omega (arith, v.free x i);
    ready_complete = λ d hd z o. v.complete d hd (omega (arith, z));
    remaining = λ d k a o. refl;
    finished = λ d l. cc (l);
    distinct = tt;
    below = tt;
    size = refl;
    placed = λ d k i l. cc (l);
    ordered = tt;
    made = λ op i. absurd i;
  }

  empty-IsTally :
      (n : ℕ) → IsTally n [] (record { indegree = replicate n 0; dependents = replicate n [] })
  empty-IsTally n = record {
    degrees = length-replicate n 0;
    lists = length-replicate n [];
    tallied = at-replicate n 0;
    paired = λ p ts a d. no_targets p ts d a;
  }
    where
      no_targets :
          (p : ℕ) (ts : List ℕ) (d : ℕ)
          → at (replicate n []) p ≡ ok ts
          → occurrences d ts ≡ edges_between [] p d
      no_targets p ts d a =
          let bound = at_bound (replicate n []) p a in
          let same : [] ≡ ts =
            ok-injective
              (sym (at-replicate n [] p (rw (length-replicate {A = List ℕ} n []) at bound)) ∙ a) in
          rw (sym same) refl

  module _ (is_run_id : Text → Bool) (run_id : RunId) (first : ℕ) where
    counted-Ensures :
        (ids : OperationIds) (c : Counts)
        → assign_ids is_run_id run_id first 0 (ordered_keys specs) [] ≡ ok ids
        → HasIds (ordered_keys specs) [] ids
        → IsCounted specs (ordered_keys specs) (ordered_keys specs) 0 [] c
        → Ensures (IsSorted is_run_id specs run_id first) (IsHonest specs) (
            first_ready specs ids c.indegree 0 (ordered_keys specs) [] >>= λ ready.
            drain run_id
              (ordered_keys specs)
              ids
              c.dependents
              (suc (length (ordered_keys specs)))
              (record { specs = specs; indegree = c.indegree; ready = ready; result = [] })
            >>= λ s.
                if nat_eq (length s.result) (length (ordered_keys specs))
                then ok s.result
                else err (coded_error dependency_cycle none none))
    counted-Ensures ids c a has b =
        let keys = ordered_keys specs in
        let n = length keys in
        let g = counted-IsGraph ids c has b in
        let t = b.is_tally in
        let (ready, first_eq, start) =
          first_ready-IsStart run_id specs keys ids b.edges c.dependents g c.indegree 0 keys []
            t.tallied (λ j. ap (at keys) (from_zero j))
            (record {
              ascending = tt;
              entry = λ x i. absurd i;
              free = λ x i. absurd i;
              complete = λ d h z. absurd (omega (arith, h));
            }) in
        let sorting =
          start-IsSorting run_id ids b.edges c ready c.dependents g t (rw (from_zero n) at start) in
        let (s, done, drain_eq, empty, v) =
          drain-IsSorting run_id specs keys ids b.edges c.dependents g (suc n) []
            (record { specs = specs; indegree = c.indegree; ready = ready; result = [] })
            (omega arith) sorting in
        rw (first_eq, drain_eq)
          (drained-Ensures is_run_id specs run_id first ids b.edges c.dependents g done s a empty v)

    pub topological_order-Ensures :
        Ensures
          (IsSorted is_run_id specs run_id first)
          (IsHonest specs)
          (topological_order is_run_id specs run_id first)
    unfolding topological_order order_keys
    topological_order-Ensures =
        let keys = ordered_keys specs in
        let P = IsSorted is_run_id specs run_id first in
        let indices = index_keys 0 keys [] in
        let zeros : Counts = record {
          indegree = replicate (length keys) 0;
          dependents = replicate (length keys) [];
        } in
        let sort : OperationIds → Counts → Result (List Operation) = λ ids c.
          first_ready specs ids c.indegree 0 keys [] >>= λ ready.
          drain run_id keys ids c.dependents (suc (length keys))
            (record { specs = specs; indegree = c.indegree; ready = ready; result = [] })
          >>= λ s.
              if nat_eq (length s.result) (length keys)
              then ok s.result
              else err (coded_error dependency_cycle none none) in
        Ensures-bind_eq (HasIds keys []) P (IsHonest specs)
          (assign_ids is_run_id run_id first 0 keys [])
          (λ ids. count_specs specs indices 0 keys zeros >>= sort ids)
          (Ensures-weaken (HasIds keys []) NoCycle (HasIds keys []) (IsHonest specs)
            (assign_ids is_run_id run_id first 0 keys []) (λ ids h. h) no_cycle
            (assign_ids-Ensures is_run_id run_id first 0 keys []))
          λ ids a has.
            Ensures-bind (IsCounted specs keys keys 0 []) P (IsHonest specs)
              (count_specs specs indices 0 keys zeros) (sort ids)
              (Ensures-weaken (IsCounted specs keys keys 0 []) NoCycle
                (IsCounted specs keys keys 0 []) (IsHonest specs)
                (count_specs specs indices 0 keys zeros) (λ c h. h) no_cycle
                (count_specs-Ensures specs keys keys 0 [] zeros (λ j. ap (at keys) (from_zero j))
                  (λ k i. let (d, ka) = In-at keys k i in ordered_keys-get specs d k ka)
                  (empty-IsTally (length keys))))
              (λ c b. counted-Ensures ids c a has b)
      where
        no_cycle : (e : ErrorEnvelope) → NoCycle e → IsHonest specs e
        no_cycle e h same = absurd (h same)
