-- ===== src/Operations/Sorting.antt =====
-- The state that the main loop of `topological_order` in crates/reforge-restore/src/operations.rs
-- keeps: which keys are placed, how many prerequisites of the others are open, which are ready.
use windows_component_harnes.Prelude.{
  ℕ, ◌+◌, ◌<◌, true, false, ◌≡◌, refl, ap, ◌⊎◌, inl, inr, some, List, [], ◌∷◌, In, map, nat_eq,
  length, if◌then◌else◌, arith, Bool-cases,
}
use windows_component_harnes.Prelude.OrdMap
use windows_component_harnes.Prelude.OrdSet
use windows_component_harnes.Prelude.Text.{Text, text_ord}
use windows_component_harnes.Domain.Error.{ok, ◌>>=◌}
use windows_component_harnes.Domain.Operation.{Operation, OperationId, RunId}
use windows_component_harnes.Operations.Phase.{OperationSpec, rank}
use windows_component_harnes.Operations.Overlap.{Specs, sort_texts}
use windows_component_harnes.Operations.Arrays.{at}
use windows_component_harnes.Operations.ReadyKey.{ReadyKey, ready_ord}
use windows_component_harnes.Operations.Tally.{
  listed, occurrences, Edge, tally, edges_between, IsDistinct, AllBelow,
}
use windows_component_harnes.Operations.Topology.{
  OperationIds, Sorting, ready_key, lookup_ids, operation_of,
}
use windows_component_harnes.Operations.Counting.{IsEdge}

-- Every prerequisite of an operation is done before it.
abbrev pub IsOrdered : List OperationId → List Operation → Type 0
IsOrdered seen [] = Unit
IsOrdered seen (op ∷ ops) =
    ((p : OperationId) → In p op.prerequisites → In p seen) × IsOrdered (op.id ∷ seen) ops

abbrev pub ids_of : List Operation → List OperationId
ids_of = map (λ op. op.id)

-- The graph of the prerequisites, as the first loops leave it.
pub record IsGraph (specs : Specs) (keys : List Text) (ids : OperationIds) (es : List Edge)
    (dependents : List (List ℕ)) : Type 0 where
  pub spec_of :
      (d : ℕ) (k : Text) → at keys d ≡ ok k → (s : OperationSpec) × (OrdMap.get k specs ≡ some s)
  pub id_of :
      (d : ℕ) (k : Text) → at keys d ≡ ok k → (i : OperationId) × (OrdMap.get k ids ≡ some i)
  pub apart : (d e : ℕ) (k : Text) → at keys d ≡ ok k → at keys e ≡ ok k → d ≡ e
  pub sound : (p d : ℕ) → In (p, d) es → IsEdge specs keys p d
  pub complete :
      (d : ℕ) (k q : Text) (s : OperationSpec)
      → at keys d ≡ ok k
      → OrdMap.get k specs ≡ some s
      → In q s.prerequisites
      → (p : ℕ) × (at keys p ≡ ok q) × In (p, d) es
  pub lists : length dependents ≡ length keys
  pub paired :
      (p : ℕ) (ts : List ℕ)
      → at dependents p ≡ ok ts
      → (d : ℕ) → occurrences d ts ≡ edges_between es p d

-- the operation is that of the spec under some key
abbrev pub IsMade : RunId → Specs → OperationIds → Operation → Type 0
IsMade run_id specs ids op =
    (key : Text) × (spec : OperationSpec) × (ps : List OperationId) × (OrdMap.get key specs
      ≡ some spec)
    × (OrdMap.get key ids ≡ some op.id)
    × (lookup_ids ids spec.prerequisites ≡ ok ps)
    × (op ≡ operation_of run_id spec op.id ps)

-- an element of the ready set that stands for a key
abbrev pub IsEntry : Specs → List Text → OperationIds → ReadyKey → Type 0
IsEntry specs keys ids x =
    (k : Text) × (at keys x.index ≡ ok k) × (ready_key specs ids x.index k ≡ ok x)

-- The state when the keys at `done` are placed and the dependents in `ds` are still to be counted
-- down.
pub record IsSorting (run_id : RunId) (specs : Specs) (keys : List Text) (ids : OperationIds)
    (es : List Edge) (ds done : List ℕ) (s : Sorting) : Type 0 where
  pub degrees : length s.indegree ≡ length keys
  pub counted :
      (d : ℕ) → d < length keys → at s.indegree d ≡ ok (tally es d done + occurrences d ds)
  pub ascending : OrdSet.IsAscending s.ready
  pub ready_entry : (x : ReadyKey) → In x s.ready → IsEntry specs keys ids x
  pub ready_unlisted : (x : ReadyKey) → In x s.ready → listed x.index done ≡ false
  pub ready_free :
      (x : ReadyKey) → In x s.ready → tally es x.index done + occurrences x.index ds ≡ 0
  pub ready_complete :
      (d : ℕ)
      → d < length keys
      → tally es d done + occurrences d ds ≡ 0
      → listed d done ≡ false
      → (x : ReadyKey) × In x s.ready × (x.index ≡ d)
  pub remaining :
      (d : ℕ) (k : Text)
      → at keys d ≡ ok k
      → listed d done ≡ false
      → OrdMap.get k s.specs ≡ OrdMap.get k specs
  pub finished : (d : ℕ) → listed d done ≡ true → tally es d done + occurrences d ds ≡ 0
  pub distinct : IsDistinct done
  pub below : AllBelow (length keys) done
  pub size : length s.result ≡ length done
  pub placed :
      (d : ℕ) (k : Text) (i : OperationId)
      → listed d done ≡ true
      → at keys d ≡ ok k
      → OrdMap.get k ids ≡ some i
      → In i (ids_of s.result)
  pub ordered : IsOrdered [] s.result
  pub made : (op : Operation) → In op s.result → IsMade run_id specs ids op

-- The ready set after the count of `d` went down to `new`.
pub record IsGrown (specs : Specs) (keys : List Text) (ids : OperationIds) (d new : ℕ)
    (ready grown : List ReadyKey) : Type 0 where
  pub ascending : OrdSet.IsAscending ready → OrdSet.IsAscending grown
  pub kept : (x : ReadyKey) → In x ready → In x grown
  pub from :
      (x : ReadyKey)
      → In x grown
      → In x ready ⊎ ((new ≡ 0) × (x.index ≡ d) × IsEntry specs keys ids x)
  pub has : new ≡ 0 → (x : ReadyKey) × In x grown × (x.index ≡ d)

module _ (specs : Specs) (keys : List Text) (ids : OperationIds) where
  pub ready_key-ok :
      (d : ℕ) (k : Text) (s : OperationSpec) (i : OperationId) (current : Specs)
      → OrdMap.get k specs ≡ some s
      → OrdMap.get k ids ≡ some i
      → OrdMap.get k current ≡ OrdMap.get k specs
      → ready_key current ids d k
        ≡ ok (record { rank = rank s.phase; texts = sort_texts s (some i); index = d })
  unfolding ready_key
  ready_key-ok d k s i current e f h = rw (h, e, f) refl

  pub grow :
      (d new : ℕ) (k : Text) (s : OperationSpec) (i : OperationId) (current : Specs)
      (ready : List ReadyKey)
      → at keys d ≡ ok k
      → OrdMap.get k specs ≡ some s
      → OrdMap.get k ids ≡ some i
      → OrdMap.get k current ≡ OrdMap.get k specs
      → (grown : List ReadyKey) × ((if nat_eq new 0
            then (ready_key current ids d k >>= λ x. ok (OrdSet.insert x ready))
            else ok ready)
          ≡ ok grown)
        × IsGrown specs keys ids d new ready grown
  grow d new k s i current ready a e f h = elim (Bool-cases (nat_eq new 0)) [
    | inr z ↦ (
      ready,
      rw z refl,
      record {
        ascending = λ h. h;
        kept = λ x i. i;
        from = λ x i. inl i;
        has = λ n. absurd (ground (arith, z, n));
      },
    )
    | inl z ↦
        let x : ReadyKey = record {
          rank = rank s.phase;
          texts = sort_texts s (some i);
          index = d;
        } in
        let zero_now : new ≡ 0 = ground (arith, z) in
        let made = ready_key-ok d k s i specs e f refl in
        let now = ready_key-ok d k s i current e f h in
        (
          OrdSet.insert x ready,
          rw (z, now) refl,
          record {
            ascending = OrdSet.insert-IsAscending x ready;
            kept = λ y i. OrdSet.In-insert_of y x ready i;
            from = λ y i. elim (OrdSet.In-insert y x ready i) [
              | inl same ↦ inr (zero_now, ap (λ r. r.index) same, rw same (k, a, made))
              | inr old ↦ inl old
            ];
            has = λ n. (x, OrdSet.In-insert_self x ready, refl);
          },
        )
  ]
