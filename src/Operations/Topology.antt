-- ===== src/Operations/Topology.antt =====
-- `topological_order` of crates/reforge-restore/src/operations.rs: logical specs become operations
-- with identifiers of the run, each behind its prerequisites, by counting open prerequisites.
use windows_component_harnes.Prelude.{
  ℕ, zero, suc, ◌+◌, ◌^◌, Bool, Option, none, some, List, [], ◌∷◌, ◌++◌, length, ltb, nat_eq,
  if◌then◌else◌,
}
use windows_component_harnes.Prelude.OrdMap
use windows_component_harnes.Prelude.OrdMap.{OrdMap}
use windows_component_harnes.Prelude.OrdSet
use windows_component_harnes.Prelude.Text.{Text, codes, text_ord}
use windows_component_harnes.Domain.Error.{
  Result, ok, err, stuck, ◌>>=◌, coded_error, security_policy, schema_invalid, dependency_cycle,
}
use windows_component_harnes.Domain.Ids.{for_run, strip_prefix}
use windows_component_harnes.Domain.Operation.{Operation, OperationId, RunId}
use windows_component_harnes.Operations.Phase.{OperationSpec, rank}
use windows_component_harnes.Operations.Overlap.{Specs, sort_texts, ordered_keys}
use windows_component_harnes.Operations.Arrays.{at, set, replicate}
use windows_component_harnes.Operations.ReadyKey.{ReadyKey, ready_ord}

abbrev pub expect {ℓ} : {A : Type ℓ} → Option A → Result A
expect none = stuck
expect (some a) = ok a

abbrev pub OperationIds : Type 0
OperationIds = OrdMap Text OperationId

abbrev pub Indices : Type 0
Indices = OrdMap Text ℕ

abbrev pub schema_error : {A : Type 0} → Result A
schema_error = err (coded_error schema_invalid none none)

abbrev pub security_error : {A : Type 0} → Result A
security_error = err (coded_error security_policy none none)

abbrev pub or_schema_error : {A : Type 0} → Option A → Result A
or_schema_error none = schema_error
or_schema_error (some a) = ok a

-- `checked_add` within `bits` bits; the two error messages are left out
abbrev pub checked_sum : ℕ → ℕ → Result ℕ
checked_sum a b = if ltb (a + b) (2 ^ 64) then ok (a + b) else security_error

-- the loop that fills `id_by_key`
unfoldable pub assign_ids :
    (Text → Bool) → RunId → ℕ → ℕ → List Text → OperationIds → Result OperationIds
assign_ids is_run_id run_id first index [] ids = ok ids
assign_ids is_run_id run_id first index (key ∷ keys) ids = do
  ordinal ← checked_sum first index
  id ← or_schema_error (for_run is_run_id run_id ordinal)
  assign_ids is_run_id run_id first (suc index) keys (OrdMap.insert key id ids)

-- the loop that fills `indices`
unfoldable pub index_keys : ℕ → List Text → Indices → Indices
index_keys index [] indices = indices
index_keys index (key ∷ keys) indices =
    index_keys (suc index) keys (OrdMap.insert key index indices)

pub record Counts : Type 0 where
  pub indegree : List ℕ
  pub dependents : List (List ℕ)

unfoldable pub count_edge : ℕ → ℕ → Counts → Result Counts
count_edge index prerequisite c = do
  old ← at c.indegree index
  grown ← checked_sum old 1
  targets ← at c.dependents prerequisite
  ok (record {
    indegree = set c.indegree index grown;
    dependents = set c.dependents prerequisite (targets ++ index ∷ []);
  })

unfoldable pub count_prerequisites : Indices → ℕ → List Text → Counts → Result Counts
count_prerequisites indices index [] c = ok c
count_prerequisites indices index (p ∷ ps) c = do
  prerequisite ← or_schema_error (OrdMap.get p indices)
  counted ← count_edge index prerequisite c
  count_prerequisites indices index ps counted

unfoldable pub count_specs : Specs → Indices → ℕ → List Text → Counts → Result Counts
count_specs specs indices index [] c = ok c
count_specs specs indices index (key ∷ keys) c = do
  spec ← expect (OrdMap.get key specs)
  counted ← count_prerequisites indices index spec.prerequisites c
  count_specs specs indices (suc index) keys counted

-- `sort_key(Some(operation_id))` of a key, with its index
unfoldable pub ready_key : Specs → OperationIds → ℕ → Text → Result ReadyKey
ready_key specs ids index key = do
  spec ← expect (OrdMap.get key specs)
  id ← expect (OrdMap.get key ids)
  ok (record { rank = rank spec.phase; texts = sort_texts spec (some id); index = index })

unfoldable pub first_ready :
    Specs → OperationIds → List ℕ → ℕ → List Text → List ReadyKey → Result (List ReadyKey)
first_ready specs ids indegree index [] ready = ok ready
first_ready specs ids indegree index (key ∷ keys) ready = do
  degree ← at indegree index
  let next = ready_key specs ids index key >>= λ k. ok (OrdSet.insert k ready)
  grown ← (if nat_eq degree 0 then next else ok ready)
  first_ready specs ids indegree (suc index) keys grown

-- `checked_sub(1).expect("positive indegree")`
abbrev pub minus_one : ℕ → Result ℕ
minus_one zero = stuck
minus_one (suc n) = ok n

unfoldable pub lookup_ids : OperationIds → List Text → Result (List OperationId)
lookup_ids ids [] = ok []
lookup_ids ids (p ∷ ps) = do
  id ← expect (OrdMap.get p ids)
  rest ← lookup_ids ids ps
  ok (id ∷ rest)

abbrev pub or_whole : Option Text → Text → Text
or_whole none key = key
or_whole (some suffix) key = suffix

unfoldable pub scoped_idempotency_key : RunId → Text → Text
scoped_idempotency_key run_id logical_key =
    codes "restore-v1:"
    ++ (run_id
        ++ (codes ":" ++ or_whole (strip_prefix (codes "restore-v1:") logical_key) logical_key))

abbrev pub operation_of : RunId → OperationSpec → OperationId → List OperationId → Operation
operation_of run_id spec id prerequisites = record {
  id = id;
  component = spec.component;
  kind = spec.kind;
  prerequisites = prerequisites;
  precondition = spec.precondition;
  idempotency_key = scoped_idempotency_key run_id spec.idempotency_key;
  verification = spec.verification;
  requires_elevation = spec.requires_elevation;
  non_idempotent = spec.non_idempotent;
}

-- the variables that the loop changes
pub record Sorting : Type 0 where
  pub specs : Specs
  pub indegree : List ℕ
  pub ready : List ReadyKey
  pub result : List Operation

-- the inner loop: each dependent has one open prerequisite less
unfoldable pub release : List Text → OperationIds → List ℕ → Sorting → Result Sorting
release keys ids [] s = ok s
release keys ids (d ∷ ds) s = do
  old ← at s.indegree d
  new ← minus_one old
  key ← at keys d
  let next = ready_key s.specs ids d key >>= λ k. ok (OrdSet.insert k s.ready)
  ready ← (if nat_eq new 0 then next else ok s.ready)
  release keys ids ds (record s { indegree = set s.indegree d new; ready = ready })

-- the body of the loop, for the popped index
unfoldable pub place :
    RunId → List Text → OperationIds → List (List ℕ) → ℕ → Sorting → Result Sorting
place run_id keys ids dependents index s = do
  key ← at keys index
  spec ← expect (OrdMap.get key s.specs)
  id ← expect (OrdMap.get key ids)
  prerequisites ← lookup_ids ids spec.prerequisites
  targets ← at dependents index
  release keys ids targets (record s {
    specs = OrdMap.remove key s.specs;
    result = s.result ++ operation_of run_id spec id prerequisites ∷ [];
  })

-- `while let Some(…) = ready.pop_first()`, with fuel
unfoldable pub drain :
    RunId → List Text → OperationIds → List (List ℕ) → ℕ → Sorting → Result Sorting
drain run_id keys ids dependents zero s = stuck
drain run_id keys ids dependents (suc fuel) s = elim s.ready [
  | [] ↦ ok s
  | next ∷ rest ↦
      place run_id keys ids dependents next.index (record s { ready = rest })
      >>= drain run_id keys ids dependents fuel
]

unfoldable pub order_keys : (Text → Bool) → Specs → RunId → ℕ → List Text → Result (List Operation)
order_keys is_run_id specs run_id first keys = do
  ids ← assign_ids is_run_id run_id first 0 keys []
  let indices = index_keys 0 keys []
  counts ←
      count_specs specs indices 0 keys
        (record { indegree = replicate (length keys) 0; dependents = replicate (length keys) [] })
  ready ← first_ready specs ids counts.indegree 0 keys []
  sorted ←
      drain run_id keys ids counts.dependents (suc (length keys))
        (record { specs = specs; indegree = counts.indegree; ready = ready; result = [] })
  if nat_eq (length sorted.result) (length keys)
      then ok sorted.result
      else err (coded_error dependency_cycle none none)

-- The parameter says which texts the uuid library takes for a run identifier.
unfoldable pub topological_order : (Text → Bool) → Specs → RunId → ℕ → Result (List Operation)
topological_order is_run_id specs run_id first_ordinal =
    order_keys is_run_id specs run_id first_ordinal (ordered_keys specs)
