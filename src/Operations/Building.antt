-- ===== src/Operations/Building.antt =====
-- The first loops of `topological_order` in crates/reforge-restore/src/operations.rs: identifiers,
-- indices and the counts of open prerequisites.
use windows_component_harnes.Prelude.{
  ltb, ℕ, suc, ◌+◌, ◌^◌, ◌<◌, Bool, true, ◌≡◌, ◌≢◌, refl, sym, ap, ◌∙◌, ◌⊎◌, inl, inr, Option, none,
  some, List, [], ◌∷◌, ◌++◌, In, nat_eq, length, arith, Bool-cases,
}
use windows_component_harnes.Prelude.Order.{==_iff}
use windows_component_harnes.Prelude.OrdMap
use windows_component_harnes.Prelude.OrdMap.{is_some}
use windows_component_harnes.Prelude.Text.{Text, text_ord}
use windows_component_harnes.Domain.Error.{
  ok-injective, default_retryability, ErrorEnvelope, ok, ◌>>=◌, coded_error, dependency_cycle,
  security_policy, schema_invalid,
}
use windows_component_harnes.Domain.Ensures.{
  Ensures-weaken, Ensures, Ensures-ok, Ensures-err, Ensures-bind,
}
use windows_component_harnes.Domain.Ids.{for_run}
use windows_component_harnes.Domain.Operation.{OperationId, RunId}
use windows_component_harnes.Operations.Arrays.{
  at, set, length-set, at_total, at-set_self, at-set_other,
}
use windows_component_harnes.Operations.Tally.{
  occurrences, occurrences-append, Edge, tally, edges_between,
}
use windows_component_harnes.Operations.Topology.{
  OperationIds, Indices, Counts, checked_sum, or_schema_error, security_error, schema_error,
  assign_ids, index_keys, count_edge,
}

-- an error that is not the cycle's
abbrev pub NoCycle : ErrorEnvelope → Type 0
NoCycle e = e.code ≢ dependency_cycle

abbrev pub Any : {A : Type 0} → A → Type 0
Any a = Unit {0}

module _ {A : Type 0} (P : A → Type 0) where
  pub schema_error-Ensures : Ensures P NoCycle schema_error
  unfolding default_retryability
  schema_error-Ensures = Ensures-err P NoCycle (coded_error schema_invalid none none) (λ p. cc)

  pub security_error-Ensures : Ensures P NoCycle security_error
  unfolding default_retryability
  security_error-Ensures = Ensures-err P NoCycle (coded_error security_policy none none) (λ p. cc)

  pub or_schema_error-Ensures :
      (o : Option A) → ((a : A) → o ≡ some a → P a) → Ensures P NoCycle (or_schema_error o)
  or_schema_error-Ensures none h = schema_error-Ensures
  or_schema_error-Ensures (some a) h = Ensures-ok P NoCycle a (h a refl)

pub checked_sum-Ensures : (a b : ℕ) → Ensures (λ c. c ≡ a + b) NoCycle (checked_sum a b)
checked_sum-Ensures a b = elim (Bool-cases (ltb (a + b) (2 ^ 64))) [
  | inl e ↦ rw e (Ensures-ok (λ c. c ≡ a + b) NoCycle (a + b) refl)
  | inr e ↦ rw e (security_error-Ensures (λ c. c ≡ a + b))
]

-- The keys of the list, and those known before, have an identifier.
abbrev pub HasIds : List Text → OperationIds → OperationIds → Type 0
HasIds keys ids new =
    (k : Text) → In k keys ⊎ (OrdMap.contains_key k ids ≡ true) → OrdMap.contains_key k new ≡ true

pub assign_ids-Ensures :
    (is_run_id : Text → Bool) (run_id : RunId) (first index : ℕ) (keys : List Text)
    (ids : OperationIds)
    → Ensures (HasIds keys ids) NoCycle (assign_ids is_run_id run_id first index keys ids)
unfolding assign_ids
assign_ids-Ensures is_run_id run_id first index [] ids =
    Ensures-ok (HasIds [] ids) NoCycle ids λ k h. elim h [ inl i ↦ absurd i | inr c ↦ c ]
assign_ids-Ensures is_run_id run_id first index (key ∷ keys) ids =
    let P = HasIds (key ∷ keys) ids in
    Ensures-bind (λ c. c ≡ first + index) P NoCycle (checked_sum first index)
      (λ o. or_schema_error (for_run is_run_id run_id o) >>= λ id.
        assign_ids is_run_id run_id first (suc index) keys (OrdMap.insert key id ids))
      (checked_sum-Ensures first index)
      λ o _.
        Ensures-bind Any P NoCycle (or_schema_error (for_run is_run_id run_id o))
          (λ id. assign_ids is_run_id run_id first (suc index) keys (OrdMap.insert key id ids))
          (or_schema_error-Ensures Any (for_run is_run_id run_id o) (λ _ _. tt))
          λ id _.
            Ensures-weaken (HasIds keys (OrdMap.insert key id ids)) NoCycle P NoCycle
              (assign_ids is_run_id run_id first (suc index) keys (OrdMap.insert key id ids))
              (λ new h k i. h k (known key id keys ids k i)) (λ e h. h)
              (assign_ids-Ensures is_run_id run_id first (suc index) keys
                (OrdMap.insert key id ids))
  where
    known :
        (key : Text) (id : OperationId) (keys : List Text) (ids : OperationIds) (k : Text)
        → In k (key ∷ keys) ⊎ (OrdMap.contains_key k ids ≡ true)
        → In k keys ⊎ (OrdMap.contains_key k (OrdMap.insert key id ids) ≡ true)
    known key id keys ids k (inl (inl e)) =
        inr (ground (arith, OrdMap.get-insert k key id ids, (==_iff k key).1 e))
    known key id keys ids k (inl (inr i)) = inl i
    known key id keys ids k (inr c) = inr (ground (arith, OrdMap.get-insert k key id ids))

-- What the index map finds for a key is a place of the key in the list.
pub index_keys-at :
    (index : ℕ) (keys : List Text) (indices : Indices) (k : Text) (p : ℕ)
    → OrdMap.get k (index_keys index keys indices) ≡ some p
    → (OrdMap.get k indices ≡ some p) ⊎ ((j : ℕ) × (p ≡ index + j) × (at keys j ≡ ok k))
unfolding index_keys at
index_keys-at index [] indices k p h = inl h
index_keys-at index (key ∷ keys) indices k p h =
    elim (index_keys-at (suc index) keys (OrdMap.insert key index indices) k p h) [
      | inl old ↦ elim (OrdMap.get-insert_cases k key index p indices old) [
        | inl (e, f) ↦ inr (0, omega (arith, f), ap ok (sym e))
        | inr before ↦ inl before
      ]
      | inr (j, e, a) ↦ inr (suc j, omega (arith, e), a)
    ]

module _ (n : ℕ) where
  -- The counts are those of the edges found so far.
  pub record IsTally (es : List Edge) (c : Counts) : Type 0 where
    pub degrees : length c.indegree ≡ n
    pub lists : length c.dependents ≡ n
    pub tallied : (d : ℕ) → d < n → at c.indegree d ≡ ok (tally es d [])
    pub paired :
        (p : ℕ) (ts : List ℕ)
        → at c.dependents p ≡ ok ts
        → (d : ℕ) → occurrences d ts ≡ edges_between es p d

  count_edge-eq :
      (index p old : ℕ) (ts : List ℕ) (c : Counts)
      → at c.indegree index ≡ ok old
      → at c.dependents p ≡ ok ts
      → count_edge index p c ≡ (
          checked_sum old 1 >>= λ g. ok (record {
            indegree = set c.indegree index g;
            dependents = set c.dependents p (ts ++ index ∷ []);
          }))
  unfolding count_edge
  count_edge-eq index p old ts c e f = rw (e, f) refl

  added-IsTally :
      (es : List Edge) (c : Counts) (index p : ℕ) (ts : List ℕ)
      → IsTally es c
      → index < n
      → p < n
      → at c.dependents p ≡ ok ts
      → IsTally ((p, index) ∷ es) (record {
        indegree = set c.indegree index (tally es index [] + 1);
        dependents = set c.dependents p (ts ++ index ∷ []);
      })
  added-IsTally es c index p ts t hi hp e = record {
    degrees = length-set c.indegree index (tally es index [] + 1) ∙ t.degrees;
    lists = length-set c.dependents p (ts ++ index ∷ []) ∙ t.lists;
    tallied = λ d hd. elim (Bool-cases (nat_eq d index)) [
      | inl same ↦
          let f : d ≡ index = ground (arith, same) in
          rw f (
            at-set_self c.indegree index (tally es index [] + 1) (rw t.degrees hi)
            ∙ ap ok (ground (arith)))
      | inr other ↦
          let g : index ≢ d = λ x. ground (arith, other, x) in
          at-set_other c.indegree index d (tally es index [] + 1) g
          ∙ t.tallied d hd
          ∙ ap ok (ground (arith, other))
    ];
    paired = λ a us h d. elim (Bool-cases (nat_eq a p)) [
      | inl same ↦
          let f : a ≡ p = ground (arith, same) in
          let now = at-set_self c.dependents p (ts ++ index ∷ []) (rw t.lists hp) in
          let us_eq : us ≡ ts ++ index ∷ [] = ok-injective (sym (rw f at h) ∙ now) in
          rw (us_eq, f, occurrences-append d index ts, t.paired p ts e d) (ground arith)
      | inr other ↦
          let g : p ≢ a = λ x. ground (arith, other, x) in
          let before = sym (at-set_other c.dependents p a (ts ++ index ∷ []) g) ∙ h in
          t.paired a us before d ∙ ground (arith, other)
    ];
  }

  pub count_edge-Ensures :
      (es : List Edge) (c : Counts) (index p : ℕ)
      → IsTally es c
      → index < n
      → p < n
      → Ensures (IsTally ((p, index) ∷ es)) NoCycle (count_edge index p c)
  count_edge-Ensures es c index p t hi hp =
      let (ts, e) = at_total c.dependents p (rw t.lists hp) in
      rw (count_edge-eq index p (tally es index []) ts c (t.tallied index hi) e) (
        Ensures-bind (λ g. g ≡ tally es index [] + 1) (IsTally ((p, index) ∷ es)) NoCycle
          (checked_sum (tally es index []) 1)
          (λ g. ok (record {
            indegree = set c.indegree index g;
            dependents = set c.dependents p (ts ++ index ∷ []);
          }))
          (checked_sum-Ensures (tally es index []) 1)
          (λ g h.
            Ensures-ok (IsTally ((p, index) ∷ es)) NoCycle _
              (rw h (added-IsTally es c index p ts t hi hp e))))
