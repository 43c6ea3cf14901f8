-- ===== src/Operations/Placing.antt =====
-- The body of the main loop of `topological_order` in crates/reforge-restore/src/operations.rs, which
-- places one ready key, and the loop.
use windows_component_harnes.Prelude.{
  ℕ, zero, suc, ◌+◌, ◌<◌, ◌≡◌, ◌≢◌, refl, sym, ap, ◌∙◌, ◌⊎◌, inl, inr, some, List, [], ◌∷◌, ◌++◌,
  In, nat_eq, length, arith, Bool-cases,
}
use windows_component_harnes.Prelude.Order.{◌==◌, ==_iff}
use windows_component_harnes.Prelude.OrdMap
use windows_component_harnes.Prelude.OrdSet
use windows_component_harnes.Prelude.Text.{Text, text_ord}
use windows_component_harnes.Domain.Error.{ok-injective, ok}
use windows_component_harnes.Domain.Operation.{Operation, OperationId, RunId}
use windows_component_harnes.Operations.Phase.{OperationSpec}
use windows_component_harnes.Operations.Overlap.{Specs}
use windows_component_harnes.Operations.Arrays.{at, at_total, at_bound}
use windows_component_harnes.Operations.ReadyKey.{ReadyKey, ready_ord}
use windows_component_harnes.Operations.Tally.{
  occurrences, Edge, tally, tally-cons, tally-zero, edges_between-In, pigeonhole,
}
use windows_component_harnes.Operations.Topology.{
  OperationIds, Sorting, lookup_ids, operation_of, release, place, drain,
}
use windows_component_harnes.Operations.Sorting.{IsOrdered, ids_of, IsGraph, IsEntry, IsSorting}
use windows_component_harnes.Operations.Releasing.{release-IsSorting}

length-snoc : {A : Type 0} (xs : List A) (x : A) → length (xs ++ x ∷ []) ≡ suc (length xs)
length-snoc [] x = refl
length-snoc (y ∷ xs) x = ap suc (length-snoc xs x)

In-snoc : {A : Type 0} (xs : List A) (x y : A) → In y (xs ++ x ∷ []) → In y xs ⊎ (y ≡ x)
In-snoc [] x y (inl e) = inr e
In-snoc [] x y (inr i) = absurd i
In-snoc (z ∷ xs) x y (inl e) = inl (inl e)
In-snoc (z ∷ xs) x y (inr i) = elim (In-snoc xs x y i) [ inl j ↦ inl (inr j) | inr e ↦ inr e ]

In-ids_of_old :
    (ops : List Operation) (op : Operation) (i : OperationId)
    → In i (ids_of ops)
    → In i (ids_of (ops ++ op ∷ []))
In-ids_of_old [] op i h = absurd h
In-ids_of_old (o ∷ ops) op i (inl e) = inl e
In-ids_of_old (o ∷ ops) op i (inr h) = inr (In-ids_of_old ops op i h)

In-ids_of_new : (ops : List Operation) (op : Operation) → In op.id (ids_of (ops ++ op ∷ []))
In-ids_of_new [] op = inl refl
In-ids_of_new (o ∷ ops) op = inr (In-ids_of_new ops op)

snoc-IsOrdered :
    (seen : List OperationId) (ops : List Operation) (op : Operation)
    → IsOrdered seen ops
    → ((p : OperationId) → In p op.prerequisites → In p seen ⊎ In p (ids_of ops))
    → IsOrdered seen (ops ++ op ∷ [])
snoc-IsOrdered seen [] op h k = (λ p i. elim (k p i) [ inl j ↦ j | inr j ↦ absurd j ], tt)
snoc-IsOrdered seen (o ∷ ops) op (h, hs) k = (
  h,
  snoc-IsOrdered (o.id ∷ seen) ops op hs
      λ p i. elim (k p i) [ inl j ↦ inl (inr j) | inr (inl e) ↦ inl (inl e) | inr (inr j) ↦ inr j ],
)

lookup_ids-ok :
    (ids : OperationIds) (seen : List OperationId) (qs : List Text)
    → ((q : Text) → In q qs → (i : OperationId) × (OrdMap.get q ids ≡ some i) × In i seen)
    → (ps : List OperationId) × (lookup_ids ids qs ≡ ok ps)
      × ((p : OperationId) → In p ps → In p seen)
unfolding lookup_ids
lookup_ids-ok ids seen [] h = ([], refl, λ p i. absurd i)
lookup_ids-ok ids seen (q ∷ qs) h =
    let (i, e, s) = h q (inl refl) in
    let (ps, f, t) = lookup_ids-ok ids seen qs (λ r j. h r (inr j)) in
    (i ∷ ps, rw (e, f) refl, λ p j. elim j [ inl same ↦ rw same s | inr later ↦ t p later ])

module _ (run_id : RunId) (specs : Specs) (keys : List Text) (ids : OperationIds) (es : List Edge)
    (dependents : List (List ℕ)) (g : IsGraph specs keys ids es dependents) where
  place-eq :
      (i : ℕ) (s : Sorting) (k : Text) (sp : OperationSpec) (id : OperationId)
      (ps : List OperationId) (ts : List ℕ)
      → at keys i ≡ ok k
      → OrdMap.get k s.specs ≡ some sp
      → OrdMap.get k ids ≡ some id
      → lookup_ids ids sp.prerequisites ≡ ok ps
      → at dependents i ≡ ok ts
      → place run_id keys ids dependents i s
        ≡ release keys ids ts (record s {
          specs = OrdMap.remove k s.specs;
          result = s.result ++ operation_of run_id sp id ps ∷ [];
        })
  unfolding place
  place-eq i s k sp id ps ts a e f h j = rw (a, e, f, h, j) refl

  -- Two elements for the same index are the same, so the popped one is not left behind.
  popped_apart :
      (x y : ReadyKey) (rest : List ReadyKey)
      → IsEntry specs keys ids x
      → IsEntry specs keys ids y
      → OrdSet.Below x rest
      → In y rest
      → y.index ≢ x.index
  popped_apart x y rest (k, ka, kx) (l, la, ly) b i e =
      let same_key : k ≡ l = ok-injective (sym ka ∙ ap (at keys) (sym e) ∙ la) in
      let same : x ≡ y = ok-injective (sym kx ∙ rw (same_key, e) refl ∙ ly) in
      OrdSet.not-In-Below x rest b (rw same i)

  -- the prerequisites of a ready key are placed
  prerequisites_placed :
      (done : List ℕ) (s : Sorting) (i : ℕ) (k : Text) (sp : OperationSpec)
      → IsSorting run_id specs keys ids es [] done s
      → at keys i ≡ ok k
      → OrdMap.get k specs ≡ some sp
      → tally es i done + 0 ≡ 0
      → (q : Text) → In q sp.prerequisites
      → (id : OperationId) × (OrdMap.get q ids ≡ some id) × In id (ids_of s.result)
  prerequisites_placed done s i k sp v ka sa free q n =
      let (p, pa, edge) = g.complete i k q sp ka sa n in
      let (id, ia) = g.id_of p q pa in
      (id, ia, v.placed p q id (tally-zero es p i done (omega (arith, free)) edge) pa ia)

  placed-IsSorting :
      (done : List ℕ) (s : Sorting) (x : ReadyKey) (rest : List ReadyKey) (k : Text)
      (sp : OperationSpec) (id : OperationId) (ps : List OperationId) (ts : List ℕ)
      → IsSorting run_id specs keys ids es [] done s
      → s.ready ≡ x ∷ rest
      → at keys x.index ≡ ok k
      → OrdMap.get k specs ≡ some sp
      → OrdMap.get k ids ≡ some id
      → lookup_ids ids sp.prerequisites ≡ ok ps
      → ((p : OperationId) → In p ps → In p (ids_of s.result))
      → at dependents x.index ≡ ok ts
      → IsSorting run_id specs keys ids es ts (x.index ∷ done) (record {
        specs = OrdMap.remove k s.specs;
        indegree = s.indegree;
        ready = rest;
        result = s.result ++ operation_of run_id sp id ps ∷ [];
      })
  placed-IsSorting done s x rest k sp id ps ts v pop ka sa ia la seen ta =
      let ready_x : In x s.ready = rw pop (inl refl) in
      let later : (y : ReadyKey) → In y rest → In y s.ready = λ y i. rw pop (inr i) in
      let (b, asc) : OrdSet.IsAscending (x ∷ rest) = rw pop at v.ascending in
      let unlisted = v.ready_unlisted x ready_x in
      let total : (d : ℕ) → tally es d (x.index ∷ done) + occurrences d ts ≡ tally es d done + 0 =
        λ d. omega (arith, tally-cons es d x.index done unlisted, g.paired x.index ts ta d) in
      let other : (y : ReadyKey) → In y rest → y.index ≢ x.index =
        λ y i. popped_apart x y rest (v.ready_entry x ready_x) (v.ready_entry y (later y i)) b i in
      record {
        degrees = v.degrees;
        counted = λ d hd. v.counted d hd ∙ ap ok (sym (total d));
        ascending = asc;
        ready_entry = λ y i. v.ready_entry y (later y i);
        ready_unlisted = λ y i. ground (arith, other y i, v.ready_unlisted y (later y i));
        ready_free = λ y i. total y.index ∙ v.ready_free y (later y i);
        ready_complete = λ d hd z o.
            let (y, i, e) = v.ready_complete d hd (sym (total d) ∙ z) (ground (arith, o)) in
            elim (rw pop at i) [
              | inl same ↦ absurd (ground (arith, o, sym e ∙ ap (λ r. r.index) same))
              | inr left ↦ (y, left, e)
            ];
        remaining = λ d l a o. elim (Bool-cases (l == k)) [
          | inl same ↦
              let e : l ≡ k = (==_iff l k).0 same in
              absurd (ground (arith, o, g.apart d x.index k (rw e at a) ka))
          | inr apart ↦
              OrdMap.get-remove l k s.specs
              ∙ (rw apart refl)
              ∙ v.remaining d l a (ground (arith, o))
        ];
        finished = λ d l. total d ∙ ground (arith, l, v.finished d, v.ready_free x ready_x);
        distinct = (unlisted, v.distinct);
        below = (at_bound keys x.index ka, v.below);
        size = length-snoc s.result (operation_of run_id sp id ps) ∙ ap suc v.size;
        placed = λ d l i h a h'. elim (Bool-cases (nat_eq d x.index)) [
          | inl same ↦
              let e : d ≡ x.index = ground (arith, same) in
              let same_key : k ≡ l = ok-injective (sym ka ∙ ap (at keys) (sym e) ∙ a) in
              let found : some id ≡ some i = sym ia ∙ (rw same_key h') in
              let same_id : id ≡ i = ground (arith, found) in
              rw (sym same_id) (In-ids_of_new s.result (operation_of run_id sp id ps))
          | inr apart ↦
              In-ids_of_old s.result (operation_of run_id sp id ps) i
                (v.placed d l i (ground (arith, apart, h)) a h')
        ];
        ordered =
            snoc-IsOrdered [] s.result (operation_of run_id sp id ps) v.ordered
              (λ p i. inr (seen p i));
        made = λ op i. elim (In-snoc s.result (operation_of run_id sp id ps) op i) [
          | inl old ↦ v.made op old
          | inr e ↦ rw e (k, sp, ps, sa, ia, la, refl)
        ];
      }

  -- Placing a ready key succeeds.
  pub place-IsSorting :
      (done : List ℕ) (s : Sorting) (x : ReadyKey) (rest : List ReadyKey)
      → IsSorting run_id specs keys ids es [] done s
      → s.ready ≡ x ∷ rest
      → (t : Sorting) × (place run_id keys ids dependents x.index (record s { ready = rest })
          ≡ ok t)
        × IsSorting run_id specs keys ids es [] (x.index ∷ done) t
  place-IsSorting done s x rest v pop =
      let ready_x : In x s.ready = rw pop (inl refl) in
      let (k, ka, kx) = v.ready_entry x ready_x in
      let (sp, sa) = g.spec_of x.index k ka in
      let (id, ia) = g.id_of x.index k ka in
      let (ps, la, seen) =
        lookup_ids-ok ids (ids_of s.result) sp.prerequisites
          (prerequisites_placed done s x.index k sp v ka sa (v.ready_free x ready_x)) in
      let (ts, ta) = at_total dependents x.index (rw g.lists (at_bound keys x.index ka)) in
      let now = v.remaining x.index k ka (v.ready_unlisted x ready_x) ∙ sa in
      let (t, eq, w) =
        release-IsSorting run_id specs keys ids es dependents g ts (x.index ∷ done)
          (record {
            specs = OrdMap.remove k s.specs;
            indegree = s.indegree;
            ready = rest;
            result = s.result ++ operation_of run_id sp id ps ∷ [];
          })
          (λ d i. target_bound x.index ts d ta i)
          (placed-IsSorting done s x rest k sp id ps ts v pop ka sa ia la seen ta) in
      (t, place-eq x.index (record s { ready = rest }) k sp id ps ts ka now ia la ta ∙ eq, w)
    where
      occurs : (d : ℕ) (ts : List ℕ) → In d ts → occurrences d ts ≢ 0
      occurs d [] i e = absurd i
      occurs d (t ∷ ts) (inl same) e = ground (arith, same, e)
      occurs d (t ∷ ts) (inr i) e = occurs d ts i (omega (arith, e))

      target_bound :
          (i : ℕ) (ts : List ℕ) (d : ℕ) → at dependents i ≡ ok ts → In d ts → d < length keys
      target_bound i ts d a n =
          let named = edges_between-In es i d λ z. occurs d ts n (g.paired i ts a d ∙ z) in
          let edge = g.sound i d named in at_bound keys d edge.key_at

  drain-nil :
      (fuel : ℕ) (s : Sorting) → s.ready ≡ [] → drain run_id keys ids dependents (suc fuel) s ≡ ok s
  unfolding drain
  drain-nil fuel s e = rw e refl

  drain-cons :
      (fuel : ℕ) (s t : Sorting) (x : ReadyKey) (rest : List ReadyKey)
      → s.ready ≡ x ∷ rest
      → place run_id keys ids dependents x.index (record s { ready = rest }) ≡ ok t
      → drain run_id keys ids dependents (suc fuel) s ≡ drain run_id keys ids dependents fuel t
  unfolding drain
  drain-cons fuel s t x rest e f = rw (e, f) refl

  -- With fuel for the keys that are left, the loop ends with nothing ready.
  pub drain-IsSorting :
      (fuel : ℕ) (done : List ℕ) (s : Sorting)
      → length keys < fuel + length done
      → IsSorting run_id specs keys ids es [] done s
      → (t : Sorting) × (all : List ℕ) × (drain run_id keys ids dependents fuel s ≡ ok t)
        × (t.ready ≡ [])
        × IsSorting run_id specs keys ids es [] all t
  unfolding drain
  drain-IsSorting zero done s h v =
      absurd (omega (arith, h, pigeonhole (length keys) done v.distinct v.below))
  drain-IsSorting (suc fuel) done s h v = elim (ready_cases s.ready) [
    | inl e ↦ (s, done, drain-nil fuel s e, e, v)
    | inr (x, rest, e) ↦
        let (t, f, w) = place-IsSorting done s x rest v e in
        let (u, all, d, z, y) = drain-IsSorting fuel (x.index ∷ done) t (omega (arith, h)) w in
        (u, all, drain-cons fuel s t x rest e f ∙ d, z, y)
  ]
    where
      ready_cases :
          (l : List ReadyKey)
          → (l ≡ []) ⊎ ((x : ReadyKey) × (rest : List ReadyKey) × (l ≡ x ∷ rest))
      ready_cases [] = inl refl
      ready_cases (x ∷ rest) = inr (x, rest, refl)
