-- ===== src/Operations/Counting.antt =====
-- The loops of `topological_order` in crates/reforge-restore/src/operations.rs that count the open
-- prerequisites: the edges that they find are those that the specs name.
use windows_component_harnes.Prelude.{
  ℕ, zero, suc, ◌+◌, ◌≡◌, refl, sym, ap, ◌∙◌, ◌⊎◌, inl, inr, none, some, List, [], ◌∷◌, In, length,
  arith,
}
use windows_component_harnes.Prelude.OrdMap
use windows_component_harnes.Prelude.OrdMap.{is_some}
use windows_component_harnes.Prelude.Text.{Text, text_ord}
use windows_component_harnes.Domain.Error.{ok-injective, ok, ◌>>=◌}
use windows_component_harnes.Domain.Ensures.{Ensures-weaken, Ensures, Ensures-ok, Ensures-bind}
use windows_component_harnes.Operations.Phase.{OperationSpec}
use windows_component_harnes.Operations.Overlap.{Specs}
use windows_component_harnes.Operations.Arrays.{at, at_bound}
use windows_component_harnes.Operations.Tally.{Edge}
use windows_component_harnes.Operations.Topology.{
  Counts, or_schema_error, expect, index_keys, count_edge, count_prerequisites, count_specs,
}
use windows_component_harnes.Operations.Building.{
  NoCycle, or_schema_error-Ensures, index_keys-at, IsTally, count_edge-Ensures,
}

-- An edge goes from the place of a prerequisite to the place of the spec that names it.
pub record IsEdge (specs : Specs) (keys : List Text) (p d : ℕ) : Type 0 where
  pub key : Text
  pub prerequisite : Text
  pub spec : OperationSpec
  pub key_at : at keys d ≡ ok key
  pub prerequisite_at : at keys p ≡ ok prerequisite
  pub spec_at : OrdMap.get key specs ≡ some spec
  pub named : In prerequisite spec.prerequisites

-- What the counting loops establish for the keys from `index` on.
pub record IsCounted (specs : Specs) (keys : List Text) (rest : List Text) (index : ℕ)
    (before : List Edge) (c : Counts) : Type 0 where
  pub edges : List Edge
  pub is_tally : IsTally (length keys) edges c
  pub kept : (p d : ℕ) → In (p, d) before → In (p, d) edges
  pub sound : (p d : ℕ) → In (p, d) edges → In (p, d) before ⊎ IsEdge specs keys p d
  pub complete :
      (j : ℕ) (k q : Text) (s : OperationSpec)
      → at rest j ≡ ok k
      → OrdMap.get k specs ≡ some s
      → In q s.prerequisites
      → (p : ℕ) × (at keys p ≡ ok q) × In (p, index + j) edges

module _ (specs : Specs) (keys : List Text) where
  -- the same for the prerequisites of one spec
  record IsJoined (key : Text) (spec : OperationSpec) (index : ℕ) (ps : List Text)
      (before : List Edge) (c : Counts) : Type 0 where
    edges : List Edge
    is_tally : IsTally (length keys) edges c
    kept : (p d : ℕ) → In (p, d) before → In (p, d) edges
    sound : (p d : ℕ) → In (p, d) edges → In (p, d) before ⊎ IsEdge specs keys p d
    complete : (q : Text) → In q ps → (p : ℕ) × (at keys p ≡ ok q) × In (p, index) edges

  count_prerequisites-Ensures :
      (key : Text) (spec : OperationSpec) (index : ℕ) (ps : List Text) (es : List Edge) (c : Counts)
      → at keys index ≡ ok key
      → OrdMap.get key specs ≡ some spec
      → ((q : Text) → In q ps → In q spec.prerequisites)
      → IsTally (length keys) es c
      → Ensures
          (IsJoined key spec index ps es)
          NoCycle
          (count_prerequisites (index_keys 0 keys []) index ps c)
  unfolding count_prerequisites OrdMap.get
  count_prerequisites-Ensures key spec index [] es c ka sa sub t =
      Ensures-ok (IsJoined key spec index [] es) NoCycle c (record {
        edges = es;
        is_tally = t;
        kept = λ p d i. i;
        sound = λ p d i. inl i;
        complete = λ q i. absurd i;
      })
  count_prerequisites-Ensures key spec index (q ∷ ps) es c ka sa sub t =
      let indices = index_keys 0 keys [] in
      let P = IsJoined key spec index (q ∷ ps) es in
      Ensures-bind (λ p. at keys p ≡ ok q) P NoCycle (or_schema_error (OrdMap.get q indices))
        (λ p. count_edge index p c >>= count_prerequisites indices index ps)
        (or_schema_error-Ensures (λ p. at keys p ≡ ok q) (OrdMap.get q indices)
          (λ p e. found_at q p (index_keys-at 0 keys [] q p e)))
        λ p pa.
          Ensures-bind (IsTally (length keys) ((p, index) ∷ es)) P NoCycle (count_edge index p c)
            (count_prerequisites indices index ps)
            (count_edge-Ensures (length keys) es c index p t (at_bound keys index ka)
              (at_bound keys p pa))
            λ c' t'.
              Ensures-weaken (IsJoined key spec index ps ((p, index) ∷ es)) NoCycle P NoCycle
                (count_prerequisites indices index ps c')
                (λ c'' j. joined key spec index q ps es p ka sa (sub q (inl refl)) pa c'' j)
                (λ e h. h)
                (count_prerequisites-Ensures key spec index ps ((p, index) ∷ es) c' ka sa
                  (λ r i. sub r (inr i)) t')
    where
      found_at :
          (q : Text) (p : ℕ)
          → (none ≡ some p) ⊎ ((j : ℕ) × (p ≡ 0 + j) × (at keys j ≡ ok q))
          → at keys p ≡ ok q
      found_at q p (inl e) = cc
      found_at q p (inr (j, e, a)) = let same : p ≡ j = omega (arith, e) in rw same a

      joined :
          (key : Text) (spec : OperationSpec) (index : ℕ) (q : Text) (ps : List Text)
          (es : List Edge) (p : ℕ)
          → at keys index ≡ ok key
          → OrdMap.get key specs ≡ some spec
          → In q spec.prerequisites
          → at keys p ≡ ok q
          → (c : Counts) → IsJoined key spec index ps ((p, index) ∷ es) c
          → IsJoined key spec index (q ∷ ps) es c
      joined key spec index q ps es p ka sa named pa c j = record {
        edges = j.edges;
        is_tally = j.is_tally;
        kept = λ a d i. j.kept a d (inr i);
        sound = λ a d i. elim (j.sound a d i) [
          | inl (inl e) ↦ inr (record {
            key = key;
            prerequisite = q;
            spec = spec;
            key_at = rw (ap (λ x. x.1) e) ka;
            prerequisite_at = rw (ap (λ x. x.0) e) pa;
            spec_at = sa;
            named = named;
          })
          | inl (inr old) ↦ inl old
          | inr edge ↦ inr edge
        ];
        complete = λ r i. elim i [
          | inl e ↦ (p, rw e pa, j.kept p index (inl refl))
          | inr later ↦ j.complete r later
        ];
      }

  pub count_specs-Ensures :
      (rest : List Text) (index : ℕ) (es : List Edge) (c : Counts)
      → ((j : ℕ) → at keys (index + j) ≡ at rest j)
      → ((k : Text) → In k rest → (s : OperationSpec) × (OrdMap.get k specs ≡ some s))
      → IsTally (length keys) es c
      → Ensures
          (IsCounted specs keys rest index es)
          NoCycle
          (count_specs specs (index_keys 0 keys []) index rest c)
  unfolding count_specs at
  count_specs-Ensures [] index es c suffix there t =
      Ensures-ok (IsCounted specs keys [] index es) NoCycle c (record {
        edges = es;
        is_tally = t;
        kept = λ p d i. i;
        sound = λ p d i. inl i;
        complete = λ j k q s e. cc;
      })
  count_specs-Ensures (key ∷ rest) index es c suffix there t =
      let indices = index_keys 0 keys [] in
      let (spec, sa) = there key (inl refl) in
      let here : index + 0 ≡ index = omega arith in
      let ka : at keys index ≡ ok key = rw here at (suffix 0) in
      let P = IsCounted specs keys (key ∷ rest) index es in
      rw (sa, expect)
        (Ensures-bind (IsJoined key spec index spec.prerequisites es) P NoCycle
          (count_prerequisites indices index spec.prerequisites c)
          (count_specs specs indices (suc index) rest)
          (count_prerequisites-Ensures key spec index spec.prerequisites es c ka sa (λ q i. i) t)
          λ c' j.
            Ensures-weaken (IsCounted specs keys rest (suc index) j.edges) NoCycle P NoCycle
              (count_specs specs indices (suc index) rest c')
              (λ c'' b. counted key spec index rest es c' j ka sa c'' b) (λ e h. h)
              (count_specs-Ensures rest (suc index) j.edges c'
                (λ i. ap (at keys) (omega arith) ∙ suffix (suc i)) (λ k i. there k (inr i))
                j.is_tally))
    where
      counted :
          (key : Text) (spec : OperationSpec) (index : ℕ) (rest : List Text) (es : List Edge)
          (c' : Counts) (j : IsJoined key spec index spec.prerequisites es c')
          → at keys index ≡ ok key
          → OrdMap.get key specs ≡ some spec
          → (c : Counts) → IsCounted specs keys rest (suc index) j.edges c
          → IsCounted specs keys (key ∷ rest) index es c
      counted key spec index rest es c' j ka sa c b = record {
        edges = b.edges;
        is_tally = b.is_tally;
        kept = λ p d i. b.kept p d (j.kept p d i);
        sound = λ p d i. elim (b.sound p d i) [ inl old ↦ j.sound p d old | inr edge ↦ inr edge ];
        complete = λ i k q s e f n. whole i k q s e f n;
      }
        where
          whole :
              (i : ℕ) (k q : Text) (s : OperationSpec)
              → at (key ∷ rest) i ≡ ok k
              → OrdMap.get k specs ≡ some s
              → In q s.prerequisites
              → (p : ℕ) × (at keys p ≡ ok q) × In (p, index + i) b.edges
          whole zero k q s e f n =
              let same : key ≡ k = ok-injective e in
              let found : some spec ≡ some s = sym sa ∙ rw same f in
              let same_spec : spec ≡ s = ground (arith, found) in
              let (p, a, i) = j.complete q (rw same_spec n) in
              let here : index + 0 ≡ index = omega arith in (p, a, rw here (b.kept p index i))
          whole (suc i) k q s e f n =
              let (p, a, i') = b.complete i k q s e f n in
              let next : suc index + i ≡ index + suc i = omega arith in (p, a, rw (sym next) i')
