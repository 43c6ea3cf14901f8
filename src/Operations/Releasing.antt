-- ===== src/Operations/Releasing.antt =====
-- The loops of `topological_order` in crates/reforge-restore/src/operations.rs that fill the ready
-- set: the first one, and the one over the dependents of a placed key.
use windows_component_harnes.Prelude.{
  ℕ, suc, ◌+◌, ◌<◌, false, ◌≡◌, refl, sym, ap, ◌∙◌, inl, inr, List, [], ◌∷◌, In, nat_eq, length,
  if◌then◌else◌, arith, Bool-cases,
}
use windows_component_harnes.Prelude.OrdSet
use windows_component_harnes.Prelude.Text.{Text, text_ord}
use windows_component_harnes.Domain.Error.{ok, ◌>>=◌}
use windows_component_harnes.Domain.Operation.{RunId}
use windows_component_harnes.Operations.Overlap.{Specs}
use windows_component_harnes.Operations.Arrays.{
  at, set, length-set, at_total, at_bound, at-set_self, at-set_other,
}
use windows_component_harnes.Operations.ReadyKey.{ReadyKey, ready_ord}
use windows_component_harnes.Operations.Tally.{listed, occurrences, Edge, tally}
use windows_component_harnes.Operations.Topology.{
  OperationIds, Sorting, ready_key, first_ready, release,
}
use windows_component_harnes.Operations.Sorting.{IsGraph, IsSorting, IsEntry, IsGrown, grow}

module _ (run_id : RunId) (specs : Specs) (keys : List Text) (ids : OperationIds) (es : List Edge)
    (dependents : List (List ℕ)) (g : IsGraph specs keys ids es dependents) where
  released-IsSorting :
      (d : ℕ) (ds done : List ℕ) (s : Sorting) (grown : List ReadyKey)
      → d < length keys
      → listed d done ≡ false
      → IsSorting run_id specs keys ids es (d ∷ ds) done s
      → IsGrown specs keys ids d (tally es d done + occurrences d ds) s.ready grown
      → IsSorting run_id specs keys ids es ds done (record s {
        indegree = set s.indegree d (tally es d done + occurrences d ds);
        ready = grown;
      })
  released-IsSorting d ds done s grown hd open_d v r = record {
    degrees = length-set s.indegree d (tally es d done + occurrences d ds) ∙ v.degrees;
    counted = λ e he. elim (Bool-cases (nat_eq e d)) [
      | inl same ↦
          let f : e ≡ d = ground (arith, same) in
          rw f (at-set_self s.indegree d (tally es d done + occurrences d ds) (rw v.degrees hd))
      | inr other ↦
          at-set_other s.indegree d e (tally es d done + occurrences d ds)
            (λ f. ground (arith, other, f))
          ∙ v.counted e he
          ∙ ap ok (ground (arith, other))
    ];
    ascending = r.ascending v.ascending;
    ready_entry =
        λ x i. elim (r.from x i) [ inl old ↦ v.ready_entry x old | inr (z, f, entry) ↦ entry ];
    ready_unlisted = λ x i. elim (r.from x i) [
      | inl old ↦ v.ready_unlisted x old
      | inr (z, f, entry) ↦ rw f open_d
    ];
    ready_free = λ x i. elim (r.from x i) [
      | inl old ↦ omega (arith, v.ready_free x old)
      | inr (z, f, entry) ↦ rw f z
    ];
    ready_complete = λ e he z o. elim (Bool-cases (nat_eq e d)) [
      | inl same ↦
          let f : e ≡ d = ground (arith, same) in
          let (x, i, h) = r.has (rw f at z) in (x, i, h ∙ sym f)
      | inr other ↦
          let (x, i, h) = v.ready_complete e he (ground (arith, other, z)) o in (x, r.kept x i, h)
    ];
    remaining = v.remaining;
    finished = λ e l. omega (arith, v.finished e l);
    distinct = v.distinct;
    below = v.below;
    size = v.size;
    placed = v.placed;
    ordered = v.ordered;
    made = v.made;
  }

  release-eq :
      (d : ℕ) (ds done : List ℕ) (s : Sorting) (k : Text) (grown : List ReadyKey)
      → at s.indegree d ≡ ok (suc (tally es d done + occurrences d ds))
      → at keys d ≡ ok k
      → (if nat_eq (tally es d done + occurrences d ds) 0
          then (ready_key s.specs ids d k >>= λ x. ok (OrdSet.insert x s.ready))
          else ok s.ready)
        ≡ ok grown
      → release keys ids (d ∷ ds) s
        ≡ release keys ids ds (record s {
          indegree = set s.indegree d (tally es d done + occurrences d ds);
          ready = grown;
        })
  unfolding release
  release-eq d ds done s k grown e f h = rw (e, f, h) refl

  -- Counting down all dependents succeeds.
  pub release-IsSorting :
      (ds done : List ℕ) (s : Sorting)
      → ((d : ℕ) → In d ds → d < length keys)
      → IsSorting run_id specs keys ids es ds done s
      → (t : Sorting) × (release keys ids ds s ≡ ok t)
        × IsSorting run_id specs keys ids es [] done t
  unfolding release
  release-IsSorting [] done s b v = (s, refl, v)
  release-IsSorting (d ∷ ds) done s b v =
      let hd = b d (inl refl) in
      let (k, ka) = at_total keys d hd in
      let (sp, sa) = g.spec_of d k ka in
      let (id, ia) = g.id_of d k ka in
      let count : tally es d done + occurrences d (d ∷ ds)
          ≡ suc (tally es d done + occurrences d ds) =
        ground arith in
      let open_d : listed d done ≡ false = elim (Bool-cases (listed d done)) [
        | inl l ↦ absurd (omega (arith, v.finished d l, count))
        | inr o ↦ o
      ] in
      let degree = v.counted d hd ∙ ap ok count in
      let (grown, he, r) =
        grow specs keys ids d (tally es d done + occurrences d ds) k sp id s.specs s.ready ka sa ia
          (v.remaining d k ka open_d) in
      let (t, eq, w) =
        release-IsSorting ds done
          (record s {
            indegree = set s.indegree d (tally es d done + occurrences d ds);
            ready = grown;
          })
          (λ e i. b e (inr i)) (released-IsSorting d ds done s grown hd open_d v r) in
      (t, release-eq d ds done s k grown degree ka he ∙ eq, w)

  -- The first ready set, of the keys before `index`.
  pub record IsStart (index : ℕ) (ready : List ReadyKey) : Type 0 where
    pub ascending : OrdSet.IsAscending ready
    pub entry : (x : ReadyKey) → In x ready → IsEntry specs keys ids x
    pub free : (x : ReadyKey) → In x ready → tally es x.index [] ≡ 0
    pub complete :
        (d : ℕ) → d < index → tally es d [] ≡ 0 → (x : ReadyKey) × In x ready × (x.index ≡ d)

  grown-IsStart :
      (d : ℕ) (ready grown : List ReadyKey)
      → IsStart d ready
      → IsGrown specs keys ids d (tally es d []) ready grown
      → IsStart (suc d) grown
  grown-IsStart d ready grown v r = record {
    ascending = r.ascending v.ascending;
    entry = λ x i. elim (r.from x i) [ inl old ↦ v.entry x old | inr (z, f, entry) ↦ entry ];
    free = λ x i. elim (r.from x i) [ inl old ↦ v.free x old | inr (z, f, entry) ↦ rw f z ];
    complete = λ e he z. elim (Bool-cases (nat_eq e d)) [
      | inl same ↦
          let f : e ≡ d = ground (arith, same) in
          let (x, i, h) = r.has (rw f at z) in (x, i, h ∙ sym f)
      | inr other ↦ let (x, i, h) = v.complete e (ground (arith, other, he)) z in (x, r.kept x i, h)
    ];
  }

  pub first_ready-IsStart :
      (indegree : List ℕ) (index : ℕ) (rest : List Text) (ready : List ReadyKey)
      → ((d : ℕ) → d < length keys → at indegree d ≡ ok (tally es d []))
      → ((j : ℕ) → at keys (index + j) ≡ at rest j)
      → IsStart index ready
      → (t : List ReadyKey) × (first_ready specs ids indegree index rest ready ≡ ok t)
        × IsStart (index + length rest) t
  unfolding first_ready at
  first_ready-IsStart indegree index [] ready c suffix v =
      let here : index + 0 ≡ index = omega arith in (ready, refl, rw here v)
  first_ready-IsStart indegree index (k ∷ rest) ready c suffix v =
      let here : index + 0 ≡ index = omega arith in
      let ka : at keys index ≡ ok k = rw here at (suffix 0) in
      let (sp, sa) = g.spec_of index k ka in
      let (id, ia) = g.id_of index k ka in
      let (grown, he, r) =
        grow specs keys ids index (tally es index []) k sp id specs ready ka sa ia refl in
      let (t, eq, w) =
        first_ready-IsStart indegree (suc index) rest grown c
          (λ j. ap (at keys) (omega arith) ∙ suffix (suc j))
          (grown-IsStart index ready grown v r) in
      let next : suc index + length rest ≡ index + suc (length rest) = omega arith in
      (t, rw (c index (at_bound keys index ka), he) eq, rw (sym next) w)
