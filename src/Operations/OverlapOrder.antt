-- ===== src/Operations/OverlapOrder.antt =====
-- `order_overlapping_writes` of crates/reforge-restore/src/operations.rs orders every two writes
-- whose paths overlap.
use windows_component_harnes.Prelude.{
  true, ◌≡◌, ◌≢◌, refl, ◌⊎◌, inl, inr, Option, none, some, List, [], ◌∷◌, map, ap, In, arith,
  Bool-cases, if◌then◌else◌,
}
use windows_component_harnes.Prelude.Order.{◌==◌, ==_iff}
use windows_component_harnes.Prelude.OrdMap
use windows_component_harnes.Prelude.Sort.{sort_by, In-sort_by}
use windows_component_harnes.Prelude.Text.{Text, text_ord, lowercase}
use windows_component_harnes.Domain.Paths.{PathToken}
use windows_component_harnes.Operations.Phase.{OperationSpec}
use windows_component_harnes.Operations.Overlap.{
  Specs, write_destination, paths_overlap, folder_id, entry_le, ordered_keys, destination_of,
  add_to, overlaps_at, order_after, order_at, order_from, order_overlapping_writes,
}
use windows_component_harnes.Operations.Growth.{
  Grows, Grows-refl, Grows-trans, IsBefore, IsBefore-Grows, added, added-Grows, added-IsBefore,
}

-- one step of the inner loop
step : Text → PathToken → Text → Specs → Specs
step left path right specs =
    if overlaps_at path (destination_of (OrdMap.get right specs))
    then add_to left right (OrdMap.get right specs) specs
    else specs

step-Grows :
    (left : Text) (path : PathToken) (right : Text) (specs : Specs)
    → Grows specs (step left path right specs)
unfolding step
step-Grows left path right specs = on (OrdMap.get right specs) refl
  where
    on :
        (o : Option OperationSpec)
        → OrdMap.get right specs ≡ o
        → Grows specs
            (if overlaps_at path (destination_of o) then add_to left right o specs else specs)
    on none e = Grows-refl specs
    on (some s) e = elim (Bool-cases (overlaps_at path (write_destination s.kind))) [
      | inl y ↦ rw y (unfold added in added-Grows left right s specs e)
      | inr n ↦ rw n (Grows-refl specs)
    ]

step-IsBefore :
    (left : Text) (path : PathToken) (right : Text) (specs : Specs) (s : OperationSpec)
    (target : PathToken)
    → OrdMap.get right specs ≡ some s
    → write_destination s.kind ≡ some target
    → paths_overlap path target ≡ true
    → IsBefore (step left path right specs) left right
unfolding step
step-IsBefore left path right specs s target found writes overlap =
    rw (found, writes, overlap) (unfold added in added-IsBefore left right s specs)

order_after-Grows :
    (left : Text) (path : PathToken) (keys : List Text) (specs : Specs)
    → Grows specs (order_after left path keys specs)
unfolding order_after step
order_after-Grows left path [] specs = Grows-refl specs
order_after-Grows left path (k ∷ keys) specs =
    let next = step left path k specs in
    Grows-trans specs next (order_after left path keys next) (step-Grows left path k specs)
      (order_after-Grows left path keys next)

order_after-IsBefore :
    (left : Text) (path : PathToken) (keys : List Text) (specs : Specs) (right : Text)
    (s : OperationSpec) (target : PathToken)
    → In right keys
    → OrdMap.get right specs ≡ some s
    → write_destination s.kind ≡ some target
    → paths_overlap path target ≡ true
    → IsBefore (order_after left path keys specs) left right
unfolding order_after Grows step
order_after-IsBefore left path [] specs right s target i found writes overlap = absurd i
order_after-IsBefore left path (k ∷ keys) specs right s target (inl e) found writes overlap =
    let next = step left path k specs in
    IsBefore-Grows next (order_after left path keys next) left right
      (order_after-Grows left path keys next)
      (rw (← e) (step-IsBefore left path right specs s target found writes overlap))
order_after-IsBefore left path (k ∷ keys) specs right s target (inr i) found writes overlap =
    let next = step left path k specs in
    let (t, ht, et) = step-Grows left path k specs right s found in
    order_after-IsBefore left path keys next right t target i ht (rw et.kind writes) overlap

order_at-Grows :
    (left : Text) (o : Option PathToken) (keys : List Text) (specs : Specs)
    → Grows specs (order_at left o keys specs)
order_at-Grows left none keys specs = Grows-refl specs
order_at-Grows left (some path) keys specs = order_after-Grows left path keys specs

-- one turn of the outer loop
turn : Text → List Text → Specs → Specs
turn k keys specs = order_at k (destination_of (OrdMap.get k specs)) keys specs

turn-Grows : (k : Text) (keys : List Text) (specs : Specs) → Grows specs (turn k keys specs)
unfolding turn
turn-Grows k keys specs = order_at-Grows k (destination_of (OrdMap.get k specs)) keys specs

order_from-Grows : (keys : List Text) (specs : Specs) → Grows specs (order_from keys specs)
unfolding order_from turn
order_from-Grows [] specs = Grows-refl specs
order_from-Grows (k ∷ keys) specs =
    let next = turn k keys specs in
    Grows-trans specs next (order_from keys next) (turn-Grows k keys specs)
      (order_from-Grows keys next)

-- A spec that writes to a path.
record Writes (specs : Specs) (key : Text) (path : PathToken) : Type 0 where
  spec : OperationSpec
  found : OrdMap.get key specs ≡ some spec
  writes : write_destination spec.kind ≡ some path

Writes-Grows :
    (a b : Specs) (key : Text) (path : PathToken)
    → Grows a b
    → Writes a key path
    → Writes b key path
unfolding Grows
Writes-Grows a b key path g w =
    let (t, ht, et) = g key w.spec w.found in
    record { spec = t; found = ht; writes = rw et.kind w.writes }

turn-IsBefore :
    (left right : Text) (keys : List Text) (specs : Specs) (p q : PathToken)
    → Writes specs left p
    → Writes specs right q
    → In right keys
    → paths_overlap p q ≡ true
    → IsBefore (turn left keys specs) left right
unfolding turn
turn-IsBefore left right keys specs p q wl wr i overlap =
    rw (wl.found, wl.writes)
      (order_after-IsBefore left p keys specs right wr.spec q i wr.found wr.writes overlap)

-- Of two different keys in the list, one stands behind the other; a later turn adds its prerequisite.
order_from-IsBefore :
    (keys : List Text) (specs : Specs) (j k : Text) (p q : PathToken)
    → In j keys
    → In k keys
    → j ≢ k
    → Writes specs j p
    → Writes specs k q
    → paths_overlap p q ≡ true
    → paths_overlap q p ≡ true
    → IsBefore (order_from keys specs) j k ⊎ IsBefore (order_from keys specs) k j
unfolding order_from turn
order_from-IsBefore [] specs j k p q i i' apart wj wk o o' = absurd i
order_from-IsBefore (l ∷ keys) specs j k p q (inl e) (inl e') apart wj wk o o' =
    absurd (apart (cc (e, e')))
order_from-IsBefore (l ∷ keys) specs j k p q (inl e) (inr i') apart wj wk o o' = inl (
    rw (← e) (
      IsBefore-Grows (turn j keys specs) (order_from keys (turn j keys specs)) j k
        (order_from-Grows keys (turn j keys specs)) (turn-IsBefore j k keys specs p q wj wk i' o)))
order_from-IsBefore (l ∷ keys) specs j k p q (inr i) (inl e') apart wj wk o o' = inr (
    rw (← e') (
      IsBefore-Grows (turn k keys specs) (order_from keys (turn k keys specs)) k j
        (order_from-Grows keys (turn k keys specs)) (turn-IsBefore k j keys specs q p wk wj i o')))
order_from-IsBefore (l ∷ keys) specs j k p q (inr i) (inr i') apart wj wk o o' =
    let next = turn l keys specs in
    let g = turn-Grows l keys specs in
    order_from-IsBefore keys next j k p q i i' apart (Writes-Grows specs next j p g wj)
      (Writes-Grows specs next k q g wk) o o'

-- Overlap does not depend on the order of the two paths.
pub paths_overlap_sym : (a b : PathToken) → paths_overlap a b ≡ paths_overlap b a
unfolding paths_overlap
paths_overlap_sym a b = ground (
  arith,
  ==_iff (folder_id a.root) (folder_id b.root),
  ==_iff (folder_id b.root) (folder_id a.root),
  ==_iff (lowercase a.relative) (lowercase b.relative),
  ==_iff (lowercase b.relative) (lowercase a.relative),
)

get-In : (k : Text) (s : OperationSpec) (m : Specs) → OrdMap.get k m ≡ some s → In (k, s) m
unfolding OrdMap.get
get-In k s [] h = cc
get-In k s ((j, v) ∷ m) h = elim (Bool-cases (k == j)) [
  | inl e ↦ let here : v ≡ s = ground arith in inl (cc ((==_iff k j).0 e, here))
  | inr e ↦ inr (get-In k s m (rw e at h))
]

In-firsts : (k : Text) (s : OperationSpec) (m : Specs) → In (k, s) m → In k (map (λ e. e.0) m)
In-firsts k s [] i = i
In-firsts k s (e ∷ m) (inl p) = inl (ap (λ x. x.0) p)
In-firsts k s (e ∷ m) (inr i) = inr (In-firsts k s m i)

In-ordered_keys :
    (k : Text) (s : OperationSpec) (m : Specs) → OrdMap.get k m ≡ some s → In k (ordered_keys m)
unfolding ordered_keys
In-ordered_keys k s m h =
    In-firsts k s (sort_by entry_le m) ((In-sort_by entry_le (k, s) m).1 (get-In k s m h))

-- Of two specs that write to overlapping paths, one becomes a prerequisite of the other, so that no
-- schedule that respects the prerequisites runs the two writes at once.
pub order_overlapping_writes-IsBefore :
    (specs : Specs) (j k : Text) (s t : OperationSpec) (p q : PathToken)
    → OrdMap.get j specs ≡ some s
    → OrdMap.get k specs ≡ some t
    → j ≢ k
    → write_destination s.kind ≡ some p
    → write_destination t.kind ≡ some q
    → paths_overlap p q ≡ true
    → IsBefore (order_overlapping_writes specs) j k ⊎ IsBefore (order_overlapping_writes specs) k j
unfolding order_overlapping_writes
order_overlapping_writes-IsBefore specs j k s t p q fs ft apart ws wt o =
    order_from-IsBefore (ordered_keys specs) specs j k p q (In-ordered_keys j s specs fs)
      (In-ordered_keys k t specs ft) apart (record { spec = s; found = fs; writes = ws })
      (record { spec = t; found = ft; writes = wt }) o (rw (paths_overlap_sym q p) o)

-- No spec is lost, changes its kind, or loses a prerequisite.
pub order_overlapping_writes-Grows : (specs : Specs) → Grows specs (order_overlapping_writes specs)
unfolding order_overlapping_writes
order_overlapping_writes-Grows specs = order_from-Grows (ordered_keys specs) specs
