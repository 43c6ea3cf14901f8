-- ===== src/Operations/DistinctKeys.antt =====
-- The keys that `topological_order` of crates/reforge-restore/src/operations.rs sorts: those of a
-- map, so each stands at one place.
use windows_component_harnes.Prelude.{
  ℕ, zero, suc, true, ◌≡◌, ◌≢◌, refl, sym, ap, ◌∙◌, inl, inr, some, [], ◌∷◌, In, map, length,
  Bool-cases,
}
use windows_component_harnes.Prelude.Order.{◌==◌, ==_iff}
use windows_component_harnes.Prelude.OrdMap
use windows_component_harnes.Prelude.OrdMap.{OrdMap}
use windows_component_harnes.Prelude.OrdSet
use windows_component_harnes.Prelude.Sort.{insert_by, sort_by, In-insert_by, In-sort_by}
use windows_component_harnes.Prelude.Text.{Text, text_ord}
use windows_component_harnes.Domain.Error.{ok-injective, ok}
use windows_component_harnes.Operations.Phase.{OperationSpec}
use windows_component_harnes.Operations.Overlap.{Specs, entry_le, ordered_keys}
use windows_component_harnes.Operations.Arrays.{at}

-- No two entries have one key.
abbrev HasUniqueKeys : Specs → Type 0
HasUniqueKeys [] = Unit
HasUniqueKeys (e ∷ m) = ((f : Text × OperationSpec) → In f m → f.0 ≢ e.0) × HasUniqueKeys m

abbrev first_of : Text × OperationSpec → Text
first_of e = e.0

ascending-HasUniqueKeys : (m : Specs) → OrdSet.IsAscending (OrdMap.keys m) → HasUniqueKeys m
ascending-HasUniqueKeys [] h = tt
ascending-HasUniqueKeys (e ∷ m) (b, a) = (
  λ f i same. OrdSet.not-In-Below e.0 (OrdMap.keys m) b (rw same at (In-keys f m i)),
  ascending-HasUniqueKeys m a,
)
  where
    In-keys : (f : Text × OperationSpec) (m : Specs) → In f m → In f.0 (OrdMap.keys m)
    In-keys f [] i = absurd i
    In-keys f (g ∷ m) (inl e) = inl (ap first_of e)
    In-keys f (g ∷ m) (inr i) = inr (In-keys f m i)

insert_by-HasUniqueKeys :
    (x : Text × OperationSpec) (m : Specs)
    → ((f : Text × OperationSpec) → In f m → f.0 ≢ x.0)
    → HasUniqueKeys m
    → HasUniqueKeys (insert_by entry_le x m)
unfolding insert_by
insert_by-HasUniqueKeys x [] h u = (h, tt)
insert_by-HasUniqueKeys x (y ∷ m) h (hy, u) = elim (Bool-cases (entry_le x y)) [
  | inl e ↦ rw (e, insert_by) (h, (hy, u))
  | inr e ↦
      rw (e, insert_by)
        (
          λ f i same. elim ((In-insert_by entry_le f x m).0 i) [
            | inl now ↦ h y (inl refl) (sym same ∙ ap first_of now)
            | inr old ↦ hy f old same
          ],
          insert_by-HasUniqueKeys x m (λ f i. h f (inr i)) u,
        )
]

sort_by-HasUniqueKeys : (m : Specs) → HasUniqueKeys m → HasUniqueKeys (sort_by entry_le m)
unfolding sort_by
sort_by-HasUniqueKeys [] u = tt
sort_by-HasUniqueKeys (x ∷ m) (h, u) =
    insert_by-HasUniqueKeys x (sort_by entry_le m) (λ f i. h f ((In-sort_by entry_le f m).0 i))
      (sort_by-HasUniqueKeys m u)

at-keys :
    (m : Specs) (d : ℕ) (k : Text)
    → at (map first_of m) d ≡ ok k
    → (e : Text × OperationSpec) × In e m × (e.0 ≡ k)
unfolding at
at-keys [] d k h = cc
at-keys (e ∷ m) zero k h = (e, inl refl, ok-injective h)
at-keys (e ∷ m) (suc d) k h = let (f, i, same) = at-keys m d k h in (f, inr i, same)

unique-apart :
    (m : Specs) (d e : ℕ) (k : Text)
    → HasUniqueKeys m
    → at (map first_of m) d ≡ ok k
    → at (map first_of m) e ≡ ok k
    → d ≡ e
unfolding at
unique-apart [] d e k u a b = cc
unique-apart (x ∷ m) zero zero k u a b = refl
unique-apart (x ∷ m) zero (suc e) k (h, u) a b =
    let (f, i, same) = at-keys m e k b in absurd (h f i (same ∙ sym (ok-injective a)))
unique-apart (x ∷ m) (suc d) zero k (h, u) a b =
    let (f, i, same) = at-keys m d k a in absurd (h f i (same ∙ sym (ok-injective b)))
unique-apart (x ∷ m) (suc d) (suc e) k (h, u) a b = ap suc (unique-apart m d e k u a b)

-- Two places of one key are the same.
pub ordered_keys-apart :
    (specs : Specs) (d e : ℕ) (k : Text)
    → OrdSet.IsAscending (OrdMap.keys specs)
    → at (ordered_keys specs) d ≡ ok k
    → at (ordered_keys specs) e ≡ ok k
    → d ≡ e
unfolding ordered_keys
ordered_keys-apart specs d e k h a b =
    unique-apart (sort_by entry_le specs) d e k
      (sort_by-HasUniqueKeys specs (ascending-HasUniqueKeys specs h)) a b

get_In :
    (m : Specs) (e : Text × OperationSpec)
    → In e m
    → (s : OperationSpec) × (OrdMap.get e.0 m ≡ some s)
unfolding OrdMap.get
get_In [] e i = absurd i
get_In ((j, s) ∷ m) e (inl same) =
    let found : (e.0 == j) ≡ true = (==_iff e.0 j).1 (ap first_of same) in (s, rw found refl)
get_In ((j, s) ∷ m) e (inr i) = elim (Bool-cases (e.0 == j)) [
  | inl same ↦ (s, rw same refl)
  | inr other ↦ rw other (get_In m e i)
]

-- Every key that was sorted has a spec.
pub ordered_keys-get :
    (specs : Specs) (d : ℕ) (k : Text)
    → at (ordered_keys specs) d ≡ ok k
    → (s : OperationSpec) × (OrdMap.get k specs ≡ some s)
unfolding ordered_keys
ordered_keys-get specs d k h =
    let (e, i, same) = at-keys (sort_by entry_le specs) d k h in
    let (s, found) = get_In specs e ((In-sort_by entry_le e specs).0 i) in (s, rw same at found)

In_get :
    (m : Specs) (k : Text) (s : OperationSpec)
    → OrdMap.get k m ≡ some s
    → (e : Text × OperationSpec) × In e m × (e.0 ≡ k)
unfolding OrdMap.get
In_get [] k s h = cc
In_get ((j, t) ∷ m) k s h = elim (Bool-cases (k == j)) [
  | inl same ↦ ((j, t), inl refl, sym ((==_iff k j).0 same))
  | inr other ↦ let (e, i, f) = In_get m k s (rw other at h) in (e, inr i, f)
]

at_In : (m : Specs) (e : Text × OperationSpec) → In e m → (d : ℕ) × (at (map first_of m) d ≡ ok e.0)
unfolding at
at_In [] e i = absurd i
at_In (f ∷ m) e (inl same) = (0, ap ok (ap first_of (sym same)))
at_In (f ∷ m) e (inr i) = let (d, h) = at_In m e i in (suc d, h)

-- Every key with a spec is sorted.
pub ordered_keys-at :
    (specs : Specs) (k : Text) (s : OperationSpec)
    → OrdMap.get k specs ≡ some s
    → (d : ℕ) × (at (ordered_keys specs) d ≡ ok k)
unfolding ordered_keys
ordered_keys-at specs k s h =
    let (e, i, same) = In_get specs k s h in
    let (d, a) = at_In (sort_by entry_le specs) e ((In-sort_by entry_le e specs).1 i) in
    (d, rw same at a)

length-insert_by :
    (x : Text × OperationSpec) (m : Specs)
    → length (map first_of (insert_by entry_le x m)) ≡ suc (length (map first_of m))
unfolding insert_by
length-insert_by x [] = refl
length-insert_by x (y ∷ m) = elim (Bool-cases (entry_le x y)) [
  | inl e ↦ rw (e, insert_by) refl
  | inr e ↦ rw (e, insert_by) (ap suc (length-insert_by x m))
]

pub length-ordered_keys : (specs : Specs) → length (ordered_keys specs) ≡ length specs
unfolding ordered_keys sort_by
length-ordered_keys specs = sorted specs
  where
    sorted : (m : Specs) → length (map first_of (sort_by entry_le m)) ≡ length m
    sorted [] = refl
    sorted (e ∷ m) = length-insert_by e (sort_by entry_le m) ∙ ap suc (sorted m)
