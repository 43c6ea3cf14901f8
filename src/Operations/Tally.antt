-- ===== src/Operations/Tally.antt =====
-- Counting the edges of a graph whose sources are still open, for the proofs about
-- `topological_order` of crates/reforge-restore/src/operations.rs.
use windows_component_harnes.Prelude.{
  ap, ℕ, zero, suc, ◌+◌, ◌<◌, ◌≤◌, Bool, true, false, not, ◌&&◌, ◌||◌, ◌≡◌, ◌≢◌, refl, ◌⊎◌, inl,
  inr, List, [], ◌∷◌, ◌++◌, In, nat_eq, length, if◌then◌else◌, arith, Bool-cases,
}

abbrev pub listed : ℕ → List ℕ → Bool
listed x [] = false
listed x (y ∷ ys) = nat_eq x y || listed x ys

abbrev pub occurrences : ℕ → List ℕ → ℕ
occurrences x [] = 0
occurrences x (y ∷ ys) = (if nat_eq x y then 1 else 0) + occurrences x ys

pub occurrences-append :
    (x y : ℕ) (ys : List ℕ)
    → occurrences x (ys ++ y ∷ []) ≡ (if nat_eq x y then 1 else 0) + occurrences x ys
occurrences-append x y [] = refl
occurrences-append x y (z ∷ ys) = omega (arith, occurrences-append x y ys)

-- an edge from a prerequisite to what waits for it
abbrev pub Edge : Type 0
Edge = ℕ × ℕ

-- the edges into `d` whose source is not done
abbrev pub tally : List Edge → ℕ → List ℕ → ℕ
tally [] d done = 0
tally ((p, q) ∷ es) d done = (if nat_eq d q && not (listed p done) then 1 else 0) + tally es d done

-- the edges from `p` to `d`
abbrev pub edges_between : List Edge → ℕ → ℕ → ℕ
edges_between [] p d = 0
edges_between ((a, b) ∷ es) p d = (if nat_eq p a && nat_eq d b then 1 else 0) + edges_between es p d

-- When a source is done, its edges are no longer counted.
pub tally-cons :
    (es : List Edge) (d p : ℕ) (done : List ℕ)
    → listed p done ≡ false
    → tally es d (p ∷ done) + edges_between es p d ≡ tally es d done
tally-cons [] d p done h = refl
tally-cons ((a, b) ∷ es) d p done h = ground (arith, tally-cons es d p done h)

pub tally-zero :
    (es : List Edge) (p d : ℕ) (done : List ℕ)
    → tally es d done ≡ 0
    → In (p, d) es
    → listed p done ≡ true
tally-zero [] p d done h i = absurd i
tally-zero ((a, b) ∷ es) p d done h (inl e) =
    let ea : p ≡ a = ap (λ x. x.0) e in let eb : d ≡ b = ap (λ x. x.1) e in ground arith
tally-zero ((a, b) ∷ es) p d done h (inr i) = tally-zero es p d done (omega arith) i

pub tally-open :
    (es : List Edge) (d : ℕ) (done : List ℕ)
    → tally es d done ≢ 0
    → (p : ℕ) × In (p, d) es × (listed p done ≡ false)
tally-open [] d done h = absurd (h refl)
tally-open ((a, b) ∷ es) d done h = elim (Bool-cases (nat_eq d b && not (listed a done))) [
  | inl e ↦ let eb : d ≡ b = ground (arith, e) in (a, inl (cc (eb)), ground (arith, e))
  | inr e ↦ let (p, i, o) = tally-open es d done (λ z. h (ground (arith, e, z))) in (p, inr i, o)
]

pub edges_between-In : (es : List Edge) (p d : ℕ) → edges_between es p d ≢ 0 → In (p, d) es
edges_between-In [] p d h = absurd (h refl)
edges_between-In ((a, b) ∷ es) p d h = elim (Bool-cases (nat_eq p a && nat_eq d b)) [
  | inl e ↦
      let ea : p ≡ a = ground (arith, e) in let eb : d ≡ b = ground (arith, e) in inl (cc (ea, eb))
  | inr e ↦ inr (edges_between-In es p d (λ z. h (ground (arith, e, z))))
]

-- No element twice.
abbrev pub IsDistinct : List ℕ → Type 0
IsDistinct [] = Unit
IsDistinct (x ∷ xs) = (listed x xs ≡ false) × IsDistinct xs

abbrev pub AllBelow : ℕ → List ℕ → Type 0
AllBelow n [] = Unit
AllBelow n (x ∷ xs) = (x < n) × AllBelow n xs

abbrev without : ℕ → List ℕ → List ℕ
without n [] = []
without n (x ∷ xs) = let rest = without n xs in if nat_eq n x then rest else x ∷ rest

listed-without :
    (x n : ℕ) (xs : List ℕ) → listed x (without n xs) ≡ (listed x xs && not (nat_eq x n))
listed-without x n [] = refl
listed-without x n (y ∷ xs) = ground (arith, listed-without x n xs)

without-IsDistinct : (n : ℕ) (xs : List ℕ) → IsDistinct xs → IsDistinct (without n xs)
without-IsDistinct n [] h = tt
without-IsDistinct n (x ∷ xs) (h, d) = elim (Bool-cases (nat_eq n x)) [
  | inl e ↦ rw e (without-IsDistinct n xs d)
  | inr e ↦ rw e (rw (listed-without x n xs, h) refl, without-IsDistinct n xs d)
]

without-AllBelow : (n : ℕ) (xs : List ℕ) → AllBelow (suc n) xs → AllBelow n (without n xs)
without-AllBelow n [] h = tt
without-AllBelow n (x ∷ xs) (h, b) = elim (Bool-cases (nat_eq n x)) [
  | inl e ↦ rw e (without-AllBelow n xs b)
  | inr e ↦ rw e (ground (arith, e), without-AllBelow n xs b)
]

without_unlisted : (n : ℕ) (xs : List ℕ) → listed n xs ≡ false → length (without n xs) ≡ length xs
without_unlisted n [] h = refl
without_unlisted n (x ∷ xs) h = ground (arith, without_unlisted n xs)

length-without : (n : ℕ) (xs : List ℕ) → IsDistinct xs → length xs ≤ suc (length (without n xs))
length-without n [] h = omega arith
length-without n (x ∷ xs) (h, d) = elim (Bool-cases (nat_eq n x)) [
  | inl e ↦
      let same : n ≡ x = ground (arith, e) in
      rw e (omega (arith, without_unlisted n xs (rw same h)))
  | inr e ↦ rw e (omega (arith, length-without n xs d))
]

-- Distinct numbers below `n` are at most `n`.
pub pigeonhole : (n : ℕ) (xs : List ℕ) → IsDistinct xs → AllBelow n xs → length xs ≤ n
pigeonhole zero [] d b = omega arith
pigeonhole zero (x ∷ xs) d b = absurd (omega arith)
pigeonhole (suc n) xs d b = omega (
  arith,
  length-without n xs d,
  pigeonhole n (without n xs) (without-IsDistinct n xs d) (without-AllBelow n xs b),
)

length-without_listed :
    (n : ℕ) (xs : List ℕ) → listed n xs ≡ true → suc (length (without n xs)) ≤ length xs
length-without_listed n [] h = cc
length-without_listed n (x ∷ xs) h = elim (Bool-cases (nat_eq n x)) [
  | inl e ↦ rw e (omega (arith, length-without_le n xs))
  | inr e ↦ rw e (omega (arith, length-without_listed n xs (ground (arith, e))))
]
  where
    length-without_le : (n : ℕ) (xs : List ℕ) → length (without n xs) ≤ length xs
    length-without_le n [] = omega arith
    length-without_le n (y ∷ xs) = ground (arith, length-without_le n xs)

-- Either all numbers below `n` are listed, and the list is as long, or one of them is not.
pub unlisted_cases :
    (n : ℕ) (xs : List ℕ) → (n ≤ length xs) ⊎ ((d : ℕ) × (d < n) × (listed d xs ≡ false))
unlisted_cases zero xs = inl (omega arith)
unlisted_cases (suc n) xs = elim (Bool-cases (listed n xs)) [
  | inr e ↦ inr (n, omega arith, e)
  | inl e ↦ elim (unlisted_cases n (without n xs)) [
    | inl h ↦ inl (omega (arith, length-without_listed n xs e))
    | inr (d, b, o) ↦
        let other : nat_eq d n ≡ false = ground (arith) in
        inr (d, omega arith, ground (arith, listed-without d n xs, other))
  ]
]
