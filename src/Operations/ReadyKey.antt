-- ===== src/Operations/ReadyKey.antt =====
-- The elements of the ready set of `topological_order` in crates/reforge-restore/src/operations.rs:
-- a sort key with an index, in lexicographic order.
use windows_component_harnes.Prelude.{ℕ, compare, Ordering, ◌≡◌, refl, ◌↔◌, List, [], ◌∷◌, arith}
use windows_component_harnes.Prelude.Order.{Ord}
use windows_component_harnes.Prelude.Text.{Text, cmp_text_eq, cmp_text_flip, cmp_text_trans}
use windows_component_harnes.Operations.Overlap.{cmp_texts}

pub record ReadyKey : Type 0 where
  pub rank : ℕ
  pub texts : List Text
  pub index : ℕ

cmp_texts_eq : (s t : List Text) → (cmp_texts s t ≡ Ordering.eq) ↔ (s ≡ t)
cmp_texts_eq [] [] = (λ _. refl, λ _. refl)
cmp_texts_eq [] (d ∷ t) = (λ e. cc, λ e. cc)
cmp_texts_eq (c ∷ s) [] = (λ e. cc, λ e. cc)
cmp_texts_eq (c ∷ s) (d ∷ t) = ground (arith, cmp_text_eq c d, cmp_texts_eq s t)

cmp_texts_flip : (s t : List Text) → (cmp_texts s t ≡ Ordering.lt) ↔ (cmp_texts t s ≡ Ordering.gt)
cmp_texts_flip [] [] = (λ e. cc, λ e. cc)
cmp_texts_flip [] (d ∷ t) = (λ _. refl, λ _. refl)
cmp_texts_flip (c ∷ s) [] = (λ e. cc, λ e. cc)
cmp_texts_flip (c ∷ s) (d ∷ t) = ground (
  arith,
  cmp_text_flip c d,
  cmp_text_flip d c,
  cmp_text_eq c d,
  cmp_text_eq d c,
  cmp_texts_flip s t,
)

cmp_texts_trans :
    (s t u : List Text)
    → cmp_texts s t ≡ Ordering.lt
    → cmp_texts t u ≡ Ordering.lt
    → cmp_texts s u ≡ Ordering.lt
cmp_texts_trans [] [] u h k = cc
cmp_texts_trans [] (d ∷ t) [] h k = cc
cmp_texts_trans [] (d ∷ t) (e ∷ u) h k = refl
cmp_texts_trans (c ∷ s) [] u h k = cc
cmp_texts_trans (c ∷ s) (d ∷ t) [] h k = cc
cmp_texts_trans (c ∷ s) (d ∷ t) (e ∷ u) h k = ground (
  arith,
  cmp_text_trans c d e,
  cmp_text_eq c d,
  cmp_text_eq d e,
  cmp_text_eq c e,
  cmp_texts_trans s t u,
)

abbrev pub cmp_ready : ReadyKey → ReadyKey → Ordering
cmp_ready a b = elim (compare a.rank b.rank) [
  | Ordering.lt ↦ Ordering.lt
  | Ordering.gt ↦ Ordering.gt
  | Ordering.eq ↦ elim (cmp_texts a.texts b.texts) [
    | Ordering.lt ↦ Ordering.lt
    | Ordering.gt ↦ Ordering.gt
    | Ordering.eq ↦ compare a.index b.index
  ]
]

pub cmp_ready_eq : (a b : ReadyKey) → (cmp_ready a b ≡ Ordering.eq) ↔ (a ≡ b)
cmp_ready_eq a b = ground (arith, cmp_texts_eq a.texts b.texts)

pub cmp_ready_flip :
    (a b : ReadyKey) → (cmp_ready a b ≡ Ordering.lt) ↔ (cmp_ready b a ≡ Ordering.gt)
cmp_ready_flip a b = ground (
  arith,
  cmp_texts_flip a.texts b.texts,
  cmp_texts_flip b.texts a.texts,
  cmp_texts_eq a.texts b.texts,
  cmp_texts_eq b.texts a.texts,
)

pub cmp_ready_trans :
    (a b c : ReadyKey)
    → cmp_ready a b ≡ Ordering.lt
    → cmp_ready b c ≡ Ordering.lt
    → cmp_ready a c ≡ Ordering.lt
cmp_ready_trans a b c h k = ground (
  arith,
  cmp_texts_trans a.texts b.texts c.texts,
  cmp_texts_eq a.texts b.texts,
  cmp_texts_eq b.texts c.texts,
  cmp_texts_eq a.texts c.texts,
)

instance abbrev pub ready_ord : Ord ReadyKey
ready_ord = record {
  cmp = cmp_ready;
  cmp_eq = cmp_ready_eq;
  cmp_flip = cmp_ready_flip;
  cmp_trans = cmp_ready_trans;
}
