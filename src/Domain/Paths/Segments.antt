-- ===== src/Domain/Paths/Segments.antt =====
-- The segments that `normalize_relative_path` of crates/reforge-domain/src/model.rs keeps, and how
-- splitting undoes joining.
use windows_component_harnes.Prelude.{
  ℕ, Bool, false, ◌||◌, ◌≡◌, ◌≢◌, refl, inl, inr, List, [], ◌∷◌, ◌++◌, any, All, nat_eq, arith,
  Bool-cases,
}
use windows_component_harnes.Prelude.Order.{◌==◌}
use windows_component_harnes.Prelude.Text.{Text, is_control, text_ord}
use windows_component_harnes.Domain.Paths.{
  PathResult, PathError, valid, invalid, ◌>>=◌, is_separator, has_colon, push_front, split, join,
  dot, dot_dot, keep_segments,
}

-- no character of a text is one of those
abbrev pub Lacks : (ℕ → Bool) → Text → Type 0
Lacks p w = any p w ≡ false

abbrev pub AllLack : (ℕ → Bool) → List Text → Type 0
AllLack p = All (Lacks p)

pub any-append :
    (p : ℕ → Bool) (v w : Text) → any p v ≡ false → any p w ≡ false → any p (v ++ w) ≡ false
any-append p [] w h k = k
any-append p (c ∷ v) w h k = ground (arith, any-append p v w)

pub push_front-Lack :
    (p : ℕ → Bool) (c : ℕ) (ws : List Text)
    → p c ≡ false
    → AllLack p ws
    → AllLack p (push_front c ws)
push_front-Lack p c [] h a = (ground (arith, h), tt)
push_front-Lack p c (w ∷ ws) h (l, a) = (ground (arith, h, l), a)

-- The parts of a text lack what the text lacks.
pub split-Lack : (p : ℕ → Bool) (s : Text) → any p s ≡ false → AllLack p (split s)
unfolding split
split-Lack p [] h = (refl, tt)
split-Lack p (c ∷ s) h =
    let c_lacks : p c ≡ false = ground (arith, h) in
    let rest = split-Lack p s (ground (arith, h)) in
    elim (Bool-cases (is_separator c)) [
      | inl e ↦ rw e (refl, rest)
      | inr e ↦ rw e (push_front-Lack p c (split s) c_lacks rest)
    ]

-- The parts of a text have no separators.
pub split-is_separator : (s : Text) → AllLack is_separator (split s)
unfolding split
split-is_separator [] = (refl, tt)
split-is_separator (c ∷ s) = elim (Bool-cases (is_separator c)) [
  | inl e ↦ rw e (refl, split-is_separator s)
  | inr e ↦ rw e (push_front-Lack is_separator c (split s) e (split-is_separator s))
]

-- A part that the loop keeps.
pub record IsSegment (w : Text) : Type 0 where
  pub kept_length : (w == []) ≡ false
  pub kept_dot : (w == dot) ≡ false
  pub kept_dots : (w == dot_dot) ≡ false
  pub no_colon : has_colon w ≡ false
  pub no_separator : Lacks is_separator w
  pub no_control : Lacks is_control w
  pub no_nul : Lacks (λ c. nat_eq c 0) w

pub valid-injective : {A : Type 0} {a b : A} → valid a ≡ valid b → a ≡ b
valid-injective h = cc

pub valid-before :
    {A B : Type 0} (m : PathResult A) (next : A → PathResult B) {b : B}
    → (m >>= next) ≡ valid b
    → (a : A) × (m ≡ valid a) × (next a ≡ valid b)
valid-before (invalid e) next h = cc
valid-before (valid a) next h = (a, refl, h)

not_kept : {A : Type 0} {e : PathError} {a : A} {B : Type 0} → invalid e ≡ valid a → B
not_kept {a = a} {B = B} h = absurd (apart h)
  where
    apart : {e : PathError} → invalid e ≢ valid a
    apart p = cc

pub keep_segments-IsSegment :
    (vs ws : List Text)
    → AllLack is_separator vs
    → AllLack is_control vs
    → AllLack (λ c. nat_eq c 0) vs
    → keep_segments vs ≡ valid ws
    → All IsSegment ws
unfolding keep_segments
keep_segments-IsSegment [] ws a b c h = rw (← valid-injective h) tt
keep_segments-IsSegment (v ∷ vs) ws (a, a') (b, b') (c, c') h =
    elim (Bool-cases (v == [] || v == dot)) [
      | inl e ↦ keep_segments-IsSegment vs ws a' b' c' (rw e at h)
      | inr e ↦ elim (Bool-cases (v == dot_dot)) [
        | inl f ↦ not_kept (rw (e, f) at h)
        | inr f ↦ elim (Bool-cases (has_colon v)) [
          | inl g ↦ not_kept (rw (e, f, g) at h)
          | inr g ↦
              let (us, later, whole) =
                valid-before (keep_segments vs) (λ us. valid (v ∷ us)) (rw (e, f, g) at h) in
              rw (← valid-injective whole) (
                record {
                  kept_length = ground (arith, e);
                  kept_dot = ground (arith, e);
                  kept_dots = f;
                  no_colon = g;
                  no_separator = a;
                  no_control = b;
                  no_nul = c;
                },
                keep_segments-IsSegment vs us a' b' c' later,
              )
        ]
      ]
    ]

pub keep_segments-kept : (ws : List Text) → All IsSegment ws → keep_segments ws ≡ valid ws
unfolding keep_segments
keep_segments-kept [] a = refl
keep_segments-kept (w ∷ ws) (s, a) =
    rw (s.kept_length, s.kept_dot, s.kept_dots, s.no_colon, keep_segments-kept ws a) refl

split-separator : (w s : Text) → Lacks is_separator w → split (w ++ b'/' ∷ s) ≡ w ∷ split s
unfolding split
split-separator [] s h = refl
split-separator (c ∷ w) s h =
    let here : is_separator c ≡ false = ground (arith, h) in
    rw (here, split-separator w s (ground (arith, h))) refl

split-whole : (w : Text) → Lacks is_separator w → split w ≡ w ∷ []
unfolding split
split-whole [] h = refl
split-whole (c ∷ w) h =
    let here : is_separator c ≡ false = ground (arith, h) in
    rw (here, split-whole w (ground (arith, h))) refl

pub split-join :
    (w : Text) (ws : List Text) → All IsSegment (w ∷ ws) → split (join (w ∷ ws)) ≡ w ∷ ws
unfolding join
split-join w [] (s, a) = split-whole w s.no_separator
split-join w (v ∷ ws) (s, a) =
    rw (split-separator w (join (v ∷ ws)) s.no_separator, split-join v ws a) refl
