-- ===== src/Conflicts/Slug.antt =====
-- The grammar of the suffixes that `safe_suffix` of crates/reforge-restore/src/conflicts.rs gives.
use windows_component_harnes.Prelude.{
  ℕ, zero, suc, ◌≤◌, Bool, true, false, not, ◌&&◌, ◌||◌, ◌≡◌, ◌≢◌, refl, inl, inr, List, [], ◌∷◌,
  take, all, length, nat_eq, arith, Bool-cases, &&-split,
}
use windows_component_harnes.Prelude.Text.{Text, codes, is_ascii_digit, is_ascii_lowercase}
use windows_component_harnes.Conflicts.Suffix.{
  bytes, safe_character, push_all, drop_last_dash, or_default, safe_suffix,
}

-- lower case letters, digits, `-`, `_` and `.`
abbrev pub is_slug_character : ℕ → Bool
is_slug_character c =
    is_ascii_digit c
    || (is_ascii_lowercase c || (nat_eq c b'-' || (nat_eq c b'_' || nat_eq c b'.')))

-- no dash at the start, where one has just been read, and none next to another
abbrev pub has_single_dashes : Bool → Text → Bool
has_single_dashes after_dash [] = true
has_single_dashes after_dash (c ∷ s) =
    let rest = has_single_dashes (nat_eq c b'-') s in not (after_dash && nat_eq c b'-') && rest

abbrev pub ends_with_dash : Text → Bool
ends_with_dash [] = false
ends_with_dash (c ∷ []) = nat_eq c b'-'
ends_with_dash (c ∷ d ∷ s) = ends_with_dash (d ∷ s)

-- A text of at most 128 safe characters, not empty, whose dashes stand alone and inside.
pub record IsSlug (s : Text) : Type 0 where
  pub not_empty : s ≢ []
  pub safe : all is_slug_character s ≡ true
  pub single_dashes : has_single_dashes true s ≡ true
  pub no_last_dash : ends_with_dash s ≡ false
  pub short : length s ≤ 128

safe_character-is_slug : (b : ℕ) → is_slug_character (safe_character b) ≡ true
unfolding safe_character
safe_character-is_slug b = ground arith

push_all-safe :
    (started dash : Bool) (bs : List ℕ) → all is_slug_character (push_all started dash bs) ≡ true
unfolding push_all
push_all-safe started dash [] = refl
push_all-safe started dash (b ∷ bs) = ground (
  arith,
  push_all-safe started dash bs,
  push_all-safe true true bs,
  push_all-safe true false bs,
  safe_character-is_slug b,
)

push_all-single :
    (started dash : Bool) (bs : List ℕ)
    → has_single_dashes (not started || dash) (push_all started dash bs) ≡ true
unfolding push_all
push_all-single started dash [] = refl
push_all-single started dash (b ∷ bs) = ground (
  arith,
  push_all-single started dash bs,
  push_all-single true true bs,
  push_all-single true false bs,
)

length-push_all :
    (started dash : Bool) (bs : List ℕ) → length (push_all started dash bs) ≤ length bs
unfolding push_all
length-push_all started dash [] = omega arith
length-push_all started dash (b ∷ bs) = ground (
  arith,
  length-push_all started dash bs,
  length-push_all true true bs,
  length-push_all true false bs,
)

length-drop_last_dash : (s : Text) → length (drop_last_dash s) ≤ length s
unfolding drop_last_dash
length-drop_last_dash [] = omega arith
length-drop_last_dash (c ∷ []) = ground arith
length-drop_last_dash (c ∷ d ∷ s) = omega (arith, length-drop_last_dash (d ∷ s))

drop_last_dash-safe :
    (s : Text) → all is_slug_character s ≡ true → all is_slug_character (drop_last_dash s) ≡ true
unfolding drop_last_dash
drop_last_dash-safe [] h = refl
drop_last_dash-safe (c ∷ []) h = elim (Bool-cases (nat_eq c b'-')) [
  | inl e ↦ rw e refl
  | inr e ↦ rw e h
]
drop_last_dash-safe (c ∷ d ∷ s) h =
    let (here, rest) = &&-split (is_slug_character c) (all is_slug_character (d ∷ s)) h in
    rw (here, drop_last_dash-safe (d ∷ s) rest) refl

drop_last_dash-single :
    (dash : Bool) (s : Text)
    → has_single_dashes dash s ≡ true
    → has_single_dashes dash (drop_last_dash s) ≡ true
unfolding drop_last_dash
drop_last_dash-single dash [] h = refl
drop_last_dash-single dash (c ∷ []) h = ground (arith)
drop_last_dash-single dash (c ∷ d ∷ s) h =
    let (here, rest) =
      &&-split (not (dash && nat_eq c b'-')) (has_single_dashes (nat_eq c b'-') (d ∷ s)) h in
    rw (here, drop_last_dash-single (nat_eq c b'-') (d ∷ s) rest) refl

-- Where dashes stand alone, none is left at the end.
drop_last_dash-ends :
    (dash : Bool) (s : Text)
    → has_single_dashes dash s ≡ true
    → ends_with_dash (drop_last_dash s) ≡ false
unfolding drop_last_dash
drop_last_dash-ends dash [] h = refl
drop_last_dash-ends dash (c ∷ []) h = ground arith
drop_last_dash-ends dash (c ∷ d ∷ []) h = ground arith
drop_last_dash-ends dash (c ∷ d ∷ e ∷ s) h =
    let (here, rest) =
      &&-split (not (dash && nat_eq c b'-')) (has_single_dashes (nat_eq c b'-') (d ∷ e ∷ s)) h in
    drop_last_dash-ends (nat_eq c b'-') (d ∷ e ∷ s) rest

length-take : (n : ℕ) (bs : List ℕ) → length (take n bs) ≤ n
length-take zero bs = omega arith
length-take (suc n) [] = omega arith
length-take (suc n) (b ∷ bs) = omega (arith, length-take n bs)

default-IsSlug : IsSlug (codes "default")
default-IsSlug = record {
  not_empty = λ e. cc;
  safe = refl;
  single_dashes = refl;
  no_last_dash = refl;
  short = omega arith;
}

or_default-IsSlug :
    (s : Text)
    → all is_slug_character s ≡ true
    → has_single_dashes true s ≡ true
    → ends_with_dash s ≡ false
    → length s ≤ 128
    → IsSlug (or_default s)
or_default-IsSlug [] h1 h2 h3 h4 = default-IsSlug
or_default-IsSlug (c ∷ s) h1 h2 h3 h4 = record {
  not_empty = λ e. cc;
  safe = h1;
  single_dashes = h2;
  no_last_dash = h3;
  short = h4;
}

-- Whatever the text, its suffix is a slug: not empty, at most 128 characters, all of them lower case
-- letters, digits, `-`, `_` or `.`, and no dash at either end or next to another.
pub safe_suffix-IsSlug : (value : Text) → IsSlug (safe_suffix value)
unfolding safe_suffix
safe_suffix-IsSlug value =
    let bs = take 128 (bytes value) in
    let pushed = push_all false false bs in
    let single = push_all-single false false bs in
    or_default-IsSlug (drop_last_dash pushed)
      (drop_last_dash-safe pushed (push_all-safe false false bs))
      (drop_last_dash-single true pushed single) (drop_last_dash-ends true pushed single)
      (omega (
        arith,
        length-drop_last_dash pushed,
        length-push_all false false bs,
        length-take 128 (bytes value),
      ))
