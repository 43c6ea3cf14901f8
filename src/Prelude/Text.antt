-- ===== src/Prelude/Text.antt =====
-- Rust's `str` and `String` as lists of code points. UTF-8 keeps the order of code points, so the
-- byte order of two strings is the order of these lists; lengths in bytes are `len`.
use Prim.Native.Char.{code}
use Prim.Native.String.{String}
use Prim.Native.Nat.{ℕ, ◌+◌, compare, Ordering}
use mathlib.Core.Path.{◌≡◌, refl}
use mathlib.Core.Logic.{◌↔◌}
use mathlib.Core.Bool.{Bool, true, false, ◌&&◌, ◌||◌}
use mathlib.Core.List.{List, [], ◌∷◌, map}
use native.Mathlib.Omega.{arith}
use windows_component_harnes.Prelude.Tests.{ltb, leb, nat_eq, if◌then◌else◌}
use windows_component_harnes.Prelude.Lists.{any}
use windows_component_harnes.Prelude.Order.{Ord}

abbrev pub Text : Type 0
Text = List ℕ

-- A literal of the source.
abbrev pub codes : String → Text
codes String.[] = []
codes (String.◌∷◌ c s) = code c ∷ codes s

-- `char::len_utf8`
abbrev pub len_utf8 : ℕ → ℕ
len_utf8 c = if ltb c 0x80 then 1 else if ltb c 0x800 then 2 else if ltb c 0x10000 then 3 else 4

-- `str::len`
abbrev pub len : Text → ℕ
len [] = 0
len (c ∷ s) = len_utf8 c + len s

-- `char::is_control`, the general category Cc
abbrev pub is_control : ℕ → Bool
is_control c = ltb c 0x20 || (leb 0x7f c && ltb c 0xa0)

abbrev pub is_ascii_digit : ℕ → Bool
is_ascii_digit c = leb b'0' c && leb c b'9'

abbrev pub is_ascii_uppercase : ℕ → Bool
is_ascii_uppercase c = leb b'A' c && leb c b'Z'

abbrev pub is_ascii_lowercase : ℕ → Bool
is_ascii_lowercase c = leb b'a' c && leb c b'z'

abbrev pub is_ascii_alphanumeric : ℕ → Bool
is_ascii_alphanumeric c = is_ascii_digit c || (is_ascii_uppercase c || is_ascii_lowercase c)

abbrev pub to_ascii_lowercase : ℕ → ℕ
to_ascii_lowercase c = if is_ascii_uppercase c then c + 32 else c

-- `str::to_ascii_lowercase`
abbrev pub lowercase : Text → Text
lowercase = map to_ascii_lowercase

-- `chars().any(char::is_control)`
abbrev pub has_control : Text → Bool
has_control = any is_control

abbrev pub is_empty : Text → Bool
is_empty [] = true
is_empty (c ∷ s) = false

-- `str::starts_with` on a string pattern
abbrev pub starts_with : Text → Text → Bool
starts_with s [] = true
starts_with [] (p ∷ ps) = false
starts_with (c ∷ s) (p ∷ ps) = nat_eq c p && starts_with s ps

-- `char::is_whitespace`, the property White_Space
abbrev pub is_whitespace : ℕ → Bool
is_whitespace c =
    (leb 9 c && leb c 13)
    || (nat_eq c 0x20
        || (nat_eq c 0x85
            || (nat_eq c 0xa0
                || (nat_eq c 0x1680
                    || ((leb 0x2000 c && leb c 0x200a)
                        || (nat_eq c 0x2028
                            || (nat_eq c 0x2029
                                || (nat_eq c 0x202f || (nat_eq c 0x205f || nat_eq c 0x3000)))))))))

abbrev pub trim_start : Text → Text
trim_start [] = []
trim_start (c ∷ s) = let rest = trim_start s in if is_whitespace c then rest else c ∷ s

-- drops a character at the end if it and all behind it are white space
abbrev pub keep_until_space : ℕ → Text → Text
keep_until_space c [] = if is_whitespace c then [] else c ∷ []
keep_until_space c (d ∷ s) = c ∷ d ∷ s

abbrev pub trim_end : Text → Text
trim_end [] = []
trim_end (c ∷ s) = keep_until_space c (trim_end s)

-- `str::trim`
abbrev pub trim : Text → Text
trim s = trim_end (trim_start s)

abbrev pub cmp_text : Text → Text → Ordering
cmp_text [] [] = Ordering.eq
cmp_text [] (d ∷ t) = Ordering.lt
cmp_text (c ∷ s) [] = Ordering.gt
cmp_text (c ∷ s) (d ∷ t) = elim (compare c d) [
  | Ordering.lt ↦ Ordering.lt
  | Ordering.eq ↦ cmp_text s t
  | Ordering.gt ↦ Ordering.gt
]

pub cmp_text_eq : (s t : Text) → (cmp_text s t ≡ Ordering.eq) ↔ (s ≡ t)
cmp_text_eq [] [] = (λ _. refl, λ _. refl)
cmp_text_eq [] (d ∷ t) = (λ e. cc, λ e. cc)
cmp_text_eq (c ∷ s) [] = (λ e. cc, λ e. cc)
cmp_text_eq (c ∷ s) (d ∷ t) = ground (arith, cmp_text_eq s t)

pub cmp_text_flip : (s t : Text) → (cmp_text s t ≡ Ordering.lt) ↔ (cmp_text t s ≡ Ordering.gt)
cmp_text_flip [] [] = (λ e. cc, λ e. cc)
cmp_text_flip [] (d ∷ t) = (λ _. refl, λ _. refl)
cmp_text_flip (c ∷ s) [] = (λ e. cc, λ e. cc)
cmp_text_flip (c ∷ s) (d ∷ t) = ground (arith, cmp_text_flip s t)

pub cmp_text_trans :
    (s t u : Text)
    → cmp_text s t ≡ Ordering.lt
    → cmp_text t u ≡ Ordering.lt
    → cmp_text s u ≡ Ordering.lt
cmp_text_trans [] [] u h k = cc
cmp_text_trans [] (d ∷ t) [] h k = cc
cmp_text_trans [] (d ∷ t) (e ∷ u) h k = refl
cmp_text_trans (c ∷ s) [] u h k = cc
cmp_text_trans (c ∷ s) (d ∷ t) [] h k = cc
cmp_text_trans (c ∷ s) (d ∷ t) (e ∷ u) h k = ground (arith, cmp_text_trans s t u)

instance abbrev pub text_ord : Ord Text
text_ord = record {
  cmp = cmp_text;
  cmp_eq = cmp_text_eq;
  cmp_flip = cmp_text_flip;
  cmp_trans = cmp_text_trans;
}
