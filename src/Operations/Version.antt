-- ===== src/Operations/Version.antt =====
-- `version_at_least` and `numeric_version_parts` of crates/reforge-restore/src/operations.rs.
use windows_component_harnes.Prelude.{
  ℕ, ◌+◌, ◌-◌, ◌*◌, ◌^◌, compare, Ordering, Bool, true, false, not, ◌||◌, Option, none, some, List,
  [], ◌∷◌, all, ltb, nat_eq, if◌then◌else◌,
}
use windows_component_harnes.Prelude.Order.{◌==◌}
use windows_component_harnes.Prelude.Text.{Text, text_ord, is_empty, is_ascii_digit}
use windows_component_harnes.Domain.Component.{VersionValue}

abbrev pub push_front : ℕ → List Text → List Text
push_front c [] = (c ∷ []) ∷ []
push_front c (w ∷ ws) = (c ∷ w) ∷ ws

-- `value.split('.')`
unfoldable pub split_at_dots : Text → List Text
split_at_dots [] = [] ∷ []
split_at_dots (c ∷ s) =
    let rest = split_at_dots s in if nat_eq c b'.' then [] ∷ rest else push_front c rest

abbrev pub digits_value : ℕ → Text → ℕ
digits_value n [] = n
digits_value n (c ∷ s) = digits_value (10 * n + (c - b'0')) s

-- `part.parse::<u128>().ok()` of a text of digits
abbrev pub parse_u128 : Text → Option ℕ
parse_u128 part = if ltb (digits_value 0 part) (2 ^ 128) then some (digits_value 0 part) else none

abbrev pub push_part : Option ℕ → Option (List ℕ) → Option (List ℕ)
push_part none ps = none
push_part (some p) none = none
push_part (some p) (some ps) = some (p ∷ ps)

unfoldable pub parse_parts : List Text → Option (List ℕ)
parse_parts [] = some []
parse_parts (part ∷ parts) =
    let rest = parse_parts parts in
    if is_empty part || not (all is_ascii_digit part)
    then none
    else push_part (parse_u128 part) rest

unfoldable pub numeric_version_parts : Text → Option (List ℕ)
numeric_version_parts value = parse_parts (split_at_dots value)

-- the loop over the indices, where a part that is not there counts as 0
unfoldable pub parts_at_least : List ℕ → List ℕ → Bool
parts_at_least [] [] = true
parts_at_least [] (m ∷ ms) = elim (compare 0 m) [
  | Ordering.lt ↦ false
  | Ordering.gt ↦ true
  | Ordering.eq ↦ parts_at_least [] ms
]
parts_at_least (a ∷ as') [] = elim (compare a 0) [
  | Ordering.lt ↦ false
  | Ordering.gt ↦ true
  | Ordering.eq ↦ parts_at_least as' []
]
parts_at_least (a ∷ as') (m ∷ ms) = elim (compare a m) [
  | Ordering.lt ↦ false
  | Ordering.gt ↦ true
  | Ordering.eq ↦ parts_at_least as' ms
]

-- `version.normalized.filter(non-empty).unwrap_or(&version.raw)`
abbrev pub text_or : Option Text → Text → Text
text_or none raw = raw
text_or (some []) raw = raw
text_or (some (c ∷ s)) raw = c ∷ s

abbrev pub version_text : VersionValue → Text
version_text v = text_or v.normalized v.raw

abbrev pub both_at_least : Option (List ℕ) → Option (List ℕ) → Bool
both_at_least none minimum = false
both_at_least (some a) none = false
both_at_least (some a) (some m) = parts_at_least a m

unfoldable pub version_at_least : VersionValue → VersionValue → Bool
version_at_least actual minimum =
    if version_text actual == version_text minimum
    then true
    else both_at_least (numeric_version_parts (version_text actual))
        (numeric_version_parts (version_text minimum))
