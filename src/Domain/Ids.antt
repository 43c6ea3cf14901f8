-- ===== src/Domain/Ids.antt =====
-- Identifiers of crates/reforge-domain/src/ids.rs. That a text parses as a UUID of version 7 is what
-- the uuid library says, and a parameter here; an identifier error is `none`.
pub mod Decimal
pub mod RoundTrip
mod Samples
use windows_component_harnes.Prelude.{
  ℕ, ◌&&◌, ◌||◌, Bool, true, false, not, Option, none, some, List, [], ◌∷◌, ◌++◌, all, leb, ltb,
  nat_eq, if◌then◌else◌,
}
use windows_component_harnes.Prelude.Text.{
  Text, codes, len, is_empty, is_ascii_digit, is_ascii_lowercase,
}
use Decimal.{decimal}

-- `str::strip_prefix`
unfoldable pub strip_prefix : Text → Text → Option Text
strip_prefix [] s = some s
strip_prefix (p ∷ ps) [] = none
strip_prefix (p ∷ ps) (c ∷ s) = if nat_eq p c then strip_prefix ps s else none

abbrev pub extend_head : ℕ → Option (Text × Text) → Option (Text × Text) → Option (Text × Text)
extend_head c none otherwise = otherwise
extend_head c (some (a, b)) otherwise = some (c ∷ a, b)

-- `rsplit_once('_')`
unfoldable pub rsplit_once : Text → Option (Text × Text)
rsplit_once [] = none
rsplit_once (c ∷ s) = extend_head c (rsplit_once s) (if nat_eq c b'_' then some ([], s) else none)

abbrev pub when : Bool → Text → Option Text
when true t = some t
when false t = none

abbrev pub is_base32 : ℕ → Bool
is_base32 c = is_ascii_lowercase c || (leb b'2' c && leb c b'7')

abbrev pub is_hex : ℕ → Bool
is_hex c = is_ascii_digit c || (leb b'a' c && leb c b'f')

-- `ComponentId::new`
unfoldable pub component_id : Text → Option Text
component_id value = elim (strip_prefix (codes "cmp_") value) [
  | none ↦ none
  | some digest ↦ when (nat_eq (len digest) 52 && all is_base32 digest) value
]

-- `ObjectId::new`
unfoldable pub object_id : Text → Option Text
object_id value = elim (strip_prefix (codes "obj_") value) [
  | none ↦ none
  | some digest ↦ when (nat_eq (len digest) 64 && all is_hex digest) value
]

-- the test of an ordinal in `OperationId::new`
abbrev pub is_ordinal : Text → Bool
is_ordinal ordinal =
    not (is_empty ordinal || (ltb 20 (len ordinal) || not (all is_ascii_digit ordinal)))

module _ (is_run_id : Text → Bool) where
  -- `OperationId::new`
  unfoldable pub operation_id : Text → Option Text
  operation_id value = elim (strip_prefix (codes "op_") value) [
    | none ↦ none
    | some remainder ↦ elim (rsplit_once remainder) [
      | none ↦ none
      | some (run, ordinal) ↦ when (is_run_id run && is_ordinal ordinal) value
    ]
  ]

  -- `OperationId::for_run`
  unfoldable pub for_run : Text → ℕ → Option Text
  for_run run_id ordinal = operation_id (codes "op_" ++ (run_id ++ (codes "_" ++ decimal ordinal)))
