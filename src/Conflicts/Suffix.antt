-- ===== src/Conflicts/Suffix.antt =====
-- `safe_suffix` of crates/reforge-restore/src/conflicts.rs. Its input is a string, whose UTF-8 bytes
-- the loop reads.
use windows_component_harnes.Prelude.{
  ℕ, ◌+◌, ◌/◌, ◌%◌, Bool, true, false, not, ◌||◌, List, [], ◌∷◌, ◌++◌, take, ltb, nat_eq,
  if◌then◌else◌,
}
use windows_component_harnes.Prelude.Text.{Text, codes, is_ascii_alphanumeric, to_ascii_lowercase}

-- `char::encode_utf8`
abbrev pub encode : ℕ → List ℕ
encode c =
    if ltb c 0x80
    then c ∷ []
    else if ltb c 0x800
    then (0xc0 + c / 64) ∷ (0x80 + c % 64) ∷ []
    else if ltb c 0x10000
    then (0xe0 + c / 4096) ∷ (0x80 + c / 64 % 64) ∷ (0x80 + c % 64) ∷ []
    else (0xf0 + c / 262144) ∷ (0x80 + c / 4096 % 64) ∷ (0x80 + c / 64 % 64) ∷ (0x80 + c % 64) ∷ []

-- `value.bytes()`
abbrev pub bytes : Text → List ℕ
bytes [] = []
bytes (c ∷ s) = encode c ++ bytes s

abbrev pub is_kept : ℕ → Bool
is_kept b = is_ascii_alphanumeric b || (nat_eq b b'-' || (nat_eq b b'_' || nat_eq b b'.'))

unfoldable pub safe_character : ℕ → ℕ
safe_character b = if is_kept b then to_ascii_lowercase b else b'-'

-- What the loop still pushes, where `started` says that `output` is not empty.
unfoldable pub push_all : Bool → Bool → List ℕ → Text
push_all started previous_dash [] = []
push_all started previous_dash (b ∷ rest) = elim (nat_eq (safe_character b) b'-') [
  | true ↦ elim (not started || previous_dash) [
    | true ↦ push_all started previous_dash rest
    | false ↦ safe_character b ∷ push_all true true rest
  ]
  | false ↦ safe_character b ∷ push_all true false rest
]

-- `if output.ends_with('-') { output.pop(); }`
unfoldable pub drop_last_dash : Text → Text
drop_last_dash [] = []
drop_last_dash (c ∷ []) = if nat_eq c b'-' then [] else c ∷ []
drop_last_dash (c ∷ d ∷ s) = c ∷ drop_last_dash (d ∷ s)

abbrev pub or_default : Text → Text
or_default [] = codes "default"
or_default (c ∷ s) = c ∷ s

unfoldable pub safe_suffix : Text → Text
safe_suffix value = or_default (drop_last_dash (push_all false false (take 128 (bytes value))))
