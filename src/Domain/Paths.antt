-- ===== src/Domain/Paths.antt =====
-- Tokenized paths: `KnownFolderToken`, `PathToken` and `normalize_relative_path` of
-- crates/reforge-domain/src/model.rs. The messages of the errors are constructors of `PathError`.
mod Segments
pub mod Normal
mod Samples
use windows_component_harnes.Prelude.{
  ℕ, Bool, true, false, ◌&&◌, ◌||◌, List, [], ◌∷◌, ◌++◌, any, nat_eq, ltb, if◌then◌else◌, not,
}
use windows_component_harnes.Prelude.Order.{◌==◌}
use windows_component_harnes.Prelude.Text.{Text, codes, starts_with, has_control, text_ord}

pub data KnownFolderToken : Type 0 where
  user_profile roaming_app_data local_app_data program_data program_files : KnownFolderToken
  program_files_x86 start_menu startup desktop documents : KnownFolderToken
  user_selected : Text → KnownFolderToken

pub record PathToken : Type 0 where
  pub root : KnownFolderToken
  pub relative : Text

pub data PathError : Type 0 where
  nul absolute drive_prefix unc_prefix control_character parent_segment : PathError
  invalid_colon not_normalized : PathError

pub data PathResult {ℓ} (A : Type ℓ) : Type ℓ where
  valid : A → PathResult A
  invalid : PathError → PathResult A

infixl 5 ◌>>=◌ ◌>>◌
abbrev pub ◌>>=◌ {ℓ κ} :
    {A : Type ℓ} {B : Type κ} → PathResult A → (A → PathResult B) → PathResult B
valid a >>= f = f a
invalid e >>= f = invalid e

abbrev pub ◌>>◌ {ℓ} : {B : Type ℓ} → PathResult (Unit {0}) → PathResult B → PathResult B
m >> k = m >>= λ _. k

abbrev pub refuse_if : Bool → PathError → PathResult (Unit {0})
refuse_if true e = invalid e
refuse_if false e = valid tt

abbrev pub is_separator : ℕ → Bool
is_separator c = nat_eq c b'/' || nat_eq c b'\\'

-- `relative.len() >= 2 && relative.as_bytes()[1] == b':'`: a second byte that is a colon stands
-- behind a first character of one byte.
abbrev pub has_drive_prefix : Text → Bool
has_drive_prefix [] = false
has_drive_prefix (c ∷ []) = false
has_drive_prefix (c ∷ d ∷ s) = ltb c 0x80 && nat_eq d b':'

abbrev pub has_colon : Text → Bool
has_colon = any (λ c. nat_eq c b':')

abbrev pub push_front : ℕ → List Text → List Text
push_front c [] = (c ∷ []) ∷ []
push_front c (w ∷ ws) = (c ∷ w) ∷ ws

-- `relative.split(['/', '\\'])`
unfoldable pub split : Text → List Text
split [] = [] ∷ []
split (c ∷ s) = let rest = split s in if is_separator c then [] ∷ rest else push_front c rest

-- `segments.join("/")`
unfoldable pub join : List Text → Text
join [] = []
join (w ∷ []) = w
join (w ∷ v ∷ ws) = w ++ (b'/' ∷ join (v ∷ ws))

abbrev pub dot : Text
dot = codes "."

abbrev pub dot_dot : Text
dot_dot = codes ".."

-- the loop over the segments
unfoldable pub keep_segments : List Text → PathResult (List Text)
keep_segments [] = valid []
keep_segments (w ∷ ws) =
    let rest = keep_segments ws in
    if w == [] || w == dot
    then rest
    else if w == dot_dot
    then invalid parent_segment
    else if has_colon w
    then invalid invalid_colon
    else (rest >>= λ vs. valid (w ∷ vs))

unfoldable pub normalize_relative_path : Text → PathResult Text
normalize_relative_path relative = do
  refuse_if (any (λ c. nat_eq c 0) relative) nul
  refuse_if (starts_with relative (codes "/") || starts_with relative (codes "\\")) absolute
  refuse_if (has_drive_prefix relative) drive_prefix
  refuse_if (starts_with relative (codes "//") || starts_with relative (codes "\\\\")) unc_prefix
  refuse_if (has_control relative) control_character
  segments ← keep_segments (split relative)
  valid (join segments)

-- `PathToken::new`
unfoldable pub new : KnownFolderToken → Text → PathResult PathToken
new root relative = do
  normalized ← normalize_relative_path relative
  valid (record { root = root; relative = normalized })

unfoldable pub validate : PathToken → PathResult (Unit {0})
validate token = do
  normalized ← normalize_relative_path token.relative
  refuse_if (not (normalized == token.relative)) not_normalized
