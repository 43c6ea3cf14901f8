-- ===== src/Selection/Policy.antt =====
-- The policy checks of crates/reforge-domain/src/selection.rs.
use windows_component_harnes.Prelude.{
  ℕ, Bool, true, false, not, ◌&&◌, ◌||◌, ◌*◌, Option, none, some, List, ◌++◌, any, length, ltb, leb,
  if◌then◌else◌,
}
use windows_component_harnes.Prelude.Order.{◌==◌}
use windows_component_harnes.Prelude.OrdMap.{is_some}
use windows_component_harnes.Prelude.OrdSet
use windows_component_harnes.Prelude.Text.{Text, text_ord, codes, len, has_control, is_empty, trim}
use windows_component_harnes.Domain.Error.{
  Result, ok, err, ◌>>=◌, ◌>>◌, coded_error, reject_if, selection_incomplete, security_policy,
}
use windows_component_harnes.Domain.Kinds.{ComponentKind, RestoreStrategy, ArtifactPolicy}
use windows_component_harnes.Domain.Component.{Component, ArtifactRef, Provenance, Publisher}
use windows_component_harnes.Domain.Selection.{
  SelectionPolicy, SecretSelectionPolicy, LargeDataSelectionPolicy, UnknownBinarySelectionPolicy,
}

-- DEFAULT_LARGE_ARTIFACT_THRESHOLD_BYTES
abbrev pub large_artifact_threshold : ℕ
large_artifact_threshold = 16 * 1024 * 1024

-- MAX_SELECTION_WARNINGS
abbrev pub max_selection_warnings : ℕ
max_selection_warnings = 4096

-- a `BTreeSet<String>`
abbrev pub Warnings : Type 0
Warnings = List Text

unfoldable pub push_warning : Warnings → Text → Result Warnings
push_warning warnings warning =
    if is_empty warning || (ltb 512 (len warning) || has_control warning)
    then err (coded_error security_policy none none)
    else let grown = OrdSet.insert warning warnings in
      if ltb max_selection_warnings (length grown)
      then err (coded_error security_policy none none)
      else ok grown

abbrev pub is_secret_kind : ComponentKind → Bool
is_secret_kind ComponentKind.secret_reference = true
is_secret_kind _ = false

abbrev pub is_sensitive : Component → Bool
is_sensitive c = c.selection.sensitive || is_secret_kind c.kind

abbrev pub is_portable_binary_kind : ComponentKind → Bool
is_portable_binary_kind ComponentKind.portable_binary = true
is_portable_binary_kind _ = false

abbrev pub is_unknown_kind : ComponentKind → Bool
is_unknown_kind ComponentKind.unknown = true
is_unknown_kind _ = false

abbrev pub is_portable_binary_strategy : RestoreStrategy → Bool
is_portable_binary_strategy RestoreStrategy.portable_binary = true
is_portable_binary_strategy _ = false

abbrev pub policy_is : ArtifactPolicy → ArtifactPolicy → Bool
policy_is ArtifactPolicy.config ArtifactPolicy.config = true
policy_is ArtifactPolicy.«data» ArtifactPolicy.«data» = true
policy_is ArtifactPolicy.export ArtifactPolicy.export = true
policy_is ArtifactPolicy.portable_binary ArtifactPolicy.portable_binary = true
policy_is ArtifactPolicy.large_opt_in ArtifactPolicy.large_opt_in = true
policy_is ArtifactPolicy.secret_reference ArtifactPolicy.secret_reference = true
policy_is ArtifactPolicy.manual ArtifactPolicy.manual = true
policy_is _ _ = false

unfoldable pub is_unknown_binary : Component → Bool
is_unknown_binary c =
    is_portable_binary_kind c.kind
    || (is_portable_binary_strategy c.restore.primary
        || (any (λ a. policy_is a.policy ArtifactPolicy.portable_binary) c.artifacts
            || (is_unknown_kind c.kind
                && (is_some c.identity.executable_name || is_some c.identity.executable_hash))))

abbrev pub is_some_and {ℓ} : {A : Type ℓ} → Option A → (A → Bool) → Bool
is_some_and none p = false
is_some_and (some a) p = p a

unfoldable pub has_safe_binary_hash : Component → Bool
has_safe_binary_hash c = is_some_and c.identity.executable_hash λ hash.
    not (is_empty hash) && (leb (len hash) 512 && (trim hash == hash && not (has_control hash)))

unfoldable pub has_source_report : Component → Bool
has_source_report c =
    is_some_and c.provenance
      (λ (p : Provenance). is_some p.source_url || (is_some p.package_id || is_some p.provider))
    || (is_some c.identity.provider_source || is_some c.identity.provider_package)

unfoldable pub has_signature_report : Component → Bool
has_signature_report c = is_some_and c.publisher λ (p : Publisher).
    is_some_and p.certificate_thumbprint (λ thumbprint. not (is_empty (trim thumbprint)))

abbrev pub push_warning_unless : Bool → Warnings → Text → Result Warnings
push_warning_unless true warnings warning = ok warnings
push_warning_unless false warnings warning = push_warning warnings warning

unfoldable pub check_sensitive : SelectionPolicy → Component → Text → Warnings → Result Warnings
check_sensitive policy c warning warnings = elim policy.secrets [
  | SecretSelectionPolicy.exclude ↦ err (coded_error security_policy (some c.id) none)
  | SecretSelectionPolicy.vault_explicit ↦ push_warning warnings warning
]

unfoldable pub check_unknown_binary : SelectionPolicy → Component → Warnings → Result Warnings
check_unknown_binary policy c warnings = elim policy.unknown_binaries [
  | UnknownBinarySelectionPolicy.exclude ↦ err (coded_error security_policy (some c.id) none)
  | UnknownBinarySelectionPolicy.portable_binary_explicit ↦ do
    reject_if (not (has_safe_binary_hash c)) (coded_error selection_incomplete (some c.id) none)
    warned ←
        push_warning_unless (has_source_report c) warnings
          (codes "Portable binary source is unknown; review before restore: " ++ c.id)
    push_warning_unless (has_signature_report c) warned
        (codes "Portable binary signature is unverified; review before restore: " ++ c.id)
]

unfoldable pub validate_component_policy : SelectionPolicy → Component → Warnings → Result Warnings
validate_component_policy policy c warnings = do
  warned ←
      (if is_sensitive c
        then check_sensitive policy c
            (codes "Sensitive component requires explicit vault handling: " ++ c.id) warnings
        else ok warnings)
  if is_unknown_binary c then check_unknown_binary policy c warned else ok warned

abbrev pub is_secret_artifact : Component → ArtifactRef → Bool
is_secret_artifact c a = policy_is a.policy ArtifactPolicy.secret_reference || is_sensitive c

abbrev pub is_large : ArtifactRef → Bool
is_large a =
    policy_is a.policy ArtifactPolicy.large_opt_in || ltb large_artifact_threshold a.size_bytes

unfoldable pub check_large :
    SelectionPolicy → Component → ArtifactRef → Bool → Warnings → Result Warnings
check_large policy c a explicitly_selected warnings = elim policy.large_data [
  | LargeDataSelectionPolicy.exclude ↦ err (coded_error security_policy (some c.id) none)
  | LargeDataSelectionPolicy.require_confirmation ↦ do
    reject_if (not explicitly_selected) (coded_error selection_incomplete (some c.id) none)
    push_warning warnings (codes "Large artifact explicitly confirmed: " ++ a.id)
]

unfoldable pub validate_artifact_policy :
    SelectionPolicy → Component → ArtifactRef → Bool → Warnings → Result Warnings
validate_artifact_policy policy c a explicitly_selected warnings = do
  warned ←
      (if is_secret_artifact c a
        then check_sensitive policy c (codes "Secret artifact requires vault handling: " ++ a.id)
            warnings
        else ok warnings)
  confirmed ← (if is_large a then check_large policy c a explicitly_selected warned else ok warned)
  push_warning_unless (not (policy_is a.policy ArtifactPolicy.manual)) confirmed
      (codes "Artifact requires manual restore review: " ++ a.id)

unfoldable pub default_artifact_selection : ArtifactRef → Bool
default_artifact_selection a =
    if policy_is a.policy ArtifactPolicy.large_opt_in
      || (policy_is a.policy ArtifactPolicy.secret_reference
          || (policy_is a.policy ArtifactPolicy.portable_binary
              || (policy_is a.policy ArtifactPolicy.manual
                  || ltb large_artifact_threshold a.size_bytes)))
    then false
    else policy_is a.policy ArtifactPolicy.config
      || (policy_is a.policy ArtifactPolicy.«data» || policy_is a.policy ArtifactPolicy.export)
