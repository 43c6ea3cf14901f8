-- ===== src/Selection/Permits.antt =====
-- What the policy checks of a component and of an artifact establish.
use windows_component_harnes.Prelude.{Bool, true, false, ◌≡◌, refl, arith, if◌then◌else◌}
use windows_component_harnes.Prelude.Text.{Text, text_ord}
use windows_component_harnes.Domain.Error.{ok, >>=-eq-ok}
use windows_component_harnes.Domain.Component.{Component, ArtifactRef}
use windows_component_harnes.Domain.Selection.{
  SelectionPolicy, SecretSelectionPolicy, LargeDataSelectionPolicy, UnknownBinarySelectionPolicy,
}
use windows_component_harnes.Selection.Policy.{
  Warnings, is_sensitive, is_unknown_binary, has_safe_binary_hash, is_secret_artifact, is_large,
  validate_component_policy, validate_artifact_policy, check_sensitive, check_unknown_binary,
  check_large,
}

-- What the policy asks of a component.
pub record IsPermitted (policy : SelectionPolicy) (c : Component) : Type 0 where
  pub no_secret : policy.secrets ≡ SecretSelectionPolicy.exclude → is_sensitive c ≡ false
  pub no_binary :
      policy.unknown_binaries ≡ UnknownBinarySelectionPolicy.exclude → is_unknown_binary c ≡ false
  pub hashed : is_unknown_binary c ≡ true → has_safe_binary_hash c ≡ true

check_unknown_binary-ok :
    (policy : SelectionPolicy) (c : Component) (w w' : Warnings)
    → check_unknown_binary policy c w ≡ ok w'
    → (policy.unknown_binaries ≡ UnknownBinarySelectionPolicy.portable_binary_explicit)
      × (has_safe_binary_hash c ≡ true)
unfolding check_unknown_binary
check_unknown_binary-ok policy c w w' h = ground (arith)

-- A sensitive component, or an artifact with a secret, passes only where the policy names the vault.
sensitive-excluded :
    (policy : SelectionPolicy) (c : Component) (sensitive : Bool) (text : Text) (w w' : Warnings)
    → (if sensitive then check_sensitive policy c text w else ok w) ≡ ok w'
    → policy.secrets ≡ SecretSelectionPolicy.exclude
    → sensitive ≡ false
unfolding check_sensitive
sensitive-excluded policy c sensitive text w w' h e = ground arith

binary-permitted :
    (policy : SelectionPolicy) (c : Component) (binary : Bool) (w w' : Warnings)
    → (if binary then check_unknown_binary policy c w else ok w) ≡ ok w'
    → (policy.unknown_binaries ≡ UnknownBinarySelectionPolicy.exclude → binary ≡ false)
      × (binary ≡ true → has_safe_binary_hash c ≡ true)
binary-permitted policy c true w w' h =
    let (explicit, hashed) = check_unknown_binary-ok policy c w w' h in (λ e. cc, λ e. hashed)
binary-permitted policy c false w w' h = (λ e. refl, λ e. cc)

pub validate_component_policy-IsPermitted :
    (policy : SelectionPolicy) (c : Component) (w w' : Warnings)
    → validate_component_policy policy c w ≡ ok w'
    → IsPermitted policy c
unfolding validate_component_policy
validate_component_policy-IsPermitted policy c w w' h =
    let (warned, h1, h2) =
      >>=-eq-ok _ (λ v. if is_unknown_binary c then check_unknown_binary policy c v else ok v) h in
    let (no_binary, hashed) = binary-permitted policy c (is_unknown_binary c) warned w' h2 in
    record {
      no_secret = sensitive-excluded policy c (is_sensitive c) _ w warned h1;
      no_binary = no_binary;
      hashed = hashed;
    }

-- What the policy asks of an artifact that is included.
pub record IsAllowed (policy : SelectionPolicy) (explicit : Bool) (c : Component) (a : ArtifactRef)
    : Type 0 where
  pub no_secret : policy.secrets ≡ SecretSelectionPolicy.exclude → is_secret_artifact c a ≡ false
  pub large :
      is_large a ≡ true
      → (policy.large_data ≡ LargeDataSelectionPolicy.require_confirmation) × (explicit ≡ true)

large-confirmed :
    (policy : SelectionPolicy) (c : Component) (a : ArtifactRef) (explicit large : Bool)
    (w w' : Warnings)
    → (if large then check_large policy c a explicit w else ok w) ≡ ok w'
    → large ≡ true
    → (policy.large_data ≡ LargeDataSelectionPolicy.require_confirmation) × (explicit ≡ true)
unfolding check_large
large-confirmed policy c a explicit large w w' h e = ground arith

pub validate_artifact_policy-IsAllowed :
    (policy : SelectionPolicy) (c : Component) (a : ArtifactRef) (explicit : Bool) (w w' : Warnings)
    → validate_artifact_policy policy c a explicit w ≡ ok w'
    → IsAllowed policy explicit c a
unfolding validate_artifact_policy
validate_artifact_policy-IsAllowed policy c a explicit w w' h =
    let (warned, h1, h2) = >>=-eq-ok _ _ h in
    let (confirmed, h3, _) = >>=-eq-ok _ _ h2 in
    record {
      no_secret = sensitive-excluded policy c (is_secret_artifact c a) _ w warned h1;
      large = large-confirmed policy c a explicit (is_large a) warned confirmed h3;
    }
