-- ===== src/Domain/Component.antt =====
-- Components and their parts: the structs of crates/reforge-domain/src/model.rs. Identifiers are
-- their texts, a URL is its text, and timestamps are numbers. The free-form JSON `extensions` of a
-- component, which no modelled operation reads, are left out.
use windows_component_harnes.Prelude.{ℕ, Bool, Option, List}
use windows_component_harnes.Prelude.Text.{Text}
use windows_component_harnes.Domain.Kinds.{
  ComponentKind, Confidence, Portability, RestoreStrategy, Architecture, ConfigScope, ContentType,
  ArtifactPolicy, IdentityQuality, DependencyKind,
}
use windows_component_harnes.Domain.Paths.{PathToken}

abbrev pub ComponentId : Type 0
ComponentId = Text

abbrev pub ArtifactId : Type 0
ArtifactId = Text

abbrev pub ObjectId : Type 0
ObjectId = Text

abbrev pub ProviderId : Type 0
ProviderId = Text

pub record VersionValue : Type 0 where
  pub raw : Text
  pub normalized : Option Text

pub record Publisher : Type 0 where
  pub name : Text
  pub certificate_thumbprint : Option Text

pub record Provenance : Type 0 where
  pub provider : Option ProviderId
  pub package_id : Option Text
  pub source_url : Option Text
  pub observed_version : Option Text
  pub adapter_id : Text
  pub adapter_version : Text

pub record EvidenceRef : Type 0 where
  pub id : Text
  pub strength : ℕ  -- u8

pub record Identity : Type 0 where
  pub provider_package : Option (ProviderId × Text)
  pub provider_source : Option Text
  pub package_family : Option Text
  pub product_name : Option Text
  pub executable_name : Option Text
  pub publisher : Option Text
  pub executable_hash : Option Text
  pub install_role : Option Text
  pub identity_quality : IdentityQuality

pub record DependencyEdge : Type 0 where
  pub source : ComponentId  -- `from`
  pub to : ComponentId
  pub kind : DependencyKind
  pub required : Bool
  pub evidence : List Text
  pub confidence : Confidence

pub record ArtifactRef : Type 0 where
  pub id : ArtifactId
  pub source_path : PathToken
  pub scope : ConfigScope
  pub size_bytes : ℕ  -- u64
  pub content_type : ContentType
  pub policy : ArtifactPolicy
  pub object : Option ObjectId

pub record RestoreDescriptor : Type 0 where
  pub primary : RestoreStrategy
  pub alternatives : List RestoreStrategy
  pub portability : Portability
  pub requires_elevation : Bool
  pub requires_user_action : Bool
  pub rationale : List Text

pub record Compatibility : Type 0 where
  pub required_os : Option Text
  pub required_architecture : Option Architecture
  pub requires_provider : Option ProviderId
  pub requires_runtime : Option ComponentId
  pub requires_elevation : Bool
  pub requires_wsl : Bool
  pub requires_docker : Bool

-- `score` is an `i16`; no modelled operation computes with it, and it is kept as its bit pattern.
pub record SelectionMetadata : Type 0 where
  pub recommended : Bool
  pub score : ℕ
  pub selected_by_default : Bool
  pub sensitive : Bool
  pub size_bytes : ℕ

pub record PackageSpec : Type 0 where
  pub provider : ProviderId
  pub id : Text
  pub version : Option Text
  pub source_name : Option Text
  pub source_identifier : Option Text
  pub source : Option Text
  pub architecture : Option Architecture
  pub installer_hash : Option Text

pub data SafeValueRef : Type 0 where
  literal_non_secret : Text → SafeValueRef
  environment_reference : Text → SafeValueRef
  secret_reference : ComponentId → Text → SafeValueRef
  redacted_unknown : SafeValueRef

pub data VerificationRule : Type 0 where
  provider_identity : (provider : ProviderId) (spec : PackageSpec) → VerificationRule
  file : (destination : PathToken) (object : Option ObjectId) → VerificationRule
  file_version :
      (destination : PathToken) (version : Option VersionValue) (publisher : Option Publisher)
      → VerificationRule
  config_parses : (destination : PathToken) (content_type : ContentType) → VerificationRule
  environment : (scope : ConfigScope) (name : Text) (expected : SafeValueRef) → VerificationRule
  mcp_registration : (name : Text) (config : PathToken) → VerificationRule
  wsl_state : (distro : Text) (version : Option Text) → VerificationRule
  docker_object : (kind : ComponentKind) (identity : Text) → VerificationRule
  browser_artifact : (profile : PathToken) → VerificationRule
  secure_target : (secret : ComponentId) → VerificationRule

pub record Component : Type 0 where
  pub id : ComponentId
  pub kind : ComponentKind
  pub identity : Identity
  pub display_name : Text
  pub version : Option VersionValue
  pub architecture : Option Architecture
  pub publisher : Option Publisher
  pub provenance : Option Provenance
  pub evidence : List EvidenceRef
  pub confidence : Confidence
  pub dependencies : List DependencyEdge
  pub artifacts : List ArtifactRef
  pub restore : RestoreDescriptor
  pub compatibility : Compatibility
  pub verification : List VerificationRule
  pub selection : SelectionMetadata

-- `PackageGraph`, also named `ComponentGraph`
pub record ComponentGraph : Type 0 where
  pub components : List Component
  pub edges : List DependencyEdge
