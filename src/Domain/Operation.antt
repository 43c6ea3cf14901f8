-- ===== src/Domain/Operation.antt =====
-- Restore operations and plans: the structs of crates/reforge-domain/src/model.rs.
use windows_component_harnes.Prelude.{ℕ, Bool, Option, List}
use windows_component_harnes.Prelude.Text.{Text}
use windows_component_harnes.Domain.Kinds.{
  Architecture, ConfigScope, McpTransport, FileMode, MergePolicy, ManualActionState, RiskLevel,
  ConflictKind, ConflictResolution, RestoreMode, ContentType,
}
use windows_component_harnes.Domain.Paths.{PathToken}
use windows_component_harnes.Domain.Component.{
  ComponentId, ObjectId, ProviderId, VersionValue, PackageSpec, SafeValueRef, VerificationRule,
  ArtifactRef,
}

abbrev pub OperationId : Type 0
OperationId = Text

abbrev pub RunId : Type 0
RunId = Text

pub record PackageInstallPolicy : Type 0 where
  pub accept_source_agreements : Bool
  pub accept_package_agreements : Bool
  pub silent : Bool
  pub allow_reboot : Bool

pub record ExecutableRef : Type 0 where
  pub name : Text
  pub component : Option ComponentId
  pub observed_path : Option PathToken

pub record EnvBinding : Type 0 where
  pub name : Text
  pub value : SafeValueRef

pub data McpWorkingDirectory : Type 0 where
  tokenized : PathToken → McpWorkingDirectory
  environment_reference : Text → McpWorkingDirectory
  secret_reference : ComponentId → Text → McpWorkingDirectory
  redacted_unknown : McpWorkingDirectory

pub data McpEndpoint : Type 0 where
  public : Text → McpEndpoint
  environment_reference : Text → McpEndpoint
  secret_reference : ComponentId → Text → McpEndpoint
  redacted_unknown : McpEndpoint

pub record McpServerSpec : Type 0 where
  pub name : Text
  pub scope : ConfigScope
  pub transport : McpTransport
  pub command : Option ExecutableRef
  pub args : List SafeValueRef
  pub cwd : Option McpWorkingDirectory
  pub endpoint : Option McpEndpoint
  pub environment : List EnvBinding
  pub required_runtime : Option ComponentId
  pub required_package : Option PackageSpec
  pub source_config : ArtifactRef

pub record RuntimeSpec : Type 0 where
  pub id : Text
  pub version : Option Text
  pub architecture : Option Architecture

pub record WslSpec : Type 0 where
  pub distribution : Text
  pub wsl_version : Option ℕ  -- u8

pub record DockerImageSpec : Type 0 where
  pub repository : Text
  pub tag : Option Text
  pub image_id : Option Text

pub record DockerVolumeSpec : Type 0 where
  pub name : Text
  pub driver : Option Text

pub record ManualAction : Type 0 where
  pub id : Text
  pub component : Option ComponentId
  pub title : Text
  pub reason : Text
  pub risk : RiskLevel
  pub instructions : List Text
  pub docs_url : Option Text
  pub state : ManualActionState
  pub independent_operations_may_continue : Bool
  pub acknowledged_at : Option ℕ
  pub verification : Option VerificationRule

pub data OperationKind : Type 0 where
  ensure_provider : (provider : ProviderId) → OperationKind
  install_package :
      (provider : ProviderId) (spec : PackageSpec) (policy : PackageInstallPolicy) → OperationKind
  ensure_runtime : (runtime : RuntimeSpec) → OperationKind
  write_file : (destination : PathToken) (object : ObjectId) (file_mode : FileMode) → OperationKind
  merge_json : (destination : PathToken) (object : ObjectId) (policy : MergePolicy) → OperationKind
  merge_toml : (destination : PathToken) (object : ObjectId) (policy : MergePolicy) → OperationKind
  set_user_environment : (name : Text) (value : SafeValueRef) → OperationKind
  append_user_path : (entries : List PathToken) → OperationKind
  import_wsl : (distro : WslSpec) (object : ObjectId) → OperationKind
  restore_docker_image : (image : DockerImageSpec) (object : ObjectId) → OperationKind
  restore_docker_volume : (volume : DockerVolumeSpec) (object : ObjectId) → OperationKind
  install_vs_code_extension :
      (id : Text) (version : Option Text) (profile : Option Text) → OperationKind
  register_mcp : (server : McpServerSpec) → OperationKind
  open_manual_action : (action : ManualAction) → OperationKind
  require_reboot : (reason : Text) → OperationKind
  verify : (rule : VerificationRule) → OperationKind

pub data Precondition : Type 0 where
  always : Precondition
  target_fingerprint : (fingerprint : Text) → Precondition
  component_absent : (component : ComponentId) → Precondition
  component_version : (component : ComponentId) (minimum : Option VersionValue) → Precondition
  artifact_present : (object : ObjectId) → Precondition
  manual_approval : (action : Text) → Precondition

pub record Operation : Type 0 where
  pub id : OperationId
  pub component : ComponentId
  pub kind : OperationKind
  pub prerequisites : List OperationId
  pub precondition : Precondition
  pub idempotency_key : Text
  pub verification : List VerificationRule
  pub requires_elevation : Bool
  pub non_idempotent : Bool

pub record Conflict : Type 0 where
  pub id : Text
  pub component : Option ComponentId
  pub kind : ConflictKind
  pub source_summary : Text
  pub target_summary : Text
  pub resolution : ConflictResolution
  pub requires_confirmation : Bool

pub record ObjectEntry : Type 0 where
  pub id : ObjectId
  pub uncompressed_bytes : ℕ
  pub compressed_bytes : ℕ
  pub content_type : ContentType

pub record RestorePlan : Type 0 where
  pub format_version : ℕ
  pub run_id : RunId
  pub package_id : Text
  pub mode : RestoreMode
  pub target_fingerprint : Text
  pub selected_components : List ComponentId
  pub operations : List Operation
  pub conflicts : List Conflict
  pub manual_actions : List ManualAction
  pub warnings : List Text
