-- ===== src/Domain/Kinds.antt =====
-- The enums of crates/reforge-domain/src/model.rs.
pub data ComponentKind : Type 0 where
  application «package» runtime tool harness mcp_server skill agent hook plugin : ComponentKind
  browser browser_profile editor extension configuration data_artifact : ComponentKind
  secret_reference environment_variable system_feature service scheduled_task : ComponentKind
  shell portable_binary wsl_distribution docker_context docker_image : ComponentKind
  docker_volume unknown : ComponentKind

pub data Confidence : Type 0 where
  confirmed high medium low unknown : Confidence

pub data Portability : Type 0 where
  portable supported_export sync_restorable partially_portable application_bound : Portability
  user_bound machine_bound reauth_required unsupported unknown : Portability

pub data RestoreStrategy : Type 0 where
  reinstall config_portable data_portable export_import portable_binary : RestoreStrategy
  secret_exportable reauth_required machine_bound partial manual unknown : RestoreStrategy

pub data Architecture : Type 0 where
  x86 x64 arm64 neutral unknown : Architecture

pub data ConfigScope : Type 0 where
  process user system project managed : ConfigScope

pub data ContentType : Type 0 where
  utf8_text json jsonc toml binary archive unknown : ContentType

pub data ArtifactPolicy : Type 0 where
  config «data» export portable_binary large_opt_in secret_reference manual : ArtifactPolicy

pub data IdentityQuality : Type 0 where
  provider package_family signed_product product local : IdentityQuality

pub data RiskLevel : Type 0 where
  low medium high critical : RiskLevel

pub data DependencyKind : Type 0 where
  required_runtime required_package installed_through configures uses_secret : DependencyKind
  optional_feature provides_executable contains restores_before verifies_with : DependencyKind
  related_only : DependencyKind

pub data McpTransport : Type 0 where
  stdio streamable_http sse unknown : McpTransport

pub data FileMode : Type 0 where
  preserve_target replace create_only : FileMode

pub data MergePolicy : Type 0 where
  preserve_unknown replace_known_keys append_unique manual_on_conflict : MergePolicy

pub data ManualActionState : Type 0 where
  pending acknowledged completed skipped : ManualActionState

pub data RunStatus : Type 0 where
  planned waiting_for_approval running waiting_for_user waiting_for_reboot : RunStatus
  completed partial failed cancelled interrupted : RunStatus

pub data OperationState : Type 0 where
  pending running completed failed skipped waiting_for_user : OperationState
  waiting_for_reboot interrupted cancelled : OperationState

pub data ApprovalState : Type 0 where
  pending approved rejected : ApprovalState

pub data RestoreMode : Type 0 where
  rebuild migration : RestoreMode

pub data ConflictKind : Type 0 where
  already_satisfied version_difference config_difference data_collision : ConflictKind
  secret_collision path_collision port_collision dependency_conflict : ConflictKind
  architecture_conflict unsupported_target : ConflictKind

pub data ConflictResolution : Type 0 where
  skip install replace merge preserve_target manual : ConflictResolution
