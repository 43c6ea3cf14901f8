-- ===== src/Operations/Phase.antt =====
-- `OperationPhase`, `OperationSpec`, `operation_kind_key` and `default_phase` of
-- crates/reforge-restore/src/operations.rs.
use windows_component_harnes.Prelude.{ℕ, ◌+◌, ◌/◌, ◌%◌, Bool, true, ◌≡◌, refl, List, [], ◌∷◌}
use windows_component_harnes.Prelude.Text.{Text, codes, starts_with}
use windows_component_harnes.Domain.Component.{ComponentId, VerificationRule}
use windows_component_harnes.Domain.Operation.{OperationKind, Precondition}

pub data OperationPhase : Type 0 where
  provider_bootstrap runtime_bootstrap package_install file_restore : OperationPhase
  environment_restore subsystem_restore application_restore manual verify : OperationPhase

unfoldable pub rank : OperationPhase → ℕ
rank OperationPhase.provider_bootstrap = 0
rank OperationPhase.runtime_bootstrap = 1
rank OperationPhase.package_install = 2
rank OperationPhase.file_restore = 3
rank OperationPhase.environment_restore = 4
rank OperationPhase.subsystem_restore = 5
rank OperationPhase.application_restore = 6
rank OperationPhase.manual = 7
rank OperationPhase.verify = 8

-- `prerequisites` is a `BTreeSet<String>`.
pub record OperationSpec : Type 0 where
  pub key : Text
  pub component : ComponentId
  pub kind : OperationKind
  pub phase : OperationPhase
  pub prerequisites : List Text
  pub precondition : Precondition
  pub idempotency_key : Text
  pub verification : List VerificationRule
  pub requires_elevation : Bool
  pub non_idempotent : Bool

unfoldable pub operation_kind_key : OperationKind → Text
operation_kind_key (OperationKind.ensure_provider p) = codes "00.ensure_provider"
operation_kind_key (OperationKind.ensure_runtime r) = codes "01.ensure_runtime"
operation_kind_key (OperationKind.install_package p s i) = codes "02.install_package"
operation_kind_key (OperationKind.write_file d o m) = codes "03.write_file"
operation_kind_key (OperationKind.merge_json d o p) = codes "03.merge_json"
operation_kind_key (OperationKind.merge_toml d o p) = codes "03.merge_toml"
operation_kind_key (OperationKind.set_user_environment n v) = codes "04.set_user_environment"
operation_kind_key (OperationKind.append_user_path es) = codes "04.append_user_path"
operation_kind_key (OperationKind.import_wsl d o) = codes "05.import_wsl"
operation_kind_key (OperationKind.restore_docker_image i o) = codes "05.restore_docker_image"
operation_kind_key (OperationKind.restore_docker_volume v o) = codes "05.restore_docker_volume"
operation_kind_key (OperationKind.install_vs_code_extension i v p) =
    codes "06.install_vscode_extension"
operation_kind_key (OperationKind.register_mcp s) = codes "06.register_mcp"
operation_kind_key (OperationKind.open_manual_action a) = codes "07.open_manual_action"
operation_kind_key (OperationKind.require_reboot r) = codes "07.require_reboot"
operation_kind_key (OperationKind.verify r) = codes "08.verify"

unfoldable pub default_phase : OperationKind → OperationPhase
default_phase (OperationKind.ensure_provider p) = OperationPhase.provider_bootstrap
default_phase (OperationKind.ensure_runtime r) = OperationPhase.runtime_bootstrap
default_phase (OperationKind.install_package p s i) = OperationPhase.package_install
default_phase (OperationKind.write_file d o m) = OperationPhase.file_restore
default_phase (OperationKind.merge_json d o p) = OperationPhase.file_restore
default_phase (OperationKind.merge_toml d o p) = OperationPhase.file_restore
default_phase (OperationKind.set_user_environment n v) = OperationPhase.environment_restore
default_phase (OperationKind.append_user_path es) = OperationPhase.environment_restore
default_phase (OperationKind.import_wsl d o) = OperationPhase.subsystem_restore
default_phase (OperationKind.restore_docker_image i o) = OperationPhase.subsystem_restore
default_phase (OperationKind.restore_docker_volume v o) = OperationPhase.subsystem_restore
default_phase (OperationKind.install_vs_code_extension i v p) = OperationPhase.application_restore
default_phase (OperationKind.register_mcp s) = OperationPhase.application_restore
default_phase (OperationKind.open_manual_action a) = OperationPhase.manual
default_phase (OperationKind.require_reboot r) = OperationPhase.manual
default_phase (OperationKind.verify r) = OperationPhase.verify

-- a phase's number in two digits and a point
abbrev pub phase_prefix : OperationPhase → Text
phase_prefix p = (b'0' + rank p / 10) ∷ (b'0' + rank p % 10) ∷ b'.' ∷ []

-- The key of an operation's kind starts with the number of the kind's default phase.
pub operation_kind_key-default_phase :
    (kind : OperationKind)
    → starts_with (operation_kind_key kind) (phase_prefix (default_phase kind)) ≡ true
unfolding operation_kind_key default_phase rank
operation_kind_key-default_phase (OperationKind.ensure_provider p) = refl
operation_kind_key-default_phase (OperationKind.ensure_runtime r) = refl
operation_kind_key-default_phase (OperationKind.install_package p s i) = refl
operation_kind_key-default_phase (OperationKind.write_file d o m) = refl
operation_kind_key-default_phase (OperationKind.merge_json d o p) = refl
operation_kind_key-default_phase (OperationKind.merge_toml d o p) = refl
operation_kind_key-default_phase (OperationKind.set_user_environment n v) = refl
operation_kind_key-default_phase (OperationKind.append_user_path es) = refl
operation_kind_key-default_phase (OperationKind.import_wsl d o) = refl
operation_kind_key-default_phase (OperationKind.restore_docker_image i o) = refl
operation_kind_key-default_phase (OperationKind.restore_docker_volume v o) = refl
operation_kind_key-default_phase (OperationKind.install_vs_code_extension i v p) = refl
operation_kind_key-default_phase (OperationKind.register_mcp s) = refl
operation_kind_key-default_phase (OperationKind.open_manual_action a) = refl
operation_kind_key-default_phase (OperationKind.require_reboot r) = refl
operation_kind_key-default_phase (OperationKind.verify r) = refl
