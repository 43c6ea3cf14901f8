-- ===== src/Operations/Keys.antt =====
-- The text keys that order operations: `normalized_destination` and its helpers, `sort_key` and
-- `scoped_idempotency_key` of crates/reforge-restore/src/operations.rs.
use windows_component_harnes.Prelude.{
  Ordering, Bool, true, false, Option, none, some, List, [], ◌∷◌, ◌++◌, map, take, if◌then◌else◌,
}
use windows_component_harnes.Prelude.Sort.{sort_by}
use windows_component_harnes.Prelude.Text.{Text, codes, text_ord, cmp_text, is_control, lowercase}
use windows_component_harnes.Domain.Kinds.{ConfigScope, ComponentKind}
use windows_component_harnes.Domain.Paths.{KnownFolderToken, PathToken}
use windows_component_harnes.Domain.Component.{VerificationRule}
use windows_component_harnes.Domain.Operation.{OperationKind}

unfoldable pub safe_key_text : Text → Text
safe_key_text value = take 256 (map (λ c. if is_control c then b'_' else c) value)

unfoldable pub folder_key : KnownFolderToken → Text
folder_key KnownFolderToken.user_profile = codes "user_profile"
folder_key KnownFolderToken.roaming_app_data = codes "roaming_app_data"
folder_key KnownFolderToken.local_app_data = codes "local_app_data"
folder_key KnownFolderToken.program_data = codes "program_data"
folder_key KnownFolderToken.program_files = codes "program_files"
folder_key KnownFolderToken.program_files_x86 = codes "program_files_x86"
folder_key KnownFolderToken.start_menu = codes "start_menu"
folder_key KnownFolderToken.desktop = codes "desktop"
folder_key KnownFolderToken.startup = codes "startup"
folder_key KnownFolderToken.documents = codes "documents"
folder_key (KnownFolderToken.user_selected id) = codes "user_selected:" ++ safe_key_text id

unfoldable pub path_key : PathToken → Text
path_key path = folder_key path.root ++ (codes ":" ++ lowercase path.relative)

-- `{scope:?}`, the derived `Debug`
abbrev pub debug_scope : ConfigScope → Text
debug_scope ConfigScope.process = codes "Process"
debug_scope ConfigScope.user = codes "User"
debug_scope ConfigScope.system = codes "System"
debug_scope ConfigScope.project = codes "Project"
debug_scope ConfigScope.managed = codes "Managed"

-- `{kind:?}`, the derived `Debug`
abbrev pub debug_kind : ComponentKind → Text
debug_kind ComponentKind.application = codes "Application"
debug_kind ComponentKind.«package» = codes "Package"
debug_kind ComponentKind.runtime = codes "Runtime"
debug_kind ComponentKind.tool = codes "Tool"
debug_kind ComponentKind.harness = codes "Harness"
debug_kind ComponentKind.mcp_server = codes "McpServer"
debug_kind ComponentKind.skill = codes "Skill"
debug_kind ComponentKind.agent = codes "Agent"
debug_kind ComponentKind.hook = codes "Hook"
debug_kind ComponentKind.plugin = codes "Plugin"
debug_kind ComponentKind.browser = codes "Browser"
debug_kind ComponentKind.browser_profile = codes "BrowserProfile"
debug_kind ComponentKind.editor = codes "Editor"
debug_kind ComponentKind.extension = codes "Extension"
debug_kind ComponentKind.configuration = codes "Configuration"
debug_kind ComponentKind.data_artifact = codes "DataArtifact"
debug_kind ComponentKind.secret_reference = codes "SecretReference"
debug_kind ComponentKind.environment_variable = codes "EnvironmentVariable"
debug_kind ComponentKind.system_feature = codes "SystemFeature"
debug_kind ComponentKind.service = codes "Service"
debug_kind ComponentKind.scheduled_task = codes "ScheduledTask"
debug_kind ComponentKind.shell = codes "Shell"
debug_kind ComponentKind.portable_binary = codes "PortableBinary"
debug_kind ComponentKind.wsl_distribution = codes "WslDistribution"
debug_kind ComponentKind.docker_context = codes "DockerContext"
debug_kind ComponentKind.docker_image = codes "DockerImage"
debug_kind ComponentKind.docker_volume = codes "DockerVolume"
debug_kind ComponentKind.unknown = codes "Unknown"

unfoldable pub verification_destination : VerificationRule → Text
verification_destination (VerificationRule.file destination object) = path_key destination
verification_destination (VerificationRule.file_version destination v p) = path_key destination
verification_destination (VerificationRule.config_parses destination t) = path_key destination
verification_destination (VerificationRule.mcp_registration name config) = path_key config
verification_destination (VerificationRule.browser_artifact profile) = path_key profile
verification_destination (VerificationRule.provider_identity provider spec) =
    codes "provider:" ++ (provider ++ (codes ":" ++ safe_key_text spec.id))
verification_destination (VerificationRule.environment scope name expected) =
    codes "environment:" ++ (debug_scope scope ++ (codes ":" ++ safe_key_text name))
verification_destination (VerificationRule.wsl_state distro version) =
    codes "wsl:" ++ safe_key_text distro
verification_destination (VerificationRule.docker_object kind identity) =
    codes "docker:" ++ (debug_kind kind ++ (codes ":" ++ safe_key_text identity))
verification_destination (VerificationRule.secure_target secret) = codes "secure-target:" ++ secret

-- `option.map(safe_key_text).unwrap_or_default()`
abbrev pub optional_key : Option Text → Text
optional_key none = []
optional_key (some t) = safe_key_text t

abbrev pub text_le : Text → Text → Bool
text_le a b = elim (cmp_text a b) [ Ordering.gt ↦ false | _ ↦ true ]

-- `values.join("|")`
abbrev pub join_bars : List Text → Text
join_bars [] = []
join_bars (w ∷ []) = w
join_bars (w ∷ v ∷ ws) = w ++ (b'|' ∷ join_bars (v ∷ ws))

unfoldable pub normalized_destination : OperationKind → Text
normalized_destination (OperationKind.ensure_provider provider) = codes "provider:" ++ provider
normalized_destination (OperationKind.install_package provider spec policy) =
    codes "package:" ++ (provider ++ (codes ":" ++ safe_key_text spec.id))
normalized_destination (OperationKind.ensure_runtime runtime) =
    codes "runtime:" ++ safe_key_text runtime.id
normalized_destination (OperationKind.write_file destination o m) = path_key destination
normalized_destination (OperationKind.merge_json destination o p) = path_key destination
normalized_destination (OperationKind.merge_toml destination o p) = path_key destination
normalized_destination (OperationKind.set_user_environment name value) =
    codes "environment:" ++ safe_key_text name
normalized_destination (OperationKind.append_user_path entries) =
    codes "path:" ++ join_bars (sort_by text_le (map path_key entries))
normalized_destination (OperationKind.import_wsl distro object) =
    codes "wsl:" ++ safe_key_text distro.distribution
normalized_destination (OperationKind.restore_docker_image image object) =
    codes "docker-image:"
    ++ (safe_key_text image.repository ++ (codes ":" ++ optional_key image.tag))
normalized_destination (OperationKind.restore_docker_volume volume object) =
    codes "docker-volume:" ++ safe_key_text volume.name
normalized_destination (OperationKind.install_vs_code_extension id version profile) =
    codes "vscode-extension:" ++ (safe_key_text id ++ (codes ":" ++ optional_key profile))
normalized_destination (OperationKind.register_mcp server) =
    codes "mcp:"
    ++ (safe_key_text server.name ++ (codes ":" ++ path_key server.source_config.source_path))
normalized_destination (OperationKind.open_manual_action action) =
    codes "manual:" ++ safe_key_text action.id
normalized_destination (OperationKind.require_reboot reason) =
    codes "reboot:" ++ safe_key_text reason
normalized_destination (OperationKind.verify rule) = verification_destination rule
