-- ===== src/Selection/Samples.antt =====
-- A run of `build_selection_closure` (crates/reforge-domain/src/selection.rs): the user chooses one
-- component, whose required dependency is added and brings a configuration file with it.
use windows_component_harnes.Prelude.{
  ℕ, ◌<◌, ◌≤◌, ◌^◌, true, false, not, ◌&&◌, ◌≡◌, ◌≢◌, ◌↔◌, refl, inl, none, some, List, [], ◌∷◌,
}
use windows_component_harnes.Prelude.OrdMap
use windows_component_harnes.Prelude.OrdSet
use windows_component_harnes.Prelude.Sort.{insert_by, sort_by}
use windows_component_harnes.Prelude.Text.{Text, codes, text_ord}
use windows_component_harnes.Domain.Error.{ok, stuck, default_retryability}
use windows_component_harnes.Domain.Kinds.{
  ComponentKind, Confidence, Portability, RestoreStrategy, ConfigScope, ContentType, ArtifactPolicy,
  IdentityQuality, DependencyKind,
}
use windows_component_harnes.Domain.Paths.{
  KnownFolderToken, split, join, keep_segments, normalize_relative_path, validate,
}
use windows_component_harnes.Domain.Component.{
  Identity, DependencyEdge, ArtifactRef, Component, ComponentGraph,
}
use windows_component_harnes.Domain.Selection.{
  SecretSelectionPolicy, LargeDataSelectionPolicy, UnknownBinarySelectionPolicy, SelectionInput,
  SelectionClosure,
}
use windows_component_harnes.Selection.{freeze, build_selection_closure}
use windows_component_harnes.Selection.Index.{
  index_components_from, index_components, index_artifacts_from, index_artifacts,
  dependency_kind_order, index_edges_from, edge_le, index_edges, index_artifact_selection_from,
  index_artifact_selection, user_selected_from, user_selected_components,
}
use windows_component_harnes.Selection.Closing.{follow_edge, follow_edges, close}
use windows_component_harnes.Selection.Policy.{
  push_warning, is_unknown_binary, has_safe_binary_hash, has_source_report, has_signature_report,
  check_sensitive, check_unknown_binary, validate_component_policy, check_large,
  validate_artifact_policy, default_artifact_selection,
}
use windows_component_harnes.Selection.Picking.{
  warn_added, expose_edges, expose_optional_edges, validate_components, check_owners, pick_included,
  pick_artifacts, artifact_le, pick,
}
use windows_component_harnes.Selection.Sound.{Needed}
use windows_component_harnes.Selection.Permits.{IsPermitted}
use windows_component_harnes.Selection.Closure.{selected-Needed, auto_added-selected}
use windows_component_harnes.Selection.Safety.{
  IsJustified, selected-IsPermitted, selected_artifact-IsJustified, total_bytes_bounded,
}
use windows_component_harnes.Selection.Total.{build_selection_closure-ne-stuck}

abbrev a_tool : Text
a_tool = codes "tool"

abbrev a_runtime : Text
a_runtime = codes "runtime"

abbrev a_config : Text
a_config = codes "config"

abbrev no_identity : Identity
no_identity = record {
  provider_package = none;
  provider_source = none;
  package_family = none;
  product_name = none;
  executable_name = none;
  publisher = none;
  executable_hash = none;
  install_role = none;
  identity_quality = IdentityQuality.product;
}

abbrev sample_component : Text → ComponentKind → List DependencyEdge → List ArtifactRef → Component
sample_component id kind dependencies artifacts = record {
  id = id;
  kind = kind;
  identity = no_identity;
  display_name = id;
  version = none;
  architecture = none;
  publisher = none;
  provenance = none;
  evidence = [];
  confidence = Confidence.high;
  dependencies = dependencies;
  artifacts = artifacts;
  restore = record {
    primary = RestoreStrategy.reinstall;
    alternatives = [];
    portability = Portability.portable;
    requires_elevation = false;
    requires_user_action = false;
    rationale = [];
  };
  compatibility = record {
    required_os = none;
    required_architecture = none;
    requires_provider = none;
    requires_runtime = none;
    requires_elevation = false;
    requires_wsl = false;
    requires_docker = false;
  };
  verification = [];
  selection = record {
    recommended = true;
    score = 1;
    selected_by_default = true;
    sensitive = false;
    size_bytes = 5;
  };
}

abbrev the_edge : DependencyEdge
the_edge = record {
  source = a_tool;
  to = a_runtime;
  kind = DependencyKind.required_runtime;
  required = true;
  evidence = [];
  confidence = Confidence.high;
}

abbrev the_artifact : ArtifactRef
the_artifact = record {
  id = a_config;
  source_path = record { root = KnownFolderToken.user_profile; relative = codes "x/y.json" };
  scope = ConfigScope.user;
  size_bytes = 5;
  content_type = ContentType.json;
  policy = ArtifactPolicy.config;
  object = none;
}

abbrev runtime_component : Component
runtime_component = sample_component a_runtime ComponentKind.runtime [] (the_artifact ∷ [])

abbrev sample_graph : ComponentGraph
sample_graph = record {
  components =
      runtime_component ∷ sample_component a_tool ComponentKind.tool (the_edge ∷ []) [] ∷ [];
  edges = [];
}

abbrev sample_input : SelectionInput
sample_input = record {
  components = a_tool ∷ [];
  artifacts = record { artifact = a_config; include = true } ∷ [];
  policy = record {
    secrets = SecretSelectionPolicy.exclude;
    large_data = LargeDataSelectionPolicy.exclude;
    unknown_binaries = UnknownBinarySelectionPolicy.exclude;
    max_bytes = some 100;
  };
}

abbrev sample_selection : SelectionClosure
sample_selection = record {
  selected_components = a_runtime ∷ a_tool ∷ [];
  selected_artifacts = a_config ∷ [];
  auto_added_dependencies = a_runtime ∷ [];
  total_bytes = 5;
  warnings = codes "Required dependency was automatically added: runtime" ∷ [];
}

sample-builds : build_selection_closure sample_graph sample_input ≡ ok sample_selection
unfolding freeze build_selection_closure index_components_from index_components index_artifacts_from
    index_artifacts dependency_kind_order index_edges_from edge_le index_edges
    index_artifact_selection_from index_artifact_selection user_selected_from
    user_selected_components follow_edge follow_edges close push_warning is_unknown_binary
    has_safe_binary_hash has_source_report has_signature_report check_sensitive check_unknown_binary
    validate_component_policy check_large validate_artifact_policy default_artifact_selection
    warn_added expose_edges expose_optional_edges validate_components check_owners pick_included
    pick_artifacts artifact_le pick OrdMap.get OrdMap.insert OrdSet.contains OrdSet.insert insert_by
    sort_by split join keep_segments normalize_relative_path validate default_retryability
sample-builds = refl

selected-Needed_example :
    (OrdSet.contains a_runtime sample_selection.selected_components ≡ true)
    ↔ Needed sample_graph sample_input.components a_runtime
selected-Needed_example =
    selected-Needed sample_graph sample_input sample_selection sample-builds a_runtime

auto_added-selected_example : OrdSet.contains a_runtime sample_selection.auto_added_dependencies ≡ (
    OrdSet.contains a_runtime sample_selection.selected_components
    && not (OrdSet.contains a_runtime sample_input.components))
auto_added-selected_example =
    auto_added-selected sample_graph sample_input sample_selection sample-builds a_runtime

runtime-selected : OrdSet.contains a_runtime sample_selection.selected_components ≡ true
unfolding OrdSet.contains
runtime-selected = refl

selected-IsPermitted_example : IsPermitted sample_input.policy runtime_component
selected-IsPermitted_example =
    selected-IsPermitted sample_graph sample_input sample_selection sample-builds runtime_component
      (inl refl) runtime-selected

config-selected : OrdSet.contains a_config sample_selection.selected_artifacts ≡ true
unfolding OrdSet.contains
config-selected = refl

selected_artifact-IsJustified_example :
    IsJustified sample_graph sample_input sample_selection.selected_components a_config
selected_artifact-IsJustified_example =
    selected_artifact-IsJustified sample_graph sample_input sample_selection sample-builds a_config
      config-selected

total_bytes_bounded_example :
    (sample_selection.total_bytes < 2 ^ 64)
    × ((maximum : ℕ)
        → sample_input.policy.max_bytes ≡ some maximum
        → sample_selection.total_bytes ≤ maximum)
total_bytes_bounded_example =
    total_bytes_bounded sample_graph sample_input sample_selection sample-builds

build_selection_closure-ne-stuck_example : build_selection_closure sample_graph sample_input ≢ stuck
build_selection_closure-ne-stuck_example =
    build_selection_closure-ne-stuck sample_graph sample_input
