-- ===== src/Conflicts.antt =====
-- Conflicts of crates/reforge-restore/src/conflicts.rs: their identifiers and default resolutions.
pub mod Suffix
pub mod Slug
mod Samples
use windows_component_harnes.Prelude.{Bool, true, false, Option, none, some, ◌++◌}
use windows_component_harnes.Prelude.Text.{Text, codes}
use windows_component_harnes.Domain.Kinds.{ConflictKind, ConflictResolution}
use windows_component_harnes.Domain.Component.{ComponentId}
use windows_component_harnes.Domain.Operation.{Conflict}
use Suffix.{safe_suffix}

pub record ClassifiedConflict : Type 0 where
  pub conflict : Conflict
  pub blocks_planning : Bool

pub data VersionDirection : Type 0 where
  target_newer target_older : VersionDirection

unfoldable pub conflict_kind_key : ConflictKind → Text
conflict_kind_key ConflictKind.already_satisfied = codes "already-satisfied"
conflict_kind_key ConflictKind.version_difference = codes "version-difference"
conflict_kind_key ConflictKind.config_difference = codes "config-difference"
conflict_kind_key ConflictKind.data_collision = codes "data-collision"
conflict_kind_key ConflictKind.secret_collision = codes "secret-collision"
conflict_kind_key ConflictKind.path_collision = codes "path-collision"
conflict_kind_key ConflictKind.port_collision = codes "port-collision"
conflict_kind_key ConflictKind.dependency_conflict = codes "dependency-conflict"
conflict_kind_key ConflictKind.architecture_conflict = codes "architecture-conflict"
conflict_kind_key ConflictKind.unsupported_target = codes "unsupported-target"

-- the resolution, `requires_confirmation` and `blocks_planning`
abbrev pub default_resolution :
    ConflictKind → Option VersionDirection → ConflictResolution × Bool × Bool
default_resolution ConflictKind.already_satisfied d = (ConflictResolution.skip, false, false)
default_resolution ConflictKind.version_difference (some VersionDirection.target_newer) =
    (ConflictResolution.skip, false, false)
default_resolution ConflictKind.version_difference (some VersionDirection.target_older) =
    (ConflictResolution.install, true, false)
default_resolution ConflictKind.version_difference none =
    (ConflictResolution.preserve_target, true, false)
default_resolution ConflictKind.config_difference d = (ConflictResolution.merge, true, false)
default_resolution ConflictKind.data_collision d = (ConflictResolution.manual, true, false)
default_resolution ConflictKind.secret_collision d =
    (ConflictResolution.preserve_target, true, false)
default_resolution ConflictKind.port_collision d = (ConflictResolution.manual, true, false)
default_resolution ConflictKind.path_collision d = (ConflictResolution.merge, false, false)
default_resolution ConflictKind.dependency_conflict d = (ConflictResolution.manual, false, true)
default_resolution ConflictKind.architecture_conflict d = (ConflictResolution.manual, false, true)
default_resolution ConflictKind.unsupported_target d = (ConflictResolution.manual, false, true)

abbrev pub component_key : Option ComponentId → Text
component_key none = codes "target"
component_key (some c) = c

unfoldable pub classify_conflict :
    Option ComponentId
    → ConflictKind
    → Text
    → Text
    → Text
    → Option VersionDirection
    → ClassifiedConflict
classify_conflict component kind source_summary target_summary suffix version_direction =
    let (resolution, requires_confirmation, blocks_planning) =
      default_resolution kind version_direction in
    record {
      conflict = record {
        id =
            codes "conflict:"
            ++ (component_key component
                ++ (codes ":" ++ (conflict_kind_key kind ++ (codes ":" ++ safe_suffix suffix))));
        component = component;
        kind = kind;
        source_summary = source_summary;
        target_summary = target_summary;
        resolution = resolution;
        requires_confirmation = requires_confirmation;
      };
      blocks_planning = blocks_planning;
    }
