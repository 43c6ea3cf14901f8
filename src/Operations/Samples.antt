-- ===== src/Operations/Samples.antt =====
-- Concrete operations and versions for crates/reforge-restore/src/operations.rs: a write to a folder's
-- file below another write's destination, and two dotted versions.
use windows_component_harnes.Prelude.{true, false, ◌≡◌, ◌≢◌, refl, ◌⊎◌, none, some, [], ◌∷◌}
use windows_component_harnes.Prelude.OrdMap
use windows_component_harnes.Prelude.Order.{==_iff}
use windows_component_harnes.Prelude.Text.{Text, codes, starts_with, text_ord}
use windows_component_harnes.Domain.Kinds.{FileMode}
use windows_component_harnes.Domain.Paths.{KnownFolderToken, PathToken}
use windows_component_harnes.Domain.Component.{VersionValue}
use windows_component_harnes.Domain.Operation.{OperationKind, Precondition}
use windows_component_harnes.Operations.Phase.{
  OperationPhase, OperationSpec, operation_kind_key, default_phase, phase_prefix,
  operation_kind_key-default_phase,
}
use windows_component_harnes.Operations.Overlap.{
  Specs, write_destination, paths_overlap, order_overlapping_writes,
}
use windows_component_harnes.Operations.Growth.{Grows, IsBefore}
use windows_component_harnes.Operations.OverlapOrder.{
  order_overlapping_writes-IsBefore, order_overlapping_writes-Grows,
}
use windows_component_harnes.Operations.Version.{
  split_at_dots, parse_parts, numeric_version_parts, version_text, parts_at_least, version_at_least,
}
use windows_component_harnes.Operations.VersionOrder.{
  version_at_least_preorder, version_at_least_total,
}

operation_kind_key-default_phase_example :
    starts_with
      (operation_kind_key (OperationKind.require_reboot (codes "driver")))
      (phase_prefix (default_phase (OperationKind.require_reboot (codes "driver"))))
    ≡ true
operation_kind_key-default_phase_example =
    operation_kind_key-default_phase (OperationKind.require_reboot (codes "driver"))

abbrev version_of : Text → VersionValue
version_of t = record { raw = t; normalized = none }

abbrev v1_10 : VersionValue
v1_10 = version_of (codes "1.10")

abbrev v1_9 : VersionValue
v1_9 = version_of (codes "1.9")

abbrev v1 : VersionValue
v1 = version_of (codes "1")

parts-1_10 : numeric_version_parts (version_text v1_10) ≡ some (1 ∷ 10 ∷ [])
unfolding split_at_dots parse_parts numeric_version_parts
parts-1_10 = refl

parts-1_9 : numeric_version_parts (version_text v1_9) ≡ some (1 ∷ 9 ∷ [])
unfolding split_at_dots parse_parts numeric_version_parts
parts-1_9 = refl

newer : version_at_least v1_10 v1_9 ≡ true
unfolding split_at_dots parse_parts numeric_version_parts parts_at_least version_at_least
newer = refl

older : version_at_least v1 v1_9 ≡ false
unfolding split_at_dots parse_parts numeric_version_parts parts_at_least version_at_least
older = refl

version_at_least_preorder_example :
    (version_at_least v1_10 v1_10 ≡ true)
    × (version_at_least v1_10 v1_9 ≡ true
        → version_at_least v1_9 v1 ≡ true
        → version_at_least v1_10 v1 ≡ true)
version_at_least_preorder_example = version_at_least_preorder v1_10 v1_9 v1

version_at_least_total_example :
    (version_at_least v1_10 v1_9 ≡ true) ⊎ (version_at_least v1_9 v1_10 ≡ true)
version_at_least_total_example =
    version_at_least_total v1_10 v1_9 (1 ∷ 10 ∷ []) (1 ∷ 9 ∷ []) parts-1_10 parts-1_9

abbrev path_at : Text → PathToken
path_at relative = record { root = KnownFolderToken.user_profile; relative = relative }

abbrev write_to : Text → Text → OperationSpec
write_to key relative = record {
  key = key;
  component = codes "tool";
  kind = OperationKind.write_file (path_at relative) (codes "object") FileMode.replace;
  phase = OperationPhase.file_restore;
  prerequisites = [];
  precondition = Precondition.always;
  idempotency_key = key;
  verification = [];
  requires_elevation = false;
  non_idempotent = false;
}

abbrev first : Text
first = codes "a"

abbrev second : Text
second = codes "b"

abbrev two_writes : Specs
two_writes =
    (first, write_to first (codes "Dir")) ∷ (second, write_to second (codes "dir/file")) ∷ []

first-found : OrdMap.get first two_writes ≡ some (write_to first (codes "Dir"))
unfolding OrdMap.get
first-found = refl

second-found : OrdMap.get second two_writes ≡ some (write_to second (codes "dir/file"))
unfolding OrdMap.get
second-found = refl

first-writes : write_destination (write_to first (codes "Dir")).kind ≡ some (path_at (codes "Dir"))
unfolding write_destination
first-writes = refl

second-writes :
    write_destination (write_to second (codes "dir/file")).kind ≡ some (path_at (codes "dir/file"))
unfolding write_destination
second-writes = refl

dir-overlaps : paths_overlap (path_at (codes "Dir")) (path_at (codes "dir/file")) ≡ true
unfolding paths_overlap
dir-overlaps = refl

keys-differ : first ≢ second
keys-differ e = let h : false ≡ true = (==_iff first second).1 e in cc (h)

order_overlapping_writes-IsBefore_example :
    IsBefore (order_overlapping_writes two_writes) first second
    ⊎ IsBefore (order_overlapping_writes two_writes) second first
order_overlapping_writes-IsBefore_example =
    order_overlapping_writes-IsBefore two_writes first second (write_to first (codes "Dir"))
      (write_to second (codes "dir/file")) (path_at (codes "Dir")) (path_at (codes "dir/file"))
      first-found second-found keys-differ first-writes second-writes dir-overlaps

order_overlapping_writes-Grows_example : Grows two_writes (order_overlapping_writes two_writes)
order_overlapping_writes-Grows_example = order_overlapping_writes-Grows two_writes
