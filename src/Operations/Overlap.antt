-- ===== src/Operations/Overlap.antt =====
-- `write_destination`, `paths_overlap`, `sort_key` and `order_overlapping_writes` of
-- crates/reforge-restore/src/operations.rs.
use windows_component_harnes.Prelude.{
  ℕ, compare, Ordering, Bool, true, false, ◌&&◌, ◌||◌, not, Option, none, some, List, [], ◌∷◌, ◌++◌,
  map, nat_eq, if◌then◌else◌,
}
use windows_component_harnes.Prelude.Order.{◌==◌}
use windows_component_harnes.Prelude.OrdMap
use windows_component_harnes.Prelude.OrdMap.{OrdMap}
use windows_component_harnes.Prelude.OrdSet
use windows_component_harnes.Prelude.Sort.{sort_by}
use windows_component_harnes.Prelude.Text.{
  Text, text_ord, cmp_text, is_empty, lowercase, starts_with,
}
use windows_component_harnes.Domain.Paths.{KnownFolderToken, PathToken}
use windows_component_harnes.Domain.Operation.{OperationKind, OperationId}
use windows_component_harnes.Operations.Phase.{OperationSpec, rank, operation_kind_key}
use windows_component_harnes.Operations.Keys.{normalized_destination}

unfoldable pub write_destination : OperationKind → Option PathToken
write_destination (OperationKind.write_file destination o m) = some destination
write_destination (OperationKind.merge_json destination o p) = some destination
write_destination (OperationKind.merge_toml destination o p) = some destination
write_destination _ = none

abbrev pub folder_number : KnownFolderToken → ℕ
folder_number KnownFolderToken.user_profile = 0
folder_number KnownFolderToken.roaming_app_data = 1
folder_number KnownFolderToken.local_app_data = 2
folder_number KnownFolderToken.program_data = 3
folder_number KnownFolderToken.program_files = 4
folder_number KnownFolderToken.program_files_x86 = 5
folder_number KnownFolderToken.start_menu = 6
folder_number KnownFolderToken.startup = 7
folder_number KnownFolderToken.desktop = 8
folder_number KnownFolderToken.documents = 9
folder_number (KnownFolderToken.user_selected id) = 10

abbrev pub folder_id : KnownFolderToken → Text
folder_id (KnownFolderToken.user_selected id) = id
folder_id _ = []

-- the derived `PartialEq` of `KnownFolderToken`
abbrev pub same_folder : KnownFolderToken → KnownFolderToken → Bool
same_folder a b = nat_eq (folder_number a) (folder_number b) && folder_id a == folder_id b

-- a path that is not empty, and another path below it
abbrev pub is_inside : Text → Text → Bool
is_inside outer inner = not (is_empty outer) && starts_with inner (outer ++ b'/' ∷ [])

unfoldable pub paths_overlap : PathToken → PathToken → Bool
paths_overlap left right =
    if not (same_folder left.root right.root)
    then false
    else lowercase left.relative == lowercase right.relative
      || (is_inside (lowercase left.relative) (lowercase right.relative)
          || is_inside (lowercase right.relative) (lowercase left.relative))

-- the tuple of `sort_key(operation_id)` behind the rank, in order
abbrev pub id_or : Option OperationId → Text → Text
id_or none key = key
id_or (some id) key = id

abbrev pub sort_texts : OperationSpec → Option OperationId → List Text
sort_texts spec id =
    spec.component
    ∷ operation_kind_key spec.kind
    ∷ normalized_destination spec.kind
    ∷ id_or id spec.idempotency_key
    ∷ []

abbrev pub cmp_texts : List Text → List Text → Ordering
cmp_texts [] [] = Ordering.eq
cmp_texts [] (t ∷ ts) = Ordering.lt
cmp_texts (s ∷ ss) [] = Ordering.gt
cmp_texts (s ∷ ss) (t ∷ ts) = elim (cmp_text s t) [
  | Ordering.lt ↦ Ordering.lt
  | Ordering.gt ↦ Ordering.gt
  | Ordering.eq ↦ cmp_texts ss ts
]

unfoldable pub cmp_sort_key :
    OperationSpec → Option OperationId → OperationSpec → Option OperationId → Ordering
cmp_sort_key a i b j = elim (compare (rank a.phase) (rank b.phase)) [
  | Ordering.lt ↦ Ordering.lt
  | Ordering.gt ↦ Ordering.gt
  | Ordering.eq ↦ cmp_texts (sort_texts a i) (sort_texts b j)
]

abbrev pub Specs : Type 0
Specs = OrdMap Text OperationSpec

unfoldable pub entry_le : (Text × OperationSpec) → (Text × OperationSpec) → Bool
entry_le a b = elim (cmp_sort_key a.1 none b.1 none) [ Ordering.gt ↦ false | _ ↦ true ]

-- The keys, sorted by the sort keys of their specs.
unfoldable pub ordered_keys : Specs → List Text
ordered_keys specs = map (λ e. e.0) (sort_by entry_le specs)

unfoldable pub add_prerequisite : Text → OperationSpec → OperationSpec
add_prerequisite key spec = record spec { prerequisites = OrdSet.insert key spec.prerequisites }

-- `specs.get(key).and_then(|spec| write_destination(&spec.kind))`
abbrev pub destination_of : Option OperationSpec → Option PathToken
destination_of none = none
destination_of (some spec) = write_destination spec.kind

-- `specs.get_mut(right_key).expect(…).add_prerequisite(left_key)`, for a key that was just found
abbrev pub add_to : Text → Text → Option OperationSpec → Specs → Specs
add_to left right none specs = specs
add_to left right (some spec) specs = OrdMap.insert right (add_prerequisite left spec) specs

abbrev pub overlaps_at : PathToken → Option PathToken → Bool
overlaps_at left none = false
overlaps_at left (some right) = paths_overlap left right

-- the inner loop, over the keys behind `left_key`
unfoldable pub order_after : Text → PathToken → List Text → Specs → Specs
order_after left_key left_path [] specs = specs
order_after left_key left_path (right_key ∷ keys) specs = order_after left_key left_path keys (
    if overlaps_at left_path (destination_of (OrdMap.get right_key specs))
    then add_to left_key right_key (OrdMap.get right_key specs) specs
    else specs)

abbrev pub order_at : Text → Option PathToken → List Text → Specs → Specs
order_at left_key none keys specs = specs
order_at left_key (some left_path) keys specs = order_after left_key left_path keys specs

unfoldable pub order_from : List Text → Specs → Specs
order_from [] specs = specs
order_from (left_key ∷ keys) specs =
    order_from keys (order_at left_key (destination_of (OrdMap.get left_key specs)) keys specs)

unfoldable pub order_overlapping_writes : Specs → Specs
order_overlapping_writes specs = order_from (ordered_keys specs) specs
