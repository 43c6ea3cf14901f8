-- ===== src/Domain/Paths/Samples.antt =====
-- A path with both separators and a dot, for `PathToken::new` of crates/reforge-domain/src/model.rs.
use windows_component_harnes.Prelude.{◌≡◌, refl}
use windows_component_harnes.Prelude.Text.{Text, codes}
use windows_component_harnes.Domain.Paths.{
  KnownFolderToken, PathToken, valid, invalid, PathError, split, join, keep_segments,
  normalize_relative_path, new, validate,
}
use windows_component_harnes.Domain.Paths.Normal.{new-validate}

abbrev written_path : Text
written_path = codes "dir\\./sub//file.json"

abbrev sample_token : PathToken
sample_token = record { root = KnownFolderToken.documents; relative = codes "dir/sub/file.json" }

builds : new KnownFolderToken.documents written_path ≡ valid sample_token
unfolding split join keep_segments normalize_relative_path new
builds = refl

refuses_parent :
    new KnownFolderToken.documents (codes "dir/../x") ≡ invalid PathError.parent_segment
unfolding split join keep_segments normalize_relative_path new
refuses_parent = refl

new-validate_example : validate sample_token ≡ valid tt
new-validate_example = new-validate KnownFolderToken.documents written_path sample_token builds
