-- ===== src/Conflicts/Samples.antt =====
-- A suffix with characters that crates/reforge-restore/src/conflicts.rs replaces.
use windows_component_harnes.Prelude.{◌≡◌, refl}
use windows_component_harnes.Prelude.Text.{codes}
use windows_component_harnes.Conflicts.Suffix.{
  safe_character, push_all, drop_last_dash, safe_suffix,
}
use windows_component_harnes.Conflicts.Slug.{IsSlug, safe_suffix-IsSlug}

spaced-suffix : safe_suffix (codes "--Git  Config!") ≡ codes "git-config"
unfolding safe_character push_all drop_last_dash safe_suffix
spaced-suffix = refl

empty-suffix : safe_suffix (codes " / ") ≡ codes "default"
unfolding safe_character push_all drop_last_dash safe_suffix
empty-suffix = refl

safe_suffix-IsSlug_example : IsSlug (safe_suffix (codes "--Git  Config!"))
safe_suffix-IsSlug_example = safe_suffix-IsSlug (codes "--Git  Config!")
