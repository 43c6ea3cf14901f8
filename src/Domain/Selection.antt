-- ===== src/Domain/Selection.antt =====
-- The selection types of crates/reforge-domain/src/model.rs.
use windows_component_harnes.Prelude.{ℕ, Bool, Option, List}
use windows_component_harnes.Prelude.Text.{Text}
use windows_component_harnes.Domain.Component.{ComponentId, ArtifactId}

pub data SecretSelectionPolicy : Type 0 where
  exclude vault_explicit : SecretSelectionPolicy

pub data LargeDataSelectionPolicy : Type 0 where
  exclude require_confirmation : LargeDataSelectionPolicy

pub data UnknownBinarySelectionPolicy : Type 0 where
  exclude portable_binary_explicit : UnknownBinarySelectionPolicy

pub record SelectionPolicy : Type 0 where
  pub secrets : SecretSelectionPolicy
  pub large_data : LargeDataSelectionPolicy
  pub unknown_binaries : UnknownBinarySelectionPolicy
  pub max_bytes : Option ℕ  -- u64

pub record ArtifactSelection : Type 0 where
  pub artifact : ArtifactId
  pub include : Bool

pub record SelectionInput : Type 0 where
  pub components : List ComponentId
  pub artifacts : List ArtifactSelection
  pub policy : SelectionPolicy

pub record SelectionClosure : Type 0 where
  pub selected_components : List ComponentId
  pub selected_artifacts : List ArtifactId
  pub auto_added_dependencies : List ComponentId
  pub total_bytes : ℕ  -- u64
  pub warnings : List Text
