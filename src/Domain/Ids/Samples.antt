-- ===== src/Domain/Ids/Samples.antt =====
-- Identifiers for crates/reforge-domain/src/ids.rs: the last underscore ends the run's part.
use windows_component_harnes.Prelude.{ℕ, ◌≡◌, Bool, refl, none, some, arith}
use windows_component_harnes.Prelude.Order.{◌==◌}
use windows_component_harnes.Prelude.Text.{Text, codes, text_ord}
use windows_component_harnes.Domain.Ids.{
  strip_prefix, rsplit_once, operation_id, for_run, object_id, component_id,
}
use windows_component_harnes.Domain.Ids.Decimal.{digits, decimal}
use windows_component_harnes.Domain.Ids.RoundTrip.{for_run_injective}

abbrev the_run : Text
the_run = codes "0190-run"

abbrev is_the_run : Text → Bool
is_the_run t = t == the_run

twelfth : for_run is_the_run the_run 12 ≡ some (codes "op_0190-run_12")
unfolding for_run operation_id strip_prefix rsplit_once decimal digits
twelfth = refl

no_ordinal : operation_id is_the_run (codes "op_0190-run_") ≡ none
unfolding operation_id strip_prefix rsplit_once
no_ordinal = refl

short_digests : component_id (codes "cmp_abc") ≡ object_id (codes "obj_0f")
unfolding component_id object_id strip_prefix
short_digests = refl

for_run_injective_example :
    ((id : Text) × (for_run is_the_run the_run 12 ≡ some id))
    × (for_run is_the_run the_run 12 ≡ for_run is_the_run the_run 13 → ◌≡◌ {A = ℕ} 12 13)
for_run_injective_example =
    for_run_injective is_the_run the_run 12 13 refl (omega arith) (omega arith)
