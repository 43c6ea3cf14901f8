-- ===== src/Selection/Closure.antt =====
-- What an accepted selection holds: the user's components and what they need.
use windows_component_harnes.Prelude.{true, not, ◌&&◌, ◌≡◌, ◌↔◌, arith}
use windows_component_harnes.Prelude.OrdSet
use windows_component_harnes.Prelude.Text.{text_ord}
use windows_component_harnes.Domain.Error.{ok}
use windows_component_harnes.Domain.Component.{ComponentId, ComponentGraph}
use windows_component_harnes.Domain.Selection.{SelectionInput, SelectionClosure}
use windows_component_harnes.Selection.{build_selection_closure}
use windows_component_harnes.Selection.Closes.{roots-chosen, closed-IsSound, Needed-selected}
use windows_component_harnes.Selection.Sound.{Needed}
use windows_component_harnes.Selection.Accepted.{build-IsAccepted}

-- The selected components are exactly those that the user chose and those that they need, directly
-- or not, by required dependencies.
pub selected-Needed :
    (graph : ComponentGraph) (input : SelectionInput) (result : SelectionClosure)
    → build_selection_closure graph input ≡ ok result
    → (x : ComponentId)
    → (OrdSet.contains x result.selected_components ≡ true) ↔ Needed graph input.components x
selected-Needed graph input result h x =
    let a = build-IsAccepted graph input result h in
    rw a.selected ((closed-IsSound a.closes).needed x, Needed-selected a.closes x)

-- The automatically added dependencies are the selected components that the user did not choose.
pub auto_added-selected :
    (graph : ComponentGraph) (input : SelectionInput) (result : SelectionClosure)
    → build_selection_closure graph input ≡ ok result
    → (x : ComponentId)
    → OrdSet.contains x result.auto_added_dependencies
      ≡ (OrdSet.contains x result.selected_components && not (OrdSet.contains x input.components))
auto_added-selected graph input result h x =
    let a = build-IsAccepted graph input result h in
    let s = closed-IsSound a.closes in
    rw (a.selected, a.auto_added, ← roots-chosen a.closes x) (ground (arith, s.split x, s.apart x))
