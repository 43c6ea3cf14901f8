-- ===== src/Selection/Closes.antt =====
-- What the worklist loop of `build_selection_closure` ends with.
use windows_component_harnes.Prelude.{
  suc, true, ◌≡◌, inl, [], In-reverse, In-reverse_of, arith, length,
}
use windows_component_harnes.Prelude.OrdMap
use windows_component_harnes.Prelude.OrdSet
use windows_component_harnes.Prelude.Text.{text_ord}
use windows_component_harnes.Domain.Component.{ComponentId, ComponentGraph}
use windows_component_harnes.Domain.Selection.{SelectionInput}
use windows_component_harnes.Selection.Index.{Components, index_edges, user_selected_components}
use windows_component_harnes.Selection.Edges.{index_edges-Listed}
use windows_component_harnes.Selection.Closing.{Work, start}
use windows_component_harnes.Selection.Worklist.{IsHandled, close-IsClosedAt}
use windows_component_harnes.Selection.Sound.{
  Needed, root, dependency, IsSound, close-IsSound, user_selected_from_lem,
}
use windows_component_harnes.Selection.Accepted.{IsClosed}

module _ {graph : ComponentGraph} {input : SelectionInput} {components : Components} {closed : Work}
    (a : IsClosed graph input components closed) where
  pub roots-chosen :
      (x : ComponentId) → OrdSet.contains x a.roots ≡ OrdSet.contains x input.components
  unfolding user_selected_components OrdSet.contains
  roots-chosen x = (user_selected_from_lem components [] input.components a.roots a.chosen x).0

  roots-known :
      (x : ComponentId) → OrdSet.contains x a.roots ≡ true → OrdMap.contains_key x components ≡ true
  unfolding user_selected_components
  roots-known x h =
      (user_selected_from_lem components [] input.components a.roots a.chosen x).1
        (rw (roots-chosen x) at h)

  root-Needed :
      (x : ComponentId) → OrdSet.contains x a.roots ≡ true → Needed graph input.components x
  root-Needed x h = root ((OrdSet.In-contains x input.components).0 (rw (roots-chosen x) at h))

  start-IsSound : IsSound graph components a.roots input.components (start a.roots)
  unfolding OrdSet.contains
  start-IsSound = record {
    needed = root-Needed;
    stacked = λ x i. root-Needed x ((OrdSet.In-contains x a.roots).1 (In-reverse x a.roots i));
    known = roots-known;
    split = λ x. ground arith;
    apart = λ x h. cc;
  }

  pub closed-IsSound : IsSound graph components a.roots input.components closed
  closed-IsSound =
      close-IsSound graph components a.roots input.components (suc (length components))
        (start a.roots) closed a.closing start-IsSound

  start-IsHandled : IsHandled (index_edges graph) (start a.roots)
  start-IsHandled x h = inl (In-reverse_of x a.roots ((OrdSet.In-contains x a.roots).0 h))

  -- what the roots need is selected
  pub Needed-selected :
      (x : ComponentId) → Needed graph input.components x → OrdSet.contains x closed.selected ≡ true
  Needed-selected x (root i) =
      let chosen : OrdSet.contains x a.roots ≡ true =
        rw (roots-chosen x) ((OrdSet.In-contains x input.components).1 i) in
      ground (arith, closed-IsSound.split x)
  Needed-selected x (dependency e listed required n same) =
      let (e', at, to, req) = index_edges-Listed graph e listed in
      let done =
        close-IsClosedAt components (index_edges graph) (suc (length components)) (start a.roots)
          closed a.closing start-IsHandled e.source (Needed-selected e.source n) e' at
          (rw req required) in
      rw (← same) (rw to at done)
