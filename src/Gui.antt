-- ===== src/Gui.antt =====
-- gui.go: the views of a Gui, in the order in which they are drawn. A pointer to a view is its
-- number in the heap of all views ever made.
pub mod Stack
pub mod Names
pub mod Calls
pub mod Placing
use Prim.Native.String.{String, compare}
use text.Mathlib.Text.{is_eq}
use gocui.Common.{
  ℕ, zero, suc, ◌+◌, List, [], ◌∷◌, ◌++◌, Bool, true, false, ◌&&◌, ◌||◌, Option, none, some, ◌==◌,
  if◌then◌else◌,
}
use gocui.Common.Int.{ℤ, pos, ◌+ℤ◌, ◌-ℤ◌, ltb_ℤ, leb_ℤ}
use gocui.Tcell.{Tcell}
use gocui.Attribute.{OutputMode}
use gocui.View.{View, new_view}

-- `Gui`, as far as its views go.
pub record Gui : Type 0 where
  pub heap : ℕ → View
  pub next : ℕ
  pub views : List ℕ
  pub current_view : Option ℕ
  pub output_mode : OutputMode
  pub bg_color : ℕ
  pub fg_color : ℕ
  pub sel_bg_color : ℕ
  pub sel_fg_color : ℕ

-- The errors of SetView, and ErrUnknownView.
pub data GuiError : Type 0 where
  invalid_dimensions invalid_name unknown_view : GuiError

-- A view, or nil, and an error.
abbrev pub Answer : Type 0
Answer = Option ℕ × Option GuiError

abbrev pub store : (ℕ → View) → ℕ → View → ℕ → View
store heap i v j = if j == i then v else heap j

abbrev pub same_name : String → String → Bool
same_name s t = is_eq (compare s t)

-- The first view with the name.
unfoldable pub find_view : (ℕ → View) → String → List ℕ → Option ℕ
find_view heap name [] = none
find_view heap name (i ∷ is) =
    if same_name (heap i).name name then some i else find_view heap name is

-- `View`
abbrev pub answer : Option ℕ → Answer
answer (some i) = (some i, none)
answer none = (none, some unknown_view)

unfoldable pub view : String → Gui → Answer
unfolding find_view
view name g = answer (find_view g.heap name g.views)

-- `append(views[:i], views[i+1:]...)` at the first view with the name.
unfoldable pub without : (ℕ → View) → String → List ℕ → List ℕ
without heap name [] = []
without heap name (i ∷ is) = if same_name (heap i).name name then is else i ∷ without heap name is

module _ (tc : Tcell) where
  -- The new view of `SetView`.
  abbrev pub fresh_view : String → ℤ → ℤ → ℤ → ℤ → ℕ → Gui → View
  fresh_view name x0 y0 x1 y1 overlaps g = record (new_view tc name x0 y0 x1 y1 g.output_mode) {
    bg_color = g.bg_color;
    fg_color = g.fg_color;
    sel_bg_color = g.sel_bg_color;
    sel_fg_color = g.sel_fg_color;
    overlaps = overlaps;
  }

  -- What `SetView` does once the view was looked up.
  abbrev pub place_view : String → ℤ → ℤ → ℤ → ℤ → ℕ → Gui → Option ℕ → Gui × Answer
  place_view name x0 y0 x1 y1 overlaps g (some i) = (
    record g {
      heap =
          store g.heap i (record (g.heap i) { x0 = x0; y0 = y0; x1 = x1; y1 = y1; tainted = true });
    },
    (some i, none),
  )
  place_view name x0 y0 x1 y1 overlaps g none = (
    record g {
      heap = store g.heap g.next (fresh_view name x0 y0 x1 y1 overlaps g);
      next = g.next + 1;
      views = g.views ++ g.next ∷ [];
    },
    (some g.next, some unknown_view),
  )

  -- `SetView`
  unfoldable pub set_view : String → ℤ → ℤ → ℤ → ℤ → ℕ → Gui → Gui × Answer
  unfolding find_view
  set_view name x0 y0 x1 y1 overlaps g =
      if leb_ℤ x1 x0
      then (g, (none, some invalid_dimensions))
      else if same_name name ""
      then (g, (none, some invalid_name))
      else place_view name x0 y0 x1 y1 overlaps g (find_view g.heap name g.views)

  abbrev pub set_beneath : String → ℕ → ℤ → Gui → Gui × Answer
  set_beneath name i height g =
      let above = g.heap i in
      let top = above.y1 +ℤ pos 1 in
      set_view name above.x0 top above.x1 (top +ℤ height -ℤ pos 1) 0 g

  -- `SetViewBeneath`
  unfoldable pub set_view_beneath : String → String → ℤ → Gui → Gui × Answer
  unfolding set_view find_view
  set_view_beneath name above_name height g = elim (find_view g.heap above_name g.views) [
    | none ↦ (g, (none, some unknown_view))
    | some i ↦ set_beneath name i height g
  ]

-- A change of the order of the views, once the view was looked up.
abbrev pub reorder : List ℕ → Gui → Option ℕ → Gui × Answer
reorder order g (some i) = (record g { views = order }, (some i, none))
reorder order g none = (g, (none, some unknown_view))

abbrev pub one : Option ℕ → List ℕ
one none = []
one (some i) = i ∷ []

-- `SetViewOnTop`
unfoldable pub set_view_on_top : String → Gui → Gui × Answer
unfolding find_view without
set_view_on_top name g =
    let found = find_view g.heap name g.views in
    reorder (without g.heap name g.views ++ one found) g found

-- `SetViewOnBottom`
unfoldable pub set_view_on_bottom : String → Gui → Gui × Answer
unfolding find_view without
set_view_on_bottom name g =
    let found = find_view g.heap name g.views in
    reorder (one found ++ without g.heap name g.views) g found

-- `ViewByPosition`: the views are checked from the last one on.
abbrev pub contains : View → ℤ → ℤ → Bool
contains v x y = ltb_ℤ v.x0 x && ltb_ℤ x v.x1 && ltb_ℤ v.y0 y && ltb_ℤ y v.y1

unfoldable pub topmost : (ℕ → View) → ℤ → ℤ → List ℕ → Option ℕ
topmost heap x y [] = none
topmost heap x y (i ∷ is) = elim (topmost heap x y is) [
  | some j ↦ some j
  | none ↦ if contains (heap i) x y then some i else none
]

unfoldable pub view_by_position : ℤ → ℤ → Gui → Answer
unfolding topmost
view_by_position x y g = answer (topmost g.heap x y g.views)

-- `ViewPosition`
unfoldable pub view_position : String → Gui → Option (ℤ × ℤ × ℤ × ℤ)
unfolding find_view
view_position name g = elim (find_view g.heap name g.views) [
  | none ↦ none
  | some i ↦ let v = g.heap i in some (v.x0, v.y0, v.x1, v.y1)
]

-- `DeleteView`
unfoldable pub delete_view : String → Gui → Gui × Option GuiError
unfolding find_view without
delete_view name g = elim (find_view g.heap name g.views) [
  | none ↦ (g, some unknown_view)
  | some i ↦ (record g { views = without g.heap name g.views }, none)
]

-- `SetCurrentView`
unfoldable pub set_current_view : String → Gui → Gui × Answer
unfolding find_view
set_current_view name g = elim (find_view g.heap name g.views) [
  | none ↦ (g, (none, some unknown_view))
  | some i ↦ (record g { current_view = some i }, (some i, none))
]
