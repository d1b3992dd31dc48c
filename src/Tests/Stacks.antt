-- ===== src/Tests/Stacks.antt =====
-- A Gui with two views, one over the other.
use gocui.Common.{◌≡◌, ◌≢◌, refl, ◌==◌, if◌then◌else◌, true, false, [], ◌∷◌, none, some, arith}
use Prim.Native.String.{String}
use text.Mathlib.TextEquality.{eq_iff}
use gocui.Common.Int.{pos}
use gocui.Attribute.{output_256}
use gocui.View.{new_view}
use gocui.Gui.{
  Gui, view, set_view, set_view_on_top, delete_view, view_by_position, find_view, contains,
  unknown_view,
}
use gocui.Gui.Stack.{Distinct, view_by_position-set_view_on_top}
use gocui.Gui.Names.{IsStack}
use gocui.Gui.Calls.{set, on_top, on_bottom, delete, after_all, after_all-IsStack}
use gocui.Tests.Data.{tc}

abbrev two_views : Gui
two_views = record {
  heap = λ i.
      if i == 0
      then new_view tc "low" (pos 0) (pos 0) (pos 9) (pos 9) output_256
      else new_view tc "high" (pos 2) (pos 2) (pos 9) (pos 9) output_256;
  next = 2;
  views = 0 ∷ 1 ∷ [];
  current_view = none;
  output_mode = output_256;
  bg_color = 0;
  fg_color = 0;
  sel_bg_color = 0;
  sel_fg_color = 0;
}

two_views-Distinct : Distinct two_views.heap two_views.views
unfolding find_view new_view
two_views-Distinct = (refl, (refl, tt))

two_views-IsStack : IsStack two_views
two_views-IsStack = record {
  made = (omega arith, (omega arith, tt));
  distinct = two_views-Distinct;
}

-- The upper view is found, until the lower one is on top.
on_the_upper : view_by_position (pos 3) (pos 3) two_views ≡ (some 1, none)
unfolding view_by_position new_view gocui.Gui.topmost
on_the_upper = refl

view_by_position-set_view_on_top_example :
    view_by_position (pos 3) (pos 3) (set_view_on_top "low" two_views).0 ≡ (some 0, none)
unfolding find_view new_view
view_by_position-set_view_on_top_example =
    view_by_position-set_view_on_top "low" two_views 0 (pos 3) (pos 3) refl refl

after_all-IsStack_example : IsStack (
    after_all tc
      (set "new" (pos 1) (pos 1) (pos 5) (pos 5) 0
        ∷ on_top "low"
        ∷ on_bottom "new"
        ∷ delete "high"
        ∷ [])
      two_views)
after_all-IsStack_example =
    after_all-IsStack tc
      (set "new" (pos 1) (pos 1) (pos 5) (pos 5) 0
        ∷ on_top "low"
        ∷ on_bottom "new"
        ∷ delete "high"
        ∷ [])
      two_views two_views-IsStack

abbrev high : String
high = "high"

named : high ≢ ""
named e = let wrong : false ≡ true = (eq_iff "high" "").1 e in cc
