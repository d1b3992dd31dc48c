-- ===== src/Tests/Views.antt =====
-- The cursor and the shown lines of a small view.
use gocui.Common.{◌≡◌, refl, false, [], ◌∷◌, arith, ok, out_of_fuel}
use mathlib.Core.List.{flatten}
use gocui.Common.Int.{pos, ◌-ℤ◌, ◌+ℤ◌}
use gocui.Buffer.Spec.{text}
use gocui.View.{View, new_view}
use gocui.Wrap.{wrap_line, view_lines}
use gocui.Wrap.Pieces.{view_lines-Wrapped, Wrapped}
use gocui.Wrap.Hang.{wrap_line-hangs}
use gocui.Cursor.{move_cursor}
use gocui.Cursor.Moves.{Placed, move_cursor-Placed}
use gocui.Tests.Data.{host, width_of, cell_of, two_lines, small_view, wrapping_view}

view_lines-Wrapped_example :
    Wrapped width_of (pos 2) (flatten (text two_lines)) (view_lines host wrapping_view)
unfolding new_view ◌-ℤ◌ ◌+ℤ◌
view_lines-Wrapped_example =
    view_lines-Wrapped host wrapping_view refl (omega arith)
      ((omega arith, (omega arith, (omega arith, tt))), ((omega arith, (omega arith, tt)), tt))

-- A cell of two columns in a view of one.
wrap_line-hangs_example :
    wrap_line width_of (pos 1) 100 (cell_of b'a' ∷ cell_of 0x4e16 ∷ cell_of b'b' ∷ []) ≡ out_of_fuel
wrap_line-hangs_example =
    wrap_line-hangs width_of (pos 1) (cell_of 0x4e16) (cell_of b'b' ∷ []) (omega arith) 100
      (cell_of b'a' ∷ [])

move_cursor-Placed_example :
    (w : View) × (move_cursor host (pos 1) (pos 0) small_view ≡ ok w)
    × (w.lines ≡ two_lines)
    × (w.wrap ≡ false)
    × (w.overwrite ≡ false)
    × Placed w
unfolding new_view ◌-ℤ◌ ◌+ℤ◌
move_cursor-Placed_example = move_cursor-Placed host (pos 1) (pos 0) small_view refl
