-- ===== src/Tests/Places.antt =====
-- A place in a view that wraps.
use gocui.Common.{ℕ, ◌≡◌, refl, List, [], ◌∷◌, ◌++◌, ok, arith}
use gocui.Common.Int.{pos, ◌+ℤ◌, ◌-ℤ◌}
use gocui.Slice.{index}
use gocui.Cell.{Cell}
use gocui.View.{size_x}
use gocui.Wrap.{line_width, place_at, view_lines, lines_pos_on_screen}
use gocui.Wrap.Position.{lines_pos_on_screen-shown}
use gocui.Tests.Data.{host, wrapping_view, abc, cell_of}

-- The "c" of "abc", which is on the second row.
lines_pos_on_screen-shown_example :
    (rows : List (List Cell)) × (r : ℕ) × (pre post : List Cell) × (view_lines host wrapping_view
      ≡ ok rows)
    × (index rows r ≡ ok (pre ++ cell_of b'c' ∷ post))
    × (lines_pos_on_screen host wrapping_view (pos 2) (pos 0)
        ≡ ok (place_at wrapping_view (pos (line_width host.rune_width pre)) (pos r)))
unfolding gocui.View.new_view ◌+ℤ◌ ◌-ℤ◌
lines_pos_on_screen-shown_example =
    lines_pos_on_screen-shown host wrapping_view 2 0 abc.items [] (cell_of b'c') refl
      ((omega arith, (omega arith, (omega arith, tt))), ((omega arith, (omega arith, tt)), tt)) refl
      refl (omega arith) (omega arith)
