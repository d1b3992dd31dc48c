-- ===== src/Tests/Keys.antt =====
-- The editing methods on a small view.
use gocui.Common.{◌≤◌, ◌≡◌, refl, true, [], drop, arith, ok, panic}
use mathlib.Core.Path.{subst}
use gocui.Common.Int.{pos, negsuc}
use gocui.Slice.{len}
use gocui.Cell.{Line}
use gocui.Buffer.Spec.{text, update_at}
use gocui.View.{View, new_view, set_cursor}
use gocui.Cursor.Target.{InText}
use gocui.Cursor.Moves.{Placed}
use gocui.Cursor.Set.{set_cursor-above}
use gocui.Edit.{simple_editor, edit_write, edit_delete, edit_new_line, edit_delete_to_start_of_line}
use gocui.Edit.Points.{Works}
use gocui.Edit.Total.{simple_editor-Works}
use gocui.Edit.Typing.{edit_delete-edit_write, edit_delete-edit_new_line}
use gocui.Edit.Start.{edit_delete_to_start_of_line_lem}
use gocui.Tests.Data.{host, abc, two_lines, small_view, keys}

-- The cursor of the small view is at the end of the first line.
small_view-InText : InText two_lines 3 0
small_view-InText = (abc, refl, omega arith)

small_view-Placed : Placed small_view
unfolding new_view
small_view-Placed = (
  3,
  0,
  refl,
  refl,
  λ l at. let e : abc ≡ l = cc in subst (λ (k : Line). 3 ≤ len k) e (omega arith),
)

simple_editor-Works_example : Works (simple_editor host keys 127 0 0 small_view)
unfolding new_view
simple_editor-Works_example =
    simple_editor-Works host keys 127 0 0 small_view refl small_view-Placed

edit_delete-edit_write_example :
    (w u : View) × (edit_write host b'X' small_view ≡ ok w)
    × (edit_delete host true w ≡ ok u)
    × (text u.lines ≡ text two_lines)
    × (u.cx ≡ pos 3)
    × (u.cy ≡ pos 0)
unfolding new_view
edit_delete-edit_write_example =
    edit_delete-edit_write host b'X' small_view 3 0 refl refl refl refl small_view-InText

edit_delete-edit_new_line_example :
    (w u : View) × (edit_new_line host small_view ≡ ok w)
    × (edit_delete host true w ≡ ok u)
    × (text u.lines ≡ text two_lines)
    × (u.cx ≡ pos 3)
    × (u.cy ≡ pos 0)
unfolding new_view
edit_delete-edit_new_line_example =
    edit_delete-edit_new_line host small_view 3 0 refl refl refl small_view-InText

edit_delete_to_start_of_line_example :
    (w : View) × (edit_delete_to_start_of_line host small_view ≡ ok w)
    × (text w.lines ≡ update_at (drop 3) [] 0 (text two_lines))
    × (w.cx ≡ pos 0)
    × (w.cy ≡ pos 0)
unfolding new_view
edit_delete_to_start_of_line_example =
    edit_delete_to_start_of_line_lem host small_view 2 0 refl refl refl small_view-InText

set_cursor-above_example : set_cursor (pos 1) (negsuc 0) small_view ≡ panic
unfolding new_view
set_cursor-above_example = set_cursor-above small_view (pos 1) 0 (omega arith)
