-- ===== src/Edit.antt =====
-- edit.go: the editing methods of a view and the default editor.
pub mod Points
pub mod Total
pub mod Typing
pub mod Start
use gocui.Common.{
  ℕ, zero, suc, ◌+◌, ◌-◌, List, [], Bool, true, false, ◌&&◌, ◌||◌, not, Option, none, some, Outcome,
  ok, panic, out_of_fuel, ◌>>=◌, ltb, leb, ◌==◌, if◌then◌else◌, length,
}
use gocui.Common.Int.{ℤ, pos, negsuc, pos_part, ◌+ℤ◌, ◌-ℤ◌, ltb_ℤ, leb_ℤ, eqb_ℤ}
use gocui.Slice.{len, index}
use gocui.Cell.{Cell, Line, Lines}
use gocui.Tcell.{Tcell, Keys}
use gocui.Buffer.{write_rune, delete_rune, merge_lines, break_line}
use gocui.View.{View, Host, Reply, PointError, invalid_point, set_cursor}
use gocui.Cursor.{move_cursor}

module _ (host : Host) where
  -- `writeRune`
  unfoldable pub write_rune_at : ℤ → ℤ → ℕ → View → Outcome Reply
  write_rune_at (pos x) (pos y) ch v =
      write_rune host.runtime v.overwrite x y
        (record { chr = ch; bg_color = v.bg_color; fg_color = v.fg_color }) v.lines
      >>= λ ls. ok (record v { tainted = true; lines = ls }, none)
  write_rune_at _ _ ch v = ok (record v { tainted = true }, some invalid_point)

  -- The answer to a point that is not in the buffer.
  abbrev pub refuse : View → Outcome Reply
  refuse v = ok (record v { tainted = true }, some invalid_point)

  -- `deleteRune`
  unfoldable pub delete_rune_at : ℤ → ℤ → View → Outcome Reply
  delete_rune_at (pos x) (pos y) v =
      if leb (len v.lines) y
      then refuse v
      else (index v.lines.items y >>= λ l.
          if leb (len l) x
          then refuse v
          else (delete_rune host.runtime x y v.lines >>= λ ls.
              ok (record v { tainted = true; lines = ls }, none)))
  delete_rune_at _ _ v = refuse v

  -- `mergeLines`
  unfoldable pub merge_lines_at : ℤ → View → Outcome Reply
  merge_lines_at (pos y) v =
      if leb (len v.lines) y
      then refuse v
      else (merge_lines host.runtime y v.lines >>= λ ls.
          ok (record v { tainted = true; lines = ls }, none))
  merge_lines_at (negsuc y) v = refuse v

  -- The body of `breakLine`; a negative column panics in the slice expression.
  abbrev pub break_at : ℤ → ℕ → View → Outcome Reply
  break_at (pos x) y v =
      break_line x y v.lines >>= λ ls. ok (record v { tainted = true; lines = ls }, none)
  break_at (negsuc x) y v = panic

  -- `breakLine`
  unfoldable pub break_line_at : ℤ → ℤ → View → Outcome Reply
  break_line_at x (pos y) v = if leb (len v.lines) y then refuse v else break_at x y v
  break_line_at x (negsuc y) v = refuse v

  -- `EditWrite`
  unfoldable pub edit_write : ℕ → View → Outcome View
  edit_write ch v = write_rune_at v.cx v.cy ch v >>= λ r. move_cursor host (pos 1) (pos 0) (r.0)

  -- `EditDelete` at the start of a line that is not the first.
  abbrev pub delete_newline : View → Outcome View
  delete_newline v = move_cursor host (negsuc 0) (pos 0) v >>= λ w.
      merge_lines_at (v.cy -ℤ pos 1) w >>= λ r. ok (r.0)

  -- `EditDelete` behind a rune of the line: the cursor moves if the rune could be deleted.
  abbrev pub delete_before : View → Outcome View
  delete_before v = delete_rune_at (v.cx -ℤ pos 1) v.cy v >>= λ r. elim (r.1) [
    | none ↦ move_cursor host (negsuc 0) (pos 0) (r.0)
    | some e ↦ ok (r.0)
  ]

  -- `EditDelete` forwards.
  abbrev pub delete_after : ℕ → View → Outcome View
  delete_after y v = index v.lines.items y >>= λ l.
      if eqb_ℤ v.cx (pos (len l))
      then (merge_lines_at (pos y) v >>= λ r. ok (r.0))
      else (delete_rune_at v.cx v.cy v >>= λ r. ok (r.0))

  -- `EditDelete` in line y.
  abbrev pub edit_delete_in : Bool → ℤ → View → Outcome View
  edit_delete_in back (negsuc y) v = ok v
  edit_delete_in back (pos y) v =
      if leb (len v.lines) y
      then move_cursor host (negsuc 0) (pos 0) v
      else if back && leb_ℤ v.cx (pos 0)
      then if y == 0 then ok v else delete_newline v
      else if back
      then delete_before v
      else delete_after y v

  -- `EditDelete`
  unfoldable pub edit_delete : Bool → View → Outcome View
  unfolding delete_rune_at merge_lines_at
  edit_delete back v = edit_delete_in back v.cy v

  -- `EditNewLine`
  unfoldable pub edit_new_line : View → Outcome View
  unfolding break_line_at
  edit_new_line v = break_line_at v.cx v.cy v >>= λ r.
      let w = r.0 in ok (record w { ox = pos 0; cy = w.cy +ℤ pos 1; cx = pos 0 })

  -- The loop of `EditDeleteToStartOfLine`.
  unfoldable pub delete_to_start : ℕ → View → Outcome View
  unfolding edit_delete
  delete_to_start zero v = if ltb_ℤ (pos 0) v.cx then out_of_fuel else ok v
  delete_to_start (suc fuel) v =
      let more = edit_delete true v >>= delete_to_start fuel in
      if ltb_ℤ (pos 0) v.cx then more else ok v

  -- `EditDeleteToStartOfLine`, with a round for each column in front of the cursor.
  unfoldable pub edit_delete_to_start_of_line : View → Outcome View
  unfolding delete_to_start
  edit_delete_to_start_of_line v =
      if eqb_ℤ v.cx (pos 0) then edit_delete true v else delete_to_start (pos_part v.cx) v

  -- The loop of `EditGotoToStartOfLine`.
  unfoldable pub goto_start : ℕ → View → Outcome View
  goto_start zero v = if ltb_ℤ (pos 0) v.cx then out_of_fuel else ok v
  goto_start (suc fuel) v =
      let more = move_cursor host (negsuc 0) (pos 0) v >>= goto_start fuel in
      if ltb_ℤ (pos 0) v.cx then more else ok v

  -- `EditGotoToStartOfLine`, with a round for each column in front of the cursor.
  unfoldable pub edit_goto_to_start_of_line : View → Outcome View
  unfolding goto_start
  edit_goto_to_start_of_line v = goto_start (pos_part v.cx) v

-- The loop of `EditGotoToEndOfLine`, which ends when the cursor no longer moves.
unfoldable pub goto_end : Host → ℕ → ℤ → View → Outcome View
goto_end host zero prev_x v = if eqb_ℤ prev_x v.cx then ok v else out_of_fuel
goto_end host (suc fuel) prev_x v =
    let more = move_cursor host (pos 1) (pos 0) v >>= goto_end host fuel v.cx in
    if eqb_ℤ prev_x v.cx then ok v else more

-- The length of a line, for the rounds of that loop.
abbrev pub row_length : Lines → ℤ → ℕ
row_length ls (negsuc y) = 0
row_length ls (pos y) = elim (index ls.items y) [ ok l ↦ len l | _ ↦ 0 ]

-- `EditGotoToEndOfLine`
unfoldable pub edit_goto_to_end_of_line : Host → View → Outcome View
unfolding goto_end
edit_goto_to_end_of_line host v = set_cursor (pos 0) (v.cy +ℤ pos 1) v >>= λ r.
    let w = r.0 in
    if eqb_ℤ w.cy v.cy
    then goto_end host (row_length v.lines v.cy + 2) (negsuc 0) w
    else move_cursor host (negsuc 0) (pos 0) w

-- `simpleEditor`, the default editor, on a key press.
module _ (host : Host) (keys : Keys) where
  unfoldable pub simple_editor : ℕ → ℕ → ℕ → View → Outcome View
  unfolding edit_write edit_delete edit_new_line
  simple_editor key ch mod' v =
      if not (ch == 0) && mod' == 0
      then edit_write host ch v
      else if key == 32
      then edit_write host 32 v
      else if key == keys.key_backspace || key == keys.key_backspace2
      then edit_delete host true v
      else if key == keys.key_delete
      then edit_delete host false v
      else if key == keys.key_insert
      then ok (record v { overwrite = not v.overwrite })
      else if key == keys.key_enter
      then edit_new_line host v
      else if key == keys.key_down
      then move_cursor host (pos 0) (pos 1) v
      else if key == keys.key_up
      then move_cursor host (pos 0) (negsuc 0) v
      else if key == keys.key_left
      then move_cursor host (negsuc 0) (pos 0) v
      else if key == keys.key_right
      then move_cursor host (pos 1) (pos 0) v
      else if key == keys.key_tab
      then edit_write host 9 v
      else if key == keys.key_escape
      then ok v
      else edit_write host ch v
