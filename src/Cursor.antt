-- ===== src/Cursor.antt =====
-- edit.go: `MoveCursor`, where the cursor goes and how the view scrolls after it.
pub mod Target
pub mod Scroll
pub mod Moves
pub mod Set
use gocui.Common.{
  ℕ, ◌+◌, ◌-◌, List, Bool, true, false, ◌&&◌, not, Outcome, ok, panic, ◌>>=◌, ltb, ◌==◌,
  if◌then◌else◌,
}
use gocui.Common.Int.{ℤ, pos, negsuc, pos_part, ◌+ℤ◌, ◌-ℤ◌, ltb_ℤ, leb_ℤ, eqb_ℤ}
use gocui.Slice.{len, index}
use gocui.Cell.{Line, Lines}
use gocui.View.{View, Host, size_x, size_y}
use gocui.Wrap.{Place, lines_pos_on_screen}

-- The line number within the buffer, which is not empty.
abbrev pub clamp_row : Lines → ℤ → ℕ
clamp_row ls y =
    if leb_ℤ (pos (len ls)) y then len ls - 1 else if ltb_ℤ y (pos 0) then 0 else pos_part y

-- The end of the line above, if there is one.
abbrev pub line_above : Lines → ℕ → Outcome (ℕ × ℕ)
line_above ls row =
    if ltb 0 row then (index ls.items (row - 1) >>= λ l. ok (len l, row - 1)) else ok (0, row)

-- From a column of a line: behind the end of the line the next one starts, unless the step was
-- between lines; in front of it the one above ends.
abbrev pub on_line : Lines → ℕ → Line → ℤ → ℤ → Outcome (ℕ × ℕ)
on_line ls row line x dy =
    if ltb_ℤ (pos (len line)) x
    then ok (if eqb_ℤ dy (pos 0) && ltb (row + 1) (len ls) then (0, row + 1) else (len line, row))
    else if ltb_ℤ x (pos 0)
    then line_above ls row
    else ok (pos_part x, row)

-- The column and the line that the cursor goes to.
unfoldable pub target : Lines → ℤ → ℤ → ℤ → Outcome (ℕ × ℕ)
target ls x y dy = do let row = clamp_row ls y; line ← index ls.items row; on_line ls row line x dy

-- The first line to show, for a cursor in row y of the screen.
abbrev pub scroll_down : ℤ → ℤ → ℤ → ℤ
scroll_down y size o = if ltb_ℤ (o +ℤ size -ℤ pos 1) y then y -ℤ size +ℤ pos 1 else o

unfoldable pub scroll_y : ℤ → ℤ → ℤ → ℤ
scroll_y y size o = let o' = scroll_down y size o in if ltb_ℤ y o' then y else o'

-- How many cells in front of the cursor are kept in sight.
abbrev pub prev_size : ℤ → ℤ → ℕ
prev_size x size =
    if ltb_ℤ (pos 2) size && leb_ℤ (pos 0) (x -ℤ pos 2)
    then 2
    else if ltb_ℤ (pos 1) size && leb_ℤ (pos 0) (x -ℤ pos 1)
    then 1
    else 0

unfoldable pub scroll_x : ℤ → ℤ → ℤ → ℤ
scroll_x x size o =
    let o' = scroll_down x size o in
    let p = x -ℤ pos (prev_size x size) in if ltb_ℤ p o' then p else o'

-- `MoveCursor`
unfoldable pub move_cursor : Host → ℤ → ℤ → View → Outcome View
move_cursor host dx dy v =
    if len v.lines == 0 then ok (record v { cx = pos 0; cy = pos 0 }) else (do
      t ← target v.lines (v.cx +ℤ dx) (v.cy +ℤ dy) dy
      p ← lines_pos_on_screen host v (pos (t.0)) (pos (t.1))
      ok (record v {
        oy = scroll_y p.view_y (size_y v) v.oy;
        ox = if not v.wrap then scroll_x p.view_x (size_x v) v.ox else v.ox;
        cx = pos (t.0);
        cy = pos (t.1);
      }))
