-- ===== src/Buffer.antt =====
-- A view's buffer, `[][]cell`: the methods of view.go and edit.go that change it, on the slice of
-- lines alone. Positions are not negative here; the guards against that are in View.
mod Row
pub mod Spec
pub mod RowLaws
pub mod Text
pub mod Writeable
pub mod RoundTrip
unfoldable pub use Row.{write_cells_line, write_rune_line, delete_rune_line}
use gocui.Common.{
  ℕ, zero, suc, ◌+◌, ◌-◌, List, [], ◌∷◌, ◌++◌, Bool, true, false, not, ◌&&◌, ◌||◌, Outcome, ok,
  panic, ◌>>=◌, ltb, leb, if◌then◌else◌, length, take, drop, replicate, set,
}
use gocui.Slice.{
  Slice, Growth, append, extend, len, full, cap_of, reslice, of_list, set_item, copy_at, index,
}
use gocui.Cell.{Cell, blank, Line, Lines, nil_line, Runtime}

module _ (rt : Runtime) where
  -- `makeWriteable`: line y exists and has at least x cells.
  unfoldable pub make_writeable : ℕ → ℕ → Lines → Outcome Lines
  make_writeable x y ls = do
    ls' ← extend rt.lines nil_line (y + 1) (y + 1) ls
    line ← index ls'.items y
    line' ← extend rt.cells blank x x line
    ok (set_item ls' y line')

  -- `writeCells`
  unfoldable pub write_cells : ℕ → ℕ → List Cell → Lines → Outcome Lines
  write_cells x y cells ls = do
    line ← index ls.items y
    line' ← write_cells_line rt.cells x cells line
    ok (set_item ls y line')

  -- The lines that `writeRune` adds when there is no line y.
  with_line : ℕ → Lines → Lines
  with_line y ls =
      if leb (len ls) y
      then append rt.lines nil_line ls (replicate (y - len ls + 1) nil_line)
      else ls

  -- `writeRune` for a point that is not negative, with the flag Overwrite.
  unfoldable pub write_rune : Bool → ℕ → ℕ → Cell → Lines → Outcome Lines
  unfolding with_line
  write_rune overwrite x y c ls = do
    let ls' = with_line y ls
    line ← index ls'.items y
    line' ← write_rune_line rt.cells overwrite x c line
    ok (set_item ls' y line')

  -- `deleteRune` for a point in the buffer.
  unfoldable pub delete_rune : ℕ → ℕ → Lines → Outcome Lines
  delete_rune x y ls = do
    line ← index ls.items y
    ok (set_item ls y (delete_rune_line rt.cells x line))

  -- The body of `mergeLines` when there is a line behind line y.
  merge_next : ℕ → Lines → Outcome Lines
  merge_next y ls = do
    line ← index ls.items y
    next ← index ls.items (y + 1)
    let ls' = set_item ls y (append rt.cells blank line next.items)
    ok (append rt.lines nil_line (reslice ls' (y + 1)) (drop (y + 2) ls'.items))

  -- `mergeLines` for a line of the buffer; the last line is left as it is.
  unfoldable pub merge_lines : ℕ → Lines → Outcome Lines
  unfolding merge_next
  merge_lines y ls = if ltb (y + 1) (len ls) then merge_next y ls else ok ls

-- `breakLine` for a line of the buffer. The slice of lines is made anew.
unfoldable pub break_line : ℕ → ℕ → Lines → Outcome Lines
break_line x y ls = do
  line ← index ls.items y
  let left = if ltb x (len line) then of_list (take x line.items) else line
  let right = if ltb x (len line) then of_list (drop x line.items) else nil_line
  let made = set (set (replicate (len ls + 1) nil_line) y left) (y + 1) right
  let made' = copy_at made 0 (take y ls.items)
  ok (of_list (copy_at made' (y + 2) (drop (y + 1) ls.items)))
