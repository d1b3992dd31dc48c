-- ===== src/Buffer/Row.antt =====
-- What the buffer's methods do to one line, a slice of cells.
use gocui.Common.{
  ℕ, ◌+◌, ◌-◌, List, [], ◌∷◌, Bool, not, ◌&&◌, ◌||◌, Outcome, ok, panic, ltb, leb, if◌then◌else◌,
  length, take, drop, replicate, set,
}
use gocui.Slice.{Growth, append, len, full, cap_of, reslice, of_list, copy_at}
use gocui.Cell.{Cell, blank, Line}

-- The body of `writeCells`. The line is first taken up to its capacity; a start behind the
-- capacity panics.
unfoldable pub write_cells_line : Growth → ℕ → List Cell → Line → Outcome Line
write_cells_line grow x cells s =
    let max_copy = cap_of s - x in
    let over =
      append grow blank (of_list (copy_at (full s) x (take max_copy cells)))
        (drop max_copy cells) in
    let within : Line = of_list (copy_at (full s) x cells) in
    let new_len = x + length cells in
    if ltb (cap_of s) x
    then panic
    else if ltb max_copy (length cells)
    then ok over
    else ok (reslice within (if ltb new_len (len s) then len s else new_len))

-- The cells that `writeRune` appends to make room.
abbrev pub to_insert : Bool → ℕ → ℕ → List Cell
to_insert overwrite x line_len =
    if leb line_len x
    then replicate (x - line_len + 1) blank
    else if not overwrite
    then blank ∷ []
    else []

-- The rest of `writeRune`: the cells from x on move up by one if they have to, and the cell is
-- stored. A store out of range panics.
abbrev pub moved : Bool → ℕ → List Cell → List Cell
moved moves x xs = if moves then copy_at xs (x + 1) (drop x xs) else xs

abbrev pub placed : Bool → ℕ → Cell → Line → Line
placed moves x c t = record t { items = set (moved moves x t.items) x c }

unfoldable pub place : Bool → ℕ → Cell → Line → Outcome Line
place moves x c t = if ltb x (len t) then ok (placed moves x c t) else panic

-- `writeRune` on the line.
unfoldable pub write_rune_line : Growth → Bool → ℕ → Cell → Line → Outcome Line
unfolding place
write_rune_line grow overwrite x c s =
    place (not overwrite || (overwrite && leb (len s) (x + 1))) x c
      (append grow blank s (to_insert overwrite x (len s)))

-- `append(line[:x], line[x+1:]...)`
unfoldable pub delete_rune_line : Growth → ℕ → Line → Line
delete_rune_line grow x s = append grow blank (reslice s x) (drop (x + 1) s.items)
