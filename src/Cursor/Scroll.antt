-- ===== src/Cursor/Scroll.antt =====
-- The cursor stays in sight.
use gocui.Common.{inl, inr, arith}
use gocui.Common.Int.{ℤ, pos, ◌+ℤ◌, ◌-ℤ◌, ◌≤ℤ◌, ◌<ℤ◌, ltb_ℤ-cases, int_laws}
use gocui.Cursor.{scroll_down, scroll_y, scroll_x, prev_size}

-- The first shown row or column is o, and y is among the size shown ones.
abbrev pub Shows : ℤ → ℤ → ℤ → Type 0
Shows o size y = (o ≤ℤ y) × (y <ℤ o +ℤ size)

scroll_down-above : (y size o : ℤ) → pos 1 ≤ℤ size → y <ℤ scroll_down y size o +ℤ size
scroll_down-above y size o h = elim (ltb_ℤ-cases (o +ℤ size -ℤ pos 1) y) [
  | inl (e, l) ↦ rw e (omega int_laws)
  | inr (e, l) ↦ rw e (omega int_laws)
]

-- For a view of at least one row, the first shown line after a move is such that the row of the
-- cursor is among the shown ones.
pub scroll_y-Shows : (y size o : ℤ) → pos 1 ≤ℤ size → Shows (scroll_y y size o) size y
unfolding scroll_y
scroll_y-Shows y size o h = elim (ltb_ℤ-cases y (scroll_down y size o)) [
  | inl (e, l) ↦ rw e (omega int_laws, omega int_laws)
  | inr (e, l) ↦ rw e (l, scroll_down-above y size o h)
]

prev_size-lt : (x size : ℤ) → pos 1 ≤ℤ size → pos (prev_size x size) <ℤ size
prev_size-lt x size h = ground arith

-- For a view of at least one column, the first shown column after a move is such that the column
-- of the cursor, and up to two columns in front of it that fit, are among the shown ones.
pub scroll_x-Shows :
    (x size o : ℤ)
    → pos 1 ≤ℤ size
    → Shows (scroll_x x size o) size x × (scroll_x x size o ≤ℤ x -ℤ pos (prev_size x size))
unfolding scroll_x
scroll_x-Shows x size o h =
    let p = prev_size-lt x size h in
    elim (ltb_ℤ-cases (x -ℤ pos (prev_size x size)) (scroll_down x size o)) [
      | inl (e, l) ↦ rw e ((omega int_laws, omega int_laws), omega int_laws)
      | inr (e, l) ↦ rw e ((omega int_laws, scroll_down-above x size o h), l)
    ]
