-- ===== src/Cursor/Set.antt =====
-- `SetCursor` (view.go): the nearest place of the text, and the points it does not take.
use gocui.Common.{
  ℕ, zero, suc, ◌-◌, ◌<◌, min, ◌≡◌, refl, ap, true, false, none, some, arith, ok, panic, ◌==◌,
  if◌then◌else◌, Bool-cases, inl, inr,
}
use gocui.Common.Int.{ℤ, pos, negsuc, ltb_ℤ}
use gocui.Slice.{len, index}
use gocui.Cell.{Line, Lines}
use gocui.Buffer.Text.{index-lt}
use gocui.View.{View, invalid_point, near_line, near_column, set_cursor, set_cursor_unrestricted}

near_line_lem : (ls : Lines) (y : ℕ) → 0 < len ls → near_line ls (pos y) ≡ pos (min y (len ls - 1))
near_line_lem ls y h = ground arith

near_line_negsuc : (ls : Lines) (y : ℕ) → 0 < len ls → near_line ls (negsuc y) ≡ negsuc y
near_line_negsuc ls y h = ground arith

nearest : (x n : ℕ) → (if ltb_ℤ (pos n) (pos x) then pos n else pos x) ≡ pos (min x n)
nearest x n = ground arith

not_empty : (n : ℕ) → 0 < n → (n == 0) ≡ false
not_empty n h = ground arith

near_column_lem :
    (ls : Lines) (x y : ℕ) (l : Line)
    → index ls.items y ≡ ok l
    → near_column ls (pos x) (pos y) ≡ ok (pos (min x (len l)))
unfolding near_column
near_column_lem ls zero y l at = ap (λ i. ok (pos i)) {y = min 0 (len l)} (omega arith)
near_column_lem ls (suc x) y l at = rw (ahead x) (
    rw (not_empty (len ls) (omega (arith, index-lt ls.items y at)))
      (rw at (ap ok (nearest (suc x) (len l)))))
  where
    ahead : (x : ℕ) → ltb_ℤ (pos 0) (pos (suc x)) ≡ true
    ahead x = ground arith

not_before : (n : ℕ) → ltb_ℤ (pos n) (pos 0) ≡ false
not_before n = ground arith

unrestricted :
    (x y : ℕ) (v : View)
    → set_cursor_unrestricted (pos x) (pos y) v ≡ (record v { cx = pos x; cy = pos y }, none)
unfolding set_cursor_unrestricted
unrestricted x y v = rw (not_before x) (rw (not_before y) refl)

refused :
    (x : ℤ) (y : ℕ) (v : View) → set_cursor_unrestricted x (negsuc y) v ≡ (v, some invalid_point)
unfolding set_cursor_unrestricted
refused (pos x) y v = rw (not_before x) (rw (before y) refl)
  where
    before : (y : ℕ) → ltb_ℤ (negsuc y) (pos 0) ≡ true
    before y = ground arith
refused (negsuc x) y v = rw (before x) refl
  where
    before : (y : ℕ) → ltb_ℤ (negsuc y) (pos 0) ≡ true
    before y = ground arith

-- For a point that is not negative, in a text with at least one line, SetCursor returns no error
-- and puts the cursor at the nearest line and column of the text.
pub set_cursor_lem :
    (v : View) (x y : ℕ) (l : Line)
    → index v.lines.items (min y (len v.lines - 1)) ≡ ok l
    → set_cursor (pos x) (pos y) v
      ≡ ok (record v { cx = pos (min x (len l)); cy = pos (min y (len v.lines - 1)) }, none)
unfolding set_cursor
set_cursor_lem v x y l at =
    let inside = index-lt v.lines.items (min y (len v.lines - 1)) at in
    rw (near_line_lem v.lines y (omega arith)) (
      rw (near_column_lem v.lines x (min y (len v.lines - 1)) l at)
        (ap ok (unrestricted (min x (len l)) (min y (len v.lines - 1)) v)))

-- For a negative line, in a text with at least one line, SetCursor refuses the point and leaves
-- the view as it was if the column is 0 or negative, and panics otherwise.
pub set_cursor-above :
    (v : View) (x : ℤ) (y : ℕ)
    → 0 < len v.lines
    → set_cursor x (negsuc y) v ≡ (if ltb_ℤ (pos 0) x then panic else ok (v, some invalid_point))
unfolding set_cursor near_column
set_cursor-above v x y h = elim (Bool-cases (ltb_ℤ (pos 0) x)) [
  | inl e ↦ rw (near_line_negsuc v.lines y h) (rw e (rw (not_empty (len v.lines) h) refl))
  | inr e ↦ rw (near_line_negsuc v.lines y h) (rw e (ap ok (refused x y v)))
]
