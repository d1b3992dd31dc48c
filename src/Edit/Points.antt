-- ===== src/Edit/Points.antt =====
-- The editing methods at a point of the buffer, and the cursor that stays in the text.
use gocui.Common.{
  ℕ, zero, suc, ◌≤◌, ◌<◌, ◌≡◌, sym, ap, true, false, none, some, List, [], ◌∷◌, ◌++◌, arith,
  Outcome, ok, le→leb, lt→leb, length, length-append,
}
use gocui.Common.Int.{ℤ, pos}
use gocui.Slice.{len, index}
use gocui.Cell.{Cell, Line, Lines}
use gocui.Buffer.Spec.{text, join_line}
use gocui.Buffer.Text.{index-lt}
use gocui.Buffer.RoundTrip.{text-index}
use gocui.Buffer.{write_rune, delete_rune, merge_lines, break_line}
use gocui.View.{View, Host, invalid_point}
use gocui.Cursor.Moves.{Placed}
use gocui.Edit.{write_rune_at, delete_rune_at, merge_lines_at, break_line_at}

-- A result with the cursor in the text, in a view that still does not wrap.
abbrev pub Works : Outcome View → Type 0
Works o = (w : View) × (o ≡ ok w) × (w.wrap ≡ false) × Placed w

-- A line of the text that is long enough for a column.
pub length-join :
    (xs : List (List Cell)) (y x : ℕ) (a c : List Cell)
    → index xs y ≡ ok a
    → x ≤ length a
    → index (join_line y xs) y ≡ ok c
    → x ≤ length c
length-join [] y x a c h k e = cc
length-join (l ∷ []) zero x a c h k e =
    let p : l ≡ a = cc in let q : l ≡ c = cc in rw (sym q) (rw (sym p) at k)
length-join (l ∷ []) (suc y) x a c h k e = cc
length-join (l ∷ m ∷ ls) zero x a c h k e =
    let p : l ≡ a = cc in
    let q : l ++ m ≡ c = cc in rw (sym q) (omega (arith, length-append l m, ap length p))
length-join (l ∷ m ∷ ls) (suc y) x a c h k e = length-join (m ∷ ls) y x a c h k e

module _ (v : View) (t : Lines) (x y : ℕ) (ex : v.cx ≡ pos x) (ey : v.cy ≡ pos y) where
  -- The cursor stays where it is when the new text has a long enough line there.
  pub stays :
      ((c : List Cell) → index (text t) y ≡ ok c → x ≤ length c)
      → Placed (record v { tainted = true; lines = t })
  stays h = (x, y, ex, ey, λ l at. h l.items (text-index t.items y l at))

-- The methods on a point of the buffer, given as integers.
module _ (host : Host) (cx cy : ℤ) (v : View) (x y : ℕ) (ex : cx ≡ pos x) (ey : cy ≡ pos y) where
  pub write_rune_at_lem :
      (ch : ℕ) (t : Lines)
      → write_rune host.runtime v.overwrite x y
          (record { chr = ch; bg_color = v.bg_color; fg_color = v.fg_color })
          v.lines
        ≡ ok t
      → write_rune_at host cx cy ch v ≡ ok (record v { tainted = true; lines = t }, none)
  unfolding write_rune_at
  write_rune_at_lem ch t run = rw (ex, ey) (rw run)

  pub delete_rune_at_lem :
      (l : Line) (t : Lines)
      → index v.lines.items y ≡ ok l
      → x < len l
      → delete_rune host.runtime x y v.lines ≡ ok t
      → delete_rune_at host cx cy v ≡ ok (record v { tainted = true; lines = t }, none)
  unfolding delete_rune_at
  delete_rune_at_lem l t at h run =
      rw (ex, ey)
        (rw (lt→leb (len v.lines) y (index-lt v.lines.items y at))
          (rw at (rw (lt→leb (len l) x h) (rw run))))

  pub break_line_at_lem :
      (t : Lines)
      → y < len v.lines
      → break_line x y v.lines ≡ ok t
      → break_line_at host cx cy v ≡ ok (record v { tainted = true; lines = t }, none)
  unfolding break_line_at
  break_line_at_lem t h run = rw (ex, ey) (rw (lt→leb (len v.lines) y h) (rw run))

  pub break_line_at_below :
      len v.lines ≤ y
      → break_line_at host cx cy v ≡ ok (record v { tainted = true }, some invalid_point)
  unfolding break_line_at
  break_line_at_below h = rw (ex, ey) (rw (le→leb (len v.lines) y h))

pub merge_lines_at_lem :
    (host : Host) (cy : ℤ) (v : View) (y : ℕ) (t : Lines)
    → cy ≡ pos y
    → y < len v.lines
    → merge_lines host.runtime y v.lines ≡ ok t
    → merge_lines_at host cy v ≡ ok (record v { tainted = true; lines = t }, none)
unfolding merge_lines_at
merge_lines_at_lem host cy v y t ey h run = rw ey (rw (lt→leb (len v.lines) y h) (rw run))
