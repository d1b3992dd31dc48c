-- ===== src/Cursor/Moves.antt =====
-- `MoveCursor` in a view that does not wrap.
use native.Mathlib.Decide.{dec_lt}
use gocui.Common.{ℕ, ◌≤◌, ◌<◌, ◌≡◌, refl, false, arith, ok, ◌==◌}
use gocui.Common.Int.{ℤ, pos, ◌+ℤ◌}
use mathlib.Core.Path.{subst}
use gocui.Slice.{len, index}
use gocui.Cell.{Line}
use gocui.View.{View, Host, size_x, size_y}
use gocui.Wrap.{lines_pos_on_screen, place_at}
use gocui.Cursor.{move_cursor, target, scroll_y, scroll_x}
use gocui.Cursor.Target.{target-InText}
use gocui.Cursor.Scroll.{Shows}

-- The cursor is at a position that is not negative, and not behind the end of its line, if the text
-- has that line.
abbrev pub Placed : View → Type 0
Placed v =
    (x y : ℕ) × (v.cx ≡ pos x)
    × (v.cy ≡ pos y)
    × ((l : Line) → index v.lines.items y ≡ ok l → x ≤ len l)

-- The cursor is among the cells that the view shows.
abbrev pub InSight : View → Type 0
InSight v = Shows v.oy (size_y v) v.cy × Shows v.ox (size_x v) v.cx

-- The view after the cursor went to column x of line y.
abbrev pub at_place : View → ℕ → ℕ → View
at_place v x y = record v {
  oy = scroll_y (pos y) (size_y v) v.oy;
  ox = scroll_x (pos x) (size_x v) v.ox;
  cx = pos x;
  cy = pos y;
}

unwrapped_place :
    (host : Host) (v : View) (x y : ℕ)
    → v.wrap ≡ false
    → lines_pos_on_screen host v (pos x) (pos y) ≡ ok (place_at v (pos x) (pos y))
unfolding lines_pos_on_screen
unwrapped_place host v x y w = rw w

length-pos : (n : ℕ) → 0 < n → (n == 0) ≡ false
length-pos n h = ground arith

module _ (host : Host) (dx dy : ℤ) where
  move_cursor_empty :
      (v : View)
      → len v.lines ≡ 0
      → move_cursor host dx dy v ≡ ok (record v { cx = pos 0; cy = pos 0 })
  unfolding move_cursor
  move_cursor_empty v e = rw e

  pub move_cursor_to :
      (v : View) (x y : ℕ)
      → v.wrap ≡ false
      → 0 < len v.lines
      → target v.lines (v.cx +ℤ dx) (v.cy +ℤ dy) dy ≡ ok (x, y)
      → move_cursor host dx dy v ≡ ok (at_place v x y)
  unfolding move_cursor
  move_cursor_to v x y w h t =
      rw (length-pos (len v.lines) h) (rw t (rw (unwrapped_place host v x y w) (rw w)))

-- In a view that does not wrap, from any position and by any step, MoveCursor returns, leaves the
-- text and the flags Wrap and Overwrite alone, and the cursor is at a position that is not
-- negative and not behind the end of its line.
pub move_cursor-Placed :
    (host : Host) (dx dy : ℤ) (v : View)
    → v.wrap ≡ false
    → (w : View) × (move_cursor host dx dy v ≡ ok w)
      × (w.lines ≡ v.lines)
      × (w.wrap ≡ false)
      × (w.overwrite ≡ v.overwrite)
      × Placed w
move_cursor-Placed host dx dy v n = elim (dec_lt 0 (len v.lines)) [
  | yes some_text ↦
      let (x, y, t, (l, at, h)) = target-InText v.lines (v.cx +ℤ dx) (v.cy +ℤ dy) dy some_text in
      (
        at_place v x y,
        move_cursor_to host dx dy v x y n some_text t,
        refl,
        n,
        refl,
        (x, y, refl, refl, λ m there. let e : l ≡ m = cc in subst (λ (k : Line). x ≤ len k) e h),
      )
  | no no_text ↦
      let e : len v.lines ≡ 0 = omega arith in
      (
        _,
        move_cursor_empty host dx dy v e,
        refl,
        n,
        refl,
        (0, 0, refl, refl, λ m there. omega arith),
      )
]
