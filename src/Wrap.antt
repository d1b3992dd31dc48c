-- ===== src/Wrap.antt =====
-- view.go: the lines of a view as they are shown, wrapped at its width, and where a place of the
-- buffer is on the screen.
pub mod Pieces
pub mod Hang
pub mod Locate
pub mod Position
use gocui.Common.{
  ℕ, zero, suc, ◌+◌, ◌-◌, ◌*◌, ◌/◌, ◌%◌, List, [], ◌∷◌, ◌++◌, Bool, true, false, ◌&&◌, ◌||◌, not,
  Option, none, some, Outcome, ok, panic, out_of_fuel, ◌>>=◌, ltb, leb, ◌==◌, if◌then◌else◌, length,
  take, map,
}
use gocui.Common.Int.{ℤ, pos, negsuc, ◌+ℤ◌, ◌-ℤ◌, ltb_ℤ, leb_ℤ, eqb_ℤ, sub_ℕ}
use gocui.Slice.{len, index}
use gocui.Cell.{Cell, Line, Lines}
use gocui.View.{View, Host, size_x, size_y}

-- The width of a cell: NUL is drawn as a space.
abbrev pub cell_width : (ℕ → ℕ) → Cell → ℕ
cell_width rune_width c = if c.chr == 0 then 1 else rune_width c.chr

-- `lineWidth`
unfoldable pub line_width : (ℕ → ℕ) → List Cell → ℕ
line_width rune_width [] = 0
line_width rune_width (c ∷ cs) = cell_width rune_width c + line_width rune_width cs

-- What `takeLine` returns, and what it leaves in the slice.
pub record Piece : Type 0 where
  pub shown : List Cell
  pub width : ℕ
  pub rest : List Cell

module _ (rune_width : ℕ → ℕ) (max_x : ℤ) where
  -- The loop of `takeLine`, from the width so far.
  unfoldable pub take_cells : ℕ → List Cell → Piece
  take_cells width [] = record { shown = []; width = width; rest = [] }
  take_cells width (c ∷ cs) =
      let w = width + cell_width rune_width c in
      let p = take_cells w cs in
      if ltb_ℤ max_x (pos w)
      then record { shown = []; width = width; rest = c ∷ cs }
      else if eqb_ℤ (pos w) max_x
      then record { shown = c ∷ []; width = w; rest = cs }
      else record p { shown = c ∷ p.shown }

  -- `takeLine`: the line is at its end when nothing is left.
  unfoldable pub take_line : List Cell → Piece
  unfolding take_cells
  take_line l = take_cells 0 l

  -- A piece, and the pieces of what is left, unless the line is at its end.
  abbrev pub join_piece :
      List Cell → List Cell → (List Cell → Outcome (List (List Cell))) → Outcome (List (List Cell))
  join_piece shown [] more = ok (shown ∷ [])
  join_piece shown (c ∷ cs) more = more (c ∷ cs) >>= λ ps. ok (shown ∷ ps)

  -- `for { takeLine; if end { break } }` on one line: the pieces of the line.
  unfoldable pub wrap_line : ℕ → List Cell → Outcome (List (List Cell))
  wrap_line zero l = out_of_fuel
  wrap_line (suc fuel) l = let p = take_line l in join_piece p.shown p.rest (wrap_line fuel)

  -- All lines wrapped, a round more for each than it has cells.
  unfoldable pub wrap_lines : List (List Cell) → Outcome (List (List Cell))
  wrap_lines [] = ok []
  wrap_lines (l ∷ ls) = do ps ← wrap_line (suc (length l)) l; qs ← wrap_lines ls; ok (ps ++ qs)

-- `viewLines`
unfoldable pub view_lines : Host → View → Outcome (List (List Cell))
unfolding wrap_lines
view_lines host v =
    let ls = map (λ (l : Line). l.items) v.lines.items in
    if not v.wrap then ok ls else wrap_lines host.rune_width (size_x v) ls

module _ (rune_width : ℕ → ℕ) (max_x : ℤ) where
  -- The first loop of `linesPosOnScreen`: the rows above line y, from n on, and the line if it exists.
  unfoldable pub seek : ℕ → List (List Cell) → ℕ → Outcome (ℕ × Option (List Cell))
  seek y [] n = ok (n, none)
  seek zero (l ∷ ls) n = ok (n, some l)
  seek (suc y) (l ∷ ls) n =
      wrap_line rune_width max_x (suc (length l)) l >>= λ ps. seek y ls (n + length ps)

  -- The second loop: how wide the cells in front of column x are on their row, and the row.
  unfoldable pub locate : ℕ → ℕ → ℕ → List Cell → Outcome (ℕ × ℕ)
  locate zero x row l = out_of_fuel
  locate (suc fuel) x row l =
      let p = take_line rune_width max_x l in
      let x' = x - length p.shown in
      let more = locate fuel x' (row + 1) p.rest in
      if ltb x (length p.shown)
      then ok (line_width rune_width (take x p.shown), row)
      else if length p.rest == 0
      then ok (x' + p.width, row)
      else more

-- The quotient of Go's `/` for a dividend that is not negative; the remainder is that of `%`.
abbrev pub quotient : ℕ → ℤ → Outcome (ℤ × ℕ)
quotient x (pos zero) = panic
quotient x (pos (suc m)) = ok (pos (x / suc m), x % suc m)
quotient x (negsuc m) = ok (sub_ℕ 0 (x / suc m), x % suc m)

-- Where a place is shown, and whether it is in sight.
pub record Place : Type 0 where
  pub view_x : ℤ
  pub view_y : ℤ
  pub in_sight : Bool

abbrev pub place_at : View → ℤ → ℤ → Place
place_at v x y = record {
  view_x = x;
  view_y = y;
  in_sight =
      leb_ℤ v.oy y && ltb_ℤ y (v.oy +ℤ size_y v) && leb_ℤ v.ox x && ltb_ℤ x (v.ox +ℤ size_x v);
}

-- What `linesPosOnScreen` has behind its two loops: the width in front of the place, and its row.
unfoldable pub place_in_line : Host → View → ℕ → ℕ → ℕ × Option (List Cell) → Outcome (ℕ × ℕ)
unfolding locate
place_in_line host v x y (n, some l) = locate host.rune_width (size_x v) (suc (length l)) x n l
place_in_line host v x y (n, none) =
    ok (x, if ltb y (len v.lines) then y else n + (y - len v.lines))

-- `linesPosOnScreen` for a place that is not negative, in a view that wraps.
unfoldable pub wrapped_place : Host → View → ℕ → ℕ → Outcome Place
unfolding seek place_in_line
wrapped_place host v x y = do
  found ← seek host.rune_width (size_x v) y (map (λ (l : Line). l.items) v.lines.items) 0
  r ← place_in_line host v x y found
  q ← quotient (r.0) (size_x v)
  ok (place_at v (pos (q.1)) (pos (r.1) +ℤ q.0))

-- `linesPosOnScreen`
unfoldable pub lines_pos_on_screen : Host → View → ℤ → ℤ → Outcome Place
unfolding wrapped_place
lines_pos_on_screen host v (pos x) (pos y) =
    if not v.wrap then ok (place_at v (pos x) (pos y)) else wrapped_place host v x y
lines_pos_on_screen host v _ _ = ok (record { view_x = pos 0; view_y = pos 0; in_sight = false })
