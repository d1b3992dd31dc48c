-- ===== src/Draw.antt =====
-- view.go: `draw`, as the cells it sets on the screen one after the other, and the methods that change
-- one line (`SetLine`, `SetHighlight`).
pub mod Sound
use Prim.Native.Nat.{bit_or}
use gocui.Common.{
  ℕ, suc, ◌+◌, List, [], ◌∷◌, ◌++◌, Bool, true, false, not, ◌&&◌, ◌||◌, Option, none, some, Outcome,
  ok, ◌>>=◌, leb, ◌==◌, if◌then◌else◌, length, map,
}
use gocui.Common.Int.{ℤ, pos, negsuc, ◌+ℤ◌, ◌-ℤ◌, ltb_ℤ, leb_ℤ, eqb_ℤ}
use gocui.Slice.{len, index, append, set_item}
use gocui.Cell.{Cell, Line, blank, nil_line}
use gocui.Attribute.{OutputMode, attr_bold}
use gocui.View.{View, Host, CellCache, Reply, PointError, invalid_point, size_x, size_y}
use gocui.Wrap.{cell_width, view_lines}
use gocui.Write.{parse_input}

-- The arguments of a call of `tcellSetCell`.
pub record ScreenCell : Type 0 where
  pub x : ℤ
  pub y : ℤ
  pub chr : ℕ
  pub fg_color : ℕ
  pub bg_color : ℕ
  pub mode : OutputMode

-- The colours and the rune of `setRune`; NUL is shown as a space.
abbrev pub shown_cell : View → ℤ → ℤ → ℕ → ℕ → ℕ → ScreenCell
shown_cell v x y ch fg bg = record {
  x = v.x0 +ℤ x +ℤ pos 1 +ℤ v.padding_x;
  y = v.y0 +ℤ y +ℤ pos 1 +ℤ v.padding_y;
  chr = if ch == 0 then 32 else ch;
  fg_color = fg;
  bg_color = bg;
  mode = v.out_mode;
}

-- `setRune`: the cell that is set, or none at an invalid point.
unfoldable pub set_rune : View → ℤ → ℤ → ℕ → ℕ → ℕ → Option ScreenCell
set_rune v x y ch fg bg =
    if ltb_ℤ x (pos 0) || leb_ℤ (size_x v) x || ltb_ℤ y (pos 0) || leb_ℤ (size_y v) y
    then none
    else if not (v.mask == 0)
    then some (shown_cell v x y v.mask v.fg_color v.bg_color)
    else if v.highlight && eqb_ℤ y (v.cy -ℤ v.oy)
    then some
        (shown_cell v x y ch (bit_or v.sel_fg_color attr_bold) (bit_or v.sel_bg_color attr_bold))
    else some (shown_cell v x y ch fg bg)

-- What a run of `setRune` calls comes to: the cells for the cache, the cells on the screen, and
-- whether a call failed, which ends the run.
pub record Drawn : Type 0 where
  pub cache : List CellCache
  pub screen : List ScreenCell
  pub failed : Bool

abbrev pub nothing : Drawn
nothing = record { cache = []; screen = []; failed = false }

-- A cell, and what is drawn after it.
abbrev pub draw_then : View → CellCache → Drawn → Drawn
draw_then v c rest = elim (set_rune v c.x c.y c.chr c.fg_color c.bg_color) [
  | none ↦ record { cache = c ∷ []; screen = []; failed = true }
  | some s ↦ record { cache = c ∷ rest.cache; screen = s ∷ rest.screen; failed = rest.failed }
]

-- The cached cells.
unfoldable pub draw_cache : View → List CellCache → Drawn
unfolding set_rune
draw_cache v [] = nothing
draw_cache v (c ∷ cs) = draw_then v c (draw_cache v cs)

-- Another run behind the first one, unless that one failed.
abbrev pub draw_both : Drawn → Drawn → Drawn
draw_both a b =
    if a.failed
    then a
    else record { cache = a.cache ++ b.cache; screen = a.screen ++ b.screen; failed = b.failed }

module _ (host : Host) (v : View) where
  -- A cell of the buffer: the view's colours stand for the default.
  abbrev pub to_cache : ℕ → ℕ → Cell → CellCache
  to_cache x y c = record {
    chr = c.chr;
    bg_color = if c.bg_color == host.tcell.color_default then v.bg_color else c.bg_color;
    fg_color = if c.fg_color == host.tcell.color_default then v.fg_color else c.fg_color;
    x = pos x;
    y = pos y;
  }

  -- The loop over the cells of a line, from the cell with the number i on.
  unfoldable pub draw_cells : ℕ → ℕ → ℕ → List Cell → Drawn
  unfolding set_rune
  draw_cells i x y [] = nothing
  draw_cells i x y (c ∷ cs) =
      let skipped = draw_cells (suc i) x y cs in
      let rest = draw_cells (suc i) (x + cell_width host.rune_width c) y cs in
      if ltb_ℤ (pos i) v.ox
      then skipped
      else if leb_ℤ (size_x v) (pos x)
      then nothing
      else draw_then v (to_cache x y c) rest

  -- The loop over the lines.
  unfoldable pub draw_lines : ℕ → ℕ → List (List Cell) → Drawn
  unfolding draw_cells
  draw_lines i y [] = nothing
  draw_lines i y (l ∷ ls) =
      let skipped = draw_lines (suc i) y ls in
      let rest = draw_lines (suc i) (suc y) ls in
      if ltb_ℤ (pos i) v.oy
      then skipped
      else if leb_ℤ (size_y v) (pos y)
      then nothing
      else draw_both (draw_cells 0 0 y l) rest

-- What `draw` returns: the view, the cells it set, and the error.
abbrev pub Picture : Type 0
Picture = View × List ScreenCell × Option PointError

abbrev pub error_of : Bool → Option PointError
error_of failed = if failed then some invalid_point else none

abbrev pub keep_cache : View → Drawn → Picture
keep_cache v d =
    (if d.failed then v else record v { content_cache = some d.cache }, d.screen, error_of d.failed)

-- The scrolling of `draw` to the end of the text.
abbrev pub scroll_to_end : List (List Cell) → View → View
scroll_to_end ls v =
    if v.autoscroll && ltb_ℤ (size_y v) (pos (length ls))
    then record v { oy = pos (length ls) -ℤ size_y v -ℤ pos 1 }
    else v

abbrev pub render : Host → View → Outcome Picture
render host v = view_lines host v >>= λ ls.
    let w = scroll_to_end ls v in ok (keep_cache w (draw_lines host w 0 0 ls))

abbrev pub draw_from : Host → View → Option (List CellCache) → Outcome Picture
draw_from host v none = render host v
draw_from host v (some cs) =
    if v.tainted
    then render host v
    else (let d = draw_cache v cs in ok (v, d.screen, error_of d.failed))

-- `draw`
unfoldable pub draw : Host → View → Outcome Picture
unfolding draw_cache draw_lines
draw host v =
    let from_start = record v { ox = pos 0 } in
    if not v.visible
    then ok (v, [], none)
    else if v.wrap && eqb_ℤ (size_x v) (pos 0)
    then ok (v, [], none)
    else draw_from host (if v.wrap then from_start else v) v.content_cache

-- The line of a text: parseInput on each rune, appended.
unfoldable pub parse_text : Host → List ℕ → Line → View → Outcome (View × Line)
unfolding parse_input
parse_text host [] line v = ok (v, line)
parse_text host (r ∷ rs) line v = parse_input host r v >>= λ p.
    let cells : List Cell = elim (p.1) [ none ↦ [] | some cs ↦ cs ] in
    parse_text host rs (append host.runtime.cells blank line cells) (p.0)

-- `SetLine`
unfoldable pub set_line : Host → ℤ → List ℕ → View → Outcome Reply
unfolding parse_text
set_line host (negsuc y) t v = ok (v, some invalid_point)
set_line host (pos y) t v =
    if leb (len v.lines) y
    then ok (v, some invalid_point)
    else (parse_text host t nil_line (record v { tainted = true }) >>= λ r.
        ok (record (r.0) { lines = set_item (r.0).lines y (r.1) }, none))

abbrev pub recolor : View → Bool → Cell → Cell
recolor v on c =
    if on
    then record c { bg_color = v.sel_bg_color; fg_color = v.sel_fg_color }
    else record c { bg_color = v.bg_color; fg_color = v.fg_color }

-- `append` of one cell after the other.
abbrev pub append_each : Host → List Cell → Line → Line
append_each host [] line = line
append_each host (c ∷ cs) line = append_each host cs (append host.runtime.cells blank line (c ∷ []))

-- `SetHighlight`
unfoldable pub set_highlight : Host → ℤ → Bool → View → Outcome Reply
set_highlight host (negsuc y) on v = ok (v, some invalid_point)
set_highlight host (pos y) on v =
    if leb (len v.lines) y
    then ok (v, some invalid_point)
    else (index v.lines.items y >>= λ l. ok (
      record v {
        tainted = true;
        lines = set_item v.lines y (append_each host (map (recolor v on) l.items) nil_line);
      },
      none,
    ))
