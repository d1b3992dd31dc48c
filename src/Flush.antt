-- ===== src/Flush.antt =====
-- gui.go: `flush`, which draws all views, and the methods it calls.
pub mod Framed
pub mod Returns
pub use gocui.App.{App, display_of, LoopError, client_error, reported_error, point_error, Client}
use gocui.Common.{
  ℕ, suc, ◌+◌, List, [], ◌∷◌, ◌++◌, map, Bool, true, false, not, ◌&&◌, ◌||◌, Option, none, some,
  Outcome, ok, ◌>>=◌, ◌==◌, if◌then◌else◌,
}
use gocui.Common.Int.{ℤ, pos, ◌+ℤ◌, ◌-ℤ◌, ltb_ℤ, eqb_ℤ, pos_part}
use gocui.View.{Host, View, PointError, invalid_point, size_x, size_y}
use gocui.Wrap.{Place, lines_pos_on_screen}
use gocui.Draw.{ScreenCell, Picture, draw}
use gocui.Gui.{Gui, store}
use gocui.Keybinding.{Bindings}
use gocui.Frame.{
  Display, Paint, no_paint, paint_both, count_from, draw_frame_edges, draw_frame_corners,
  draw_title, draw_subtitle,
}

-- The calls of the screen.
pub data ScreenCall : Type 0 where
  set_content : ScreenCell → ScreenCall
  hide_cursor show : ScreenCall
  show_cursor : ℤ → ℤ → ScreenCall

abbrev pub sets : List ScreenCell → List ScreenCall
sets = map set_content

-- The state behind a step of drawing, the calls it made, and an error.
abbrev pub Shown : Type 0
Shown = Gui × List ScreenCall × Option LoopError

abbrev pub with_view : ℕ → View → Gui → Gui
with_view i v g = record g { heap = store g.heap i v }

-- A row of spaces, and all of them.
abbrev pub spaces : View → ℤ → List ℤ → List ScreenCell
spaces v x [] = []
spaces v x (y ∷ ys) =
    record {
      x = v.x0 +ℤ x +ℤ pos 1;
      y = v.y0 +ℤ y +ℤ pos 1;
      chr = 32;
      fg_color = v.fg_color;
      bg_color = v.bg_color;
      mode = v.out_mode;
    }
    ∷ spaces v x ys

abbrev pub spaces_in : View → List ℤ → List ℤ → List ScreenCell
spaces_in v [] ys = []
spaces_in v (x ∷ xs) ys = spaces v x ys ++ spaces_in v xs ys

-- `clearRunes`
unfoldable pub clear_runes : View → List ScreenCell
unfolding count_from
clear_runes v =
    spaces_in v (count_from (pos 0) (pos_part (size_x v)))
      (count_from (pos 0) (pos_part (size_y v)))

-- The cells of the whole screen, row by row.
abbrev pub blank_row : Display → ℤ → List ℤ → List ScreenCell
blank_row d y [] = []
blank_row d y (x ∷ xs) =
    record {
      x = x;
      y = y;
      chr = 32;
      fg_color = d.fg_color;
      bg_color = d.bg_color;
      mode = d.output_mode;
    }
    ∷ blank_row d y xs

abbrev pub blank_rows : Display → List ℤ → List ℤ → List ScreenCell
blank_rows d xs [] = []
blank_rows d xs (y ∷ ys) = blank_row d y xs ++ blank_rows d xs ys

-- `clear`, on a screen of w columns and h rows.
unfoldable pub clear_screen : Display → ℤ → ℤ → List ScreenCell
unfolding count_from
clear_screen d w h =
    blank_rows d (count_from (pos 0) (pos_part w)) (count_from (pos 0) (pos_part h))

abbrev pub loop_error : Option PointError → Option LoopError
loop_error none = none
loop_error (some e) = some point_error

module _ (host : Host) (d : Display) where
  -- `completed` of `draw`.
  abbrev pub completed : ℕ → List ScreenCall → Gui → Outcome Shown
  completed i calls g =
      let v = g.heap i in
      draw host v >>= λ p.
      ok (with_view i p.0 g, calls ++ sets (clear_runes v) ++ sets p.1, loop_error p.2)

  abbrev pub at_least_zero : ℤ → ℤ
  at_least_zero x = if ltb_ℤ x (pos 0) then pos 0 else x

  -- The cursor of the current view, before view i is drawn.
  abbrev pub place_cursor : ℕ → View → Gui → Place → Outcome Shown
  place_cursor i v g p =
      if not p.in_sight
      then completed i (hide_cursor ∷ []) g
      else completed i
          (show_cursor (v.x0 +ℤ p.view_x +ℤ pos 1 -ℤ v.ox) (v.y0 +ℤ p.view_y +ℤ pos 1 -ℤ v.oy) ∷ [])
          g

  -- `Gui.draw`
  abbrev pub draw_behind : ℕ → Gui → Option ℕ → Outcome Shown
  draw_behind i g none = completed i [] g
  draw_behind i g (some c) =
      let cur = g.heap c in
      let v = record cur { cx = at_least_zero cur.cx; cy = at_least_zero cur.cy } in
      lines_pos_on_screen host v v.cx v.cy >>= place_cursor i v (with_view c v g)

  unfoldable pub draw_view : ℕ → Gui → Outcome Shown
  unfolding draw clear_runes lines_pos_on_screen
  draw_view i g =
      if not d.cursor then completed i (hide_cursor ∷ []) g else draw_behind i g g.current_view

  -- The three colours of a frame: of the title, behind it, and of the lines.
  pub record FrameColors : Type 0 where
    pub fg : ℕ
    pub bg : ℕ
    pub line : ℕ

  abbrev pub is_current : ℕ → Option ℕ → Bool
  is_current i none = false
  is_current i (some c) = c == i

  abbrev pub frame_colors : ℕ → Gui → FrameColors
  frame_colors i g =
      let v = g.heap i in
      let default = host.tcell.color_default in
      if d.highlight && is_current i g.current_view
      then record { fg = d.sel_fg_color; bg = d.sel_bg_color; line = d.sel_frame_color }
      else record {
        fg = if not (v.title_color == default) then v.title_color else d.fg_color;
        bg = d.bg_color;
        line = if not (v.frame_color == default) then v.frame_color else d.frame_color;
      }

  abbrev pub if_any : List ℕ → Paint → Paint
  if_any [] p = no_paint
  if_any (c ∷ cs) p = p

  -- The calls of the frame of a view; what comes before a panic in the corners is left out.
  unfoldable pub draw_frame : FrameColors → View → Outcome Paint
  unfolding draw_frame_edges draw_frame_corners draw_title draw_subtitle
  draw_frame c v = draw_frame_corners d v c.line c.bg >>= λ corners. ok (
      paint_both (draw_frame_edges d v c.line c.bg) (
        paint_both corners (
          paint_both (if_any v.title (draw_title d v c.fg c.bg))
            (if_any v.subtitle (draw_subtitle d v c.fg c.bg)))))

  -- Calls in front of a step.
  abbrev pub after_calls : List ScreenCall → Shown → Shown
  after_calls calls (g, more, e) = (g, calls ++ more, e)

  abbrev pub behind_frame : ℕ → Gui → Paint → Outcome Shown
  behind_frame i g p =
      if p.failed
      then ok (g, sets p.cells, some point_error)
      else (draw_view i g >>= λ s. ok (after_calls (sets p.cells) s))

  -- One round of the loop over the views.
  unfoldable pub flush_view : ℕ → Gui → Outcome Shown
  unfolding draw_frame draw_view
  flush_view i g =
      let v = g.heap i in
      if not v.visible || ltb_ℤ v.y1 v.y0
      then ok (g, [], none)
      else if v.frame
      then draw_frame (frame_colors i g) v >>= behind_frame i g
      else draw_view i g

  -- The loop over the views, which an error ends.
  abbrev pub next_view : Shown → (Gui → Outcome Shown) → Outcome Shown
  next_view (g, calls, some e) more = ok (g, calls, some e)
  next_view (g, calls, none) more = more g >>= λ s. ok (after_calls calls s)

  unfoldable pub flush_views : List ℕ → Gui → Outcome Shown
  unfolding flush_view
  flush_views [] g = ok (g, show ∷ [], none)
  flush_views (i ∷ is) g = flush_view i g >>= λ s. next_view s (flush_views is)

-- The layouts, one after the other, until one returns an error.
abbrev pub next_layout : App × Option ℕ → (App → App × Option ℕ) → App × Option ℕ
next_layout (app, some e) more = (app, some e)
next_layout (app, none) more = more app

abbrev pub run_layouts : Client → List ℕ → App → App × Option ℕ
run_layouts c [] app = (app, none)
run_layouts c (m ∷ ms) app = next_layout (c.layout m app) (run_layouts c ms)

-- Every view has to be drawn again.
abbrev pub taint : List ℕ → (ℕ → View) → ℕ → View
taint [] heap = heap
taint (i ∷ is) heap = taint is (store heap i (record (heap i) { tainted = true }))

-- The size of the screen, as `flush` takes it over.
abbrev pub resize_to : ℤ → ℤ → App → App
resize_to w h app =
    let g = app.gui in
    let heap =
      if not (eqb_ℤ w app.max_x) || not (eqb_ℤ h app.max_y) then taint g.views g.heap else g.heap in
    record app { gui = record g { heap = heap }; max_x = w; max_y = h }

abbrev pub flush_laid_out :
    Host → App × Option ℕ → Outcome (App × List ScreenCall × Option LoopError)
flush_laid_out host (app, some e) = ok (app, [], some (client_error e))
flush_laid_out host (app, none) = flush_views host (display_of app) app.gui.views app.gui >>= λ s.
    ok (record app { gui = s.0 }, s.1, s.2)

-- `flush`, on a screen of w columns and h rows.
unfoldable pub flush :
    Host → Client → ℤ → ℤ → App → Outcome (App × List ScreenCall × Option LoopError)
unfolding flush_views clear_screen
flush host c w h app = flush_laid_out host (run_layouts c app.managers (resize_to w h app)) >>= λ r.
    ok (r.0, sets (clear_screen (display_of app) w h) ++ r.1, r.2)
