-- ===== src/Loop/Mouse.antt =====
-- A click into the text of a view.
use gocui.Common.{ℕ}
use gocui.Common.Int.{pos}
use gocui.View.{View}
use gocui.Driver.{GocuiEvent}
use gocui.Flush.{App, with_view}

-- The state in which the bindings of a click are looked up.
abbrev pub clicked : GocuiEvent → ℕ → ℕ → ℕ → App → App
clicked e i x y app = record app {
  mouse_x = e.mouse_x;
  mouse_y = e.mouse_y;
  gui = with_view i (record (app.gui.heap i) { cx = pos x; cy = pos y }) app.gui;
}
