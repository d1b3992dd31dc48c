-- ===== src/App.antt =====
-- gui.go: the state of a Gui as a whole, and the code of the application that it calls.
use gocui.Common.{ℕ, List, Bool, Option, Outcome}
use gocui.Common.Int.{ℤ}
use gocui.View.{View}
use gocui.Gui.{Gui}
use gocui.Keybinding.{Bindings}
use gocui.Frame.{Display}

-- What a Gui keeps, as far as it is modelled.
pub record App : Type 0 where
  pub gui : Gui
  pub max_x : ℤ
  pub max_y : ℤ
  pub ascii : Bool
  pub support_overlaps : Bool
  pub highlight : Bool
  pub cursor : Bool
  pub frame_color : ℕ
  pub sel_frame_color : ℕ
  pub bindings : Bindings
  pub managers : List ℕ
  pub mouse_x : ℤ
  pub mouse_y : ℤ
  pub test_counter : ℕ

-- The fields that the drawing reads.
abbrev pub display_of : App → Display
display_of app = record {
  max_x = app.max_x;
  max_y = app.max_y;
  output_mode = app.gui.output_mode;
  ascii = app.ascii;
  support_overlaps = app.support_overlaps;
  highlight = app.highlight;
  cursor = app.cursor;
  bg_color = app.gui.bg_color;
  fg_color = app.gui.fg_color;
  frame_color = app.frame_color;
  sel_bg_color = app.gui.sel_bg_color;
  sel_fg_color = app.gui.sel_fg_color;
  sel_frame_color = app.sel_frame_color;
}

-- The errors that end the main loop: one of a handler, a manager or a user event, an invalid point,
-- and one that an event brings.
pub data LoopError : Type 0 where
  client_error reported_error : ℕ → LoopError
  point_error : LoopError

-- The code of the application: the layout of a manager, a handler of a key binding with the view it is
-- called for, a user event, and the editor of a view, or none.
pub record Client : Type 0 where
  pub layout : ℕ → App → App × Option ℕ
  pub handle : ℕ → Option ℕ → App → App × Option ℕ
  pub run : ℕ → App → App × Option ℕ
  pub editor : ℕ → Option (ℕ → ℕ → ℕ → View → Outcome View)
