-- ===== src/Tests/Loops.antt =====
-- The main loop on one view.
use gocui.Common.{◌+◌, ◌≤◌, refl, List, [], ◌∷◌, true, false, none, some, length}
use gocui.Common.Int.{pos}
use gocui.Attribute.{output_256}
use gocui.Gui.{Gui}
use gocui.Driver.{GocuiEvent, event, event_time, event_mouse}
use gocui.Flush.{App, Client, resize_to}
use gocui.Loop.{handle_event}
use gocui.Loop.Steps.{
  Machine, waiting, consuming, Label, took, polled, proceed, Run, here, next, take_event,
}
use gocui.Loop.Rounds.{steps_left, Run-steps_left}
use gocui.Tests.Data.{host, small_view}

abbrev pub one_view : Gui
one_view = record {
  heap = λ i. small_view;
  next = 1;
  views = 0 ∷ [];
  current_view = some 0;
  output_mode = output_256;
  bg_color = 0;
  fg_color = 0;
  sel_bg_color = 0;
  sel_fg_color = 0;
}

abbrev app : App
app = record {
  gui = one_view;
  max_x = pos 10;
  max_y = pos 5;
  ascii = false;
  support_overlaps = true;
  highlight = false;
  cursor = false;
  frame_color = 0;
  sel_frame_color = 0;
  bindings = record { keybindings = []; blacklist = [] };
  managers = [];
  mouse_x = pos 0;
  mouse_y = pos 0;
  test_counter = 0;
}

-- An application that does nothing.
abbrev client : Client
client = record {
  layout = λ m a. (a, none);
  handle = λ h v a. (a, none);
  run = λ u a. (a, none);
  editor = λ i. none;
}

abbrev tick : GocuiEvent
tick = event event_time

abbrev quiet : Machine
quiet = record { app = app; g_events = []; user_events = []; stop = false; phase = waiting }

abbrev told_once : Machine
told_once = record quiet { g_events = tick ∷ [] }

abbrev handled : Machine
handled = proceed consuming (handle_event client tick app) (record told_once { g_events = [] })

abbrev labels : List Label
labels = polled tick ∷ took tick ∷ []

taken : Run host client false told_once (took tick ∷ []) handled
taken = next (take_event told_once tick [] tt refl) (here handled)

Run-steps_left_example : length (took tick ∷ []) + steps_left handled ≤ steps_left told_once
Run-steps_left_example = Run-steps_left host client false taken (tt, tt)

-- A click on the "b" of "abc".
abbrev click : GocuiEvent
click = record (event event_mouse) { key = 341; mouse_x = pos 2; mouse_y = pos 1 }

-- On a screen of another size, so that the view is drawn again.
abbrev resized : App
resized = resize_to (pos 20) (pos 6) app
