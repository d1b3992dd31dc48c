-- ===== src/Loop.antt =====
-- gui.go: the events of the main loop: `handleEvent`, `onKey`, `MainLoop` and `consumeevents`. The two
-- channels and the goroutines that fill them are in the step relation of Loop/Steps.
pub mod Steps
pub mod Queues
pub mod Rounds
pub mod Mouse
use gocui.Common.{
  ℕ, suc, ◌+◌, List, [], ◌∷◌, Bool, true, false, not, ◌&&◌, ◌||◌, Option, none, some, Outcome, ok,
  ◌>>=◌, ◌==◌, if◌then◌else◌, map,
}
use gocui.Common.Int.{ℤ, pos, ◌+ℤ◌, ◌-ℤ◌}
use gocui.View.{View, Reply, set_cursor}
use gocui.Gui.{Gui, Answer, view_by_position}
use gocui.Keybinding.{Bindings, Press, Reaction, unmatched, blocked, calls, exec_keybindings}
use gocui.Driver.{
  GocuiEvent, event_none, event_key, event_resize, event_mouse, event_interrupt, event_error,
  event_raw, event_time,
}
use gocui.Flush.{
  App, Client, LoopError, client_error, reported_error, point_error, with_view, loop_error,
}

-- What a handler leaves: the state, and an error, which ends the loop.
abbrev pub Handled : Type 0
Handled = App × Option LoopError

abbrev pub press_of : GocuiEvent → Press
press_of e = record { key = e.key; ch = e.ch; mod' = e.mod' }

-- The view behind a pointer, or nil.
abbrev pub deref : Gui → Option ℕ → Option View
deref g none = none
deref g (some i) = some (g.heap i)

abbrev pub client_step : App × Option ℕ → Handled
client_step (app, none) = (app, none)
client_step (app, some e) = (app, some (client_error e))

module _ (c : Client) where
  -- `execKeybindings`, with the call of the handler; whether the key was matched.
  abbrev pub react : Option ℕ → App → Reaction → Handled × Bool
  react v app unmatched = ((app, none), false)
  react v app blocked = ((app, none), true)
  react v app (calls h) = (client_step (c.handle h v app), true)

  unfoldable pub run_keybindings : Option ℕ → GocuiEvent → App → Handled × Bool
  unfolding exec_keybindings
  run_keybindings v e app =
      react v app (exec_keybindings (deref app.gui v) (press_of e) app.bindings)

  -- The editor of the current view, if it takes the key.
  abbrev pub edit_with :
      ℕ → GocuiEvent → App → Option (ℕ → ℕ → ℕ → View → Outcome View) → Outcome Handled
  edit_with i e app none = ok (app, none)
  edit_with i e app (some editor) = editor e.key e.ch e.mod' (app.gui.heap i) >>= λ v.
      ok (record app { gui = with_view i v app.gui }, none)

  abbrev pub edit_current : GocuiEvent → App → Option ℕ → Outcome Handled
  edit_current e app none = ok (app, none)
  edit_current e app (some i) =
      if (app.gui.heap i).editable then edit_with i e app (c.editor i) else ok (app, none)

  -- Behind the bindings: an error or a match ends the handling.
  abbrev pub unless_matched : GocuiEvent → Handled × Bool → Outcome Handled
  unless_matched e ((app, some err), matched) = ok (app, some err)
  unless_matched e ((app, none), true) = ok (app, none)
  unless_matched e ((app, none), false) = edit_current e app app.gui.current_view

  unfoldable pub on_key_press : GocuiEvent → App → Outcome Handled
  unfolding run_keybindings
  on_key_press e app = unless_matched e (run_keybindings app.gui.current_view e app)

  -- A mouse event over a view, once its cursor is set.
  abbrev pub at_cursor : GocuiEvent → ℕ → App → Reply → Handled
  at_cursor e i app (v, some err) =
      (record app { gui = with_view i v app.gui }, loop_error (some err))
  at_cursor e i app (v, none) =
      (run_keybindings (some i) e (record app { gui = with_view i v app.gui })).0

  abbrev pub on_view : GocuiEvent → App → Answer → Outcome Handled
  on_view e app (none, err) = ok (app, none)
  on_view e app (some i, err) =
      let v = app.gui.heap i in
      set_cursor (e.mouse_x -ℤ v.x0 -ℤ pos 1 +ℤ v.ox) (e.mouse_y -ℤ v.y0 -ℤ pos 1 +ℤ v.oy) v
      >>= λ r. ok (at_cursor e i app r)

  unfoldable pub on_mouse : GocuiEvent → App → Outcome Handled
  unfolding run_keybindings set_cursor view_by_position
  on_mouse e app =
      let moved = record app { mouse_x = e.mouse_x; mouse_y = e.mouse_y } in
      on_view e moved (view_by_position e.mouse_x e.mouse_y app.gui)

  -- `onKey` and `handleEvent`
  abbrev pub loop_err : Option ℕ → Option LoopError
  loop_err none = none
  loop_err (some e) = some (reported_error e)

  unfoldable pub handle_event : GocuiEvent → App → Outcome Handled
  unfolding on_key_press on_mouse
  handle_event e app = elim (e.type) [
    | event_key ↦ on_key_press e app
    | event_mouse ↦ on_mouse e app
    | event_time ↦ ok (record app { test_counter = app.test_counter + 1 }, none)
    | event_error ↦ ok (app, loop_err e.err)
    | _ ↦ ok (app, none)
  ]

-- `SetManager`, less the resize event that it sends.
abbrev pub set_manager : List ℕ → App → App
set_manager ms app = record app {
  managers = ms;
  gui = record (app.gui) { current_view = none; views = [] };
  bindings = record (app.bindings) { keybindings = [] };
}
