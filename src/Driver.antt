-- ===== src/Driver.antt =====
-- tcell_driver.go: the events of tcell as events of gocui, and the style of a cell.
pub mod Mouse
pub mod Press
pub mod Style
use Prim.Native.Nat.{bit_and}
use gocui.Common.{ℕ, Bool, true, false, not, ◌&&◌, ◌||◌, Option, none, some, ◌==◌, if◌then◌else◌}
use gocui.Common.Int.{ℤ, pos}
use gocui.Tcell.{KeyCodes, Modifiers, Buttons}
use gocui.Keybinding.Codes.{
  key_space, key_ctrl_space, mouse_left, mouse_right, mouse_middle, mouse_release, mouse_wheel_up,
  mouse_wheel_down, mouse_wheel_left, mouse_wheel_right, mod_none,
}

-- What `PollEvent` returns.
pub data TcellEvent : Type 0 where
  interrupt time other : TcellEvent
  resize : ℤ → ℤ → TcellEvent
  key_press : ℕ → ℕ → ℕ → TcellEvent
  mouse_at : ℤ → ℤ → ℕ → ℕ → TcellEvent

-- `gocuiEventType`
pub data EventType : Type 0 where
  event_none event_key event_resize event_mouse event_interrupt event_error event_raw event_time :
      EventType

-- `gocuiEvent`; an error is a number.
pub record GocuiEvent : Type 0 where
  pub type : EventType
  pub mod' : ℕ
  pub key : ℕ
  pub ch : ℕ
  pub width : ℤ
  pub height : ℤ
  pub err : Option ℕ
  pub mouse_x : ℤ
  pub mouse_y : ℤ

abbrev pub event : EventType → GocuiEvent
event t = record {
  type = t;
  mod' = 0;
  key = 0;
  ch = 0;
  width = pos 0;
  height = pos 0;
  err = none;
  mouse_x = pos 0;
  mouse_y = pos 0;
}

-- The variables of the driver.
pub record Held : Type 0 where
  pub last_mouse_key : ℕ
  pub last_mouse_mod : ℕ

-- The key and the modifiers of a mouse event.
pub record Click : Type 0 where
  pub key : ℕ
  pub mod' : ℕ

module _ (kc : KeyCodes) (m : Modifiers) (bs : Buttons) where
  -- Key and rune of a key event.
  abbrev pub key_of : ℕ → ℕ → ℕ
  key_of k ch = if k == kc.rune_key then if ch == 32 then key_space kc else 0 else k

  abbrev pub ch_of : ℕ → ℕ → ℕ
  ch_of k ch = if k == kc.rune_key then if ch == 32 then 0 else ch else 0

  -- The modifiers, behind key and rune.
  abbrev pub with_modifiers : ℕ → ℕ → ℕ → GocuiEvent
  with_modifiers k ch mods =
      if mods == m.ctrl && k == key_space kc
      then record (event event_key) { key = key_ctrl_space kc }
      else if mods == m.ctrl || (mods == m.shift && (not (ch == 0) || k == key_space kc))
      then record (event event_key) { key = k; ch = ch }
      else record (event event_key) { key = k; ch = ch; mod' = mods }

  abbrev pub key_event : ℕ → ℕ → ℕ → GocuiEvent
  key_event k ch mods = with_modifiers (key_of k ch) (ch_of k ch) mods

  -- One direction of the wheel.
  abbrev pub turned : ℕ → ℕ → ℕ → ℕ → Click → Click
  turned mask code buttons mods c =
      if not (bit_and buttons mask == 0) then record { key = code; mod' = mods } else c

  abbrev pub wheel : ℕ → ℕ → Click
  wheel b mods = turned bs.wheel_right (mouse_wheel_right kc) b mods (
      turned bs.wheel_left (mouse_wheel_left kc) b mods (
        turned bs.wheel_down (mouse_wheel_down kc) b mods
          (turned bs.wheel_up (mouse_wheel_up kc) b mods (record { key = 0; mod' = mod_none }))))

  -- The switch on the buttons of a new press.
  abbrev pub button_key : ℕ → ℕ → ℕ
  button_key b k =
      if b == bs.primary
      then mouse_left kc
      else if b == bs.secondary
      then mouse_right kc
      else if b == bs.middle
      then mouse_middle kc
      else k

  -- A button that goes down while none is held.
  abbrev pub press_button : ℕ → ℕ → Held × Click → Held × Click
  press_button b mods (h, c) =
      let low = bit_and b 0xff in
      if not (low == bs.none_held) && h.last_mouse_key == bs.none_held
      then (
        record { last_mouse_key = low; last_mouse_mod = mods },
        record { key = button_key b c.key; mod' = mods },
      )
      else (h, c)

  -- The end of a press.
  abbrev pub release_button : ℕ → Held × Click → Held × Click
  release_button b (h, c) =
      if b == bs.none_held && not (h.last_mouse_key == bs.none_held)
      then (
        record { last_mouse_key = bs.none_held; last_mouse_mod = 0 },
        record { key = mouse_release kc; mod' = h.last_mouse_mod },
      )
      else (h, c)

  unfoldable pub mouse_click : ℕ → ℕ → Held → Held × Click
  mouse_click b mods h = release_button b (press_button b mods (h, wheel b mods))

  abbrev pub mouse_event : ℤ → ℤ → Click → GocuiEvent
  mouse_event x y c = record (event event_mouse) {
    mouse_x = x;
    mouse_y = y;
    key = c.key;
    mod' = c.mod';
  }

  -- `pollEvent`
  unfoldable pub poll_event : TcellEvent → Held → Held × GocuiEvent
  unfolding mouse_click
  poll_event interrupt h = (h, event event_interrupt)
  poll_event (resize w l) h = (h, record (event event_resize) { width = w; height = l })
  poll_event (key_press k ch mods) h = (h, key_event k ch mods)
  poll_event (mouse_at x y b mods) h = let r = mouse_click b mods h in (r.0, mouse_event x y r.1)
  poll_event time h = (h, event event_time)
  poll_event other h = (h, event event_none)
