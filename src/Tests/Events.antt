-- ===== src/Tests/Events.antt =====
-- Events of the mouse and the keyboard, and a style.
use gocui.Common.{
  ◌+◌, ◌^◌, ◌≡◌, refl, List, [], ◌∷◌, ◌++◌, Bool, true, false, ◌||◌, ==_self, if◌then◌else◌, ok,
}
use gocui.Common.Int.{pos}
use gocui.Attribute.{output_true, attr_bold}
use gocui.Driver.{TcellEvent, interrupt, mouse_at, Held, button_key, wheel, mouse_event}
use gocui.Driver.Mouse.{poll_all, idle, outcome, poll_all_lem}
use gocui.Driver.Style.{
  Effect, bold, underline, Styles, Switches, same_effect, asks, get_tcell_style,
  get_tcell_style_lem,
}
use gocui.Tests.Data.{tc}
use gocui.Tests.Codes.{codes, modifiers, buttons}

-- A drag with the left button, with an interrupt in between.
abbrev dragged : List TcellEvent
dragged = mouse_at (pos 2) (pos 3) 1 0 ∷ interrupt ∷ []

poll_all_example :
    poll_all codes modifiers buttons
      (mouse_at (pos 1) (pos 3) 1 4 ∷ dragged ++ mouse_at (pos 3) (pos 3) 0 0 ∷ [])
      (idle codes modifiers buttons)
    ≡ (
      idle codes modifiers buttons,
      mouse_event codes modifiers buttons (pos 1) (pos 3) (record { key = codes.f63; mod' = 4 })
          ∷ outcome codes modifiers buttons dragged (pos 3) (pos 3) 4,
    )
poll_all_example =
    poll_all_lem codes modifiers buttons dragged (pos 1) (pos 3) (pos 3) (pos 3) 1 4 0
      (idle codes modifiers buttons) refl refl refl (refl, tt)

-- A style is the effects that are on.
abbrev switches : Styles
switches = record {
  Style = Effect → Bool;
  style_default = λ e. false;
  foreground = λ c st. st;
  background = λ c st. st;
  switch_on = λ d st e. if same_effect e d then true else st e;
}

abbrev is_on : Effect → (Effect → Bool) → Bool
is_on e st = st e

switches-Switches : Switches switches is_on
switches-Switches = (
  λ e st. rw (==_self (gocui.Driver.Style.attr_of e)) refl,
  λ e d st n. rw n refl,
  λ e c st. refl,
  λ e c st. refl,
  λ e. refl,
)

get_tcell_style_example :
    (st : Effect → Bool) × (get_tcell_style switches tc (2 ^ 40 + 2 ^ 32 + 5) 0 output_true ≡ ok st)
    × ((e : Effect)
        → is_on e st ≡ asks switches is_on tc e 0 || asks switches is_on tc e (2 ^ 40 + 2 ^ 32 + 5))
unfolding gocui.Attribute.Terminal.get_tcell_color
get_tcell_style_example =
    get_tcell_style_lem switches is_on switches-Switches tc (2 ^ 40 + 2 ^ 32 + 5) 0 (2 ^ 32 + 5) 0
      output_true refl refl
