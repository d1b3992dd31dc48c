-- ===== src/Loop/Steps.antt =====
-- `MainLoop` and `consumeevents` as steps between what the loop waits for, together with the
-- goroutines that fill the channels.
use gocui.Common.{
  ℕ, ◌<◌, ◌≡◌, List, [], ◌∷◌, ◌++◌, Bool, true, false, Option, none, some, Outcome, ok, panic,
  out_of_fuel, length, if◌then◌else◌,
}
use gocui.Common.Int.{ℤ}
use gocui.View.{Host}
use gocui.Driver.{GocuiEvent}
use gocui.Flush.{App, Client, LoopError, ScreenCall, flush}
use gocui.Loop.{Handled, client_step, handle_event}

-- Where the loop is: at the two calls of `flush` in front of it, at the select of `MainLoop`, in
-- `consumeevents`, at the `flush` behind it, or behind its return. A panic ends the
-- program, and a call that does not end holds the loop up for ever.
pub data Phase : Type 0 where
  first_flush second_flush waiting consuming flushing crashed hanging : Phase
  finished : Option LoopError → Phase

-- The state of the loop, and the channels.
pub record Machine : Type 0 where
  pub app : App
  pub g_events : List GocuiEvent
  pub user_events : List ℕ
  pub stop : Bool
  pub phase : Phase

-- The size of both channels.
abbrev pub capacity : ℕ
capacity = 20

-- What a step did to the channels.
pub data Label : Type 0 where
  took polled : GocuiEvent → Label
  took_user sent : ℕ → Label
  went_on told stopped_poll : Label

-- Where an error, a panic, or a call that does not end leads.
abbrev pub proceed : Phase → Outcome Handled → Machine → Machine
proceed p (ok (app, none)) m = record m { app = app; phase = p }
proceed p (ok (app, some e)) m = record m { app = app; phase = finished (some e) }
proceed p panic m = record m { phase = crashed }
proceed p out_of_fuel m = record m { phase = hanging }

-- The two selects that take events.
abbrev pub IsReading : Phase → Type 0
IsReading waiting = Unit
IsReading consuming = Unit
IsReading _ = ⊥

abbrev pub drop_calls : Outcome (App × List ScreenCall × Option LoopError) → Outcome Handled
drop_calls (ok (app, calls, e)) = ok (app, e)
drop_calls panic = panic
drop_calls out_of_fuel = out_of_fuel

-- The notifications of a test: one for each event that was counted.
abbrev pub notify : Bool → App → App
notify has_notify app = if has_notify then record app { test_counter = 0 } else app

abbrev pub notified : Bool → Outcome Handled → Outcome Handled
notified n (ok (app, none)) = ok (notify n app, none)
notified n (ok (app, some e)) = ok (app, some e)
notified n panic = panic
notified n out_of_fuel = out_of_fuel

-- `flush` in the loop, with the size of the screen.
abbrev pub redraw : Host → Client → ℤ → ℤ → App → Outcome Handled
redraw host c w h app = drop_calls (flush host c w h app)

module _ (host : Host) (c : Client) (has_notify : Bool) where
  pub data Moves : Machine → Label → Machine → Type 0 where
    begin :
        (m : Machine) (w h : ℤ)
        → m.phase ≡ first_flush
        → Moves m went_on (proceed second_flush (redraw host c w h m.app) m)
    enter :
        (m : Machine) (w h : ℤ)
        → m.phase ≡ second_flush
        → Moves m went_on (proceed waiting (notified true (redraw host c w h m.app)) m)
    take_event :
        (m : Machine) (e : GocuiEvent) (es : List GocuiEvent)
        → IsReading m.phase
        → m.g_events ≡ e ∷ es
        → Moves m (took e) (proceed consuming (handle_event c e m.app) (record m { g_events = es }))
    take_user :
        (m : Machine) (u : ℕ) (us : List ℕ)
        → IsReading m.phase
        → m.user_events ≡ u ∷ us
        → Moves m
            (took_user u)
            (proceed consuming (ok (client_step (c.run u m.app))) (record m { user_events = us }))
    take_stop :
        (m : Machine)
        → m.phase ≡ waiting
        → m.stop ≡ true
        → Moves m went_on (record m { stop = false; phase = finished none })
    drained :
        (m : Machine)
        → m.phase ≡ consuming
        → m.g_events ≡ []
        → m.user_events ≡ []
        → Moves m went_on (record m { phase = flushing })
    redrawn :
        (m : Machine) (w h : ℤ)
        → m.phase ≡ flushing
        → Moves m went_on (proceed waiting (notified has_notify (redraw host c w h m.app)) m)
    poll :
        (m : Machine) (e : GocuiEvent)
        → length m.g_events < capacity
        → Moves m (polled e) (record m { g_events = m.g_events ++ e ∷ [] })
    update :
        (m : Machine) (u : ℕ)
        → length m.user_events < capacity
        → Moves m (sent u) (record m { user_events = m.user_events ++ u ∷ [] })
    close : (m : Machine) → Moves m told (record m { stop = true })
    poll_stop : (m : Machine) → m.stop ≡ true → Moves m stopped_poll (record m { stop = false })

  pub data Run : Machine → List Label → Machine → Type 0 where
    here : (m : Machine) → Run m [] m
    next :
        {m n k : Machine} {l : Label} {ls : List Label}
        → Moves m l n
        → Run n ls k
        → Run m (l ∷ ls) k
