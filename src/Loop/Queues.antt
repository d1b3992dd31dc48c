-- ===== src/Loop/Queues.antt =====
-- The channels of the main loop lose, copy and reorder nothing, and stay within their size.
use gocui.Common.{
  ℕ, ◌≤◌, ◌≡◌, refl, ap, List, [], ◌∷◌, ◌++◌, arith, Bool, none, some, Outcome, ok, panic,
  out_of_fuel, length, length-append,
}
use gocui.View.{Host}
use gocui.Driver.{GocuiEvent}
use gocui.Flush.{Client}
use gocui.Loop.{Handled, client_step, handle_event}
use gocui.Loop.Steps.{
  Phase, consuming, Machine, capacity, Label, took, polled, took_user, sent, proceed, Moves, begin,
  enter, take_event, take_user, take_stop, drained, redrawn, poll, update, close, poll_stop, Run,
  here, next,
}

-- The events that a step sends and takes, and those of a run, in order.
abbrev pub polled_at : Label → List GocuiEvent
polled_at (polled e) = e ∷ []
polled_at _ = []

abbrev pub took_at : Label → List GocuiEvent
took_at (took e) = e ∷ []
took_at _ = []

abbrev pub sent_at : Label → List ℕ
sent_at (sent u) = u ∷ []
sent_at _ = []

abbrev pub took_user_at : Label → List ℕ
took_user_at (took_user u) = u ∷ []
took_user_at _ = []

abbrev pub gather {ℓ} : {A : Type ℓ} → (Label → List A) → List Label → List A
gather f [] = []
gather f (l ∷ ls) = f l ++ gather f ls

-- A step of the loop leaves the channels to the loop.
pub proceed-g_events :
    (p : Phase) (o : Outcome Handled) (m : Machine) → (proceed p o m).g_events ≡ m.g_events
proceed-g_events p (ok (app, none)) m = refl
proceed-g_events p (ok (app, some e)) m = refl
proceed-g_events p panic m = refl
proceed-g_events p out_of_fuel m = refl

pub proceed-user_events :
    (p : Phase) (o : Outcome Handled) (m : Machine) → (proceed p o m).user_events ≡ m.user_events
proceed-user_events p (ok (app, none)) m = refl
proceed-user_events p (ok (app, some e)) m = refl
proceed-user_events p panic m = refl
proceed-user_events p out_of_fuel m = refl

-- Both channels within their size.
abbrev pub Fits : Machine → Type 0
Fits m = (length m.g_events ≤ capacity) × (length m.user_events ≤ capacity)

module _ (host : Host) (c : Client) (has_notify : Bool) where
  Moves-Fits : {m n : Machine} {l : Label} → Moves host c has_notify m l n → Fits m → Fits n
  Moves-Fits (begin m w h p) f = rw (proceed-g_events _ _ m, proceed-user_events _ _ m) f
  Moves-Fits (enter m w h p) f = rw (proceed-g_events _ _ m, proceed-user_events _ _ m) f
  Moves-Fits (take_event m e es p q) f = (
    omega (
      arith,
      ap length q,
      ap length (proceed-g_events consuming (handle_event c e m.app) (record m { g_events = es })),
      f.0,
    ),
    omega (
      arith,
      ap length
          (proceed-user_events consuming (handle_event c e m.app) (record m { g_events = es })),
      f.1,
    ),
  )
  Moves-Fits (take_user m u us p q) f = (
    omega (
      arith,
      ap length (
          proceed-g_events consuming (ok (client_step (c.run u m.app)))
            (record m { user_events = us })),
      f.0,
    ),
    omega (
      arith,
      ap length q,
      ap length (
          proceed-user_events consuming (ok (client_step (c.run u m.app)))
            (record m { user_events = us })),
      f.1,
    ),
  )
  Moves-Fits (take_stop m p q) f = f
  Moves-Fits (drained m p q r) f = f
  Moves-Fits (redrawn m w h p) f = rw (proceed-g_events _ _ m, proceed-user_events _ _ m) f
  Moves-Fits (poll m e p) f = (omega (arith, length-append m.g_events (e ∷ []), p), f.1)
  Moves-Fits (update m u p) f = (f.0, omega (arith, length-append m.user_events (u ∷ []), p))
  Moves-Fits (close m) f = f
  Moves-Fits (poll_stop m p) f = f

  -- No run makes a channel longer than its size.
  pub Run-Fits : {m n : Machine} {ls : List Label} → Run host c has_notify m ls n → Fits m → Fits n
  Run-Fits (here m) f = f
  Run-Fits (next s r) f = Run-Fits r (Moves-Fits s f)
