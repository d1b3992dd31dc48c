-- ===== src/Loop/Rounds.antt =====
-- The main loop comes to rest when no more events are sent.
use gocui.Common.{
  ℕ, suc, ◌+◌, ◌*◌, ◌≤◌, ◌≡◌, ap, List, [], ◌∷◌, arith, Bool, true, false, none, some, Outcome, ok,
  panic, out_of_fuel, length,
}
use gocui.View.{Host}
use gocui.Flush.{Client}
use gocui.Loop.{Handled, client_step, handle_event}
use gocui.Loop.Steps.{
  Phase, first_flush, second_flush, waiting, consuming, flushing, crashed, hanging, finished,
  Machine, Label, took, took_user, went_on, IsReading, proceed, notified, redraw, Moves, begin,
  enter, take_event, take_user, take_stop, drained, redrawn, poll, update, close, poll_stop, Run,
  here, next,
}
use gocui.Loop.Queues.{proceed-g_events, proceed-user_events}

-- The steps of the loop itself.
abbrev pub IsOwn : Label → Type 0
IsOwn (took e) = Unit
IsOwn (took_user u) = Unit
IsOwn went_on = Unit
IsOwn _ = ⊥

abbrev pub AllOwn : List Label → Type 0
AllOwn [] = Unit
AllOwn (l ∷ ls) = IsOwn l × AllOwn ls

-- A bound on the steps that are left: four for each event in a channel, and those of the round.
abbrev pub rank : Phase → ℕ
rank first_flush = 3
rank second_flush = 2
rank waiting = 1
rank consuming = 3
rank flushing = 2
rank crashed = 0
rank hanging = 0
rank (finished e) = 0

abbrev pub steps_left : Machine → ℕ
steps_left m = 4 * (length m.g_events + length m.user_events) + rank m.phase

-- The loop has returned, a panic has ended the program, a call does not end, or nothing is there to
-- be taken.
abbrev pub AtRest : Machine → Phase → Type 0
AtRest m (finished e) = Unit
AtRest m crashed = Unit
AtRest m hanging = Unit
AtRest m waiting = (m.g_events ≡ []) × (m.user_events ≡ []) × (m.stop ≡ false)
AtRest m _ = ⊥

proceed-rank : (p : Phase) (o : Outcome Handled) (m : Machine) → rank (proceed p o m).phase ≤ rank p
proceed-rank p (ok (app, none)) m = omega arith
proceed-rank p (ok (app, some e)) m = omega arith
proceed-rank p panic m = omega arith
proceed-rank p out_of_fuel m = omega arith

-- What the loop has left behind a step, by the channels before it.
proceed-steps_left :
    (p : Phase) (o : Outcome Handled) (m : Machine)
    → steps_left (proceed p o m) ≤ 4 * (length m.g_events + length m.user_events) + rank p
proceed-steps_left p o m = omega (
  arith,
  proceed-rank p o m,
  ap length (proceed-g_events p o m),
  ap length (proceed-user_events p o m),
)

reading-rank : (p : Phase) → IsReading p → 1 ≤ rank p
reading-rank waiting h = omega arith
reading-rank consuming h = omega arith
reading-rank first_flush h = absurd h
reading-rank second_flush h = absurd h
reading-rank flushing h = absurd h
reading-rank crashed h = absurd h
reading-rank hanging h = absurd h
reading-rank (finished _) h = absurd h

module _ (host : Host) (c : Client) (has_notify : Bool) where
  Moves-steps_left :
      {m n : Machine} {l : Label}
      → Moves host c has_notify m l n
      → IsOwn l
      → suc (steps_left n) ≤ steps_left m
  Moves-steps_left (begin m w h p) o =
      omega (arith, ap rank p, proceed-steps_left second_flush (redraw host c w h m.app) m)
  Moves-steps_left (enter m w h p) o =
      omega
        (arith, ap rank p, proceed-steps_left waiting (notified true (redraw host c w h m.app)) m)
  Moves-steps_left (take_event m e es p q) o = omega (
    arith,
    ap length q,
    reading-rank m.phase p,
    proceed-steps_left consuming (handle_event c e m.app) (record m { g_events = es }),
  )
  Moves-steps_left (take_user m u us p q) o = omega (
    arith,
    ap length q,
    reading-rank m.phase p,
    proceed-steps_left consuming (ok (client_step (c.run u m.app))) (record m { user_events = us }),
  )
  Moves-steps_left (take_stop m p q) o = omega (arith, ap rank p)
  Moves-steps_left (drained m p q r) o = omega (arith, ap rank p)
  Moves-steps_left (redrawn m w h p) o = omega (
    arith,
    ap rank p,
    proceed-steps_left waiting (notified has_notify (redraw host c w h m.app)) m,
  )
  Moves-steps_left (poll m e p) o = absurd o
  Moves-steps_left (update m u p) o = absurd o
  Moves-steps_left (close m) o = absurd o
  Moves-steps_left (poll_stop m p) o = absurd o

  -- Every sequence of steps of the main loop alone, whatever events it chooses to take first, is
  -- bounded: each step lowers steps_left, which counts four for every event in a channel, by at
  -- least one.
  pub Run-steps_left :
      {m n : Machine} {ls : List Label}
      → Run host c has_notify m ls n
      → AllOwn ls
      → length ls + steps_left n ≤ steps_left m
  Run-steps_left (here m) o = omega arith
  Run-steps_left (next s r) o = omega (arith, Moves-steps_left s o.0, Run-steps_left r o.1)

  -- A step of the loop.
  abbrev OwnMove : Machine → Type 0
  OwnMove m = (l : Label) × (n : Machine) × IsOwn l × Moves host c has_notify m l n
