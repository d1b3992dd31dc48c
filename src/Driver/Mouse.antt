-- ===== src/Driver/Mouse.antt =====
-- The mouse events of the driver: a button that goes down, a drag, and the release.
use Prim.Native.Nat.{bit_and}
use gocui.Common.{
  ℕ, ◌≡◌, refl, ap, ◌∙◌, List, [], ◌∷◌, ◌++◌, map, true, false, ◌==◌, ==_self, Bool-cases, inl, inr,
}
use gocui.Common.Int.{ℤ}
use gocui.Tcell.{KeyCodes, Modifiers, Buttons}
use gocui.Driver.{
  TcellEvent, interrupt, resize, key_press, mouse_at, time, other, GocuiEvent, event,
  event_interrupt, event_resize, event_time, event_none, Held, Click, key_event, press_button,
  release_button, wheel, button_key, mouse_event, mouse_click, poll_event,
}
use gocui.Keybinding.Codes.{mouse_release}

module _ (kc : KeyCodes) (m : Modifiers) (bs : Buttons) where
  -- The events that one poll after the other returns.
  unfoldable pub poll_all : List TcellEvent → Held → Held × List GocuiEvent
  unfolding poll_event
  poll_all [] h = (h, [])
  poll_all (e ∷ es) h =
      let r = poll_event kc m bs e h in let rest = poll_all es r.0 in (rest.0, r.1 ∷ rest.1)

  -- The event when only the wheel of the mouse is looked at.
  abbrev pub without_buttons : TcellEvent → GocuiEvent
  without_buttons interrupt = event event_interrupt
  without_buttons (resize w l) = record (event event_resize) { width = w; height = l }
  without_buttons (key_press k ch mods) = key_event kc m bs k ch mods
  without_buttons (mouse_at x y b mods) = mouse_event kc m bs x y (wheel kc m bs b mods)
  without_buttons time = event event_time
  without_buttons other = event event_none

  -- No mouse event without a button or a wheel.
  abbrev pub KeepsPress : List TcellEvent → Type 0
  KeepsPress [] = Unit
  KeepsPress (mouse_at x y b mods ∷ es) = ((b == bs.none_held) ≡ false) × KeepsPress es
  KeepsPress (e ∷ es) = KeepsPress es

  abbrev pub idle : Held
  idle = record { last_mouse_key = bs.none_held; last_mouse_mod = 0 }

  -- While a button is held, no other press begins.
  press-held :
      (b mods : ℕ) (h : Held) (c : Click)
      → (h.last_mouse_key == bs.none_held) ≡ false
      → press_button kc m bs b mods (h, c) ≡ (h, c)
  press-held b mods h c k = elim (Bool-cases (bit_and b 0xff == bs.none_held)) [
    | inl low ↦ rw low refl
    | inr low ↦ rw (low, k) refl
  ]

  click-drag :
      (b mods : ℕ) (h : Held)
      → (h.last_mouse_key == bs.none_held) ≡ false
      → (b == bs.none_held) ≡ false
      → mouse_click kc m bs b mods h ≡ (h, wheel kc m bs b mods)
  unfolding mouse_click
  click-drag b mods h k e =
      ap (release_button kc m bs b) (press-held b mods h (wheel kc m bs b mods) k) ∙ rw e refl

  click-release :
      (mods : ℕ) (h : Held)
      → (h.last_mouse_key == bs.none_held) ≡ false
      → mouse_click kc m bs bs.none_held mods h
        ≡ (idle, record { key = mouse_release kc; mod' = h.last_mouse_mod })
  unfolding mouse_click
  click-release mods h k =
      let c = wheel kc m bs bs.none_held mods in
      ap (release_button kc m bs bs.none_held) (press-held bs.none_held mods h c k)
      ∙ rw (==_self bs.none_held) (rw k refl)

  click-press :
      (b mods : ℕ) (h : Held)
      → (h.last_mouse_key == bs.none_held) ≡ true
      → (bit_and b 0xff == bs.none_held) ≡ false
      → (b == bs.none_held) ≡ false
      → mouse_click kc m bs b mods h ≡ (
        record { last_mouse_key = bit_and b 0xff; last_mouse_mod = mods },
        record { key = button_key kc m bs b (wheel kc m bs b mods).key; mod' = mods },
      )
  unfolding mouse_click
  click-press b mods h k l e = rw (k, l, e) refl

  -- Two polls in a row, by what each returns.
  poll_all-cons :
      (e : TcellEvent) (es : List TcellEvent) (h h' : Held) (o : GocuiEvent)
      → poll_event kc m bs e h ≡ (h', o)
      → poll_all (e ∷ es) h ≡ ((poll_all es h').0, o ∷ (poll_all es h').1)
  unfolding poll_all
  poll_all-cons e es h h' o s =
      ap (λ (r : Held × GocuiEvent). ((poll_all es r.0).0, r.1 ∷ (poll_all es r.0).1)) s

  -- An event that leaves the press alone, before others.
  poll_all-next :
      (e : TcellEvent) (es : List TcellEvent) (h h' : Held) (o : GocuiEvent) (k : Held)
      (os : List GocuiEvent)
      → poll_event kc m bs e h ≡ (h', o)
      → poll_all es h' ≡ (k, os)
      → poll_all (e ∷ es) h ≡ (k, o ∷ os)
  poll_all-next e es h h' o k os s r =
      poll_all-cons e es h h' o s ∙ ap (λ (r : Held × List GocuiEvent). (r.0, o ∷ r.1)) r

  poll_mouse :
      (x y : ℤ) (b mods : ℕ) (h h' : Held) (c : Click)
      → mouse_click kc m bs b mods h ≡ (h', c)
      → poll_event kc m bs (mouse_at x y b mods) h ≡ (h', mouse_event kc m bs x y c)
  unfolding poll_event
  poll_mouse x y b mods h h' c e = ap (λ (r : Held × Click). (r.0, mouse_event kc m bs x y r.1)) e

  abbrev pub outcome : List TcellEvent → ℤ → ℤ → ℕ → List GocuiEvent
  outcome es x y mods =
      map without_buttons es
      ++ mouse_event kc m bs x y (record { key = mouse_release kc; mod' = mods }) ∷ []

  poll_all-drag :
      (es : List TcellEvent) (x y : ℤ) (mods : ℕ) (h : Held)
      → (h.last_mouse_key == bs.none_held) ≡ false
      → KeepsPress es
      → poll_all (es ++ mouse_at x y bs.none_held mods ∷ []) h
        ≡ (idle, outcome es x y h.last_mouse_mod)
  unfolding poll_all poll_event
  poll_all-drag [] x y mods h k d =
      poll_all-next (mouse_at x y bs.none_held mods) [] h idle _ idle []
        (poll_mouse x y bs.none_held mods h idle _ (click-release mods h k)) refl
  poll_all-drag (mouse_at a c b ms ∷ es) x y mods h k d =
      poll_all-next (mouse_at a c b ms) _ h h _ idle (outcome es x y h.last_mouse_mod)
        (poll_mouse a c b ms h h _ (click-drag b ms h k d.0)) (poll_all-drag es x y mods h k d.1)
  poll_all-drag (interrupt ∷ es) x y mods h k d =
      poll_all-next interrupt _ h h _ idle _ refl (poll_all-drag es x y mods h k d)
  poll_all-drag (resize w l ∷ es) x y mods h k d =
      poll_all-next (resize w l) _ h h _ idle _ refl (poll_all-drag es x y mods h k d)
  poll_all-drag (key_press c r ms ∷ es) x y mods h k d =
      poll_all-next (key_press c r ms) _ h h _ idle _ refl (poll_all-drag es x y mods h k d)
  poll_all-drag (time ∷ es) x y mods h k d =
      poll_all-next time _ h h _ idle _ refl (poll_all-drag es x y mods h k d)
  poll_all-drag (other ∷ es) x y mods h k d =
      poll_all-next other _ h h _ idle _ refl (poll_all-drag es x y mods h k d)

  -- When no button is held, one goes down, events follow that are not mouse events without a
  -- button, and then the button is released: pollEvent returns, with the modifiers of the press,
  -- the key for just these buttons, or that of the wheel if there is none; for the events in
  -- between what they are without regard to buttons; and MouseRelease with the modifiers of the
  -- press; then no button is held.
  pub poll_all_lem :
      (es : List TcellEvent) (x y x' y' : ℤ) (b mods mods' : ℕ) (h : Held)
      → (h.last_mouse_key == bs.none_held) ≡ true
      → (bit_and b 0xff == bs.none_held) ≡ false
      → (b == bs.none_held) ≡ false
      → KeepsPress es
      → poll_all (mouse_at x y b mods ∷ es ++ mouse_at x' y' bs.none_held mods' ∷ []) h ≡ (
        idle,
        mouse_event kc m bs x y
              (record { key = button_key kc m bs b (wheel kc m bs b mods).key; mod' = mods })
            ∷ outcome es x' y' mods,
      )
  poll_all_lem es x y x' y' b mods mods' h k l e d =
      poll_all-next (mouse_at x y b mods) _ h
        (record { last_mouse_key = bit_and b 0xff; last_mouse_mod = mods }) _ idle _
        (poll_mouse x y b mods h _ _ (click-press b mods h k l e))
        (poll_all-drag es x' y' mods'
          (record { last_mouse_key = bit_and b 0xff; last_mouse_mod = mods }) l d)
