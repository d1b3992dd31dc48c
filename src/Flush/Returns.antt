-- ===== src/Flush/Returns.antt =====
-- `flush` draws every view and returns.
use gocui.Common.{ℕ, ◌<◌, ◌≡◌, List, [], ◌∷◌, true, false, Option, none, some, Outcome, ok}
use gocui.Common.Int.{pos, ◌≤ℤ◌}
use gocui.View.{View, Host}
use gocui.Gui.{Gui}
use gocui.Frame.{Display}
use gocui.Flush.{ScreenCall, Shown}

-- The fields that drawing reads and leaves as they are.
abbrev Same : View → View → Type 0
Same v w =
    (w.wrap ≡ v.wrap)
    × (w.tainted ≡ v.tainted)
    × (w.overlaps ≡ v.overlaps)
    × (w.x0 ≡ v.x0)
    × (w.x1 ≡ v.x1)

abbrev SameHeap : (ℕ → View) → (ℕ → View) → Type 0
SameHeap h k = (j : ℕ) → Same (h j) (k j)

-- A view that flush draws without an error on this display.
abbrev pub IsDrawable : Display → View → Type 0
IsDrawable d v =
    (v.wrap ≡ false) × (v.tainted ≡ true) × (v.overlaps < 16) × (pos 0 ≤ℤ v.x0) × (v.x1 ≤ℤ d.max_x)

module _ (host : Host) (d : Display) where
  -- A step that returns without an error, and leaves of every view what drawing reads.
  abbrev Goes : Gui → Outcome Shown → Type 0
  Goes g o =
      (k : Gui) × (cs : List ScreenCall) × (o ≡ ok (k, cs, none))
      × SameHeap g.heap k.heap
      × (k.current_view ≡ g.current_view)

  -- The current view, if there is one, does not wrap.
  abbrev pub CursorIsPlain : (ℕ → View) → Option ℕ → Type 0
  CursorIsPlain heap none = Unit
  CursorIsPlain heap (some c) = (heap c).wrap ≡ false

  abbrev pub AllDrawable : (ℕ → View) → List ℕ → Type 0
  AllDrawable heap [] = Unit
  AllDrawable heap (i ∷ is) = IsDrawable d (heap i) × AllDrawable heap is
