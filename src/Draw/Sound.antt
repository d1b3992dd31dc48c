-- ===== src/Draw/Sound.antt =====
-- Drawing stays inside the frame.
use gocui.Common.{◌≡◌, List, [], ◌∷◌, false, none, Outcome, ok}
use gocui.Common.Int.{◌+ℤ◌, ◌-ℤ◌, ◌<ℤ◌}
use gocui.Cell.{Cell}
use gocui.View.{View}
use gocui.Draw.{ScreenCell, Drawn, Picture}

-- Within the frame of the view and its padding.
abbrev pub Inside : View → ScreenCell → Type 0
Inside v c =
    (v.x0 +ℤ v.padding_x <ℤ c.x)
    × (c.x <ℤ v.x1 -ℤ v.padding_x)
    × (v.y0 +ℤ v.padding_y <ℤ c.y)
    × (c.y <ℤ v.y1 -ℤ v.padding_y)

abbrev pub AllInside : View → List ScreenCell → Type 0
AllInside v [] = Unit
AllInside v (c ∷ cs) = Inside v c × AllInside v cs

-- A run that did not fail.
abbrev Fine : View → Drawn → Type 0
Fine v d = (d.failed ≡ false) × AllInside v d.screen

-- The view after drawing, with the frame of v, and cells inside it.
abbrev Painted : View → Outcome Picture → Type 0
Painted v o =
    (w : View) × (cells : List ScreenCell) × (o ≡ ok (w, cells, none))
    × AllInside w cells
    × (w.x0 ≡ v.x0)
    × (w.y0 ≡ v.y0)
    × (w.x1 ≡ v.x1)
    × (w.y1 ≡ v.y1)
