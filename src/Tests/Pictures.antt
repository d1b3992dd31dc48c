-- ===== src/Tests/Pictures.antt =====
-- Drawing the small view.
use gocui.Common.{ℕ, ◌≡◌, refl, List, [], ◌∷◌, ok, map, Outcome}
use gocui.View.{View, new_view}
use gocui.Draw.{ScreenCell, Picture, draw}
use gocui.Tests.Data.{host, small_view}

-- Two columns of the one row that the view shows.
abbrev runes_of : Outcome Picture → List ℕ
runes_of (ok p) = map (λ (c : ScreenCell). c.chr) (p.1)
runes_of _ = []

first_row : runes_of (draw host small_view) ≡ b'a' ∷ b'b' ∷ []
unfolding draw new_view gocui.Draw.draw_lines gocui.Wrap.view_lines gocui.Common.Int.◌-ℤ◌
    gocui.Common.Int.◌+ℤ◌
first_row = refl
