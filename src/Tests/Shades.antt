-- ===== src/Tests/Shades.antt =====
-- Colours for a terminal in the mode OutputGrayscale.
use gocui.Common.{◌+◌, ◌^◌, ◌≡◌, refl, ok}
use gocui.Attribute.{output_grayscale, get_256_color}
use gocui.Attribute.Terminal.{get_tcell_color}
use gocui.Tests.Data.{tc}

-- Shade 25 is 231, the last one.
last_shade : get_tcell_color tc (get_256_color tc 25) output_grayscale ≡ ok (2 ^ 32 + 231)
unfolding get_tcell_color get_256_color
last_shade = refl
