-- ===== src/Tests/Frames.antt =====
-- The frame of a view with a title, and a subtitle off the screen.
use gocui.Common.{◌≡◌, refl, [], ◌∷◌, true, false, inr, arith}
use gocui.Common.Int.{pos, ◌-ℤ◌}
use gocui.Attribute.{output_256}
use gocui.View.{View}
use gocui.Frame.{Display, draw_subtitle}
use gocui.Frame.Title.{draw_subtitle-fails}
use gocui.Flush.{FrameColors}
use gocui.Tests.Data.{host, small_view}

abbrev display : Display
display = record {
  max_x = pos 10;
  max_y = pos 5;
  output_mode = output_256;
  ascii = false;
  support_overlaps = true;
  highlight = false;
  cursor = false;
  bg_color = 0;
  fg_color = 0;
  frame_color = 0;
  sel_bg_color = 0;
  sel_fg_color = 0;
  sel_frame_color = 0;
}

abbrev titled : View
titled = record small_view { title = b'a' ∷ b'b' ∷ []; overlaps = 3 }

abbrev colors : FrameColors host display
colors = record { fg = 0; bg = 0; line = 0 }

-- Twenty columns on a screen of ten.
abbrev too_wide : View
too_wide = record small_view { x1 = pos 20; subtitle = b's' ∷ [] }

draw_subtitle-fails_example :
    draw_subtitle display too_wide 0 0 ≡ record { cells = []; failed = true }
unfolding gocui.View.new_view ◌-ℤ◌
draw_subtitle-fails_example =
    draw_subtitle-fails display too_wide 0 0 (pos 14) b's' [] refl refl (omega arith) (omega arith)
      (omega arith) (inr (omega arith))
