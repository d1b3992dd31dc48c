-- ===== src/Write/Clear.antt =====
-- Writing into a view that was cleared.
use gocui.Common.{ℕ, true, none, []}
use gocui.Common.Int.{pos}
use gocui.Slice.{of_list}
use gocui.Cell.{Cell}
use gocui.Escape.{reset}
use gocui.View.{View, Host}

module _ (host : Host) where
  -- A rune in the terminal's own colours.
  abbrev pub default_paint : ℕ → Cell
  default_paint ch = record {
    chr = ch;
    bg_color = host.tcell.color_default;
    fg_color = host.tcell.color_default;
  }

  abbrev pub cleared : View → View
  cleared v = record v {
    read_buffer = none;
    rx = 0;
    ry = 0;
    wx = 0;
    wy = 0;
    tainted = true;
    ei = reset host.tcell v.ei;
    lines = of_list [];
    cx = pos 0;
    cy = pos 0;
    ox = pos 0;
    oy = pos 0;
  }
