-- ===== src/Tests/Data.antt =====
-- The inputs of the tests.
use gocui.Common.{ℕ, ◌+◌, ◌*◌, ◌^◌, [], ◌∷◌, true, ltb, if◌then◌else◌}
use gocui.Common.Int.{pos}
use gocui.Slice.{of_list, Growth}
use gocui.Cell.{Cell, Line, Lines, Runtime}
use gocui.Tcell.{Tcell, Keys}
use gocui.Attribute.{output_256}
use gocui.View.{Host, View, new_view}

-- An allocation that leaves room for one element more.
abbrev one_more : Growth
one_more cap n = 1

abbrev pub rt : Runtime
rt = record { cells = one_more; lines = one_more }

abbrev pub tc : Tcell
tc = record {
  color_default = 0;
  color_valid = 2 ^ 32;
  color_is_rgb = 2 ^ 33;
  new_rgb_color = λ r g b. 2 ^ 32 + 2 ^ 33 + (r * 65536 + g * 256 + b);
}

-- Every rune below 4096 has one column, the others have two.
abbrev pub width_of : ℕ → ℕ
width_of ch = if ltb ch 4096 then 1 else 2

abbrev pub host : Host
host = record { runtime = rt; tcell = tc; rune_width = width_of }

abbrev pub cell_of : ℕ → Cell
cell_of ch = record { chr = ch; bg_color = 0; fg_color = 0 }

-- "abc", with a cell behind the end, and "de".
abbrev pub abc : Line
abc = record { items = cell_of b'a' ∷ cell_of b'b' ∷ cell_of b'c' ∷ []; spare = cell_of b'z' ∷ [] }

abbrev pub de : Line
de = of_list (cell_of b'd' ∷ cell_of b'e' ∷ [])

abbrev pub two_lines : Lines
two_lines = of_list (abc ∷ de ∷ [])

-- A view of two columns and one row on the two lines, and one that wraps them.
abbrev pub small_view : View
small_view = record (new_view tc "small" (pos 0) (pos 0) (pos 3) (pos 2) output_256) {
  lines = two_lines;
  cx = pos 3;
}

abbrev pub wrapping_view : View
wrapping_view = record small_view { wrap = true }

abbrev pub keys : Keys
keys = record {
  key_backspace = 8;
  key_backspace2 = 127;
  key_delete = 271;
  key_insert = 272;
  key_enter = 13;
  key_down = 258;
  key_up = 257;
  key_left = 260;
  key_right = 259;
  key_tab = 9;
  key_escape = 27;
}
