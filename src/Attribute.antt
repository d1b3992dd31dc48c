-- ===== src/Attribute.antt =====
-- attribute.go: an `Attribute` is a uint64, a number below 2 ^ 64. The constants and functions of the
-- package tcell are parameters.
pub mod Terminal
pub mod Colors
use gocui.Common.{ℕ, ◌+◌, ◌-◌, ◌%◌, ◌^◌, ltb, if◌then◌else◌}
use Prim.Native.Nat.{bit_or}
use gocui.Tcell.{Tcell}

-- `OutputMode` (gui.go)
pub data OutputMode : Type 0 where
  output_normal output_256 output_216 output_grayscale output_true output_simulator : OutputMode

abbrev pub attr_bold : ℕ
attr_bold = 2 ^ 40

abbrev pub attr_blink : ℕ
attr_blink = 2 ^ 41

abbrev pub attr_reverse : ℕ
attr_reverse = 2 ^ 42

abbrev pub attr_underline : ℕ
attr_underline = 2 ^ 43

abbrev pub attr_dim : ℕ
attr_dim = 2 ^ 44

abbrev pub attr_italic : ℕ
attr_italic = 2 ^ 45

abbrev pub attr_strike_through : ℕ
attr_strike_through = 2 ^ 46

abbrev pub attr_none : ℕ
attr_none = 0

-- The bit pattern of `int32(n)`, and `Attribute(w)` for an int32 with pattern w.
abbrev pub int32 : ℕ → ℕ
int32 n = n % 2 ^ 32

abbrev pub attribute_of_int32 : ℕ → ℕ
attribute_of_int32 w = if ltb w (2 ^ 31) then w else w + (2 ^ 64 - 2 ^ 32)

-- `Get256Color`
unfoldable pub get_256_color : Tcell → ℕ → ℕ
get_256_color tc color = bit_or (attribute_of_int32 color) tc.color_valid
