-- ===== src/Cell.antt =====
-- The cells and lines of a view's buffer (`cell`, `lineType` in view.go). A rune and an Attribute
-- are numbers.
use gocui.Common.{ℕ, []}
use gocui.Slice.{Slice, of_list, Growth}

pub record Cell : Type 0 where
  pub chr : ℕ
  pub bg_color : ℕ
  pub fg_color : ℕ

-- `cell{}`
abbrev pub blank : Cell
blank = record { chr = 0; bg_color = 0; fg_color = 0 }

abbrev pub Line : Type 0
Line = Slice Cell

abbrev pub Lines : Type 0
Lines = Slice Line

-- The `nil` line.
abbrev pub nil_line : Line
nil_line = of_list []

-- How much room the runtime's `append` leaves in a line and in the slice of lines.
pub record Runtime : Type 0 where
  pub cells : Growth
  pub lines : Growth
