-- ===== src/Write/Spec.antt =====
-- Writing plain text, on the lines of the text and the position alone.
use gocui.Common.{ℕ, ◌+◌, List, [], ◌∷◌, ◌++◌, leb, ◌==◌, if◌then◌else◌, length, replicate}
use gocui.Cell.{Cell}
use gocui.Buffer.Spec.{overlay, update_at}

-- A text and the column and the line of the next rune.
pub record Page : Type 0 where
  pub rows : List (List Cell)
  pub x : ℕ
  pub y : ℕ

abbrev pub break_page : Page → Page
break_page p = record {
  rows = if leb (length p.rows) (p.y + 1) then p.rows ++ [] ∷ [] else p.rows;
  x = 0;
  y = p.y + 1;
}

abbrev pub overlay_page : List Cell → Page → Page
overlay_page cells p = record {
  rows = update_at (overlay p.x cells) [] p.y p.rows;
  x = p.x + length cells;
  y = p.y;
}

-- The cells of a rune, given the cell of one that is not a tab.
abbrev pub glyphs : (ℕ → Cell) → ℕ → List Cell
glyphs paint r = if r == 9 then replicate 4 (paint 32) else replicate 1 (paint r)

abbrev pub type_one : (ℕ → Cell) → ℕ → Page → Page
type_one paint r p =
    if r == 10
    then break_page p
    else if r == 13
    then record p { x = 0 }
    else overlay_page (glyphs paint r) p

abbrev pub type_all : (ℕ → Cell) → List ℕ → Page → Page
type_all paint [] p = p
type_all paint (r ∷ rs) p = type_all paint rs (type_one paint r p)
