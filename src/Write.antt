-- ===== src/Write.antt =====
-- view.go: writing runes into a view, and `Clear`. What `Clear` draws on the screen is left out.
pub mod Spec
pub mod Plain
pub mod Clear
use gocui.Common.{
  ℕ, ◌+◌, List, [], ◌∷◌, Option, none, some, Outcome, ok, ◌>>=◌, leb, ◌==◌, if◌then◌else◌, length,
  map, replicate, true,
}
use gocui.Common.Int.{pos}
use gocui.Slice.{len, append, of_list}
use gocui.Cell.{Cell, nil_line}
use gocui.Buffer.{make_writeable, write_cells}
use gocui.Escape.{EscapeInterpreter, Parsed, escape, plain, failed, parse_one, runes, reset}
use gocui.View.{View, Host, set_read_pos, set_write_pos, set_cursor, set_origin}

-- A rune of a broken sequence, in the view's colours.
abbrev pub verbatim : View → ℕ → Cell
verbatim v ch = record { chr = ch; bg_color = v.bg_color; fg_color = v.fg_color }

-- A rune in the colours of the interpreter; a tab is four spaces.
abbrev pub colored : EscapeInterpreter → ℕ → Cell
colored ei ch = record { chr = ch; bg_color = ei.cur_bg_color; fg_color = ei.cur_fg_color }

abbrev pub cells_for : EscapeInterpreter → ℕ → List Cell
cells_for ei ch = if ch == 9 then replicate 4 (colored ei 32) else replicate 1 (colored ei ch)

module _ (host : Host) where
  -- What `parseInput` makes of the interpreter's answer.
  abbrev pub on_parsed : View → ℕ → EscapeInterpreter → Parsed → View × Option (List Cell)
  on_parsed v ch ei (failed e) =
      (record v { ei = reset host.tcell ei }, some (map (verbatim v) (runes ei)))
  on_parsed v ch ei escape = (record v { ei = ei }, none)
  on_parsed v ch ei plain = (record v { ei = ei }, some (cells_for ei ch))

  -- `parseInput`
  unfoldable pub parse_input : ℕ → View → Outcome (View × Option (List Cell))
  parse_input ch v = parse_one host.tcell v.ei ch >>= λ r. ok (on_parsed v ch (r.0) (r.1))

  -- The cells of a rune, if there are any, at the write position.
  abbrev pub write_parsed : View × Option (List Cell) → Outcome View
  write_parsed (v, none) = ok v
  write_parsed (v, some cells) = write_cells host.runtime v.wx v.wy cells v.lines >>= λ ls.
      ok (record v { lines = ls; wx = v.wx + length cells })

  -- The line break of `writeRunes`.
  abbrev pub write_newline : View → View
  write_newline v = record v {
    wx = 0;
    wy = v.wy + 1;
    lines =
        if leb (len v.lines) (v.wy + 1)
        then append host.runtime.lines nil_line v.lines (nil_line ∷ [])
        else v.lines;
  }

  -- One round of `writeRunes`.
  unfoldable pub write_one : ℕ → View → Outcome View
  unfolding parse_input
  write_one r v =
      if r == 10
      then ok (write_newline v)
      else if r == 13
      then ok (record v { wx = 0 })
      else (parse_input r v >>= write_parsed)

  -- `writeRunes`
  unfoldable pub write_all : List ℕ → View → Outcome View
  unfolding write_one
  write_all [] v = ok v
  write_all (r ∷ rs) v = write_one r v >>= write_all rs

  -- `WriteRunes`; `Write` and `WriteString` decode their argument first.
  unfoldable pub write_runes : List ℕ → View → Outcome View
  unfolding write_all
  write_runes p v = make_writeable host.runtime v.wx v.wy v.lines >>= λ ls.
      write_all p (record v { tainted = true; lines = ls })

-- `Rewind`
unfoldable pub rewind : View → View
unfolding set_read_pos set_write_pos
rewind v =
    let r = set_read_pos (pos 0) (pos 0) v in let w = set_write_pos (pos 0) (pos 0) (r.0) in w.0

-- `Clear`
unfoldable pub clear : Host → View → Outcome View
unfolding rewind
clear host v =
    let w = rewind v in
    let e = record w { tainted = true; ei = reset host.tcell w.ei; lines = of_list [] } in
    set_cursor (pos 0) (pos 0) e >>= λ r. let o = set_origin (pos 0) (pos 0) (r.0) in ok (o.0)
