-- ===== src/Tests/Buffers.antt =====
-- The buffer's methods on the lines "abc" and "de".
use gocui.Common.{ℕ, ◌≡◌, refl, true, false, List, [], ◌∷◌, arith, ok, Outcome, map}
use gocui.Slice.{Slice, of_list, len, index}
use gocui.Cell.{Cell, Line, Lines}
use gocui.Buffer.Spec.{text, put, remove, update_at, split_line, join_line}
use gocui.Buffer.Text.{
  write_rune-put, delete_rune-remove, merge_lines-join_line, break_line-split_line,
}
use gocui.Buffer.Writeable.{make_writeable-delete_rune}
use gocui.Buffer.{make_writeable, write_cells, write_rune, delete_rune, merge_lines, break_line}
use gocui.Tests.Data.{rt, cell_of, abc, de, two_lines}

-- The characters of the text.
abbrev chars : Outcome Lines → List (List ℕ)
chars (ok ls) = map (λ (l : Line). map (λ (c : Cell). c.chr) l.items) ls.items
chars _ = []

inserted :
    chars (write_rune rt false 1 0 (cell_of b'X') two_lines)
    ≡ (b'a' ∷ b'X' ∷ b'b' ∷ b'c' ∷ []) ∷ (b'd' ∷ b'e' ∷ []) ∷ []
unfolding write_rune gocui.Buffer.write_rune_line gocui.Slice.append
inserted = refl

overwritten :
    chars (write_rune rt true 1 0 (cell_of b'X') two_lines)
    ≡ (b'a' ∷ b'X' ∷ b'c' ∷ []) ∷ (b'd' ∷ b'e' ∷ []) ∷ []
unfolding write_rune gocui.Buffer.write_rune_line gocui.Slice.append
overwritten = refl

-- A rune two lines below the text and one column in.
appended :
    chars (write_rune rt true 1 3 (cell_of b'X') two_lines)
    ≡ (b'a' ∷ b'b' ∷ b'c' ∷ []) ∷ (b'd' ∷ b'e' ∷ []) ∷ [] ∷ (0 ∷ b'X' ∷ []) ∷ []
unfolding write_rune gocui.Buffer.write_rune_line gocui.Slice.append
appended = refl

broken_up :
    chars (break_line 2 0 two_lines) ≡ (b'a' ∷ b'b' ∷ []) ∷ (b'c' ∷ []) ∷ (b'd' ∷ b'e' ∷ []) ∷ []
unfolding break_line
broken_up = refl

-- The cell behind the end of the first line shows.
exposed :
    chars (make_writeable rt 4 0 two_lines)
    ≡ (b'a' ∷ b'b' ∷ b'c' ∷ b'z' ∷ []) ∷ (b'd' ∷ b'e' ∷ []) ∷ []
unfolding make_writeable gocui.Slice.extend
exposed = refl

write_rune-put_example :
    (t : Lines) × (write_rune rt false 1 3 (cell_of b'X') two_lines ≡ ok t)
    × (text t ≡ update_at (put false 1 (cell_of b'X')) [] 3 (text two_lines))
write_rune-put_example = write_rune-put rt false 1 3 (cell_of b'X') two_lines

delete_rune-remove_example :
    (t : Lines) × (delete_rune rt 1 0 two_lines ≡ ok t)
    × (text t ≡ update_at (remove 1) [] 0 (text two_lines))
delete_rune-remove_example = delete_rune-remove rt 1 0 two_lines abc refl (omega arith)

merge_lines-join_line_example :
    (t : Lines) × (merge_lines rt 0 two_lines ≡ ok t) × (text t ≡ join_line 0 (text two_lines))
merge_lines-join_line_example = merge_lines-join_line rt 0 two_lines (omega arith)

break_line-split_line_example :
    (t : Lines) × (break_line 2 0 two_lines ≡ ok t) × (text t ≡ split_line 2 0 (text two_lines))
break_line-split_line_example = break_line-split_line 2 0 two_lines (omega arith)

make_writeable-delete_rune_example :
    (t u : Lines) × (delete_rune rt 1 1 two_lines ≡ ok t)
    × (make_writeable rt 2 1 t ≡ ok u)
    × (text u ≡ text two_lines)
make_writeable-delete_rune_example = make_writeable-delete_rune rt 1 1 two_lines de refl refl
