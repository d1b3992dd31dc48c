-- ===== src/Tests/Texts.antt =====
-- The text of a view as strings, and `Read`.
use gocui.Common.{ℕ, ◌+◌, ◌/◌, ◌%◌, ◌≡◌, refl, List, [], ◌∷◌, none, ok, false, arith, take}
use gocui.Common.Int.{pos}
use gocui.Slice.{of_list}
use gocui.View.{View}
use gocui.Strings.{buffer, word}
use gocui.Strings.Word.{IsWord, word-IsWord}
use gocui.Read.{read}
use gocui.Read.Plain.{remaining, read_all, total, read_all_lem}
use gocui.Read.Reader.{chars}
use gocui.Read.Split.{split_view, read-split}
use gocui.Tests.Data.{small_view, cell_of, abc}

-- The text of the small view.
two_lines_text : buffer small_view ≡ b'a' ∷ b'b' ∷ b'c' ∷ 10 ∷ b'd' ∷ b'e' ∷ []
unfolding buffer gocui.View.new_view
two_lines_text = refl

word-IsWord_example :
    (w : List ℕ) × (word (pos 1) (pos 0) small_view ≡ ok (w, none)) × IsWord (chars abc.items) 1 w
unfolding gocui.View.new_view
word-IsWord_example =
    word-IsWord small_view 1 0 abc (cell_of b'b') (cell_of b'c' ∷ []) refl refl
      (omega arith, (omega arith, (omega arith, tt))) refl

-- Two arrays of two bytes.
read_all_example :
    read_all ((0 ∷ 0 ∷ []) ∷ (0 ∷ 0 ∷ []) ∷ []) small_view
    ≡ take (total ((0 ∷ 0 ∷ []) ∷ (0 ∷ 0 ∷ []) ∷ [])) (remaining small_view)
unfolding gocui.View.new_view
read_all_example =
    read_all_lem ((0 ∷ 0 ∷ []) ∷ (0 ∷ 0 ∷ []) ∷ []) small_view refl (omega arith, (omega arith, tt))
      (omega arith, (omega arith, (omega arith, (omega arith, (omega arith, tt)))))

-- A line that is one "é".
abbrev accented : View
accented = record small_view { lines = of_list (of_list (cell_of 0xe9 ∷ []) ∷ []) }

read-split_example :
    (read (0 ∷ []) accented ≡ (
      split_view accented 0xe9,
      record { out = (0xc0 + 0xe9 / 64) ∷ []; count = 1; eof = false },
    ))
    × (read (0 ∷ 0 ∷ 0 ∷ []) (split_view accented 0xe9) ≡ (
      split_view accented 0xe9,
      record { out = (0x80 + 0xe9 % 64) ∷ 0 ∷ 0 ∷ []; count = 3; eof = false },
    ))
unfolding gocui.View.new_view
read-split_example =
    read-split accented (of_list (cell_of 0xe9 ∷ [])) (cell_of 0xe9) [] 0 0 0 0 refl refl refl
      (omega arith) (omega arith)
