-- ===== src/Strings.antt =====
-- view.go: the methods that return text: `String`, `BufferLines`, `Buffer`, `ViewBufferLines`,
-- `ViewBuffer`, `Line`, `Word`, and the heights. A string is the list of its bytes.
pub mod Word
pub mod Lines
use gocui.Common.{
  ℕ, zero, suc, ◌+◌, ◌-◌, List, [], ◌∷◌, ◌++◌, map, Bool, true, false, not, ◌&&◌, ◌||◌, Option,
  none, some, Outcome, ok, ◌>>=◌, leb, ◌==◌, if◌then◌else◌, length, take, drop,
}
use gocui.Common.Int.{ℤ, pos, negsuc, ◌+ℤ◌}
use gocui.Slice.{len, index}
use gocui.Cell.{Cell, Line}
use gocui.View.{View, Host, CellCache, PointError, invalid_point}
use gocui.Wrap.{view_lines}
use gocui.Buffer.Spec.{text}
use gocui.Read.{encode_rune}

-- `lineType.String`
abbrev pub line_string : List Cell → List ℕ
line_string [] = []
line_string (c ∷ cs) = encode_rune c.chr ++ line_string cs

-- `strings.Replace(str, "\x00", " ", -1)`
abbrev pub space_for_nul : ℕ → ℕ
space_for_nul c = if c == 0 then 32 else c

-- The lines as strings, with spaces for NUL.
abbrev pub line_strings : List (List Cell) → List (List ℕ)
line_strings = map (λ l. map space_for_nul (line_string l))

-- `BufferLines`
unfoldable pub buffer_lines : View → List (List ℕ)
buffer_lines v = line_strings (text v.lines)

-- `ViewBufferLines`
unfoldable pub view_buffer_lines : Host → View → Outcome (List (List ℕ))
unfolding view_lines
view_buffer_lines host v = view_lines host v >>= λ ls. ok (line_strings ls)

-- The runes that `range` finds in the string of a line, with spaces for NUL, encoded again.
abbrev pub rune_string : List Cell → List ℕ
rune_string [] = []
rune_string (c ∷ cs) = encode_rune (space_for_nul c.chr) ++ rune_string cs

-- `strings.Join(str, "\n")`
abbrev pub join : List (List ℕ) → List ℕ
join [] = []
join (s ∷ []) = s
join (s ∷ t ∷ ss) = s ++ 10 ∷ join (t ∷ ss)

-- `linesToString`
abbrev pub lines_to_string : List (List Cell) → List ℕ
lines_to_string ls = join (map rune_string ls)

-- `Buffer`
unfoldable pub buffer : View → List ℕ
buffer v = lines_to_string (text v.lines)

-- `ViewBuffer`
unfoldable pub view_buffer : Host → View → Outcome (List ℕ)
unfolding view_lines
view_buffer host v = view_lines host v >>= λ ls. ok (lines_to_string ls)

-- `LinesHeight`
abbrev pub lines_height : View → ℕ
lines_height v = len v.lines

abbrev pub last_row : List CellCache → Option ℤ
last_row [] = none
last_row (c ∷ []) = some (c.y +ℤ pos 1)
last_row (c ∷ e ∷ cs) = last_row (e ∷ cs)

abbrev pub cached_height : View → Option (List CellCache) → Option ℤ
cached_height v none = none
cached_height v (some cs) = if v.tainted then none else last_row cs

-- `ViewLinesHeight`
unfoldable pub view_lines_height : Host → View → Outcome ℤ
unfolding view_lines
view_lines_height host v = elim (cached_height v v.content_cache) [
  | some h ↦ ok h
  | none ↦ view_lines host v >>= λ ls. ok (pos (length ls))
]

-- A string and an error.
abbrev pub StringReply : Type 0
StringReply = List ℕ × Option PointError

-- `Line`
unfoldable pub line : ℤ → View → Outcome StringReply
line (negsuc y) v = ok ([], some invalid_point)
line (pos y) v =
    if leb (len v.lines) y
    then ok ([], some invalid_point)
    else (index v.lines.items y >>= λ l. ok (line_string l.items, none))

-- `indexFunc`
abbrev pub index_func : ℕ → Bool
index_func r = r == 32 || r == 0

-- `strings.IndexFunc` and `strings.LastIndexFunc` with `indexFunc`: a byte below 0x80 is a rune of its
-- own, and no other rune is a space or NUL.
abbrev pub index_from : ℕ → List ℕ → Option ℕ
index_from i [] = none
index_from i (b ∷ bs) = let rest = index_from (suc i) bs in if index_func b then some i else rest

abbrev pub or_else : Option ℕ → Option ℕ → Option ℕ
or_else (some i) o = some i
or_else none o = o

abbrev pub last_index_from : ℕ → List ℕ → Option ℕ
last_index_from i [] = none
last_index_from i (b ∷ bs) =
    or_else (last_index_from (suc i) bs) (if index_func b then some i else none)

abbrev pub word_start : Option ℕ → ℕ
word_start none = 0
word_start (some i) = i + 1

abbrev pub word_end : ℕ → ℕ → Option ℕ → ℕ
word_end x n none = n
word_end x n (some i) = i + x

-- `str[nl:nr]` of `Word` in the string of a line.
abbrev pub word_at : List ℕ → ℕ → List ℕ
word_at s x =
    let nl = word_start (last_index_from 0 (take x s)) in
    let nr = word_end x (length s) (index_from 0 (drop x s)) in drop nl (take nr s)

-- `Word`
unfoldable pub word : ℤ → ℤ → View → Outcome StringReply
word (pos x) (pos y) v =
    if leb (len v.lines) y
    then ok ([], some invalid_point)
    else (index v.lines.items y >>= λ l.
        if leb (len l) x
        then ok ([], some invalid_point)
        else ok (word_at (line_string l.items) x, none))
word _ _ v = ok ([], some invalid_point)
