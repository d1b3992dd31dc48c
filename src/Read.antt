-- ===== src/Read.antt =====
-- view.go: `Read`, which hands out the runes of the buffer as UTF-8. Lines follow one another with
-- nothing between them.
pub mod Reader
pub mod Plain
pub mod Split
use gocui.Common.{
  ℕ, suc, ◌+◌, ◌-◌, ◌*◌, ◌/◌, ◌%◌, List, [], ◌∷◌, Bool, true, false, ◌&&◌, ◌||◌, Option, none, some,
  ltb, leb, if◌then◌else◌, length, drop, replicate,
}
use gocui.Slice.{copy_at}
use gocui.Cell.{Cell, Line}
use gocui.View.{View}

-- `utf8.EncodeRune`: a rune that is no character is written as U+FFFD.
abbrev pub encode_rune : ℕ → List ℕ
encode_rune c =
    if ltb c 0x80
    then c ∷ []
    else if ltb c 0x800
    then (0xc0 + c / 64) ∷ (0x80 + c % 64) ∷ []
    else if (leb 0xd800 c && leb c 0xdfff) || ltb 0x10ffff c
    then 0xef ∷ 0xbf ∷ 0xbd ∷ []
    else if ltb c 0x10000
    then (0xe0 + c / 4096) ∷ (0x80 + c / 64 % 64) ∷ (0x80 + c % 64) ∷ []
    else (0xf0 + c / 262144) ∷ (0x80 + c / 4096 % 64) ∷ (0x80 + c / 64 % 64) ∷ (0x80 + c % 64) ∷ []

-- The variables of the loops: the array p, the offset in it, the array `buffer`, and the position.
pub record Reading : Type 0 where
  pub out : List ℕ
  pub offset : ℕ
  pub buffer : List ℕ
  pub rx : ℕ
  pub ry : ℕ

-- Where a loop stops: p is full, with the bytes kept for the next call, or the cells are used up.
pub data Progress : Type 0 where
  filled : Option (List ℕ) → Reading → Progress
  ended : Reading → Progress

-- One rune: encoded into `buffer`, copied to p, and counted.
abbrev pub put_bytes : List ℕ → Reading → Reading
put_bytes bytes r = record r {
  out = copy_at r.out r.offset bytes;
  offset = r.offset + length bytes;
  buffer = copy_at r.buffer 0 bytes;
  rx = r.rx + 1;
}

abbrev pub put_rune : ℕ → Reading → Reading
put_rune c r = put_bytes (encode_rune c) r

-- What is kept when p is full: `buffer[newOffset-len(p):]`, if that is positive.
abbrev pub leftover : Reading → Option (List ℕ)
leftover r =
    if ltb (length r.out) r.offset then some (drop (r.offset - length r.out) r.buffer) else none

-- The test for a full p behind a rune, and the rest of the loop.
abbrev pub after_rune : Reading → Progress → Progress
after_rune r rest = if leb (length r.out) r.offset then filled (leftover r) r else rest

-- The loop over the cells of a line.
unfoldable pub read_row : List Cell → Reading → Progress
read_row [] r = ended r
read_row (c ∷ cs) r = let s = put_rune c.chr r in after_rune s (read_row cs s)

-- The loop over the lines, each from column rx on.
unfoldable pub read_rows : List Line → Reading → Progress
unfolding read_row
read_rows [] r = ended r
read_rows (l ∷ ls) r = elim (read_row (drop r.rx l.items) r) [
  | filled kept s ↦ filled kept s
  | ended s ↦ read_rows ls (record s { rx = 0; ry = s.ry + 1 })
]

-- What `Read` returns: p, the count, and whether the error is io.EOF.
pub record ReadResult : Type 0 where
  pub out : List ℕ
  pub count : ℕ
  pub eof : Bool

abbrev pub read_result : View → Progress → View × ReadResult
read_result v (filled kept r) = (
  record v { read_buffer = kept; rx = r.rx; ry = r.ry },
  record { out = r.out; count = length r.out; eof = false },
)
read_result v (ended r) = (
  record v { read_buffer = none; rx = r.rx; ry = r.ry },
  record { out = r.out; count = r.offset; eof = true },
)

-- The loops, from the position of the view.
unfoldable pub read_lines : List ℕ → View → View × ReadResult
unfolding read_rows
read_lines p v = read_result v (
    read_rows (drop v.ry v.lines.items)
      (record { out = p; offset = 0; buffer = replicate 4 0; rx = v.rx; ry = v.ry }))

-- The bytes that an earlier call kept.
abbrev pub read_kept : List ℕ → View → List ℕ → View × ReadResult
read_kept p v kept =
    let p' = copy_at p 0 kept in
    let w =
      if ltb (length p) (length kept)
      then record v { read_buffer = some (drop (length p) kept) }
      else v in
    if leb (length p) (length kept)
    then (w, record { out = p'; count = length p; eof = false })
    else read_lines p' (record v { read_buffer = none })

abbrev pub read_from : List ℕ → View → Option (List ℕ) → View × ReadResult
read_from p v none = read_lines p v
read_from p v (some kept) = read_kept p v kept

-- `Read`
unfoldable pub read : List ℕ → View → View × ReadResult
unfolding read_lines
read p v = read_from p v v.read_buffer
