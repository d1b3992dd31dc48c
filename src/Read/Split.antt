-- ===== src/Read/Split.antt =====
-- `Read` on a rune of two bytes that p has no room for.
use gocui.Common.{
  ℕ, zero, suc, ◌+◌, ◌/◌, ◌%◌, ◌≤◌, ◌<◌, ◌≡◌, refl, ap, ◌∙◌, false, none, some, List, [], ◌∷◌, ok,
  lt→ltb, le→ltb, drop,
}
use gocui.Slice.{index}
use gocui.Cell.{Cell, Line}
use gocui.View.{View}
use gocui.Read.{
  Progress, Reading, after_rune, put_bytes, encode_rune, filled, read, read_from, read_kept,
  read_lines, read_rows, read_row, read_result,
}
use gocui.Read.Plain.{read_from_none}

drop-index :
    (xs : List Line) (i : ℕ) (l : Line) → index xs i ≡ ok l → drop i xs ≡ l ∷ drop (suc i) xs
drop-index [] i l h = cc
drop-index (x ∷ xs) zero l h = let e : x ≡ l = cc in ap (◌∷ xs) e
drop-index (x ∷ xs) (suc i) l h = drop-index xs i l h

two_bytes : (c : ℕ) → 0x80 ≤ c → c < 0x800 → encode_rune c ≡ (0xc0 + c / 64) ∷ (0x80 + c % 64) ∷ []
two_bytes c h k = rw (le→ltb c 0x80 h) (rw (lt→ltb c 0x800 k) refl)

read_from_some :
    (p kept : List ℕ) (v : View) → v.read_buffer ≡ some kept → read p v ≡ read_kept p v kept
unfolding read
read_from_some p kept v e = ap (read_from p v) e

-- The first step of the loop, into an array of one byte.
abbrev start : ℕ → ℕ → ℕ → Reading
start x rx ry = record { out = x ∷ []; offset = 0; buffer = 0 ∷ 0 ∷ 0 ∷ 0 ∷ []; rx = rx; ry = ry }

abbrev stop : ℕ → ℕ → ℕ → Progress
stop c rx ry = filled (some ((0x80 + c % 64) ∷ 0 ∷ 0 ∷ [])) (record {
  out = (0xc0 + c / 64) ∷ [];
  offset = 2;
  buffer = (0xc0 + c / 64) ∷ (0x80 + c % 64) ∷ 0 ∷ 0 ∷ [];
  rx = rx + 1;
  ry = ry;
})

read_row-stop :
    (c : Cell) (cs : List Cell) (x rx ry : ℕ)
    → 0x80 ≤ c.chr
    → c.chr < 0x800
    → read_row (c ∷ cs) (start x rx ry) ≡ stop c.chr rx ry
unfolding read_row
read_row-stop c cs x rx ry h k =
    let s = start x rx ry in
    ap (λ b. after_rune (put_bytes b s) (read_row cs (put_bytes b s))) (two_bytes c.chr h k)

read_rows-stop :
    (l : Line) (ls : List Line) (c : Cell) (cs : List Cell) (x rx ry : ℕ)
    → drop rx l.items ≡ c ∷ cs
    → 0x80 ≤ c.chr
    → c.chr < 0x800
    → read_rows (l ∷ ls) (start x rx ry) ≡ stop c.chr rx ry
unfolding read_rows
read_rows-stop l ls c cs x rx ry here h k = rw here (rw (read_row-stop c cs x rx ry h k) refl)

-- The view after the first call.
abbrev pub split_view : View → ℕ → View
split_view v c = record v {
  read_buffer = some ((0x80 + c % 64) ∷ 0 ∷ 0 ∷ []);
  rx = v.rx + 1;
  ry = v.ry;
}

-- For a rune of two bytes at the read position of a view that keeps no bytes: Read with an array
-- of one byte returns the first byte and keeps the second followed by two zeros; Read with an
-- array of three bytes returns these and keeps them, so that it changes nothing.
pub read-split :
    (v : View) (l : Line) (c : Cell) (cs : List Cell) (x y z w : ℕ)
    → v.read_buffer ≡ none
    → index v.lines.items v.ry ≡ ok l
    → drop v.rx l.items ≡ c ∷ cs
    → 0x80 ≤ c.chr
    → c.chr < 0x800
    → (read (x ∷ []) v
        ≡ (split_view v c.chr, record { out = (0xc0 + c.chr / 64) ∷ []; count = 1; eof = false }))
      × (read (y ∷ z ∷ w ∷ []) (split_view v c.chr) ≡ (
        split_view v c.chr,
        record { out = (0x80 + c.chr % 64) ∷ 0 ∷ 0 ∷ []; count = 3; eof = false },
      ))
unfolding read_lines
read-split v l c cs x y z w e at here h k = (
  read_from_none (x ∷ []) v e
      ∙ ap (λ ls. read_result v (read_rows ls (start x v.rx v.ry)))
          (drop-index v.lines.items v.ry l at)
      ∙ ap (read_result v)
          (read_rows-stop l (drop (suc v.ry) v.lines.items) c cs x v.rx v.ry here h k),
  read_from_some (y ∷ z ∷ w ∷ []) ((0x80 + c.chr % 64) ∷ 0 ∷ 0 ∷ []) (split_view v c.chr) refl,
)
