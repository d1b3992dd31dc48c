-- ===== src/Read/Reader.antt =====
-- The loops of `Read` on text of one-byte runes.
use native.Mathlib.Decide.{dec_le}
use gocui.Common.{
  ℕ, zero, suc, ◌+◌, ◌-◌, ◌≤◌, ◌<◌, ◌≡◌, refl, sym, ap, ap₂, ◌∙◌, none, List, [], ◌∷◌, ◌++◌, map,
  append-nil, append_assoc, arith, leb, if◌then◌else◌, lt→ltb, le→leb, lt→leb, le→ltb, length, take,
  drop, length-append, length-drop,
}
use gocui.Slice.{copy, copy_at, drop-drop, take-append_le}
use gocui.Cell.{Cell, Line}
use gocui.Buffer.RowLaws.{drop-append_le, drop-append_add}
use gocui.Slice.Laws.{take-append_add}
use gocui.Read.{Reading, Progress, filled, ended, put_rune, after_rune, read_row, read_rows}

abbrev pub chars : List Cell → List ℕ
chars cs = map (λ (c : Cell). c.chr) cs

-- The runes from column rx of the first line on.
abbrev pub text_from : ℕ → List Line → List ℕ
text_from rx [] = []
text_from rx (l ∷ ls) = chars (drop rx l.items) ++ text_from 0 ls

-- Runes that are one byte each.
abbrev pub Ascii : List ℕ → Type 0
Ascii [] = Unit
Ascii (c ∷ cs) = (c < 0x80) × Ascii cs

-- The loops' variables when p holds `done`, and `more` is still to be overwritten.
abbrev pub reading : List ℕ → List ℕ → List ℕ → ℕ → ℕ → Reading
reading done more b rx ry = record {
  out = done ++ more;
  offset = length done;
  buffer = b;
  rx = rx;
  ry = ry;
}

copy_at-append :
    (done : List ℕ) (c m : ℕ) (ms : List ℕ)
    → copy_at (done ++ m ∷ ms) (length done) (c ∷ []) ≡ (done ++ c ∷ []) ++ ms
copy_at-append [] c m [] = refl
copy_at-append [] c m (n ∷ ms) = refl
copy_at-append (d ∷ done) c m ms = ap (d ∷◌) (copy_at-append done c m ms)

put_rune-ascii :
    (done : List ℕ) (m : ℕ) (ms b : List ℕ) (rx ry c : ℕ)
    → c < 0x80
    → put_rune c (reading done (m ∷ ms) b rx ry)
      ≡ reading (done ++ c ∷ []) ms (copy b (c ∷ [])) (rx + 1) ry
put_rune-ascii done m ms b rx ry c h = rw (lt→ltb c 0x80 h) (
    ap₂ (λ o n. record { out = o; offset = n; buffer = copy b (c ∷ []); rx = rx + 1; ry = ry })
      (copy_at-append done c m ms) (sym (length-append done (c ∷ []))))

goes_on : (r : Reading) (rest : Progress) → r.offset < length r.out → after_rune r rest ≡ rest
goes_on r rest h = rw (lt→leb (length r.out) r.offset h) refl

stops :
    (r : Reading) (rest : Progress) → r.offset ≡ length r.out → after_rune r rest ≡ filled none r
stops r rest h =
    rw (le→leb (length r.out) r.offset (omega arith))
      (rw (le→ltb (length r.out) r.offset (omega arith)) refl)

module _ (ry : ℕ) where
  -- One round on a rune of one byte.
  round_ascii :
      (c : Cell) (cs : List Cell) (done : List ℕ) (m : ℕ) (ms b : List ℕ) (rx : ℕ)
      → c.chr < 0x80
      → read_row (c ∷ cs) (reading done (m ∷ ms) b rx ry)
        ≡ after_rune
            (reading (done ++ c.chr ∷ []) ms (copy b (c.chr ∷ [])) (rx + 1) ry)
            (read_row cs (reading (done ++ c.chr ∷ []) ms (copy b (c.chr ∷ [])) (rx + 1) ry))
  unfolding read_row
  round_ascii c cs done m ms b rx h =
      ap (λ s. after_rune s (read_row cs s)) (put_rune-ascii done m ms b rx ry c.chr h)

  row-ended :
      (cs : List Cell) (done more b : List ℕ) (rx : ℕ)
      → Ascii (chars cs)
      → length cs < length more
      → (b' : List ℕ) × (read_row cs (reading done more b rx ry)
          ≡ ended (reading (done ++ chars cs) (drop (length cs) more) b' (rx + length cs) ry))
  row-ended [] done more b rx a h = (
    b,
    unfold read_row in
        ap₂ (λ d i. ended (reading d more b i ry)) {v = rx + 0} (sym (append-nil done))
          (omega arith),
  )
  row-ended (c ∷ cs) done [] b rx a h = absurd (omega arith)
  row-ended (c ∷ cs) done (m ∷ ms) b rx a h =
      let (b', run) =
        row-ended cs (done ++ c.chr ∷ []) ms (copy b (c.chr ∷ [])) (rx + 1) a.1 (omega arith) in
      (
        b',
        round_ascii c cs done m ms b rx a.0
            ∙ goes_on (reading (done ++ c.chr ∷ []) ms (copy b (c.chr ∷ [])) (rx + 1) ry) _
                (omega (arith, length-append (done ++ c.chr ∷ []) ms))
            ∙ run
            ∙ ap₂ (λ d i. ended (reading d (drop (length cs) ms) b' i ry))
                {v = rx + suc (length cs)} (append_assoc done (c.chr ∷ []) (chars cs))
                (omega arith),
      )

  row-filled :
      (cs : List Cell) (done more b : List ℕ) (rx : ℕ)
      → Ascii (chars cs)
      → 0 < length more
      → length more ≤ length cs
      → (b' : List ℕ) × (read_row cs (reading done more b rx ry)
          ≡ filled none
              (reading (done ++ take (length more) (chars cs)) [] b' (rx + length more) ry))
  row-filled cs done [] b rx a p h = absurd (omega arith)
  row-filled [] done (m ∷ ms) b rx a p h = absurd (omega arith)
  row-filled (c ∷ cs) done (m ∷ []) b rx a p h = (
    copy b (c.chr ∷ []),
    round_ascii c cs done m [] b rx a.0
        ∙ stops (reading (done ++ c.chr ∷ []) [] (copy b (c.chr ∷ [])) (rx + 1) ry) _
            (ap length (sym (append-nil (done ++ c.chr ∷ [])))),
  )
  row-filled (c ∷ cs) done (m ∷ n ∷ ms) b rx a p h =
      let (b', run) =
        row-filled cs (done ++ c.chr ∷ []) (n ∷ ms) (copy b (c.chr ∷ [])) (rx + 1) a.1 (omega arith)
          (omega arith) in
      (
        b',
        round_ascii c cs done m (n ∷ ms) b rx a.0
            ∙ goes_on (reading (done ++ c.chr ∷ []) (n ∷ ms) (copy b (c.chr ∷ [])) (rx + 1) ry) _
                (omega (arith, length-append (done ++ c.chr ∷ []) (n ∷ ms)))
            ∙ run
            ∙ ap₂ (λ d i. filled none (reading d [] b' i ry)) {v = rx + suc (suc (length ms))}
                (append_assoc done (c.chr ∷ []) (take (suc (length ms)) (chars cs))) (omega arith),
      )

-- p filled with the first of the runes s, or with all of them.
abbrev pub with_text : List ℕ → List ℕ → List ℕ → List ℕ → ℕ → ℕ → Progress
with_text done more s b x y =
    if leb (length more) (length s)
    then filled none (reading (done ++ take (length more) s) [] b x y)
    else ended (reading (done ++ s) (drop (length s) more) b x y)

length-chars : (cs : List Cell) → length (chars cs) ≡ length cs
length-chars [] = refl
length-chars (c ∷ cs) = ap suc (length-chars cs)

drop-chars : (n : ℕ) (cs : List Cell) → chars (drop n cs) ≡ drop n (chars cs)
drop-chars zero cs = refl
drop-chars (suc n) [] = refl
drop-chars (suc n) (c ∷ cs) = drop-chars n cs

Ascii-append : (xs ys : List ℕ) → Ascii (xs ++ ys) → Ascii xs × Ascii ys
Ascii-append [] ys a = (tt, a)
Ascii-append (x ∷ xs) ys a = let (b, c) = Ascii-append xs ys a.1 in ((a.0, b), c)

with_text-append :
    (done more cs s b : List ℕ) (x y : ℕ)
    → length cs < length more
    → with_text done more (cs ++ s) b x y ≡ with_text (done ++ cs) (drop (length cs) more) s b x y
with_text-append done more cs s b x y h = elim (dec_le (length more - length cs) (length s)) [
  | yes full ↦ rw (le→leb (length more) (length (cs ++ s)) (omega (arith, length-append cs s))) (
      rw
        (le→leb (length (drop (length cs) more)) (length s)
          (omega (arith, length-drop (length cs) more)))
        (ap (λ d. filled none (reading d [] b x y))
          (ap (done ++◌) (
              take-append_add (length more) (length (drop (length cs) more)) cs s
                (omega (arith, length-drop (length cs) more)))
            ∙ sym (append_assoc done cs (take (length (drop (length cs) more)) s)))))
  | no short ↦ rw (lt→leb (length more) (length (cs ++ s)) (omega (arith, length-append cs s))) (
      rw
        (lt→leb (length (drop (length cs) more)) (length s)
          (omega (arith, length-drop (length cs) more)))
        (ap₂ (λ d m. ended (reading d m b x y)) (sym (append_assoc done cs s))
          (drop-drop (length cs) (length s) (length (cs ++ s)) more (length-append cs s))))
]

-- The loop over the lines takes the runes that are left, from the position on.
pub rows_lem :
    (ls : List Line) (done more b : List ℕ) (rx ry : ℕ)
    → Ascii (text_from rx ls)
    → 0 < length more
    → (b' : List ℕ) × (x k : ℕ) × (read_rows ls (reading done more b rx ry)
        ≡ with_text done more (text_from rx ls) b' x (ry + k))
      × (text_from x (drop k ls) ≡ drop (length more) (text_from rx ls))
unfolding read_rows
rows_lem [] done [] b rx ry a p = absurd (omega arith)
rows_lem [] done (m ∷ ms) b rx ry a p = (
  b,
  rx,
  0,
  rw (lt→leb (suc (length ms)) 0 (omega arith)) (
      ap₂ (λ d y. ended (reading d (m ∷ ms) b rx y)) {v = ry + 0} (sym (append-nil done))
        (omega arith)),
  refl,
)
rows_lem (l ∷ ls) done more b rx ry a p =
    let cs = drop rx l.items in
    let rest = text_from 0 ls in
    let (here, after) = Ascii-append (chars cs) rest a in
    let long = length-chars cs in
    elim (dec_le (length more) (length cs)) [
      | yes full ↦
          let (b', run) = row-filled ry cs done more b rx here p full in
          (
            b',
            rx + length more,
            0,
            rw run (
                rw
                  (le→leb (length more) (length (chars cs ++ rest))
                    (omega (arith, length-append (chars cs) rest)))
                  (ap₂ (λ d y. filled none (reading d [] b' (rx + length more) y)) {v = ry + 0}
                    (ap (done ++◌)
                      (sym (take-append_le (length more) (chars cs) rest (omega arith))))
                    (omega arith))),
            ap (λ xs. chars xs ++ rest) (drop-drop rx (length more) (rx + length more) l.items refl)
                ∙ ap (◌++ rest) (drop-chars (length more) cs)
                ∙ sym (drop-append_le (length more) (chars cs) rest (omega arith)),
          )
      | no short ↦
          let (b', run) = row-ended ry cs done more b rx here (omega arith) in
          let left = length-drop (length cs) more in
          let (b'', x, k, run', same) =
            rows_lem ls (done ++ chars cs) (drop (length cs) more) b' 0 (ry + 1) after
              (omega arith) in
          (
            b'',
            x,
            suc k,
            rw run (
                run'
                ∙ ap (λ n. with_text (done ++ chars cs) (drop n more) rest b'' x (ry + 1 + k))
                    (sym long)
                ∙ sym (with_text-append done more (chars cs) rest b'' x (ry + 1 + k) (omega arith))
                ∙ ap (λ y. with_text done more (chars cs ++ rest) b'' x y) (omega arith)),
            same
                ∙ sym (
                    drop-append_add (length more) (length (drop (length cs) more)) (chars cs) rest
                      (omega arith)),
          )
    ]
