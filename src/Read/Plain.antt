-- ===== src/Read/Plain.antt =====
-- `Read` on text of one-byte runes hands out the text in pieces.
use native.Mathlib.Decide.{dec_le}
use gocui.Common.{
  ℕ, zero, suc, ◌+◌, ◌<◌, min, ◌≡◌, refl, sym, ap, ap₂, ◌∙◌, false, true, none, List, [], ◌∷◌, ◌++◌,
  append-nil, arith, ltb, lt→ltb, le→ltb, le→leb, lt→leb, length, take, drop, replicate,
  length-take,
}
use gocui.Slice.{drop-drop, take_all, drop_all, take-append}
use gocui.View.{View}
use gocui.Read.{ReadResult, read, read_from, read_lines, read_result}
use gocui.Read.Reader.{text_from, Ascii, with_text, rows_lem}

-- The runes behind the read position of a view.
abbrev pub remaining : View → List ℕ
remaining v = text_from v.rx (drop v.ry v.lines.items)

-- What a reader over the text s leaves in p.
abbrev pub piece : List ℕ → List ℕ → ReadResult
piece p s = record {
  out = take (length p) s ++ drop (length s) p;
  count = min (length p) (length s);
  eof = ltb (length s) (length p);
}

piece_lem :
    (p s b : List ℕ) (x y : ℕ) (v : View)
    → read_result v (with_text [] p s b x y)
      ≡ (record v { read_buffer = none; rx = x; ry = y }, piece p s)
piece_lem p s b x y v = elim (dec_le (length p) (length s)) [
  | yes full ↦
      let same : length (take (length p) s ++ []) ≡ min (length p) (length s) =
        ap length (append-nil (take (length p) s)) ∙ length-take (length p) s in
      rw (le→leb (length p) (length s) full) (
        rw (le→ltb (length s) (length p) full) (
          ap₂
            (λ o n. (
              record v { read_buffer = none; rx = x; ry = y },
              record { out = o; count = n; eof = false },
            ))
            (ap (take (length p) s ++◌) (sym (drop_all (length s) p full))) same))
  | no short ↦ rw (lt→leb (length p) (length s) (omega arith)) (
      rw (lt→ltb (length s) (length p) (omega arith)) (
        ap₂
          (λ o n. (
            record v { read_buffer = none; rx = x; ry = y },
            record { out = o; count = n; eof = true },
          ))
          {v = min (length p) (length s)}
          (ap (◌++ drop (length s) p) (sym (take_all (length p) s (omega arith)))) (omega arith)))
]

pub read_from_none : (p : List ℕ) (v : View) → v.read_buffer ≡ none → read p v ≡ read_lines p v
unfolding read
read_from_none p v e = ap (read_from p v) e

-- One call hands out the text up to the length of the array, and leaves the rest of it to be read.
pub read-piece :
    (p : List ℕ) (v : View)
    → v.read_buffer ≡ none
    → 0 < length p
    → Ascii (remaining v)
    → (w : View) × (read p v ≡ (w, piece p (remaining v)))
      × (remaining w ≡ drop (length p) (remaining v))
      × (w.read_buffer ≡ none)
      × (w.lines ≡ v.lines)
read-piece p v e h a =
    let (b, x, k, run, rest) =
      rows_lem (drop v.ry v.lines.items) [] p (replicate 4 0) v.rx v.ry a h in
    (
      record v { read_buffer = none; rx = x; ry = v.ry + k },
      read_from_none p v e
          ∙ unfold read_lines in
            (ap (read_result v) run ∙ piece_lem p (remaining v) b x (v.ry + k) v),
      ap (text_from x) (drop-drop v.ry k (v.ry + k) v.lines.items refl) ∙ rest,
      refl,
      refl,
    )

-- The bytes that a chain of calls hands out, one for each array.
abbrev pub read_all : List (List ℕ) → View → List ℕ
read_all [] v = []
read_all (p ∷ ps) v = let r = read p v in take (r.1).count (r.1).out ++ read_all ps r.0

abbrev pub total : List (List ℕ) → ℕ
total [] = 0
total (p ∷ ps) = length p + total ps

abbrev pub AllNonempty : List (List ℕ) → Type 0
AllNonempty [] = Unit
AllNonempty (p ∷ ps) = (0 < length p) × AllNonempty ps

Ascii-drop : (n : ℕ) (s : List ℕ) → Ascii s → Ascii (drop n s)
Ascii-drop zero s a = a
Ascii-drop (suc n) [] a = a
Ascii-drop (suc n) (c ∷ s) a = Ascii-drop n s a.1

take-add : (n k : ℕ) (s : List ℕ) → take (n + k) s ≡ take n s ++ take k (drop n s)
take-add n k s = go n k (n + k) s refl
  where
    go : (n k j : ℕ) (s : List ℕ) → j ≡ n + k → take j s ≡ take n s ++ take k (drop n s)
    go zero k j s e = ap (λ i. take i s) (omega arith)
    go (suc n) k zero s e = absurd (omega arith)
    go (suc n) zero (suc j) [] e = refl
    go (suc n) (suc k) (suc j) [] e = refl
    go (suc n) k (suc j) (c ∷ s) e = ap (c ∷◌) (go n k j s (omega arith))

take-piece : (p s : List ℕ) → take (piece p s).count (piece p s).out ≡ take (length p) s
take-piece p s =
    ap (λ n. take n (piece p s).out) (sym (length-take (length p) s))
    ∙ take-append (length (take (length p) s)) (take (length p) s) (drop (length s) p) refl

-- For a view whose runes behind the read position are one byte each and that keeps no bytes, calls
-- of Read with arrays that are not empty hand out together the text behind the read position, up
-- to the sum of their lengths.
pub read_all_lem :
    (ps : List (List ℕ)) (v : View)
    → v.read_buffer ≡ none
    → AllNonempty ps
    → Ascii (remaining v)
    → read_all ps v ≡ take (total ps) (remaining v)
read_all_lem [] v e h a = refl
read_all_lem (p ∷ ps) v e h a =
    let (w, run, rest, e', _) = read-piece p v e h.0 a in
    ap (λ (r : View × ReadResult). take (r.1).count (r.1).out ++ read_all ps r.0) run
    ∙ ap₂ (λ (a b : List ℕ). a ++ b) (take-piece p (remaining v))
        (read_all_lem ps w e' h.1 (rw rest (Ascii-drop (length p) (remaining v) a))
          ∙ ap (take (total ps)) rest)
    ∙ sym (take-add (length p) (total ps) (remaining v))
