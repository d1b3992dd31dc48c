-- ===== src/Cursor/Target.antt =====
-- Where the cursor goes: always into the text.
use gocui.Common.{
  ℕ, zero, suc, ◌+◌, ◌-◌, ◌≤◌, ◌<◌, ◌≡◌, refl, inl, inr, Bool, true, false, ◌&&◌, arith, Outcome,
  ok, ltb, if◌then◌else◌, lt→ltb, Bool-cases,
}
use gocui.Common.Int.{ℤ, pos, negsuc, pos_part, ◌≤ℤ◌, ltb_ℤ, ltb_ℤ-cases, eqb_ℤ}
use gocui.Slice.{len, index}
use gocui.Cell.{Line, Lines}
use gocui.Buffer.Text.{index_lem, index-lt}
use gocui.Cursor.{clamp_row, line_above, on_line, target}

-- A column and a line in the text: at a cell or at the end of the line.
abbrev pub InText : Lines → ℕ → ℕ → Type 0
InText ls x y = (l : Line) × (index ls.items y ≡ ok l) × (x ≤ len l)

clamp_row-lt : (ls : Lines) (y : ℤ) → 0 < len ls → clamp_row ls y < len ls
clamp_row-lt ls y h = ground arith

abbrev Found : Lines → Outcome (ℕ × ℕ) → Type 0
Found ls o = (x : ℕ) × (y : ℕ) × (o ≡ ok (x, y)) × InText ls x y

line_above-Found : (ls : Lines) (row : ℕ) → row < len ls → Found ls (line_above ls row)
line_above-Found ls zero h =
    let (l, at) = index_lem ls.items 0 h in (0, 0, refl, (l, at, omega arith))
line_above-Found ls (suc row) h =
    let lt : suc row - 1 < len ls = omega arith in
    let (l, at) = index_lem ls.items (suc row - 1) lt in
    (len l, suc row - 1, rw (lt→ltb 0 (suc row) (omega arith)) (rw at), (l, at, omega arith))

module _ (ls : Lines) (row : ℕ) (l : Line) (at : index ls.items row ≡ ok l) where
  -- Behind the end of the line.
  behind-Found :
      (b : Bool)
      → Found ls (ok (if b && ltb (row + 1) (len ls) then (0, row + 1) else (len l, row)))
  behind-Found b = elim (Bool-cases (b && ltb (row + 1) (len ls))) [
    | inl e ↦
        let (m, there) = index_lem ls.items (row + 1) (next_line b e) in
        (0, row + 1, rw e, (m, there, omega arith))
    | inr e ↦ (len l, row, rw e, (l, at, omega arith))
  ]
    where
      next_line : (c : Bool) → (c && ltb (row + 1) (len ls)) ≡ true → row + 1 < len ls
      next_line c e = ground arith

  -- In front of the end.
  within-Found :
      (x : ℤ)
      → x ≤ℤ pos (len l)
      → Found ls (if ltb_ℤ x (pos 0) then line_above ls row else ok (pos_part x, row))
  within-Found x h = elim (Bool-cases (ltb_ℤ x (pos 0))) [
    | inl e ↦ rw e (line_above-Found ls row (index-lt ls.items row at))
    | inr e ↦ (pos_part x, row, rw e, (l, at, column x e h))
  ]
    where
      column : (x : ℤ) → ltb_ℤ x (pos 0) ≡ false → x ≤ℤ pos (len l) → pos_part x ≤ len l
      column x e h = ground arith

  on_line-Found : (x dy : ℤ) → Found ls (on_line ls row l x dy)
  on_line-Found x dy = elim (ltb_ℤ-cases (pos (len l)) x) [
    | inl (e, _) ↦ rw e (behind-Found (eqb_ℤ dy (pos 0)))
    | inr (e, h) ↦ rw e (within-Found x h)
  ]

-- Over a text with at least one line, from any position and by any step, the place that MoveCursor
-- goes to is a cell of the text or the end of one of its lines.
pub target-InText :
    (ls : Lines) (x y dy : ℤ)
    → 0 < len ls
    → (x' y' : ℕ) × (target ls x y dy ≡ ok (x', y')) × InText ls x' y'
unfolding target
target-InText ls x y dy h =
    let (l, at) = index_lem ls.items (clamp_row ls y) (clamp_row-lt ls y h) in
    rw at (on_line-Found ls (clamp_row ls y) l at x dy)

-- A place in the text is the one that a step to it goes to.
pub target_there :
    (ls : Lines) (x y : ℕ) (dy : ℤ) → InText ls x y → target ls (pos x) (pos y) dy ≡ ok (x, y)
unfolding target
target_there ls x y dy (l, at, h) =
    let inside = index-lt ls.items y at in
    rw (clamp_there ls y inside) (rw at (rw (not_behind x (len l) h) (rw (not_before x))))
  where
    clamp_there : (ls : Lines) (y : ℕ) → y < len ls → clamp_row ls (pos y) ≡ y
    clamp_there ls y h = ground arith

    not_behind : (x n : ℕ) → x ≤ n → ltb_ℤ (pos n) (pos x) ≡ false
    not_behind x n h = ground arith

    not_before : (x : ℕ) → ltb_ℤ (pos x) (pos 0) ≡ false
    not_before x = ground arith

-- From the start of a line a step to the left goes to the end of the line above.
pub target_above :
    (ls : Lines) (y : ℕ) (l : Line)
    → index ls.items y ≡ ok l
    → suc y < len ls
    → target ls (negsuc 0) (pos (suc y)) (pos 0) ≡ ok (len l, y)
unfolding target
target_above ls y l at h =
    let (m, there) = index_lem ls.items (suc y) h in
    let e : suc y - 1 ≡ y = omega arith in
    rw (clamp_there ls (suc y) h)
      (rw there (rw (not_behind (len m)) (rw (lt→ltb 0 (suc y) (omega arith)) (rw e (rw at)))))
  where
    clamp_there : (ls : Lines) (y : ℕ) → y < len ls → clamp_row ls (pos y) ≡ y
    clamp_there ls y h = ground arith

    not_behind : (n : ℕ) → ltb_ℤ (pos n) (negsuc 0) ≡ false
    not_behind n = ground arith
