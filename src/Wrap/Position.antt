-- ===== src/Wrap/Position.antt =====
-- `linesPosOnScreen` finds the place where `viewLines` shows a cell.
use native.Mathlib.Nat.{div-eq_of_lt, mod-eq_of_lt}
use mathlib.Core.Path.{subst}
use gocui.Common.{
  ℕ, zero, suc, ◌+◌, ◌<◌, ◌≡◌, refl, sym, ap, ap₂, ◌∙◌, true, some, List, [], ◌∷◌, ◌++◌,
  append_assoc, arith, ok, length, length-append, drop,
}
use gocui.Common.Int.{ℤ, pos, negsuc, ◌≤ℤ◌, ◌<ℤ◌, stay_on}
use gocui.Slice.{index}
use gocui.Buffer.Spec.{text}
use gocui.Cell.{Cell}
use gocui.View.{View, Host, size_x}
use gocui.Wrap.{
  cell_width, line_width, wrap_line, wrap_lines, view_lines, seek, locate, place_in_line, quotient,
  place_at, wrapped_place, lines_pos_on_screen,
}
use gocui.Wrap.Locate.{locate-Located}
use gocui.Wrap.Pieces.{AllFit, AllLinesFit, wrap_line-Wrapped, wrap_lines-Wrapped}

module _ (rune_width : ℕ → ℕ) (max_x : ℤ) where
  -- The rows above a line, its own, and those below it.
  abbrev Sought : List (List Cell) → ℕ → List Cell → ℕ → Type 0
  Sought ls n l y =
      (before ps after : List (List Cell)) × (wrap_lines rune_width max_x ls
        ≡ ok (before ++ (ps ++ after)))
      × (wrap_line rune_width max_x (suc (length l)) l ≡ ok ps)
      × (seek rune_width max_x y ls n ≡ ok (n + length before, some l))

  seek-Sought :
      (ls : List (List Cell)) (y n : ℕ) (l : List Cell)
      → pos 0 ≤ℤ max_x
      → AllLinesFit rune_width max_x ls
      → index ls y ≡ ok l
      → Sought ls n l y
  unfolding seek wrap_lines
  seek-Sought [] y n l h f at = cc
  seek-Sought (k ∷ ls) zero n l h f at =
      let same : k ≡ l = cc in
      let (ps, run, _, _) =
        wrap_line-Wrapped rune_width max_x (suc (length k)) k h f.0 (omega arith) in
      let (qs, run', _, _) = wrap_lines-Wrapped rune_width max_x ls h f.1 in
      (
        [],
        ps,
        qs,
        rw (run, run') refl,
        subst (λ z. wrap_line rune_width max_x (suc (length z)) z ≡ ok ps) same run,
        (let still : n ≡ n + 0 = omega arith in ap₂ (λ i z. ok (i, some z)) still same),
      )
  seek-Sought (k ∷ ls) (suc y) n l h f at =
      let (ps, run, _, _) =
        wrap_line-Wrapped rune_width max_x (suc (length k)) k h f.0 (omega arith) in
      let (before, qs, after, rows, own, found) = seek-Sought ls y (n + length ps) l h f.1 at in
      (
        ps ++ before,
        qs,
        after,
        rw (run, rows) (ap ok (sym (append_assoc ps before (qs ++ after)))),
        own,
        rw run (found ∙ ap (λ i. ok (i, some l)) (omega (arith, length-append ps before))),
      )

-- A row among others.
index-append_le {ℓ} :
    {A : Type ℓ} (ps after : List A) (k : ℕ) (a : A)
    → index ps k ≡ ok a
    → index (ps ++ after) k ≡ ok a
index-append_le [] after k a h = cc
index-append_le (p ∷ ps) after zero a h = h
index-append_le (p ∷ ps) after (suc k) a h = index-append_le ps after k a h

index-append_add {ℓ} :
    {A : Type ℓ} (before ps : List A) (j k : ℕ) (a : A)
    → j ≡ length before + k
    → index ps k ≡ ok a
    → index (before ++ ps) j ≡ ok a
index-append_add [] ps j k a e h = ap (index ps) (omega arith) ∙ h
index-append_add (b ∷ before) ps zero k a e h = absurd (omega arith)
index-append_add (b ∷ before) ps (suc j) k a e h = index-append_add before ps j k a (omega arith) h

AllFit-index :
    (rune_width : ℕ → ℕ) (max_x : ℤ) (ls : List (List Cell)) (y : ℕ) (l : List Cell)
    → AllLinesFit rune_width max_x ls
    → index ls y ≡ ok l
    → AllFit rune_width max_x l
AllFit-index rune_width max_x [] y l f h = cc
AllFit-index rune_width max_x (k ∷ ls) zero l f h =
    let same : k ≡ l = cc in subst (AllFit rune_width max_x) same f.0
AllFit-index rune_width max_x (k ∷ ls) (suc y) l f h = AllFit-index rune_width max_x ls y l f.1 h

quotient_small : (w : ℕ) (m : ℤ) → pos w <ℤ m → quotient w m ≡ ok (pos 0, w)
quotient_small w (pos zero) h = absurd (omega arith)
quotient_small w (pos (suc m)) h =
    let less : w < suc m = omega arith in
    ap₂ (λ (a b : ℕ). ok (pos a, b)) (div-eq_of_lt less) (mod-eq_of_lt less)
quotient_small w (negsuc m) h = absurd (omega arith)

wrapped_place_lem :
    (host : Host) (v : View) (x y n w row : ℕ) (l : List Cell)
    → seek host.rune_width (size_x v) y (text v.lines) 0 ≡ ok (n, some l)
    → locate host.rune_width (size_x v) (suc (length l)) x n l ≡ ok (w, row)
    → quotient w (size_x v) ≡ ok (pos 0, w)
    → wrapped_place host v x y ≡ ok (place_at v (pos w) (pos row))
unfolding wrapped_place place_in_line
wrapped_place_lem host v x y n w row l found loc quot =
    rw found (rw loc (rw quot (ap (λ z. ok (place_at v (pos w) z)) (stay_on (pos row)))))

-- In a view that wraps, whose width is not negative and holds every cell of the buffer: for a cell
-- of the text that is at least one column wide, linesPosOnScreen returns the row of viewLines that
-- shows the cell and the width of what is in front of it on that row.
pub lines_pos_on_screen-shown :
    (host : Host) (v : View) (x y : ℕ) (l cs : List Cell) (cell : Cell)
    → v.wrap ≡ true
    → AllLinesFit host.rune_width (size_x v) (text v.lines)
    → index (text v.lines) y ≡ ok l
    → drop x l ≡ cell ∷ cs
    → 0 < cell_width host.rune_width cell
    → pos 0 ≤ℤ size_x v
    → (rows : List (List Cell)) × (r : ℕ) × (pre post : List Cell) × (view_lines host v ≡ ok rows)
      × (index rows r ≡ ok (pre ++ cell ∷ post))
      × (lines_pos_on_screen host v (pos x) (pos y)
          ≡ ok (place_at v (pos (line_width host.rune_width pre)) (pos r)))
unfolding view_lines lines_pos_on_screen
lines_pos_on_screen-shown host v x y l cs cell wrap fit at here wide h =
    let width = host.rune_width in
    let max_x = size_x v in
    let (before, ps, after, shown, own, found) =
      seek-Sought width max_x (text v.lines) y 0 l h fit at in
    let n = 0 + length before in
    let (ps', own', (k, pre, post, idx, loc, bound)) =
      locate-Located width max_x cell (suc (length l)) x n l cs h
        (AllFit-index width max_x (text v.lines) y l fit at) (omega arith) here in
    let same : ps' ≡ ps = (let both : ok ps' ≡ ok ps = sym own' ∙ own in cc) in
    let small : pos (line_width width pre) <ℤ max_x = omega (arith, bound, wide) in
    (
      before ++ (ps ++ after),
      n + k,
      pre,
      post,
      rw wrap shown,
      index-append_add before (ps ++ after) (n + k) k _ (omega arith) (
          index-append_le ps after k _ (subst (λ z. index z k ≡ ok (pre ++ cell ∷ post)) same idx)),
      rw wrap (
          wrapped_place_lem host v x y n (line_width width pre) (n + k) l found loc
            (quotient_small (line_width width pre) max_x small)),
    )
