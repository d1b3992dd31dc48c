-- ===== src/Wrap/Pieces.antt =====
-- Wrapping cuts a line into pieces and loses nothing: each piece is as wide as the view at most.
-- It ends if every cell of the line fits into the view.
use gocui.Common.{
  ℕ, zero, suc, ◌+◌, ◌≤◌, ◌<◌, ◌≡◌, refl, sym, ap, ap₂, ◌∙◌, ◌≢◌, true, List, [], ◌∷◌, ◌++◌,
  append_assoc, arith, Outcome, ok, if_rule, length, length-append,
}
use mathlib.Core.List.{flatten}
use gocui.Common.Int.{ℤ, pos, ◌≤ℤ◌, ltb_ℤ, eqb_ℤ}
use gocui.Cell.{Cell}
use gocui.Wrap.{
  cell_width, line_width, Piece, take_cells, take_line, wrap_line, wrap_lines, join_piece,
  view_lines,
}
use gocui.View.{View, Host, size_x}
use gocui.Buffer.Spec.{text}

flatten-append {ℓ} :
    {A : Type ℓ} (ps qs : List (List A)) → flatten (ps ++ qs) ≡ flatten ps ++ flatten qs
unfolding flatten
flatten-append [] qs = refl
flatten-append (p ∷ ps) qs =
    ap (p ++◌) (flatten-append ps qs) ∙ sym (append_assoc p (flatten ps) (flatten qs))

module _ (rune_width : ℕ → ℕ) (max_x : ℤ) where
  pub shown-append-rest :
      (w : ℕ) (l : List Cell)
      → (take_cells rune_width max_x w l).shown ++ (take_cells rune_width max_x w l).rest ≡ l
  unfolding take_cells
  shown-append-rest w [] = refl
  shown-append-rest w (c ∷ cs) = ground (arith, shown-append-rest (w + cell_width rune_width c) cs)

  width-shown :
      (w : ℕ) (l : List Cell)
      → (take_cells rune_width max_x w l).width
        ≡ w + line_width rune_width (take_cells rune_width max_x w l).shown
  unfolding take_cells line_width
  width-shown w [] = omega arith
  width-shown w (c ∷ cs) = ground (arith, width-shown (w + cell_width rune_width c) cs)

  width-le :
      (w : ℕ) (l : List Cell)
      → pos w ≤ℤ max_x
      → pos (take_cells rune_width max_x w l).width ≤ℤ max_x
  unfolding take_cells
  width-le w [] h = h
  width-le w (c ∷ cs) h = ground (arith, width-le (w + cell_width rune_width c) cs)

  -- Every cell is as wide as the view at most.
  abbrev pub AllFit : List Cell → Type 0
  AllFit [] = Unit
  AllFit (c ∷ cs) = (pos (cell_width rune_width c) ≤ℤ max_x) × AllFit cs

  pub AllFit-rest :
      (w : ℕ) (l : List Cell) → AllFit l → AllFit (take_cells rune_width max_x w l).rest
  unfolding take_cells
  AllFit-rest w [] h = tt
  AllFit-rest w (c ∷ cs) h =
      if_rule (λ (p : Piece). AllFit (p.rest)) (ltb_ℤ max_x (pos (w + cell_width rune_width c))) h
        (if_rule (λ (p : Piece). AllFit (p.rest)) (eqb_ℤ (pos (w + cell_width rune_width c)) max_x)
          (h.1) (AllFit-rest (w + cell_width rune_width c) cs (h.1)))

  rest-le : (w : ℕ) (l : List Cell) → length (take_cells rune_width max_x w l).rest ≤ length l
  rest-le w l = omega (
    arith,
    ap length (shown-append-rest w l),
    length-append (take_cells rune_width max_x w l).shown (take_cells rune_width max_x w l).rest,
  )

  -- The first cell is always taken.
  take_line_progress :
      (c : Cell) (cs : List Cell)
      → pos (cell_width rune_width c) ≤ℤ max_x
      → length (take_line rune_width max_x (c ∷ cs)).rest < length (c ∷ cs)
  unfolding take_line
  take_line_progress c cs h = ground (arith, rest-le (0 + cell_width rune_width c) cs)

  -- The pieces of a line: together they are the line, and each has at most the width of the view.
  abbrev pub Narrow : List (List Cell) → Type 0
  Narrow [] = Unit
  Narrow (p ∷ ps) = (pos (line_width rune_width p) ≤ℤ max_x) × Narrow ps

  abbrev pub Wrapped : List Cell → Outcome (List (List Cell)) → Type 0
  Wrapped l o = (ps : List (List Cell)) × (o ≡ ok ps) × (flatten ps ≡ l) × Narrow ps

  pub shown-Narrow :
      (l : List Cell)
      → pos 0 ≤ℤ max_x
      → pos (line_width rune_width (take_line rune_width max_x l).shown) ≤ℤ max_x
  unfolding take_line
  shown-Narrow l h = omega (arith, width-shown 0 l, width-le 0 l h)

  join_piece-Wrapped :
      (shown rest k : List Cell) (more : List Cell → Outcome (List (List Cell)))
      → shown ++ rest ≡ k
      → pos (line_width rune_width shown) ≤ℤ max_x
      → (rest ≢ [] → Wrapped rest (more rest))
      → Wrapped k (join_piece rune_width max_x shown rest more)
  unfolding flatten
  join_piece-Wrapped shown [] k more e w f = (shown ∷ [], refl, e, (w, tt))
  join_piece-Wrapped shown (c ∷ cs) k more e w f =
      let (ps, run, flat, narrow) = f (λ q. cc) in
      (shown ∷ ps, rw run, ap (shown ++◌) flat ∙ e, (w, narrow))

  pub take_line_shorter :
      (k : List Cell)
      → AllFit k
      → (take_line rune_width max_x k).rest ≢ []
      → length (take_line rune_width max_x k).rest < length k
  take_line_shorter [] f ne = absurd (ne (unfold take_line take_cells in refl))
  take_line_shorter (c ∷ cs) f ne = take_line_progress c cs (f.0)

  -- The loop on one line ends, with a round for each cell and one more.
  pub wrap_line-Wrapped :
      (fuel : ℕ) (l : List Cell)
      → pos 0 ≤ℤ max_x
      → AllFit l
      → length l < fuel
      → Wrapped l (wrap_line rune_width max_x fuel l)
  unfolding wrap_line
  wrap_line-Wrapped zero l h f n = absurd (omega arith)
  wrap_line-Wrapped (suc fuel) l h f n =
      join_piece-Wrapped _ _ l (wrap_line rune_width max_x fuel)
        (unfold take_line in shown-append-rest 0 l) (shown-Narrow l h)
        λ ne.
          wrap_line-Wrapped fuel (take_line rune_width max_x l).rest h
            (unfold take_line in AllFit-rest 0 l f) (omega (arith, take_line_shorter l f ne))

  abbrev pub AllLinesFit : List (List Cell) → Type 0
  AllLinesFit [] = Unit
  AllLinesFit (l ∷ ls) = AllFit l × AllLinesFit ls

  Narrow-append : (ps qs : List (List Cell)) → Narrow ps → Narrow qs → Narrow (ps ++ qs)
  Narrow-append [] qs h k = k
  Narrow-append (p ∷ ps) qs h k = (h.0, Narrow-append ps qs (h.1) k)

  -- All lines are wrapped, one after the other.
  pub wrap_lines-Wrapped :
      (ls : List (List Cell))
      → pos 0 ≤ℤ max_x
      → AllLinesFit ls
      → Wrapped (flatten ls) (wrap_lines rune_width max_x ls)
  unfolding wrap_lines flatten
  wrap_lines-Wrapped [] h f = ([], refl, refl, tt)
  wrap_lines-Wrapped (l ∷ ls) h f =
      let (ps, run, flat, narrow) = wrap_line-Wrapped (suc (length l)) l h (f.0) (omega arith) in
      let (qs, run', flat', narrow') = wrap_lines-Wrapped ls h (f.1) in
      (
        ps ++ qs,
        rw (run, run'),
        flatten-append ps qs ∙ ap₂ (λ (a b : List Cell). a ++ b) flat flat',
        Narrow-append ps qs narrow narrow',
      )

-- In a view that wraps, whose width is not negative and holds every cell of the buffer, viewLines
-- returns; the shown lines put together are the lines of the buffer put together, and none is
-- wider than the view.
pub view_lines-Wrapped :
    (host : Host) (v : View)
    → v.wrap ≡ true
    → pos 0 ≤ℤ size_x v
    → AllLinesFit host.rune_width (size_x v) (text v.lines)
    → Wrapped host.rune_width (size_x v) (flatten (text v.lines)) (view_lines host v)
unfolding view_lines
view_lines-Wrapped host v w h f =
    rw w (wrap_lines-Wrapped host.rune_width (size_x v) (text v.lines) h f)
