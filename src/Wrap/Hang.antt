-- ===== src/Wrap/Hang.antt =====
-- Wrapping does not end on a cell that is wider than the view: such a cell is never taken.
use gocui.Common.{
  ℕ, zero, suc, ◌+◌, ◌≡◌, refl, true, List, [], ◌∷◌, ◌++◌, arith, Outcome, out_of_fuel, if_rule,
}
use gocui.Common.Int.{ℤ, pos, ◌<ℤ◌, ltb_ℤ, eqb_ℤ}
use gocui.Cell.{Cell}
use gocui.Wrap.{cell_width, Piece, take_cells, take_line, wrap_line, join_piece}

module _ (rune_width : ℕ → ℕ) (max_x : ℤ) (c : Cell) (post : List Cell)
    (wide : max_x <ℤ pos (cell_width rune_width c)) where
  -- The cell and all behind it are left over.
  abbrev Left : List Cell → Type 0
  Left l = (pre : List Cell) × (l ≡ pre ++ c ∷ post)

  too_wide : (w : ℕ) → ltb_ℤ max_x (pos (w + cell_width rune_width c)) ≡ true
  too_wide w = ground arith

  take_cells-Left :
      (w : ℕ) (pre : List Cell) → Left (take_cells rune_width max_x w (pre ++ c ∷ post)).rest
  unfolding take_cells
  take_cells-Left w [] = rw (too_wide w) ([], refl)
  take_cells-Left w (d ∷ pre) =
      let x = w + cell_width rune_width d in
      if_rule (λ (p : Piece). Left (p.rest)) (ltb_ℤ max_x (pos x)) (d ∷ pre, refl)
        (if_rule (λ (p : Piece). Left (p.rest)) (eqb_ℤ (pos x) max_x) (pre, refl)
          (take_cells-Left x pre))

  join_piece-hangs :
      (shown rest : List Cell) (more : List Cell → Outcome (List (List Cell)))
      → Left rest
      → more rest ≡ out_of_fuel
      → join_piece rune_width max_x shown rest more ≡ out_of_fuel
  join_piece-hangs shown [] more ([], e) h = cc
  join_piece-hangs shown [] more (p ∷ pre, e) h = cc
  join_piece-hangs shown (d ∷ ds) more l h = rw h

  -- For a line with a cell that is wider than the view, the loop of viewLines on that line ends in
  -- no number of rounds.
  pub wrap_line-hangs :
      (fuel : ℕ) (pre : List Cell) → wrap_line rune_width max_x fuel (pre ++ c ∷ post) ≡ out_of_fuel
  unfolding wrap_line take_line
  wrap_line-hangs zero pre = refl
  wrap_line-hangs (suc fuel) pre =
      let (pre', e) = take_cells-Left 0 pre in
      join_piece-hangs _ _ (wrap_line rune_width max_x fuel) (pre', e)
        (rw e (wrap_line-hangs fuel pre'))
