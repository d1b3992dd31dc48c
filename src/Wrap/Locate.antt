-- ===== src/Wrap/Locate.antt =====
-- The second loop of `linesPosOnScreen` finds the piece of a line that holds a cell.
use native.Mathlib.Decide.{dec_lt}
use gocui.Common.{
  ℕ, zero, suc, ◌+◌, ◌-◌, ◌≤◌, ◌<◌, ◌≡◌, refl, sym, ap, ◌∙◌, false, List, [], ◌∷◌, ◌++◌, arith,
  Outcome, ok, lt→ltb, ◌≢◌, length-drop, le→ltb, ◌==◌, length, take, drop,
}
use gocui.Common.Int.{ℤ, pos, ◌≤ℤ◌}
use gocui.Slice.{index, take-append-drop, drop_all}
use gocui.Buffer.RowLaws.{drop-append_le, drop-append_add}
use gocui.Cell.{Cell}
use gocui.Wrap.{cell_width, line_width, take_line, wrap_line, join_piece, locate}
use gocui.Wrap.Pieces.{
  AllFit, shown-append-rest, shown-Narrow, AllFit-rest, take_line_shorter, wrap_line-Wrapped,
}

module _ (rune_width : ℕ → ℕ) where
  line_width-append :
      (p q : List Cell)
      → line_width rune_width (p ++ q) ≡ line_width rune_width p + line_width rune_width q
  unfolding line_width
  line_width-append [] q = omega arith
  line_width-append (c ∷ p) q = omega (arith, line_width-append p q)

-- The first element of an append.
append-head {ℓ} :
    {A : Type ℓ} (ds rs cs : List A) (a : A)
    → ds ++ rs ≡ a ∷ cs
    → 0 < length ds
    → (post : List A) × (ds ≡ a ∷ post)
append-head [] rs cs a e h = absurd (omega arith)
append-head (d ∷ ds) rs cs a e h = let same : d ≡ a = cc in (ds, ap (◌∷ ds) same)

length-append-drop {ℓ} : {A : Type ℓ} (x : ℕ) (xs : List A) → x < length xs → 0 < length (drop x xs)
length-append-drop x xs h = omega (arith, length-drop x xs)

not_zero : (n : ℕ) → (suc n == 0) ≡ false
not_zero n = ground arith

some_left {ℓ} : {A : Type ℓ} {a : A} (k : ℕ) (r cs : List A) → r ≡ [] → drop k r ≡ a ∷ cs → ⊥
some_left k r cs e q = let z : drop k r ≡ [] = drop_all k r (omega (arith, ap length e)) in cc

module _ (rune_width : ℕ → ℕ) (max_x : ℤ) (cell : Cell) where
  -- The cell in one of the pieces, behind the width w, and what `locate` returns.
  abbrev pub Located : List (List Cell) → ℕ → Outcome (ℕ × ℕ) → Type 0
  Located ps row o =
      (k : ℕ) × (pre post : List Cell) × (index ps k ≡ ok (pre ++ cell ∷ post))
      × (o ≡ ok (line_width rune_width pre, row + k))
      × (pos (line_width rune_width pre + cell_width rune_width cell) ≤ℤ max_x)

  -- The rows of a line begin with its first piece.
  join_piece-head :
      (s r : List Cell) (more : List Cell → Outcome (List (List Cell)))
      → (r ≢ [] → (qs : List (List Cell)) × (more r ≡ ok qs))
      → (qs : List (List Cell)) × (join_piece rune_width max_x s r more ≡ ok (s ∷ qs))
  join_piece-head s [] more f = ([], refl)
  join_piece-head s (c ∷ cs) more f = let (qs, e) = f (λ q. cc) in (qs, rw e refl)

  -- A cell in the first piece.
  in_piece :
      (x row : ℕ) (s r cs : List Cell) (qs : List (List Cell))
      → x < length s
      → drop x (s ++ r) ≡ cell ∷ cs
      → pos (line_width rune_width s) ≤ℤ max_x
      → Located (s ∷ qs) row (ok (line_width rune_width (take x s), row))
  in_piece x row s r cs qs less at w =
      let (post, e) =
        append-head (drop x s) r cs cell (sym (drop-append_le x s r (omega (arith, less))) ∙ at)
          (length-append-drop x s less) in
      let whole : s ≡ take x s ++ cell ∷ post = sym (take-append-drop x s) ∙ ap (take x s ++◌) e in
      let wide : line_width rune_width s
          ≡ line_width rune_width (take x s)
            + (cell_width rune_width cell + line_width rune_width post) =
        ap (line_width rune_width) whole
        ∙ line_width-append rune_width (take x s) (cell ∷ post)
        ∙ ap (λ n. line_width rune_width (take x s) + n) (unfold line_width in refl) in
      (
        0,
        take x s,
        post,
        ap ok whole,
        ap (λ n. ok (line_width rune_width (take x s), n)) (omega arith),
        omega (arith, wide, w),
      )

  -- A cell behind the first piece, by where it is in the pieces of the rest.
  in_rest :
      (x row : ℕ) (s r cs : List Cell) (more : List Cell → Outcome (List (List Cell)))
      (o : Outcome (ℕ × ℕ))
      → length s ≤ x
      → drop (x - length s) r ≡ cell ∷ cs
      → ((ps : List (List Cell)) × (more r ≡ ok ps) × Located ps (row + 1) o)
      → (ps : List (List Cell)) × (join_piece rune_width max_x s r more ≡ ok ps)
        × ((length r == 0) ≡ false)
        × Located ps row o
  in_rest x row s [] cs more o beyond at found = absurd (some_left (x - length s) [] cs refl at)
  in_rest x row s (c ∷ r) cs more o beyond at (qs, run, (k, pre, post, idx, loc, bound)) = (
    s ∷ qs,
    rw run refl,
    not_zero (length r),
    (suc k, pre, post, idx, loc ∙ ap (λ n. ok (line_width rune_width pre, n)) (omega arith), bound),
  )

  pub locate-Located :
      (fuel x row : ℕ) (l cs : List Cell)
      → pos 0 ≤ℤ max_x
      → AllFit rune_width max_x l
      → length l < fuel
      → drop x l ≡ cell ∷ cs
      → (ps : List (List Cell)) × (wrap_line rune_width max_x fuel l ≡ ok ps)
        × Located ps row (locate rune_width max_x fuel x row l)
  unfolding wrap_line locate
  locate-Located zero x row l cs h f n at = absurd (omega arith)
  locate-Located (suc fuel) x row l cs h f n at =
      let s = (take_line rune_width max_x l).shown in
      let r = (take_line rune_width max_x l).rest in
      let cut : s ++ r ≡ l = unfold take_line in shown-append-rest rune_width max_x 0 l in
      let fit : AllFit rune_width max_x r =
        unfold take_line in AllFit-rest rune_width max_x 0 l f in
      let shorter = λ (ne : r ≢ []). take_line_shorter rune_width max_x l f ne in
      let more = wrap_line rune_width max_x fuel in
      elim (dec_lt x (length s)) [
        | yes less ↦
            let (qs, run) = join_piece-head s r more (λ ne.
              let (qs, e, _, _) =
                wrap_line-Wrapped rune_width max_x fuel r h fit (omega (arith, shorter ne, n)) in
              (qs, e)) in
            (
              s ∷ qs,
              run,
              rw (lt→ltb x (length s) less) (
                  in_piece x row s r cs qs less (ap (drop x) cut ∙ at)
                    (shown-Narrow rune_width max_x l h)),
            )
        | no beyond ↦
            let next : drop (x - length s) r ≡ cell ∷ cs =
              sym (drop-append_add x (x - length s) s r (omega arith)) ∙ ap (drop x) cut ∙ at in
            let ne : r ≢ [] = λ q. some_left (x - length s) r cs q next in
            let (ps, run, left, found) = in_rest x row s r cs more _ (omega arith) next (
              locate-Located fuel (x - length s) (row + 1) r cs h fit (omega (arith, shorter ne, n))
                next) in
            (ps, run, rw (le→ltb x (length s) (omega arith)) (rw left found))
      ]
