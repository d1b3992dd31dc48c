-- ===== src/Frame/Border.antt =====
-- The edges of a frame.
use mathlib.Core.Path.{subst}
use gocui.Common.{
  ℕ, zero, suc, ◌≡◌, refl, ap, ◌⊎◌, inl, inr, arith, List, [], ◌∷◌, ◌++◌, Bool, true, false, ◌&&◌,
  ◌||◌, if◌then◌else◌, Bool-cases,
}
use gocui.Common.Int.{
  ℤ, pos, negsuc, ◌+ℤ◌, ◌-ℤ◌, ◌<ℤ◌, ◌≤ℤ◌, ltb_ℤ, leb_ℤ, ltb_ℤ-cases, pos_part, neg_part, int_laws,
}
use gocui.View.{View}
use gocui.Draw.{ScreenCell}
use gocui.Frame.{
  Display, Paint, paint_both, count_from, range, paint_each, min_ℤ, edge_runes, gui_set_rune,
  in_row, in_column, edge_at, draw_frame_edges,
}

abbrev pub OnScreen : Display → ℤ → ℤ → Type 0
OnScreen d x y = (pos 0 ≤ℤ x) × (x <ℤ d.max_x) × (pos 0 ≤ℤ y) × (y <ℤ d.max_y)

-- On one of the four lines of the frame.
abbrev pub OnBorder : View → ℤ → ℤ → Type 0
OnBorder v x y = (x ≡ v.x0) ⊎ ((x ≡ v.x1) ⊎ ((y ≡ v.y0) ⊎ (y ≡ v.y1)))

abbrev pub AllFramed : Display → View → List ScreenCell → Type 0
AllFramed d v [] = Unit
AllFramed d v (c ∷ cs) = (OnScreen d c.x c.y × OnBorder v c.x c.y) × AllFramed d v cs

-- A run that did not fail and stayed on the border and on the screen.
abbrev pub IsFramed : Display → View → Paint → Type 0
IsFramed d v p = (p.failed ≡ false) × AllFramed d v p.cells

module _ (d : Display) (v : View) where
  AllFramed-append :
      (cs ds : List ScreenCell) → AllFramed d v cs → AllFramed d v ds → AllFramed d v (cs ++ ds)
  AllFramed-append [] ds h k = k
  AllFramed-append (c ∷ cs) ds h k = (h.0, AllFramed-append cs ds h.1 k)

  pub paint_both-IsFramed :
      (p q : Paint) → IsFramed d v p → IsFramed d v q → IsFramed d v (paint_both p q)
  paint_both-IsFramed p q f g = rw (f.0) (g.0, AllFramed-append p.cells q.cells f.1 g.1)

  pub gui_set_rune-IsFramed :
      (x y : ℤ) (ch fg bg : ℕ)
      → OnScreen d x y
      → OnBorder v x y
      → IsFramed d v (gui_set_rune d x y ch fg bg)
  unfolding gui_set_rune
  gui_set_rune-IsFramed x y ch fg bg s b = rw (valid x y d.max_x d.max_y s) (refl, ((s, b), tt))
    where
      valid :
          (x y m n : ℤ)
          → (pos 0 ≤ℤ x) × (x <ℤ m) × (pos 0 ≤ℤ y) × (y <ℤ n)
          → (ltb_ℤ x (pos 0) || ltb_ℤ y (pos 0) || leb_ℤ m x || leb_ℤ n y) ≡ false
      valid x y m n s = ground arith

  paint_each-IsFramed :
      (f : ℤ → Paint) (a : ℤ) (n : ℕ)
      → ((x : ℤ) → a ≤ℤ x → x <ℤ a +ℤ pos n → IsFramed d v (f x))
      → IsFramed d v (paint_each f (count_from a n))
  unfolding count_from
  paint_each-IsFramed f a zero h = (refl, tt)
  paint_each-IsFramed f a (suc n) h =
      paint_both-IsFramed (f a) _ (h a (omega int_laws) (omega int_laws))
        (paint_each-IsFramed f (a +ℤ pos 1) n (λ x lo hi. h x (omega int_laws) (omega int_laws)))

  below_end : (a b x z : ℤ) → z ≡ b -ℤ a → a ≤ℤ x → x <ℤ a +ℤ pos (pos_part z) → x <ℤ b
  below_end a b x (pos n) e lo hi = omega (int_laws, ap pos_part e, ap neg_part e)
  below_end a b x (negsuc n) e lo hi = omega (int_laws, ap pos_part e, ap neg_part e)

  range-IsFramed :
      (f : ℤ → Paint) (a b : ℤ)
      → ((x : ℤ) → a ≤ℤ x → x <ℤ b → IsFramed d v (f x))
      → IsFramed d v (paint_each f (range a b))
  range-IsFramed f a b h =
      paint_each-IsFramed f a (pos_part (b -ℤ a))
        (λ x lo hi. h x lo (below_end a b x (b -ℤ a) refl lo hi))

  in_row-IsFramed :
      (fg bg ch : ℕ) (x y : ℤ)
      → pos 0 ≤ℤ x
      → x <ℤ d.max_x
      → (y ≡ v.y0) ⊎ (y ≡ v.y1)
      → IsFramed d v (in_row d v fg bg y ch x)
  in_row-IsFramed fg bg ch x y lo hi at =
      elim (Bool-cases (ltb_ℤ (negsuc 0) y && ltb_ℤ y d.max_y)) [
        | inl e ↦ rw e (
            gui_set_rune-IsFramed x y ch fg bg (lo, hi, (seen y d.max_y e).0, (seen y d.max_y e).1)
              (inr (inr at)))
        | inr e ↦ rw e (refl, tt)
      ]
    where
      seen : (y m : ℤ) → (ltb_ℤ (negsuc 0) y && ltb_ℤ y m) ≡ true → (pos 0 ≤ℤ y) × (y <ℤ m)
      seen y m e = ground arith

  in_column-IsFramed :
      (fg bg ch : ℕ) (x y : ℤ)
      → pos 0 ≤ℤ y
      → y <ℤ d.max_y
      → (x ≡ v.x0) ⊎ (x ≡ v.x1)
      → IsFramed d v (in_column d v fg bg x ch y)
  in_column-IsFramed fg bg ch x y lo hi at =
      elim (Bool-cases (ltb_ℤ (negsuc 0) x && ltb_ℤ x d.max_x)) [
        | inl e ↦ rw e (
            gui_set_rune-IsFramed x y ch fg bg ((seen x d.max_x e).0, (seen x d.max_x e).1, lo, hi)
              (side at))
        | inr e ↦ rw e (refl, tt)
      ]
    where
      seen : (y m : ℤ) → (ltb_ℤ (negsuc 0) y && ltb_ℤ y m) ≡ true → (pos 0 ≤ℤ y) × (y <ℤ m)
      seen y m e = ground arith

      side : (x ≡ v.x0) ⊎ (x ≡ v.x1) → OnBorder v x y
      side (inl l) = inl l
      side (inr r) = inr (inl r)

  edge_at-IsFramed :
      (fg bg : ℕ) (f g : ℤ → Paint) (x : ℤ)
      → (pos 0 ≤ℤ x → IsFramed d v (f x))
      → (pos 0 ≤ℤ x → IsFramed d v (g x))
      → IsFramed d v (edge_at d v fg bg f g x)
  edge_at-IsFramed fg bg f g x h k = elim (ltb_ℤ-cases x (pos 0)) [
    | inl (e, _) ↦ rw e (refl, tt)
    | inr (e, lo) ↦ rw e (paint_both-IsFramed (f x) (g x) (h lo) (k lo))
  ]

  below_min : (a b x : ℤ) → x <ℤ min_ℤ a b → x <ℤ b
  below_min a b x h = elim (ltb_ℤ-cases a b) [
    | inl (e, l) ↦
        (let h' : x <ℤ a = subst (λ (c : Bool). x <ℤ (if c then a else b)) e h in omega int_laws)
    | inr (e, l) ↦ subst (λ (c : Bool). x <ℤ (if c then a else b)) e h
  ]

  -- The edges are set without an error, on the screen and on the lines of the frame.
  pub draw_frame_edges-IsFramed : (fg bg : ℕ) → IsFramed d v (draw_frame_edges d v fg bg)
  unfolding draw_frame_edges
  draw_frame_edges-IsFramed fg bg =
      let r = edge_runes d v in
      paint_both-IsFramed _ _
        (range-IsFramed _ (v.x0 +ℤ pos 1) (min_ℤ v.x1 d.max_x) (λ x lo hi.
          edge_at-IsFramed fg bg (in_row d v fg bg v.y0 r.0) (in_row d v fg bg v.y1 r.0) x
            (λ p. in_row-IsFramed fg bg r.0 x v.y0 p (below_min v.x1 d.max_x x hi) (inl refl))
            (λ p. in_row-IsFramed fg bg r.0 x v.y1 p (below_min v.x1 d.max_x x hi) (inr refl))))
        (range-IsFramed _ (v.y0 +ℤ pos 1) (min_ℤ v.y1 d.max_y) (λ y lo hi.
          edge_at-IsFramed fg bg (in_column d v fg bg v.x0 r.1) (in_column d v fg bg v.x1 r.1) y
            (λ p. in_column-IsFramed fg bg r.1 v.x0 y p (below_min v.y1 d.max_y y hi) (inl refl))
            (λ p. in_column-IsFramed fg bg r.1 v.x1 y p (below_min v.y1 d.max_y y hi) (inr refl))))
