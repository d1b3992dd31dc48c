-- ===== src/Frame/Title.antt =====
-- The title and the subtitle of a view.
use gocui.Common.{
  ℕ, ◌+◌, ◌≡◌, refl, sym, ap, ◌∙◌, inl, inr, arith, List, [], ◌∷◌, true, false, ◌||◌, ◌⊎◌, if_elim,
  length,
}
use gocui.Common.Int.{
  ℤ, pos, ◌+ℤ◌, ◌-ℤ◌, ◌<ℤ◌, ◌≤ℤ◌, ltb_ℤ, leb_ℤ, pos_part, neg_part, stay_on, int_laws,
}
use gocui.View.{View}
use gocui.Read.{encode_rune}
use gocui.Frame.{
  Display, paint_both, gui_set_rune, row_hidden, title_from, draw_title, subtitle_from, byte_length,
  draw_subtitle,
}
use gocui.Frame.Border.{IsFramed, paint_both-IsFramed, gui_set_rune-IsFramed}

module _ (d : Display) (v : View) (fg bg : ℕ) where
  -- A row that is on the screen.
  shown_row : (y m : ℤ) → (ltb_ℤ y (pos 0) || leb_ℤ m y) ≡ false → (pos 0 ≤ℤ y) × (y <ℤ m)
  shown_row y m e = ground arith

  room : (x a m : ℤ) → (ltb_ℤ a x || leb_ℤ m x) ≡ false → x <ℤ m
  room x a m e = ground arith

  title_from-IsFramed :
      (i : ℕ) (cs : List ℕ)
      → pos 0 ≤ℤ v.y0
      → v.y0 <ℤ d.max_y
      → IsFramed d v (title_from d v fg bg i cs)
  unfolding title_from
  title_from-IsFramed i [] lo hi = (refl, tt)
  title_from-IsFramed i (ch ∷ cs) lo hi =
      let x = v.x0 +ℤ pos i +ℤ pos 2 in
      let rest = title_from-IsFramed (i + length (encode_rune ch)) cs lo hi in
      if_elim (IsFramed d v) (ltb_ℤ x (pos 0)) (λ _. rest)
        (λ near.
          if_elim (IsFramed d v) (ltb_ℤ (v.x1 -ℤ pos 2) x || leb_ℤ d.max_x x) (λ _. (refl, tt))
            (λ e.
              paint_both-IsFramed d v _ _
                (gui_set_rune-IsFramed d v x v.y0 ch fg bg
                  (right_of x near, room x (v.x1 -ℤ pos 2) d.max_x e, lo, hi)
                  (inr (inr (inl refl))))
                rest))
    where
      right_of : (x : ℤ) → ltb_ℤ x (pos 0) ≡ false → pos 0 ≤ℤ x
      right_of x e = ground arith

  pub draw_title-IsFramed : IsFramed d v (draw_title d v fg bg)
  unfolding draw_title
  draw_title-IsFramed =
      if_elim (IsFramed d v) (row_hidden d v fg bg v.y0) (λ _. (refl, tt))
        (λ e.
          title_from-IsFramed 0 v.title (shown_row v.y0 d.max_y e).0 (shown_row v.y0 d.max_y e).1)

  subtitle_from-IsFramed :
      (start : ℤ) (i : ℕ) (cs : List ℕ)
      → pos 0 ≤ℤ start
      → v.x1 ≤ℤ d.max_x
      → pos 0 ≤ℤ v.y0
      → v.y0 <ℤ d.max_y
      → IsFramed d v (subtitle_from d v fg bg start i cs)
  unfolding subtitle_from
  subtitle_from-IsFramed start i [] s w lo hi = (refl, tt)
  subtitle_from-IsFramed start i (ch ∷ cs) s w lo hi =
      let x = start +ℤ pos i in
      if_elim (IsFramed d v) (leb_ℤ v.x1 x) (λ _. (refl, tt))
        (λ e.
          paint_both-IsFramed d v _ _
            (gui_set_rune-IsFramed d v x v.y0 ch fg bg
              (omega int_laws, (let near = before x v.x1 e in omega int_laws), lo, hi)
              (inr (inr (inl refl))))
            (subtitle_from-IsFramed start (i + length (encode_rune ch)) cs s w lo hi))
    where
      before : (x m : ℤ) → leb_ℤ m x ≡ false → x <ℤ m
      before x m e = ground arith

  pub draw_subtitle-IsFramed :
      pos 0 ≤ℤ v.x0 → v.x1 ≤ℤ d.max_x → IsFramed d v (draw_subtitle d v fg bg)
  unfolding draw_subtitle
  draw_subtitle-IsFramed h w =
      let start = v.x1 -ℤ pos 5 -ℤ pos (byte_length d v fg bg v.subtitle) in
      if_elim (IsFramed d v) (row_hidden d v fg bg v.y0) (λ _. (refl, tt))
        (λ e.
          if_elim (IsFramed d v) (ltb_ℤ start v.x0) (λ _. (refl, tt))
            (λ near.
              let (lo, hi) = shown_row v.y0 d.max_y e in
              let from = not_left start v.x0 near in
              subtitle_from-IsFramed start 0 v.subtitle (omega int_laws) w lo hi))
    where
      not_left : (x m : ℤ) → ltb_ℤ x m ≡ false → m ≤ℤ x
      not_left x m e = ground arith

  gui_set_rune-fails :
      (x y : ℤ) (ch : ℕ)
      → (x <ℤ pos 0) ⊎ (d.max_x ≤ℤ x)
      → gui_set_rune d x y ch fg bg ≡ record { cells = []; failed = true }
  unfolding gui_set_rune
  gui_set_rune-fails x y ch out = rw (off x y d.max_x d.max_y out) refl
    where
      off :
          (x y m n : ℤ)
          → (x <ℤ pos 0) ⊎ (m ≤ℤ x)
          → (ltb_ℤ x (pos 0) || ltb_ℤ y (pos 0) || leb_ℤ m x || leb_ℤ n y) ≡ true
      off x y m n h = ground arith

  subtitle_from-fails :
      (start : ℤ) (ch : ℕ) (cs : List ℕ)
      → start <ℤ v.x1
      → (start <ℤ pos 0) ⊎ (d.max_x ≤ℤ start)
      → subtitle_from d v fg bg start 0 (ch ∷ cs) ≡ record { cells = []; failed = true }
  unfolding subtitle_from
  subtitle_from-fails start ch cs l out = rw (stay_on start) (
      rw (not_past start v.x1 l) (
        ap (λ p. paint_both p (subtitle_from d v fg bg start (0 + length (encode_rune ch)) cs))
          (gui_set_rune-fails start v.y0 ch out)))
    where
      not_past : (x m : ℤ) → x <ℤ m → leb_ℤ m x ≡ false
      not_past x m l = ground arith

  -- For a view whose upper edge is on the screen, with a subtitle that fits the view and starts
  -- left of the screen or behind its last column, drawSubtitle sets no cell and returns the error
  -- of SetRune.
  pub draw_subtitle-fails :
      (start : ℤ) (ch : ℕ) (cs : List ℕ)
      → v.subtitle ≡ ch ∷ cs
      → start ≡ v.x1 -ℤ pos 5 -ℤ pos (byte_length d v fg bg v.subtitle)
      → pos 0 ≤ℤ v.y0
      → v.y0 <ℤ d.max_y
      → v.x0 ≤ℤ start
      → (start <ℤ pos 0) ⊎ (d.max_x ≤ℤ start)
      → draw_subtitle d v fg bg ≡ record { cells = []; failed = true }
  unfolding draw_subtitle
  draw_subtitle-fails start ch cs text at lo hi fits out = rw (on_row v.y0 d.max_y lo hi) (
      rw (sym at) (
        rw (in_view start v.x0 fits) (
          ap (subtitle_from d v fg bg start 0) text
          ∙ subtitle_from-fails start ch cs (omega (int_laws, ap pos_part at, ap neg_part at))
              out)))
    where
      on_row : (y m : ℤ) → pos 0 ≤ℤ y → y <ℤ m → (ltb_ℤ y (pos 0) || leb_ℤ m y) ≡ false
      on_row y m lo hi = ground arith

      in_view : (x m : ℤ) → m ≤ℤ x → ltb_ℤ x m ≡ false
      in_view x m h = ground arith
