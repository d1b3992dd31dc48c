-- ===== src/Frame/Corners.antt =====
-- The corners of a frame.
use Prim.Native.Nat.{bit_or}
use gocui.Common.{
  ℕ, zero, suc, ◌≤◌, ◌<◌, ◌≡◌, refl, inl, inr, arith, Bool, true, false, not, ◌&&◌, Outcome, ok,
  Bool-cases, if_rule, ltb, leb, ltb→lt, leb→le, length,
}
use gocui.Common.Int.{ℤ, pos, ◌<ℤ◌, ◌≤ℤ◌, ltb_ℤ, leb_ℤ, eqb_ℤ}
use gocui.Buffer.Text.{index_lem}
use gocui.View.{View}
use gocui.Frame.{
  Display, Paint, CornerRunes, corner_runes, frame_rune_or, corner_custom_rune, corner,
  overlap_corners, corners_of, ascii_corners, plain_corners, bottom, top, left, right, on_screen,
  corner_at, four_corners, flat_ends, draw_frame_corners,
}
use gocui.Frame.Border.{OnBorder, IsFramed, paint_both-IsFramed, gui_set_rune-IsFramed}

abbrev Returns {ℓ} : {A : Type ℓ} → Outcome A → Type ℓ
Returns o = (a : _) × (o ≡ ok a)

-- A test that holds for all numbers below n, by trying them.
abbrev all_below : (ℕ → Bool) → ℕ → Bool
all_below f zero = true
all_below f (suc n) = f n && all_below f n

all_below_lem : (f : ℕ → Bool) (n k : ℕ) → all_below f n ≡ true → k < n → f k ≡ true
all_below_lem f zero k h l = absurd (omega arith)
all_below_lem f (suc n) k h l = elim (Bool-cases (leb n k)) [
  | inl e ↦ (let same : k ≡ n = (let g = leb→le n k e in omega arith) in rw same (both (f n) _ h).0)
  | inr e ↦ all_below_lem f n k (both (f n) _ h).1 (not_le n k e)
]
  where
    both : (a b : Bool) → a && b ≡ true → (a ≡ true) × (b ≡ true)
    both a b h = ground arith

    not_le : (n k : ℕ) → leb n k ≡ false → k < n
    not_le n k h = ground arith

-- The directions of a corner leave the index in the table.
abbrev IsDirection : ℕ → Type 0
IsDirection dir = all_below (λ n. ltb (bit_or n dir) 16) 16 ≡ true

frame_rune_or-Returns : (v : View) (j i : ℕ) → i < 16 → Returns (frame_rune_or v j i)
frame_rune_or-Returns v j i h = elim (Bool-cases (leb (length v.frame_runes) j)) [
  | inl e ↦ rw e (index_lem corner_runes i h)
  | inr e ↦ rw e (index_lem v.frame_runes j (ltb→lt _ _ (lt_of (length v.frame_runes) j e)))
]
  where
    lt_of : (n k : ℕ) → leb n k ≡ false → ltb k n ≡ true
    lt_of n k h = ground arith

corner_custom_rune-Returns :
    (v : View) (i : ℕ) → 6 ≤ length v.frame_runes → i < 16 → Returns (corner_custom_rune v i)
corner_custom_rune-Returns v i h k =
    let rune = index_lem v.frame_runes in
    if_rule Returns _ (rune 1 (omega arith)) (
      if_rule Returns _ (rune 0 (omega arith)) (
        if_rule Returns _ (rune 5 (omega arith)) (
          if_rule Returns _ (rune 3 (omega arith)) (
            if_rule Returns _ (frame_rune_or-Returns v 7 i k) (
              if_rule Returns _ (rune 4 (omega arith)) (
                if_rule Returns _ (rune 2 (omega arith)) (
                  if_rule Returns _ (frame_rune_or-Returns v 6 i k) (
                    if_rule Returns _ (frame_rune_or-Returns v 9 i k) (
                      if_rule Returns _ (frame_rune_or-Returns v 8 i k)
                        (if_rule Returns _ (frame_rune_or-Returns v 10 i k) (32, refl)))))))))))

corner-Returns : (v : View) (dir : ℕ) → IsDirection dir → v.overlaps < 16 → Returns (corner v dir)
corner-Returns v dir ok_dir h =
    let i = bit_or v.overlaps dir in
    let small : i < 16 =
      ltb→lt i 16 (all_below_lem (λ n. ltb (bit_or n dir) 16) 16 v.overlaps ok_dir h) in
    elim (Bool-cases (leb 6 (length v.frame_runes))) [
      | inl e ↦ rw e (corner_custom_rune-Returns v i (leb→le 6 _ e) small)
      | inr e ↦ rw e (index_lem corner_runes i small)
    ]

overlap_corners-Returns : (v : View) → v.overlaps < 16 → Returns (overlap_corners v)
unfolding overlap_corners
overlap_corners-Returns v h =
    let (a, tl) = corner-Returns v (bit_or bottom right) refl h in
    let (b, tr) = corner-Returns v (bit_or bottom left) refl h in
    let (c, bl) = corner-Returns v (bit_or top right) refl h in
    let (e, br) = corner-Returns v (bit_or top left) refl h in
    (record { tl = a; tr = b; bl = c; br = e }, rw (tl, tr, bl, br) refl)

corners_of-Returns : (d : Display) (v : View) → v.overlaps < 16 → Returns (corners_of d v)
unfolding corners_of
corners_of-Returns d v h = elim (Bool-cases d.support_overlaps) [
  | inl e ↦ (let (r, got) = overlap_corners-Returns v h in (ascii_corners d r, rw (e, got) refl))
  | inr e ↦ (ascii_corners d (plain_corners v.frame_runes), rw e refl)
]

module _ (d : Display) (v : View) (fg bg : ℕ) where
  seen :
      (x y m n : ℤ)
      → (leb_ℤ (pos 0) x && leb_ℤ (pos 0) y && ltb_ℤ x m && ltb_ℤ y n) ≡ true
      → (pos 0 ≤ℤ x) × (x <ℤ m) × (pos 0 ≤ℤ y) × (y <ℤ n)
  seen x y m n e = ground arith

  corner_at-IsFramed :
      (x y : ℤ) (ch : ℕ) → OnBorder v x y → IsFramed d v (corner_at d v fg bg x y ch)
  corner_at-IsFramed x y ch b = elim (Bool-cases (on_screen d x y)) [
    | inl e ↦ rw e (gui_set_rune-IsFramed d v x y ch fg bg (seen x y d.max_x d.max_y e) b)
    | inr e ↦ rw e (refl, tt)
  ]

  four_corners-IsFramed : (r : CornerRunes) → IsFramed d v (four_corners d v fg bg r)
  four_corners-IsFramed r =
      paint_both-IsFramed d v _ _ (corner_at-IsFramed v.x0 v.y0 r.tl (inl refl)) (
        paint_both-IsFramed d v _ _ (corner_at-IsFramed v.x1 v.y0 r.tr (inr (inl refl))) (
          paint_both-IsFramed d v _ _ (corner_at-IsFramed v.x0 v.y1 r.bl (inl refl))
            (corner_at-IsFramed v.x1 v.y1 r.br (inr (inl refl)))))

  flat_ends-IsFramed : IsFramed d v (flat_ends d v fg bg)
  flat_ends-IsFramed =
      elim (Bool-cases (
        not d.support_overlaps
        && leb_ℤ (pos 0) v.x0
        && leb_ℤ (pos 0) v.x1
        && leb_ℤ (pos 0) v.y0
        && ltb_ℤ v.x0 d.max_x
        && ltb_ℤ v.x1 d.max_x
        && ltb_ℤ v.y0 d.max_y)) [
          | inl e ↦
              let (a, b, c, i, j, k) =
                sides (not d.support_overlaps) v.x0 v.x1 v.y0 d.max_x d.max_y e in
              rw e (
                paint_both-IsFramed d v _ _
                  (gui_set_rune-IsFramed d v v.x0 v.y0 0x2576 fg bg (a, i, c, k) (inl refl))
                  (gui_set_rune-IsFramed d v v.x1 v.y0 0x2574 fg bg (b, j, c, k) (inr (inl refl))))
          | inr e ↦ rw e (refl, tt)
        ]
    where
      sides :
          (o : Bool) (x y z m n : ℤ)
          → (o
              && leb_ℤ (pos 0) x
              && leb_ℤ (pos 0) y
              && leb_ℤ (pos 0) z
              && ltb_ℤ x m
              && ltb_ℤ y m
              && ltb_ℤ z n)
            ≡ true
          → (pos 0 ≤ℤ x) × (pos 0 ≤ℤ y) × (pos 0 ≤ℤ z) × (x <ℤ m) × (y <ℤ m) × (z <ℤ n)
      sides o x y z m n e = ground arith

  -- So are the corners, and their runes are found, when the overlaps are below 16.
  pub draw_frame_corners-IsFramed :
      v.overlaps < 16 → (p : Paint) × (draw_frame_corners d v fg bg ≡ ok p) × IsFramed d v p
  unfolding draw_frame_corners
  draw_frame_corners-IsFramed h = elim (Bool-cases (eqb_ℤ v.y0 v.y1)) [
    | inl e ↦ rw e (flat_ends d v fg bg, refl, flat_ends-IsFramed)
    | inr e ↦
        (let (r, got) = corners_of-Returns d v h in
          rw (e, got) (four_corners d v fg bg r, refl, four_corners-IsFramed r))
  ]
