-- ===== src/Frame.antt =====
-- gui.go: the frame of a view with its title, as the cells that are set on the screen.
pub mod Border
pub mod Corners
pub mod Title
use Prim.Native.Nat.{bit_or}
use gocui.Common.{
  ℕ, zero, suc, ◌+◌, List, [], ◌∷◌, ◌++◌, Bool, true, false, not, ◌&&◌, ◌||◌, Option, none, some,
  Outcome, ok, panic, ◌>>=◌, ltb, leb, ◌==◌, if◌then◌else◌, length,
}
use gocui.Common.Int.{ℤ, pos, negsuc, ◌+ℤ◌, ◌-ℤ◌, ltb_ℤ, leb_ℤ, eqb_ℤ, pos_part}
use gocui.Slice.{index}
use gocui.Attribute.{OutputMode}
use gocui.View.{View}
use gocui.Draw.{ScreenCell}
use gocui.Read.{encode_rune}

-- What the drawing reads of a Gui besides its views.
pub record Display : Type 0 where
  pub max_x : ℤ
  pub max_y : ℤ
  pub output_mode : OutputMode
  pub ascii : Bool
  pub support_overlaps : Bool
  pub highlight : Bool
  pub cursor : Bool
  pub bg_color : ℕ
  pub fg_color : ℕ
  pub frame_color : ℕ
  pub sel_bg_color : ℕ
  pub sel_fg_color : ℕ
  pub sel_frame_color : ℕ

-- The cells that a run of `SetRune` calls sets, and whether a call failed, which ends the run.
pub record Paint : Type 0 where
  pub cells : List ScreenCell
  pub failed : Bool

abbrev pub no_paint : Paint
no_paint = record { cells = []; failed = false }

abbrev pub paint_both : Paint → Paint → Paint
paint_both p q = if p.failed then p else record { cells = p.cells ++ q.cells; failed = q.failed }

-- The numbers from a on, below b.
unfoldable pub count_from : ℤ → ℕ → List ℤ
count_from a zero = []
count_from a (suc n) = a ∷ count_from (a +ℤ pos 1) n

abbrev pub range : ℤ → ℤ → List ℤ
range a b = count_from a (pos_part (b -ℤ a))

abbrev pub paint_each : (ℤ → Paint) → List ℤ → Paint
paint_each f [] = no_paint
paint_each f (x ∷ xs) = paint_both (f x) (paint_each f xs)

abbrev pub min_ℤ : ℤ → ℤ → ℤ
min_ℤ a b = if ltb_ℤ a b then a else b

-- The runes of the edges.
abbrev pub custom_edges : List ℕ → ℕ × ℕ
custom_edges (a ∷ b ∷ rs) = (a, b)
custom_edges _ = (0x2500, 0x2502)

abbrev pub edge_runes : Display → View → ℕ × ℕ
edge_runes d v = if d.ascii then (45, 124) else custom_edges v.frame_runes

-- The table of `cornerRune`.
abbrev pub corner_runes : List ℕ
corner_runes =
    0x20 ∷ 0x2502 ∷ 0x2502 ∷ 0x2502 ∷ 0x2500 ∷ 0x2518 ∷ 0x2510 ∷ 0x2524 ∷ 0x2500 ∷ 0x2514 ∷ 0x250c
    ∷ 0x251c ∷ 0x251c ∷ 0x2534 ∷ 0x252c ∷ 0x253c ∷ []

-- `cornerRune`
abbrev pub corner_rune : ℕ → Outcome ℕ
corner_rune i = index corner_runes i

-- A rune of the slice, or the default when the slice ends before it.
abbrev pub frame_rune_or : View → ℕ → ℕ → Outcome ℕ
frame_rune_or v j i = if leb (length v.frame_runes) j then corner_rune i else index v.frame_runes j

-- `cornerCustomRune`
abbrev pub corner_custom_rune : View → ℕ → Outcome ℕ
corner_custom_rune v i =
    if i == 1 || i == 2 || i == 3
    then index v.frame_runes 1
    else if i == 4 || i == 8
    then index v.frame_runes 0
    else if i == 5
    then index v.frame_runes 5
    else if i == 6
    then index v.frame_runes 3
    else if i == 7
    then frame_rune_or v 7 i
    else if i == 9
    then index v.frame_runes 4
    else if i == 10
    then index v.frame_runes 2
    else if i == 11 || i == 12
    then frame_rune_or v 6 i
    else if i == 13
    then frame_rune_or v 9 i
    else if i == 14
    then frame_rune_or v 8 i
    else if i == 15
    then frame_rune_or v 10 i
    else ok 32

-- `corner`
abbrev pub corner : View → ℕ → Outcome ℕ
corner v directions =
    let i = bit_or v.overlaps directions in
    if leb 6 (length v.frame_runes) then corner_custom_rune v i else corner_rune i

abbrev pub top : ℕ
top = 1

abbrev pub bottom : ℕ
bottom = 2

abbrev pub left : ℕ
left = 4

abbrev pub right : ℕ
right = 8

-- The runes of the four corners, top left, top right, bottom left, bottom right.
pub record CornerRunes : Type 0 where
  pub tl : ℕ
  pub tr : ℕ
  pub bl : ℕ
  pub br : ℕ

abbrev pub plain_corners : List ℕ → CornerRunes
plain_corners (a ∷ b ∷ c ∷ d ∷ e ∷ f ∷ rs) = record { tl = c; tr = d; bl = e; br = f }
plain_corners _ = record { tl = 0x250c; tr = 0x2510; bl = 0x2514; br = 0x2518 }

unfoldable pub overlap_corners : View → Outcome CornerRunes
overlap_corners v = do
  tl ← corner v (bit_or bottom right)
  tr ← corner v (bit_or bottom left)
  bl ← corner v (bit_or top right)
  br ← corner v (bit_or top left)
  ok (record { tl = tl; tr = tr; bl = bl; br = br })

abbrev pub ascii_corners : Display → CornerRunes → CornerRunes
ascii_corners d r = if d.ascii then record { tl = 43; tr = 43; bl = 43; br = 43 } else r

unfoldable pub corners_of : Display → View → Outcome CornerRunes
unfolding overlap_corners
corners_of d v =
    (if d.support_overlaps then overlap_corners v else ok (plain_corners v.frame_runes)) >>= λ r.
    ok (ascii_corners d r)

module _ (d : Display) where
  abbrev pub on_screen : ℤ → ℤ → Bool
  on_screen x y = leb_ℤ (pos 0) x && leb_ℤ (pos 0) y && ltb_ℤ x d.max_x && ltb_ℤ y d.max_y

  -- `SetRune`
  unfoldable pub gui_set_rune : ℤ → ℤ → ℕ → ℕ → ℕ → Paint
  gui_set_rune x y ch fg bg =
      if ltb_ℤ x (pos 0) || ltb_ℤ y (pos 0) || leb_ℤ d.max_x x || leb_ℤ d.max_y y
      then record { cells = []; failed = true }
      else record {
        cells =
            record { x = x; y = y; chr = ch; fg_color = fg; bg_color = bg; mode = d.output_mode }
            ∷ [];
        failed = false;
      }

  -- `Rune`: the answer of the screen, or none for the error.
  unfoldable pub gui_rune : (ℤ → ℤ → ℕ) → ℤ → ℤ → Option ℕ
  gui_rune get_content x y =
      if ltb_ℤ x (pos 0) || ltb_ℤ y (pos 0) || leb_ℤ d.max_x x || leb_ℤ d.max_y y
      then none
      else some (get_content x y)

  module _ (v : View) (fg bg : ℕ) where
    -- A rune at x in row y, if the row is on the screen.
    abbrev pub in_row : ℤ → ℕ → ℤ → Paint
    in_row y ch x =
        if ltb_ℤ (negsuc 0) y && ltb_ℤ y d.max_y then gui_set_rune x y ch fg bg else no_paint

    abbrev pub in_column : ℤ → ℕ → ℤ → Paint
    in_column x ch y =
        if ltb_ℤ (negsuc 0) x && ltb_ℤ x d.max_x then gui_set_rune x y ch fg bg else no_paint

    abbrev pub edge_at : (ℤ → Paint) → (ℤ → Paint) → ℤ → Paint
    edge_at one two x = if ltb_ℤ x (pos 0) then no_paint else paint_both (one x) (two x)

    -- `drawFrameEdges`
    unfoldable pub draw_frame_edges : Paint
    unfolding gui_set_rune count_from
    draw_frame_edges =
        let r = edge_runes d v in
        paint_both
          (paint_each (edge_at (in_row v.y0 r.0) (in_row v.y1 r.0))
            (range (v.x0 +ℤ pos 1) (min_ℤ v.x1 d.max_x)))
          (paint_each (edge_at (in_column v.x0 r.1) (in_column v.x1 r.1))
            (range (v.y0 +ℤ pos 1) (min_ℤ v.y1 d.max_y)))

    -- One round of the loop over the corners.
    abbrev pub corner_at : ℤ → ℤ → ℕ → Paint
    corner_at x y ch = if on_screen x y then gui_set_rune x y ch fg bg else no_paint

    abbrev pub four_corners : CornerRunes → Paint
    four_corners r = paint_both (corner_at v.x0 v.y0 r.tl) (
        paint_both (corner_at v.x1 v.y0 r.tr)
          (paint_both (corner_at v.x0 v.y1 r.bl) (corner_at v.x1 v.y1 r.br)))

    -- The ends of a view of one row.
    abbrev pub flat_ends : Paint
    flat_ends =
        if not d.support_overlaps
          && leb_ℤ (pos 0) v.x0
          && leb_ℤ (pos 0) v.x1
          && leb_ℤ (pos 0) v.y0
          && ltb_ℤ v.x0 d.max_x
          && ltb_ℤ v.x1 d.max_x
          && ltb_ℤ v.y0 d.max_y
        then paint_both (gui_set_rune v.x0 v.y0 0x2576 fg bg) (gui_set_rune v.x1 v.y0 0x2574 fg bg)
        else no_paint

    -- `drawFrameCorners`
    unfoldable pub draw_frame_corners : Outcome Paint
    unfolding gui_set_rune corners_of
    draw_frame_corners =
        if eqb_ℤ v.y0 v.y1 then ok flat_ends else (corners_of d v >>= λ r. ok (four_corners r))

    abbrev pub row_hidden : ℤ → Bool
    row_hidden y = ltb_ℤ y (pos 0) || leb_ℤ d.max_y y

    -- The loop of `drawTitle`, from the byte i of the title on.
    unfoldable pub title_from : ℕ → List ℕ → Paint
    unfolding gui_set_rune
    title_from i [] = no_paint
    title_from i (ch ∷ cs) =
        let x = v.x0 +ℤ pos i +ℤ pos 2 in
        let rest = title_from (i + length (encode_rune ch)) cs in
        if ltb_ℤ x (pos 0)
        then rest
        else if ltb_ℤ (v.x1 -ℤ pos 2) x || leb_ℤ d.max_x x
        then no_paint
        else paint_both (gui_set_rune x v.y0 ch fg bg) rest

    -- `drawTitle`
    unfoldable pub draw_title : Paint
    unfolding title_from
    draw_title = if row_hidden v.y0 then no_paint else title_from 0 v.title

    -- The loop of `drawSubtitle`.
    unfoldable pub subtitle_from : ℤ → ℕ → List ℕ → Paint
    unfolding gui_set_rune
    subtitle_from start i [] = no_paint
    subtitle_from start i (ch ∷ cs) =
        let x = start +ℤ pos i in
        let rest = subtitle_from start (i + length (encode_rune ch)) cs in
        if leb_ℤ v.x1 x then no_paint else paint_both (gui_set_rune x v.y0 ch fg bg) rest

    -- `len(v.Subtitle)`, in bytes.
    abbrev pub byte_length : List ℕ → ℕ
    byte_length [] = 0
    byte_length (c ∷ cs) = length (encode_rune c) + byte_length cs

    -- `drawSubtitle`
    unfoldable pub draw_subtitle : Paint
    unfolding subtitle_from
    draw_subtitle =
        let start = v.x1 -ℤ pos 5 -ℤ pos (byte_length v.subtitle) in
        if row_hidden v.y0
        then no_paint
        else if ltb_ℤ start v.x0
        then no_paint
        else subtitle_from start 0 v.subtitle
