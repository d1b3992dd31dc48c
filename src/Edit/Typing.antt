-- ===== src/Edit/Typing.antt =====
-- What one key does, another takes back.
use gocui.Common.{
  ℕ, zero, suc, ◌+◌, ◌≤◌, ◌<◌, ◌≡◌, refl, sym, ap, ap₂, ◌∙◌, true, false, List, [], ◌∷◌, arith, ok,
  ◌==◌, lt→leb, length, take, drop, length-append, length-take,
}
use gocui.Common.Int.{
  ℤ, pos, negsuc, ◌+ℤ◌, ◌-ℤ◌, leb_ℤ, step_on, step_back, step_out, pred_pos, stay_on,
}
use gocui.Slice.{len, index}
use gocui.Cell.{Cell, Line, Lines}
use gocui.Buffer.Spec.{text, put, remove, update_at, split_line}
use gocui.Buffer.Text.{index-lt, write_rune-put, delete_rune-remove, break_line-split_line}
use gocui.Buffer.RoundTrip.{
  text-index, index-text, index-update_at, length-put, length-split, length-text,
  delete_rune-write_rune, merge_lines-break_line,
}
use gocui.Buffer.{write_rune, delete_rune}
use gocui.View.{View, Host}
use gocui.Cursor.{move_cursor, target}
use gocui.Cursor.Target.{InText, target_there, target_above}
use gocui.Cursor.Moves.{move_cursor_to, at_place}
use gocui.Edit.{edit_write, edit_delete_in, edit_delete, edit_new_line}
use gocui.Edit.Points.{write_rune_at_lem, delete_rune_at_lem, break_line_at_lem, merge_lines_at_lem}
use gocui.Edit.Total.{next_line}

index-split {ℓ} :
    {A : Type ℓ} (x y : ℕ) (xs : List (List A)) (a : List A)
    → index xs y ≡ ok a
    → index (split_line x y xs) y ≡ ok (take x a)
index-split x y [] a h = cc
index-split x zero (l ∷ ls) a h = let e : l ≡ a = cc in ap (λ b. ok (take x b)) e
index-split x (suc y) (l ∷ ls) a h = index-split x y ls a h

module _ (host : Host) where
  -- A step to a place in the text.
  pub step_to :
      (dx dy : ℤ) (v : View) (x y : ℕ)
      → v.wrap ≡ false
      → v.cx +ℤ dx ≡ pos x
      → v.cy +ℤ dy ≡ pos y
      → InText v.lines x y
      → move_cursor host dx dy v ≡ ok (at_place v x y)
  step_to dx dy v x y n ex ey (l, at, h) =
      move_cursor_to host dx dy v x y n (omega (arith, index-lt v.lines.items y at))
        (ap₂ (λ a b. target v.lines a b dy) ex ey ∙ target_there v.lines x y dy (l, at, h))

  -- Backspace behind a cell of a line.
  pub edit_delete-behind :
      (v : View) (x y : ℕ) (l : Line)
      → v.wrap ≡ false
      → v.cx ≡ pos (suc x)
      → v.cy ≡ pos y
      → index v.lines.items y ≡ ok l
      → x < len l
      → (t : Lines) × (delete_rune host.runtime x y v.lines ≡ ok t)
        × (edit_delete host true v ≡ ok (at_place (record v { tainted = true; lines = t }) x y))
        × (text t ≡ update_at (remove x) [] y (text v.lines))
        × InText t x y
  unfolding edit_delete
  edit_delete-behind v x y l n ex ey at h =
      let (t, run, shown) = delete_rune-remove host.runtime x y v.lines l at h in
      let (m, there, is) = index-text t.items y (remove x l.items) (
        ap (λ s. index s y) shown
        ∙ index-update_at (remove x) [] (text v.lines) y l.items
            (text-index v.lines.items y l at)) in
      let in_text : InText t x y = (
        m,
        there,
        rw is (
            omega (
              arith,
              length-append (take x l.items) (drop (x + 1) l.items),
              length-take x l.items,
            )),
      ) in
      let done =
        step_to (negsuc 0) (pos 0) (record v { tainted = true; lines = t }) x y n
          (step_back v.cx x ex) (stay_on v.cy ∙ ey) in_text in
      (
        t,
        run,
        ap (λ a. edit_delete_in host true a v) ey
            ∙ rw (lt→leb (len v.lines) y (index-lt v.lines.items y at)) (
                rw (behind_start v.cx ex) (
                  rw
                    (delete_rune_at_lem host (v.cx -ℤ pos 1) v.cy v x y (pred_pos v.cx x ex) ey l t
                      at h run)
                    done)),
        shown,
        in_text,
      )
    where
      behind_start : (a : ℤ) → a ≡ pos (suc x) → leb_ℤ a (pos 0) ≡ false
      behind_start a e = rw e (ground arith)

  -- In a view in insert mode that does not wrap, with the cursor in the text, typing a rune and
  -- pressing backspace both return and restore the text and the cursor.
  pub edit_delete-edit_write :
      (ch : ℕ) (v : View) (x y : ℕ)
      → v.wrap ≡ false
      → v.overwrite ≡ false
      → v.cx ≡ pos x
      → v.cy ≡ pos y
      → InText v.lines x y
      → (w u : View) × (edit_write host ch v ≡ ok w)
        × (edit_delete host true w ≡ ok u)
        × (text u.lines ≡ text v.lines)
        × (u.cx ≡ pos x)
        × (u.cy ≡ pos y)
  unfolding edit_write
  edit_delete-edit_write ch v x y n o ex ey (l, at, h) =
      let c : Cell = record { chr = ch; bg_color = v.bg_color; fg_color = v.fg_color } in
      let (t, u, run, run', same) = delete_rune-write_rune host.runtime x y c v.lines l at h in
      let (t', run_t, shown) = write_rune-put host.runtime false x y c v.lines in
      let same_t : t ≡ t' = let e : ok t ≡ ok t' = sym run ∙ run_t in cc in
      let (m, there, is) = index-text t.items y (put false x c l.items) (
        ap (λ s. index (text s) y) same_t
        ∙ ap (λ s. index s y) shown
        ∙ index-update_at (put false x c) [] (text v.lines) y l.items
            (text-index v.lines.items y l at)) in
      let wide : x < len m = rw is (length-put x c l.items h) in
      let v' : View = record v { tainted = true; lines = t } in
      let moved =
        step_to (pos 1) (pos 0) v' (suc x) y n (step_on v.cx x 1 ex ∙ ap pos (omega arith))
          (stay_on v.cy ∙ ey) (m, there, wide) in
      let w = at_place v' (suc x) y in
      let (s, run_s, back, _, _) = edit_delete-behind w x y m n refl refl there wide in
      let same_s : s ≡ u = let e : ok s ≡ ok u = sym run_s ∙ run' in cc in
      (
        w,
        _,
        rw
            (write_rune_at_lem host v.cx v.cy v x y ex ey ch t
              (ap (λ b. write_rune host.runtime b x y c v.lines) o ∙ run))
            moved,
        back,
        ap text same_s ∙ same,
        refl,
        refl,
      )

  -- In a view that does not wrap, with the cursor in the text, pressing enter and then backspace
  -- both return and restore the text and the cursor.
  pub edit_delete-edit_new_line :
      (v : View) (x y : ℕ)
      → v.wrap ≡ false
      → v.cx ≡ pos x
      → v.cy ≡ pos y
      → InText v.lines x y
      → (w u : View) × (edit_new_line host v ≡ ok w)
        × (edit_delete host true w ≡ ok u)
        × (text u.lines ≡ text v.lines)
        × (u.cx ≡ pos x)
        × (u.cy ≡ pos y)
  unfolding edit_new_line edit_delete
  edit_delete-edit_new_line v x y n ex ey (l, at, h) =
      let inside = index-lt v.lines.items y at in
      let (t, u, run, run', same) = merge_lines-break_line host.runtime x y v.lines inside in
      let (t', run_t, shown) = break_line-split_line x y v.lines inside in
      let same_t : t ≡ t' = let e : ok t ≡ ok t' = sym run ∙ run_t in cc in
      let shown' : text t ≡ split_line x y (text v.lines) = ap text same_t ∙ shown in
      let long : len t ≡ suc (len v.lines) =
        sym (length-text t.items)
        ∙ ap length shown'
        ∙ length-split x y (text v.lines) (omega (arith, length-text v.lines.items))
        ∙ ap suc (length-text v.lines.items) in
      let (m, there, is) = index-text t.items y (take x l.items) (
        ap (λ s. index s y) shown'
        ∙ index-split x y (text v.lines) l.items (text-index v.lines.items y l at)) in
      let w = next_line (record v { tainted = true; lines = t }) in
      let down = step_on v.cy y 1 ey ∙ ap pos {y = suc y} (omega arith) in
      let is_x : len m ≡ x = ap length is ∙ take_to x l.items h in
      let goes : target t (w.cx +ℤ negsuc 0) (w.cy +ℤ pos 0) (pos 0) ≡ ok (len m, y) =
        ap₂ (λ a b. target t a b (pos 0)) (step_out (pos 0) refl) (stay_on w.cy ∙ down)
        ∙ target_above t y m there (omega arith) in
      let w' = at_place w (len m) y in
      (
        w,
        record w' { tainted = true; lines = u },
        rw (break_line_at_lem host v.cx v.cy v x y ex ey t inside run),
        ap (λ a. edit_delete_in host true a w) down
            ∙ rw (lt→leb (len t) (suc y) (omega arith)) (
                rw (not_first y) (
                  rw (move_cursor_to host (negsuc 0) (pos 0) w (len m) y n (omega arith) goes) (
                    rw
                      (merge_lines_at_lem host (w.cy -ℤ pos 1) w' y u (pred_pos w.cy y down)
                        (omega arith) run')
                      refl))),
        same,
        ap pos is_x,
        refl,
      )
    where
      not_first : (y : ℕ) → (suc y == 0) ≡ false
      not_first y = ground arith

      take_to : (x : ℕ) (l : List Cell) → x ≤ length l → length (take x l) ≡ x
      take_to x l h = omega (arith, length-take x l)
