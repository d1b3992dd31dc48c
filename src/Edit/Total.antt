-- ===== src/Edit/Total.antt =====
-- The editing methods return at every cursor in the text, and leave the cursor in the text.
use native.Mathlib.Decide.{dec_lt}
use gocui.Common.{
  ℕ, zero, suc, ◌+◌, ◌≤◌, ◌<◌, ◌≡◌, refl, sym, ap, ap₂, ◌∙◌, Bool, true, false, not, ◌&&◌, ◌||◌,
  List, [], arith, Outcome, ok, ◌==◌, if◌then◌else◌, le→leb, lt→leb, length, take, drop,
  length-append, length-take,
}
use mathlib.Core.Path.{subst}
use gocui.Common.Int.{
  ℤ, pos, negsuc, ◌+ℤ◌, ◌-ℤ◌, leb_ℤ, eqb_ℤ, step_on, step_out, pred_pos, stay_on,
}
use gocui.Slice.{len, index}
use gocui.Cell.{Cell, Line}
use gocui.Tcell.{Keys}
use gocui.Buffer.Spec.{text, remove}
use gocui.Buffer.Text.{
  index_lem, index-lt, write_rune-put, delete_rune-remove, merge_lines-join_line,
  break_line-split_line,
}
use gocui.Buffer.RoundTrip.{text-index, index-update_at}
use gocui.View.{View, Host}
use gocui.Cursor.{move_cursor, target}
use gocui.Cursor.Target.{target_above}
use gocui.Cursor.Moves.{Placed, move_cursor-Placed, move_cursor_to, at_place}
use gocui.Edit.{
  edit_write, delete_newline, delete_before, delete_after, edit_delete_in, edit_delete,
  edit_new_line, simple_editor,
}
use gocui.Edit.Points.{
  Works, stays, length-join, write_rune_at_lem, delete_rune_at_lem, break_line_at_lem,
  break_line_at_below, merge_lines_at_lem,
}

-- The cursor at the start of the next line.
abbrev pub next_line : View → View
next_line v = record v { ox = pos 0; cy = v.cy +ℤ pos 1; cx = pos 0 }

module _ (host : Host) where
  move-Works : (dx dy : ℤ) (v : View) → v.wrap ≡ false → Works (move_cursor host dx dy v)
  move-Works dx dy v n =
      let (w, moved, _, nw, _, p) = move_cursor-Placed host dx dy v n in (w, moved, nw, p)

  edit_write-Works : (ch : ℕ) (v : View) → v.wrap ≡ false → Placed v → Works (edit_write host ch v)
  unfolding edit_write
  edit_write-Works ch v n (x, y, ex, ey, h) =
      let c : Cell = record { chr = ch; bg_color = v.bg_color; fg_color = v.fg_color } in
      let (t, run, _) = write_rune-put host.runtime v.overwrite x y c v.lines in
      let (w, moved, _, nw, _, p) =
        move_cursor-Placed host (pos 1) (pos 0) (record v { tainted = true; lines = t }) n in
      (w, rw (write_rune_at_lem host v.cx v.cy v x y ex ey ch t run) moved, nw, p)

  edit_new_line-Works : (v : View) → v.wrap ≡ false → Placed v → Works (edit_new_line host v)
  unfolding edit_new_line
  edit_new_line-Works v n (x, y, ex, ey, h) = elim (dec_lt y (len v.lines)) [
    | yes inside ↦
        let (t, run, _) = break_line-split_line x y v.lines inside in
        (
          next_line (record v { tainted = true; lines = t }),
          rw (break_line_at_lem host v.cx v.cy v x y ex ey t inside run) refl,
          n,
          (0, suc y, refl, next, λ l at. omega arith),
        )
    | no below ↦ (
      next_line (record v { tainted = true }),
      rw (break_line_at_below host v.cx v.cy v x y ex ey (omega arith)) refl,
      n,
      (0, suc y, refl, next, λ l at. omega arith),
    )
  ]
    where
      next : v.cy +ℤ pos 1 ≡ pos (suc y)
      next = step_on v.cy y 1 ey ∙ ap pos (omega arith)

  delete_before-Works :
      (v : View) (x y : ℕ) (l : Line)
      → v.wrap ≡ false
      → v.cx ≡ pos (suc x)
      → v.cy ≡ pos y
      → index v.lines.items y ≡ ok l
      → x < len l
      → Works (delete_before host v)
  delete_before-Works v x y l n ex ey at h =
      let (t, run, _) = delete_rune-remove host.runtime x y v.lines l at h in
      let (w, moved, _, nw, _, p) =
        move_cursor-Placed host (negsuc 0) (pos 0) (record v { tainted = true; lines = t }) n in
      (
        w,
        rw (delete_rune_at_lem host (v.cx -ℤ pos 1) v.cy v x y (pred_pos v.cx x ex) ey l t at h run)
            moved,
        nw,
        p,
      )

  delete_newline-Works :
      (v : View) (y : ℕ)
      → v.wrap ≡ false
      → v.cx ≡ pos 0
      → v.cy ≡ pos (suc y)
      → suc y < len v.lines
      → Works (delete_newline host v)
  delete_newline-Works v y n ex ey h =
      let (l, at) = index_lem v.lines.items y (omega arith) in
      let goes : target v.lines (v.cx +ℤ negsuc 0) (v.cy +ℤ pos 0) (pos 0) ≡ ok (len l, y) =
        ap₂ (λ a b. target v.lines a b (pos 0)) (step_out v.cx ex) (stay_on v.cy ∙ ey)
        ∙ target_above v.lines y l at h in
      let w = at_place v (len l) y in
      let (t, run, shown) = merge_lines-join_line host.runtime y v.lines (omega arith) in
      let there = text-index v.lines.items y l at in
      (
        record w { tainted = true; lines = t },
        rw (move_cursor_to host (negsuc 0) (pos 0) v (len l) y n (omega arith) goes) (
            rw
              (merge_lines_at_lem host (v.cy -ℤ pos 1) w y t (pred_pos v.cy y ey) (omega arith) run)
              refl),
        n,
        stays w t (len l) y refl refl (λ c e.
            length-join (text v.lines) y (len l) l.items c there (omega arith)
              (ap (λ xs. index xs y) (sym shown) ∙ e)),
      )

  delete_after-Works :
      (v : View) (x y : ℕ) (l : Line)
      → v.wrap ≡ false
      → v.cx ≡ pos x
      → v.cy ≡ pos y
      → index v.lines.items y ≡ ok l
      → x ≤ len l
      → Works (delete_after host y v)
  delete_after-Works v x y l n ex ey at h = elim (dec_lt x (len l)) [
    | yes inside ↦
        let (t, run, shown) = delete_rune-remove host.runtime x y v.lines l at inside in
        (
          record v { tainted = true; lines = t },
          rw at (
              rw (elsewhere v.cx ex inside)
                (rw (delete_rune_at_lem host v.cx v.cy v x y ex ey l t at inside run) refl)),
          n,
          stays v t x y ex ey λ c e. still_there c (
              sym (index-update_at (remove x) [] (text v.lines) y l.items there)
              ∙ ap (λ xs. index xs y) (sym shown)
              ∙ e),
        )
    | no at_end ↦
        let (t, run, shown) = merge_lines-join_line host.runtime y v.lines inside_text in
        (
          record v { tainted = true; lines = t },
          rw at (
              rw (at_end_of v.cx ex (omega arith))
                (rw (merge_lines_at_lem host (pos y) v y t refl inside_text run) refl)),
          n,
          stays v t x y ex ey (λ c e.
              length-join (text v.lines) y x l.items c there h
                (ap (λ xs. index xs y) (sym shown) ∙ e)),
        )
  ]
    where
      inside_text : y < len v.lines
      inside_text = index-lt v.lines.items y at

      there : index (text v.lines) y ≡ ok l.items
      there = text-index v.lines.items y l at

      elsewhere : (a : ℤ) → a ≡ pos x → x < len l → eqb_ℤ a (pos (len l)) ≡ false
      elsewhere a e h = rw e (ground arith)

      at_end_of : (a : ℤ) → a ≡ pos x → x ≡ len l → eqb_ℤ a (pos (len l)) ≡ true
      at_end_of a e h = rw e (ground arith)

      still_there : (c : List Cell) → ok (remove x l.items) ≡ ok c → x ≤ length c
      still_there c e =
          let p : remove x l.items ≡ c = cc in
          rw (sym p) (
            omega
              (arith, length-append (take x l.items) (drop (x + 1) l.items), length-take x l.items))

  edit_delete_in-Works :
      (back : Bool) (v : View) (x y : ℕ) (l : Line)
      → v.wrap ≡ false
      → v.cx ≡ pos x
      → v.cy ≡ pos y
      → index v.lines.items y ≡ ok l
      → x ≤ len l
      → Works (edit_delete_in host back (pos y) v)
  edit_delete_in-Works false v x y l n ex ey at h =
      rw (lt→leb (len v.lines) y (index-lt v.lines.items y at))
        (delete_after-Works v x y l n ex ey at h)
  edit_delete_in-Works true v zero zero l n ex ey at h =
      rw (lt→leb (len v.lines) 0 (index-lt v.lines.items 0 at))
        (rw (at_start v.cx ex) (v, refl, n, (0, 0, ex, ey, λ m there. omega arith)))
    where
      at_start : (a : ℤ) → a ≡ pos 0 → leb_ℤ a (pos 0) ≡ true
      at_start a e = rw e refl
  edit_delete_in-Works true v zero (suc y) l n ex ey at h =
      rw (lt→leb (len v.lines) (suc y) (index-lt v.lines.items (suc y) at)) (
        rw (at_start v.cx ex)
          (rw (not_first y) (delete_newline-Works v y n ex ey (index-lt v.lines.items (suc y) at))))
    where
      at_start : (a : ℤ) → a ≡ pos 0 → leb_ℤ a (pos 0) ≡ true
      at_start a e = rw e refl

      not_first : (y : ℕ) → (suc y == 0) ≡ false
      not_first y = ground arith
  edit_delete_in-Works true v (suc x) y l n ex ey at h =
      rw (lt→leb (len v.lines) y (index-lt v.lines.items y at))
        (rw (behind_start v.cx ex) (delete_before-Works v x y l n ex ey at (omega arith)))
    where
      behind_start : (a : ℤ) → a ≡ pos (suc x) → leb_ℤ a (pos 0) ≡ false
      behind_start a e = rw e (ground arith)

  edit_delete-Works :
      (back : Bool) (v : View) → v.wrap ≡ false → Placed v → Works (edit_delete host back v)
  unfolding edit_delete
  edit_delete-Works back v n (x, y, ex, ey, h) =
      subst (λ a. Works (edit_delete_in host back a v)) (sym ey)
        (elim (dec_lt y (len v.lines)) [
          | yes inside ↦
              let (l, at) = index_lem v.lines.items y inside in
              edit_delete_in-Works back v x y l n ex ey at (h l at)
          | no below ↦ rw (le→leb (len v.lines) y (omega arith)) (move-Works (negsuc 0) (pos 0) v n)
        ])

  edit_toggle-Works :
      (v : View) → v.wrap ≡ false → Placed v → Works (ok (record v { overwrite = not v.overwrite }))
  edit_toggle-Works v n p = (record v { overwrite = not v.overwrite }, refl, n, p)

Works-if : (b : Bool) {m k : Outcome View} → Works m → Works k → Works (if b then m else k)
Works-if true h k = h
Works-if false h k = k

-- With the cursor in the text of a view that does not wrap, every key press of the default editor
-- returns, the view still does not wrap, and the cursor is at a position that is not negative and
-- not behind the end of its line.
pub simple_editor-Works :
    (host : Host) (keys : Keys) (key ch mod' : ℕ) (v : View)
    → v.wrap ≡ false
    → Placed v
    → Works (simple_editor host keys key ch mod' v)
unfolding simple_editor
simple_editor-Works host keys key ch mod' v n p =
    Works-if (not (ch == 0) && mod' == 0) (edit_write-Works host ch v n p) (
      Works-if (key == 32) (edit_write-Works host 32 v n p) (
        Works-if (key == keys.key_backspace || key == keys.key_backspace2)
          (edit_delete-Works host true v n p)
          (Works-if (key == keys.key_delete) (edit_delete-Works host false v n p) (
            Works-if (key == keys.key_insert) (edit_toggle-Works host v n p) (
              Works-if (key == keys.key_enter) (edit_new_line-Works host v n p) (
                Works-if (key == keys.key_down) (move-Works host (pos 0) (pos 1) v n) (
                  Works-if (key == keys.key_up) (move-Works host (pos 0) (negsuc 0) v n) (
                    Works-if (key == keys.key_left) (move-Works host (negsuc 0) (pos 0) v n) (
                      Works-if (key == keys.key_right) (move-Works host (pos 1) (pos 0) v n) (
                        Works-if (key == keys.key_tab) (edit_write-Works host 9 v n p) (
                          Works-if (key == keys.key_escape) (v, refl, n, p)
                            (edit_write-Works host ch v n p))))))))))))
