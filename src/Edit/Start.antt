-- ===== src/Edit/Start.antt =====
-- The two loops that run to the start of a line.
use gocui.Common.{
  ℕ, zero, suc, ◌+◌, ◌≤◌, ◌<◌, ◌≡◌, refl, sym, ap, ◌∙◌, true, false, List, [], ◌∷◌, ◌++◌, arith, ok,
  length, take, drop,
}
use gocui.Common.Int.{ℤ, pos, negsuc, pos_part, ltb_ℤ, eqb_ℤ, step_back, stay_on}
use gocui.Slice.{len, index}
use gocui.Cell.{Line}
use gocui.Buffer.Spec.{text, remove, update_at}
use gocui.Buffer.RoundTrip.{text-index}
use gocui.View.{View, Host}
use gocui.Cursor.Target.{InText}
use gocui.Cursor.Moves.{at_place}
use gocui.Edit.{
  goto_start, edit_goto_to_start_of_line, delete_to_start, edit_delete_to_start_of_line,
}
use gocui.Edit.Typing.{step_to, edit_delete-behind}

module _ {ℓ} {A : Type ℓ} where
  drop-remove :
      (x k : ℕ) (l : List A)
      → k ≡ suc x
      → x < length l
      → drop x (take x l ++ drop k l) ≡ drop (suc x) l
  drop-remove x k [] e h = absurd (omega arith)
  drop-remove zero k (a ∷ l) e h = ap (λ i. drop i (a ∷ l)) e
  drop-remove (suc x) zero (a ∷ l) e h = absurd (omega arith)
  drop-remove (suc x) (suc k) (a ∷ l) e h = drop-remove x k l (omega arith) (omega arith)

  update_at-again :
      (f g k : A → A) (d : A) (xs : List A) (y : ℕ) (a : A)
      → index xs y ≡ ok a
      → f (g a) ≡ k a
      → update_at f d y (update_at g d y xs) ≡ update_at k d y xs
  update_at-again f g k d [] y a h e = cc
  update_at-again f g k d (x ∷ xs) zero a h e = let p : x ≡ a = cc in ap (◌∷ xs) (rw p e)
  update_at-again f g k d (x ∷ xs) (suc y) a h e = ap (x ∷◌) (update_at-again f g k d xs y a h e)

  update_at_none :
      (f : A → A) (d : A) (xs : List A) (y : ℕ) (a : A)
      → index xs y ≡ ok a
      → f a ≡ a
      → update_at f d y xs ≡ xs
  update_at_none f d [] y a h e = cc
  update_at_none f d (x ∷ xs) zero a h e = let p : x ≡ a = cc in ap (◌∷ xs) (rw p e)
  update_at_none f d (x ∷ xs) (suc y) a h e = ap (x ∷◌) (update_at_none f d xs y a h e)

at_start : (a : ℤ) → a ≡ pos 0 → ltb_ℤ (pos 0) a ≡ false
at_start a e = rw e refl

behind_start : (a : ℤ) (x : ℕ) → a ≡ pos (suc x) → ltb_ℤ (pos 0) a ≡ true
behind_start a x e = rw e (ground arith)

not_at_start : (a : ℤ) (x : ℕ) → a ≡ pos (suc x) → eqb_ℤ a (pos 0) ≡ false
not_at_start a x e = rw e (ground arith)

module _ (host : Host) where
  goto_start_lem :
      (fuel : ℕ) (v : View) (x y : ℕ)
      → v.wrap ≡ false
      → v.cx ≡ pos x
      → v.cy ≡ pos y
      → InText v.lines x y
      → x ≤ fuel
      → (w : View) × (goto_start host fuel v ≡ ok w)
        × (w.lines ≡ v.lines)
        × (w.cx ≡ pos 0)
        × (w.cy ≡ pos y)
  unfolding goto_start
  goto_start_lem zero v zero y n ex ey p k = (v, rw (at_start v.cx ex), refl, ex, ey)
  goto_start_lem zero v (suc x) y n ex ey p k = absurd (omega arith)
  goto_start_lem (suc fuel) v zero y n ex ey p k = (v, rw (at_start v.cx ex), refl, ex, ey)
  goto_start_lem (suc fuel) v (suc x) y n ex ey (l, at, h) k =
      let there : InText v.lines x y = (l, at, omega arith) in
      let moved =
        step_to host (negsuc 0) (pos 0) v x y n (step_back v.cx x ex) (stay_on v.cy ∙ ey) there in
      let (w, run, same, wx, wy) =
        goto_start_lem fuel (at_place v x y) x y n refl refl there (omega arith) in
      (w, rw (behind_start v.cx x ex) (rw moved run), same, wx, wy)

  -- In a view that does not wrap, with the cursor in the text, EditGotoToStartOfLine ends with the
  -- cursor at the start of its line and the text unchanged.
  pub edit_goto_to_start_of_line_lem :
      (v : View) (x y : ℕ)
      → v.wrap ≡ false
      → v.cx ≡ pos x
      → v.cy ≡ pos y
      → InText v.lines x y
      → (w : View) × (edit_goto_to_start_of_line host v ≡ ok w)
        × (w.lines ≡ v.lines)
        × (w.cx ≡ pos 0)
        × (w.cy ≡ pos y)
  unfolding edit_goto_to_start_of_line
  edit_goto_to_start_of_line_lem v x y n ex ey p =
      goto_start_lem (pos_part v.cx) v x y n ex ey p (enough v.cx ex)
    where
      enough : (a : ℤ) → a ≡ pos x → x ≤ pos_part a
      enough a e = rw e (omega arith)

  delete_to_start_lem :
      (fuel : ℕ) (v : View) (x y : ℕ) (l : Line)
      → v.wrap ≡ false
      → v.cx ≡ pos x
      → v.cy ≡ pos y
      → index v.lines.items y ≡ ok l
      → x ≤ len l
      → x ≤ fuel
      → (w : View) × (delete_to_start host fuel v ≡ ok w)
        × (text w.lines ≡ update_at (drop x) [] y (text v.lines))
        × (w.cx ≡ pos 0)
        × (w.cy ≡ pos y)
  unfolding delete_to_start
  delete_to_start_lem zero v zero y l n ex ey at h k = (
    v,
    rw (at_start v.cx ex),
    sym (
        update_at_none (drop 0) [] (text v.lines) y l.items (text-index v.lines.items y l at) refl),
    ex,
    ey,
  )
  delete_to_start_lem zero v (suc x) y l n ex ey at h k = absurd (omega arith)
  delete_to_start_lem (suc fuel) v zero y l n ex ey at h k = (
    v,
    rw (at_start v.cx ex),
    sym (
        update_at_none (drop 0) [] (text v.lines) y l.items (text-index v.lines.items y l at) refl),
    ex,
    ey,
  )
  delete_to_start_lem (suc fuel) v (suc x) y l n ex ey at h k =
      let (t, _, deleted, shown, (m, there, inside)) =
        edit_delete-behind host v x y l n ex ey at (omega arith) in
      let v' = at_place (record v { tainted = true; lines = t }) x y in
      let (w, run, shown', wx, wy) =
        delete_to_start_lem fuel v' x y m n refl refl there inside (omega arith) in
      (
        w,
        rw (behind_start v.cx x ex) (rw deleted run),
        shown'
            ∙ ap (update_at (drop x) [] y) shown
            ∙ update_at-again (drop x) (remove x) (drop (suc x)) [] (text v.lines) y l.items
                (text-index v.lines.items y l at)
                (drop-remove x (x + 1) l.items (omega arith) (omega arith)),
        wx,
        wy,
      )

  -- In a view that does not wrap, with the cursor in the text behind the first column,
  -- EditDeleteToStartOfLine ends, the cells in front of the cursor are gone, and the cursor is at
  -- the start of the line.
  pub edit_delete_to_start_of_line_lem :
      (v : View) (x y : ℕ)
      → v.wrap ≡ false
      → v.cx ≡ pos (suc x)
      → v.cy ≡ pos y
      → InText v.lines (suc x) y
      → (w : View) × (edit_delete_to_start_of_line host v ≡ ok w)
        × (text w.lines ≡ update_at (drop (suc x)) [] y (text v.lines))
        × (w.cx ≡ pos 0)
        × (w.cy ≡ pos y)
  unfolding edit_delete_to_start_of_line
  edit_delete_to_start_of_line_lem v x y n ex ey (l, at, h) =
      rw (not_at_start v.cx x ex)
        (delete_to_start_lem (pos_part v.cx) v (suc x) y l n ex ey at h (enough v.cx ex))
    where
      enough : (a : ℤ) → a ≡ pos (suc x) → suc x ≤ pos_part a
      enough a e = rw e (omega arith)
