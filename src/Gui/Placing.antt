-- ===== src/Gui/Placing.antt =====
-- `SetView` and `View`: the view is found again, with the frame that was given.
use Prim.Native.String.{String}
use text.Mathlib.TextEquality.{eq_iff}
use gocui.Common.{
  ℕ, ◌+◌, ◌<◌, ◌≡◌, refl, sym, ap, ◌∙◌, ◌≢◌, inl, inr, arith, [], ◌∷◌, ◌++◌, false, Option, none,
  some, Bool-cases,
}
use gocui.Common.Int.{ℤ, leb_ℤ, ◌<ℤ◌}
use gocui.Tcell.{Tcell}
use gocui.View.{View, new_view}
use gocui.Gui.Stack.{find_view-append, find_view_self}
use gocui.Gui.{Gui, answer, store, same_name, find_view, view, place_view, fresh_view, set_view}
use gocui.Gui.Names.{IsStack, find_view-names, store_at, store_before, store-name}

-- A view with this frame.
abbrev pub HasFrame : View → (x0 y0 x1 y1 : ℤ) → Type 0
HasFrame v x0 y0 x1 y1 = (v.x0 ≡ x0) × (v.y0 ≡ y0) × (v.x1 ≡ x1) × (v.y1 ≡ y1)

frame_of : (v w : View) (x0 y0 x1 y1 : ℤ) → v ≡ w → HasFrame w x0 y0 x1 y1 → HasFrame v x0 y0 x1 y1
frame_of v w x0 y0 x1 y1 e h = rw e h

module _ (tc : Tcell) (name : String) (x0 y0 x1 y1 : ℤ) (overlaps : ℕ) (g : Gui)
    (s : IsStack g) where
  abbrev Found : Gui → Type 0
  Found r = (i : ℕ) × (view name r ≡ (some i, none)) × HasFrame (r.heap i) x0 y0 x1 y1

  resized-Found :
      (i : ℕ) (v : View)
      → v.name ≡ (g.heap i).name
      → HasFrame v x0 y0 x1 y1
      → find_view g.heap name g.views ≡ some i
      → Found (record g { heap = store g.heap i v })
  unfolding view
  resized-Found i v e f h = (
    i,
    ap answer (
        sym (
          find_view-names g.heap (store g.heap i v) g.next (λ j _. store-name g.heap i j v e) name
            g.views s.made)
        ∙ h),
    frame_of (store g.heap i v i) v x0 y0 x1 y1 (store_at g.heap i v) f,
  )

  added-Found :
      (v : View)
      → v.name ≡ name
      → HasFrame v x0 y0 x1 y1
      → find_view g.heap name g.views ≡ none
      → Found (record g {
        heap = store g.heap g.next v;
        next = g.next + 1;
        views = g.views ++ g.next ∷ [];
      })
  unfolding view
  added-Found v e f h =
      let heap = store g.heap g.next v in
      let same = λ (j : ℕ) (b : j < g.next).
        ap (λ (w : View). w.name) (sym (store_before g.heap g.next j v b)) in
      (
        g.next,
        ap answer (
            find_view-append heap name g.views (g.next ∷ [])
              (sym (find_view-names g.heap heap g.next same name g.views s.made) ∙ h)
            ∙ find_view_self heap name g.next
                (ap (λ (w : View). w.name) (store_at g.heap g.next v) ∙ e)),
        frame_of (heap g.next) v x0 y0 x1 y1 (store_at g.heap g.next v) f,
      )

  place_view-Found :
      (o : Option ℕ)
      → find_view g.heap name g.views ≡ o
      → Found (place_view tc name x0 y0 x1 y1 overlaps g o).0
  unfolding new_view
  place_view-Found (some i) h = resized-Found i _ refl (refl, refl, refl, refl) h
  place_view-Found none h =
      added-Found (fresh_view tc name x0 y0 x1 y1 overlaps g) refl (refl, refl, refl, refl) h

  -- On a stack of views that were made and whose names differ, with a left edge in front of the
  -- right one and a name that is not empty, SetView leaves a view of that name, which View then
  -- finds, with the frame that was given.
  pub view-set_view :
      x0 <ℤ x1
      → name ≢ ""
      → (i : ℕ) × (view name (set_view tc name x0 y0 x1 y1 overlaps g).0 ≡ (some i, none))
        × HasFrame ((set_view tc name x0 y0 x1 y1 overlaps g).0.heap i) x0 y0 x1 y1
  unfolding set_view
  view-set_view lt ne = elim (Bool-cases (same_name name "")) [
    | inl e ↦ absurd (ne ((eq_iff name "").0 e))
    | inr e ↦ rw (proper x0 x1 lt) (rw e (place_view-Found (find_view g.heap name g.views) refl))
  ]
    where
      proper : (a b : ℤ) → a <ℤ b → leb_ℤ b a ≡ false
      proper a b h = ground arith
