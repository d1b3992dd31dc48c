-- ===== src/Gui/Calls.antt =====
-- Every call that changes the stack of views keeps it a stack of different names.
use Prim.Native.String.{String}
use gocui.Common.{
  ℕ, ◌+◌, ◌<◌, ◌≡◌, refl, sym, ap, ◌∙◌, inl, inr, arith, List, [], ◌∷◌, ◌++◌, Option, none, some,
  Bool-cases, Option-cases,
}
use gocui.Common.Int.{ℤ, leb_ℤ}
use gocui.Tcell.{Tcell}
use gocui.View.{View, new_view}
use gocui.Gui.Stack.{find_view-name, find_view-without, without-Distinct}
use gocui.Gui.{
  Gui, store, same_name, find_view, without, place_view, fresh_view, set_view, reorder, one,
  set_view_on_top, set_view_on_bottom, delete_view,
}
use gocui.Gui.Names.{
  Below, IsStack, find_view-names, Distinct-names, Below-append, Below-without, Distinct-append,
  store_at, store_before, store-name,
}

-- A call of a method that changes the views.
pub data Call : Type 0 where
  set : String → (x0 y0 x1 y1 : ℤ) → (overlaps : ℕ) → Call
  on_top on_bottom delete : String → Call

abbrev pub after : Tcell → Call → Gui → Gui
after tc (set name x0 y0 x1 y1 overlaps) g = (set_view tc name x0 y0 x1 y1 overlaps g).0
after tc (on_top name) g = (set_view_on_top name g).0
after tc (on_bottom name) g = (set_view_on_bottom name g).0
after tc (delete name) g = (delete_view name g).0

abbrev pub after_all : Tcell → List Call → Gui → Gui
after_all tc [] g = g
after_all tc (c ∷ cs) g = after_all tc cs (after tc c g)

find_view-Below :
    (heap : ℕ → View) (n : ℕ) (name : String) (is : List ℕ) (i : ℕ)
    → Below n is
    → find_view heap name is ≡ some i
    → i < n
unfolding find_view
find_view-Below heap n name [] i b h = cc
find_view-Below heap n name (j ∷ is) i b h = elim (Bool-cases (same_name (heap j).name name)) [
  | inl e ↦ let found : some j ≡ some i = rw e at h in let p : j ≡ i = cc in omega (arith, b.0)
  | inr e ↦ find_view-Below heap n name is i b.1 (rw e at h)
]

module _ (tc : Tcell) (name : String) (g : Gui) (s : IsStack g) where
  resized-IsStack :
      (i : ℕ) (v : View) → v.name ≡ (g.heap i).name → IsStack (record g { heap = store g.heap i v })
  resized-IsStack i v e = record {
    made = s.made;
    distinct =
        Distinct-names g.heap (store g.heap i v) g.next (λ j _. store-name g.heap i j v e) g.views
          s.made s.distinct;
  }

  added-IsStack :
      (v : View)
      → v.name ≡ name
      → find_view g.heap name g.views ≡ none
      → IsStack (record g {
        heap = store g.heap g.next v;
        next = g.next + 1;
        views = g.views ++ g.next ∷ [];
      })
  added-IsStack v e missing =
      let heap = store g.heap g.next v in
      let same = λ (j : ℕ) (b : j < g.next).
        ap (λ (w : View). w.name) (sym (store_before g.heap g.next j v b)) in
      let named : (heap g.next).name ≡ name =
        ap (λ (w : View). w.name) (store_at g.heap g.next v) ∙ e in
      record {
        made =
            Below-append g.next (g.next + 1) g.views (g.next ∷ []) (omega arith) s.made
              (omega arith, tt);
        distinct =
            Distinct-append heap g.views g.next
              (Distinct-names g.heap heap g.next same g.views s.made s.distinct)
              (ap (λ n. find_view heap n g.views) named
                ∙ sym (find_view-names g.heap heap g.next same name g.views s.made)
                ∙ missing);
      }

  place_view-IsStack :
      (x0 y0 x1 y1 : ℤ) (overlaps : ℕ) (o : Option ℕ)
      → find_view g.heap name g.views ≡ o
      → IsStack (place_view tc name x0 y0 x1 y1 overlaps g o).0
  place_view-IsStack x0 y0 x1 y1 overlaps (some i) h = resized-IsStack i _ refl
  place_view-IsStack x0 y0 x1 y1 overlaps none h =
      added-IsStack (fresh_view tc name x0 y0 x1 y1 overlaps g) (unfold new_view in refl) h

  set_view-IsStack :
      (x0 y0 x1 y1 : ℤ) (overlaps : ℕ) → IsStack (set_view tc name x0 y0 x1 y1 overlaps g).0
  unfolding set_view
  set_view-IsStack x0 y0 x1 y1 overlaps = elim (Bool-cases (leb_ℤ x1 x0)) [
    | inl e ↦ rw e s
    | inr e ↦ elim (Bool-cases (same_name name "")) [
      | inl f ↦ rw e (rw f s)
      | inr f ↦
          rw e (rw f (place_view-IsStack x0 y0 x1 y1 overlaps (find_view g.heap name g.views) refl))
    ]
  ]

  lifted-IsStack :
      (o : Option ℕ)
      → find_view g.heap name g.views ≡ o
      → IsStack (reorder (without g.heap name g.views ++ one o) g o).0
  lifted-IsStack none h = s
  lifted-IsStack (some i) h =
      let named = find_view-name g.heap name g.views i h in
      record {
        made =
            Below-append g.next g.next (without g.heap name g.views) (i ∷ []) (omega arith)
              (Below-without g.next g.heap name g.views s.made)
              (find_view-Below g.heap g.next name g.views i s.made h, tt);
        distinct =
            Distinct-append g.heap (without g.heap name g.views) i
              (without-Distinct g.heap name g.views s.distinct)
              (ap (λ n. find_view g.heap n (without g.heap name g.views)) named
                ∙ find_view-without g.heap name g.views s.distinct);
      }

  lowered-IsStack :
      (o : Option ℕ)
      → find_view g.heap name g.views ≡ o
      → IsStack (reorder (one o ++ without g.heap name g.views) g o).0
  lowered-IsStack none h = s
  lowered-IsStack (some i) h =
      let named = find_view-name g.heap name g.views i h in
      record {
        made = (
          find_view-Below g.heap g.next name g.views i s.made h,
          Below-without g.next g.heap name g.views s.made,
        );
        distinct = (
          ap (λ n. find_view g.heap n (without g.heap name g.views)) named
              ∙ find_view-without g.heap name g.views s.distinct,
          without-Distinct g.heap name g.views s.distinct,
        );
      }

  delete_view-IsStack : IsStack (delete_view name g).0
  unfolding delete_view
  delete_view-IsStack = elim (Option-cases (find_view g.heap name g.views)) [
    | inl e ↦ rw (delete_view, e) s
    | inr (i, e) ↦
        rw (delete_view, e)
          (record {
            made = Below-without g.next g.heap name g.views s.made;
            distinct = without-Distinct g.heap name g.views s.distinct;
          })
  ]

after-IsStack : (tc : Tcell) (c : Call) (g : Gui) → IsStack g → IsStack (after tc c g)
unfolding set_view_on_top set_view_on_bottom
after-IsStack tc (set name x0 y0 x1 y1 overlaps) g s =
    set_view-IsStack tc name g s x0 y0 x1 y1 overlaps
after-IsStack tc (on_top name) g s = lifted-IsStack tc name g s (find_view g.heap name g.views) refl
after-IsStack tc (on_bottom name) g s =
    lowered-IsStack tc name g s (find_view g.heap name g.views) refl
after-IsStack tc (delete name) g s = delete_view-IsStack tc name g s

-- Whatever calls of SetView, SetViewOnTop, SetViewOnBottom and DeleteView are made one after the
-- other, on a stack of views that were made and whose names differ, the result is such a stack.
pub after_all-IsStack :
    (tc : Tcell) (cs : List Call) (g : Gui) → IsStack g → IsStack (after_all tc cs g)
after_all-IsStack tc [] g s = s
after_all-IsStack tc (c ∷ cs) g s = after_all-IsStack tc cs (after tc c g) (after-IsStack tc c g s)
