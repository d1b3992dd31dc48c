-- ===== src/Gui/Stack.antt =====
-- The stack of views, as its operations change it.
use Prim.Native.String.{String}
use text.Mathlib.TextEquality.{eq_iff}
use gocui.Common.{
  ℕ, ◌≡◌, refl, sym, ap, ◌∙◌, inl, inr, List, [], ◌∷◌, ◌++◌, true, none, some, Bool-cases,
}
use gocui.Common.Int.{ℤ}
use gocui.View.{View}
use gocui.Gui.{
  Gui, unknown_view, answer, same_name, find_view, view, without, set_view_on_top, contains,
  topmost, view_by_position, delete_view,
}

-- No two views of the stack have one name.
abbrev pub Distinct : (ℕ → View) → List ℕ → Type 0
Distinct heap [] = Unit
Distinct heap (i ∷ is) = (find_view heap (heap i).name is ≡ none) × Distinct heap is

module _ (heap : ℕ → View) where
  topmost-append :
      (x y : ℤ) (is : List ℕ) (j : ℕ)
      → contains (heap j) x y ≡ true
      → topmost heap x y (is ++ j ∷ []) ≡ some j
  unfolding topmost
  topmost-append x y [] j h = rw h refl
  topmost-append x y (i ∷ is) j h = rw (topmost-append x y is j h) refl

  pub find_view-without :
      (name : String) (is : List ℕ)
      → Distinct heap is
      → find_view heap name (without heap name is) ≡ none
  unfolding find_view without
  find_view-without name [] d = refl
  find_view-without name (i ∷ is) d = elim (Bool-cases (same_name (heap i).name name)) [
    | inl e ↦
        let same : (heap i).name ≡ name = (eq_iff (heap i).name name).0 e in
        rw e (ap (λ s. find_view heap s is) (sym same) ∙ d.0)
    | inr e ↦ rw e (rw e (find_view-without name is d.1))
  ]

  pub find_view-append :
      (name : String) (is js : List ℕ)
      → find_view heap name is ≡ none
      → find_view heap name (is ++ js) ≡ find_view heap name js
  unfolding find_view
  find_view-append name [] js h = refl
  find_view-append name (i ∷ is) js h = elim (Bool-cases (same_name (heap i).name name)) [
    | inl e ↦ let wrong : some i ≡ none = rw e at h in cc
    | inr e ↦ rw e (find_view-append name is js (rw e at h))
  ]

  pub find_view-name :
      (name : String) (is : List ℕ) (j : ℕ) → find_view heap name is ≡ some j → (heap j).name ≡ name
  unfolding find_view
  find_view-name name [] j h = cc
  find_view-name name (i ∷ is) j h = elim (Bool-cases (same_name (heap i).name name)) [
    | inl e ↦
        let found : some i ≡ some j = rw e at h in
        let p : i ≡ j = cc in ap (λ k. (heap k).name) (sym p) ∙ (eq_iff (heap i).name name).0 e
    | inr e ↦ find_view-name name is j (rw e at h)
  ]

  pub find_view_self :
      (name : String) (j : ℕ) → (heap j).name ≡ name → find_view heap name (j ∷ []) ≡ some j
  unfolding find_view
  find_view_self name j e = rw ((eq_iff (heap j).name name).1 e) refl

  -- A name that the stack lacks is not there after a view was taken out.
  pub find_view-without_other :
      (name other : String) (is : List ℕ)
      → find_view heap other is ≡ none
      → find_view heap other (without heap name is) ≡ none
  unfolding find_view without
  find_view-without_other name other [] h = refl
  find_view-without_other name other (i ∷ is) h =
      elim (Bool-cases (same_name (heap i).name other)) [
        | inl e ↦ let wrong : some i ≡ none = rw e at h in cc
        | inr e ↦ elim (Bool-cases (same_name (heap i).name name)) [
          | inl f ↦ rw f (rw e at h)
          | inr f ↦ rw f (rw e (find_view-without_other name other is (rw e at h)))
        ]
      ]

  pub without-Distinct :
      (name : String) (is : List ℕ) → Distinct heap is → Distinct heap (without heap name is)
  unfolding without
  without-Distinct name [] d = tt
  without-Distinct name (i ∷ is) d = elim (Bool-cases (same_name (heap i).name name)) [
    | inl e ↦ rw e (d.1)
    | inr e ↦ rw e (find_view-without_other name (heap i).name is d.0, without-Distinct name is d.1)
  ]

-- A view that SetViewOnTop finds is the one that ViewByPosition returns afterwards for every point
-- within its frame.
pub view_by_position-set_view_on_top :
    (name : String) (g : Gui) (i : ℕ) (x y : ℤ)
    → find_view g.heap name g.views ≡ some i
    → contains (g.heap i) x y ≡ true
    → view_by_position x y (set_view_on_top name g).0 ≡ (some i, none)
unfolding set_view_on_top view_by_position
view_by_position-set_view_on_top name g i x y found inside =
    rw found (ap answer (topmost-append g.heap x y (without g.heap name g.views) i inside))

-- In a stack of views whose names differ, a view that is there is deleted without an error, and
-- View does not know it afterwards.
pub view-delete_view :
    (name : String) (g : Gui) (i : ℕ)
    → Distinct g.heap g.views
    → find_view g.heap name g.views ≡ some i
    → ((delete_view name g).1 ≡ none)
      × (view name (delete_view name g).0 ≡ (none, some unknown_view))
unfolding delete_view view
view-delete_view name g i d found =
    rw (delete_view, found) (refl, ap answer (find_view-without g.heap name g.views d))
