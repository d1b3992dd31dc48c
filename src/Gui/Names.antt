-- ===== src/Gui/Names.antt =====
-- The names of the views stay different, and `SetView` gives a view its frame.
use Prim.Native.String.{String}
use text.Mathlib.TextEquality.{eq_iff}
use gocui.Common.{
  ℕ, ◌≤◌, ◌<◌, ◌≡◌, refl, sym, ap, ◌∙◌, inl, inr, arith, List, [], ◌∷◌, ◌++◌, true, false, none,
  some, ◌==◌, ==_self, ==_iff, if◌then◌else◌, Bool-cases,
}
use gocui.View.{View}
use gocui.Gui.Stack.{Distinct, find_view-append}
use gocui.Gui.{Gui, store, same_name, find_view, without}

-- Every view of the stack has been made.
abbrev pub Below : ℕ → List ℕ → Type 0
Below n [] = Unit
Below n (i ∷ is) = (i < n) × Below n is

-- The names of the stack are different.
pub record IsStack (g : Gui) : Type 0 where
  pub made : Below g.next g.views
  pub distinct : Distinct g.heap g.views

module _ (h k : ℕ → View) (n : ℕ) (same : (j : ℕ) → j < n → (h j).name ≡ (k j).name) where
  pub find_view-names :
      (name : String) (is : List ℕ) → Below n is → find_view h name is ≡ find_view k name is
  unfolding find_view
  find_view-names name [] b = refl
  find_view-names name (i ∷ is) b =
      rw (same i b.0)
        (ap (λ r. if same_name (k i).name name then some i else r) (find_view-names name is b.1))

  pub Distinct-names : (is : List ℕ) → Below n is → Distinct h is → Distinct k is
  Distinct-names [] b d = tt
  Distinct-names (i ∷ is) b d = (
    ap (λ s. find_view k s is) (sym (same i b.0)) ∙ sym (find_view-names (h i).name is b.1) ∙ d.0,
    Distinct-names is b.1 d.1,
  )

pub Below-append : (n m : ℕ) (is js : List ℕ) → n ≤ m → Below n is → Below m js → Below m (is ++ js)
Below-append n m [] js h b c = c
Below-append n m (i ∷ is) js h b c = (omega (arith, b.0), Below-append n m is js h b.1 c)

pub Below-without :
    (n : ℕ) (heap : ℕ → View) (name : String) (is : List ℕ)
    → Below n is
    → Below n (without heap name is)
unfolding without
Below-without n heap name [] b = tt
Below-without n heap name (i ∷ is) b = elim (Bool-cases (same_name (heap i).name name)) [
  | inl e ↦ rw e (b.1)
  | inr e ↦ rw e (b.0, Below-without n heap name is b.1)
]

-- A new name at the end.
pub Distinct-append :
    (heap : ℕ → View) (is : List ℕ) (j : ℕ)
    → Distinct heap is
    → find_view heap (heap j).name is ≡ none
    → Distinct heap (is ++ j ∷ [])
unfolding find_view
Distinct-append heap [] j d h = (refl, tt)
Distinct-append heap (i ∷ is) j d h = elim (Bool-cases (same_name (heap i).name (heap j).name)) [
  | inl e ↦ let wrong : some i ≡ none = rw e at h in cc
  | inr e ↦ (
    find_view-append heap (heap i).name is (j ∷ []) d.0 ∙ not_last e,
    Distinct-append heap is j d.1 (rw e at h),
  )
]
  where
    not_last :
        same_name (heap i).name (heap j).name ≡ false → find_view heap (heap i).name (j ∷ []) ≡ none
    not_last e = elim (Bool-cases (same_name (heap j).name (heap i).name)) [
      | inl f ↦
          let p : (heap j).name ≡ (heap i).name = (eq_iff (heap j).name (heap i).name).0 f in
          let q : same_name (heap i).name (heap j).name ≡ true =
            (eq_iff (heap i).name (heap j).name).1 (sym p) in
          cc
      | inr f ↦ rw f refl
    ]

pub store_at : (heap : ℕ → View) (i : ℕ) (v : View) → store heap i v i ≡ v
store_at heap i v = rw (==_self i) refl

pub store_before : (heap : ℕ → View) (i j : ℕ) (v : View) → j < i → store heap i v j ≡ heap j
store_before heap i j v h = rw (other j i h) refl
  where
    other : (j i : ℕ) → j < i → (j == i) ≡ false
    other j i h = ground arith

-- A view that keeps its name.
pub store-name :
    (heap : ℕ → View) (i j : ℕ) (v : View)
    → v.name ≡ (heap i).name
    → (heap j).name ≡ (store heap i v j).name
store-name heap i j v e = elim (Bool-cases (j == i)) [
  | inl f ↦ let p : j ≡ i = (==_iff j i).0 f in rw f (ap (λ l. (heap l).name) p ∙ sym e)
  | inr f ↦ rw f refl
]
