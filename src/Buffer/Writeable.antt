-- ===== src/Buffer/Writeable.antt =====
-- `makeWriteable`: it always ends, and what it adds is what the arrays hold behind the slices: empty
-- cells only where nothing was cut off before.
use native.Mathlib.Decide.{dec_le}
use gocui.Common.{
  ℕ, zero, suc, ◌+◌, ◌-◌, ◌≤◌, ◌<◌, ◌≡◌, refl, sym, ap, ap₂, ◌∙◌, List, [], ◌∷◌, ◌++◌, map,
  append-nil, arith, ok, le→leb, length, set, take, drop, replicate, length-append, length-take,
  length-set,
}
use gocui.Slice.{
  Growth, append, len, full, reslice, set_item, index, drop_all, take-append_le, take-append-drop,
}
use gocui.Slice.Laws.{extend_lem, length-extend, pad, pad-replicate}
use gocui.Cell.{Cell, blank, Line, Lines, nil_line, Runtime}
use gocui.Buffer.Row.{delete_rune_line}
use gocui.Buffer.Spec.{text, pad_to, update_at}
use gocui.Buffer.Text.{index_lem, text-set, text-lengthen, index-lt, cells_of}
use mathlib.Core.Path.{subst}
use gocui.Buffer.{make_writeable, delete_rune}

module _ {ℓ} {A : Type ℓ} where
  index-set : (xs : List A) (i : ℕ) (a : A) → i < length xs → index (set xs i a) i ≡ ok a
  index-set [] i a h = absurd (omega arith)
  index-set (x ∷ xs) zero a h = refl
  index-set (x ∷ xs) (suc i) a h = index-set xs i a (omega arith)

  set-set : (xs : List A) (i : ℕ) (a b : A) → set (set xs i a) i b ≡ set xs i b
  set-set [] i a b = refl
  set-set (x ∷ xs) zero a b = refl
  set-set (x ∷ xs) (suc i) a b = ap (x ∷◌) (set-set xs i a b)

module _ {ℓ} {A : Type ℓ} where
  set_self : (xs : List A) (i : ℕ) (a : A) → index xs i ≡ ok a → set xs i a ≡ xs
  set_self [] i a h = refl
  set_self (x ∷ xs) zero a h = cc
  set_self (x ∷ xs) (suc i) a h = ap (x ∷◌) (set_self xs i a h)

  pad_last :
      (z : A) (x : ℕ) (xs ys : List A) → length xs ≡ suc x → pad z 1 (drop x (xs ++ ys)) ≡ drop x xs
  pad_last z x [] ys h = absurd (omega arith)
  pad_last z zero (a ∷ []) ys h = refl
  pad_last z zero (a ∷ b ∷ xs) ys h = absurd (omega arith)
  pad_last z (suc x) (a ∷ xs) ys h = pad_last z x xs ys (omega arith)

-- A line whose last cell is deleted keeps that cell behind its end.
cut_last :
    (grow : Growth) (x : ℕ) (l : Line) → len l ≡ x + 1 → delete_rune_line grow x l ≡ reslice l x
unfolding delete_rune_line append
cut_last grow x l e =
    rw (drop_all (x + 1) l.items (omega arith))
      (rw (le→leb 0 (length (drop x (full l))) (omega arith)) (rw (append-nil (take x (full l)))))

restored :
    (x : ℕ) (l : Line)
    → len l ≡ x + 1
    → l.items ≡ (reslice l x).items ++ pad blank (x + 1 - len (reslice l x)) (reslice l x).spare
restored x l e =
    let one : x + 1 - len (reslice l x) ≡ 1 =
      omega (arith, length-take x (full l), length-append l.items l.spare) in
    sym (
      ap (λ k. take x (full l) ++ pad blank k (drop x (full l))) one
      ∙ ap₂ (λ (a b : List Cell). a ++ b) (take-append_le x l.items l.spare (omega arith))
          (pad_last blank x l.items l.spare (omega arith))
      ∙ take-append-drop x l.items)

-- The lines that a reader sees once line y exists.
abbrev pub revealed : ℕ → Lines → List Line
revealed y ls = ls.items ++ pad nil_line (y + 1 - len ls) ls.spare

module _ (rt : Runtime) where
  -- makeWriteable returns at every point that is not negative; line y then exists and has x cells
  -- or more, and a missing line or cell is the one that the array holds at its place, or an empty
  -- one.
  pub make_writeable_lem :
      (x y : ℕ) (ls : Lines)
      → (t : Lines) × (l : Line) × (make_writeable rt x y ls ≡ ok t)
        × (index (revealed y ls) y ≡ ok l)
        × (text t
            ≡ update_at
                (λ c. c ++ pad blank (x - len l) l.spare)
                []
                y
                (map cells_of (revealed y ls)))
        × ((l' : Line) × (index t.items y ≡ ok l') × (x ≤ len l'))
  unfolding make_writeable
  make_writeable_lem x y ls =
      let (ls', run, shown) = extend_lem rt.lines nil_line (y + 1) (y + 1) ls (omega arith) in
      let there = length-extend rt.lines nil_line (y + 1) (y + 1) ls ls' shown in
      let (l, at) = index_lem ls'.items y (omega arith) in
      let (l', run', shown') = extend_lem rt.cells blank x x l (omega arith) in
      let wide = length-extend rt.cells blank x x l l' shown' in
      (
        set_item ls' y l',
        l,
        rw run (rw at (rw run')),
        ap (λ xs. index xs y) (sym shown) ∙ at,
        text-set (λ c. c ++ pad blank (x - len l) l.spare) ls'.items y l l' at shown'
            ∙ ap (λ xs. update_at (λ c. c ++ pad blank (x - len l) l.spare) [] y (map cells_of xs))
                shown,
        (l', index-set ls'.items y l' (omega arith), wide.0),
      )

-- No array holds anything but zero values behind a slice, as when nothing was cut off.
abbrev pub IsZeroed : Line → Type 0
IsZeroed l = l.spare ≡ replicate (length l.spare) blank

abbrev pub RowsZeroed : List Line → Type 0
RowsZeroed [] = Unit
RowsZeroed (l ∷ ls) = IsZeroed l × RowsZeroed ls

pub record IsFresh (ls : Lines) : Type 0 where
  pub no_lines : ls.spare ≡ replicate (length ls.spare) nil_line
  pub no_cells : RowsZeroed ls.items

row-IsZeroed :
    (xs : List Line) (k y : ℕ) (l : Line)
    → RowsZeroed xs
    → index (xs ++ replicate k nil_line) y ≡ ok l
    → IsZeroed l
row-IsZeroed [] zero y l r h = cc
row-IsZeroed [] (suc k) zero l r h = let e : nil_line ≡ l = cc in subst IsZeroed e refl
row-IsZeroed [] (suc k) (suc y) l r h = row-IsZeroed [] k y l r h
row-IsZeroed (x ∷ xs) k zero l r h = let e : x ≡ l = cc in subst IsZeroed e r.0
row-IsZeroed (x ∷ xs) k (suc y) l r h = row-IsZeroed xs k y l r.1 h

update_at-congr :
    (f g : List Cell → List Cell) (xs : List Line) (y : ℕ) (l : Line)
    → index xs y ≡ ok l
    → f l.items ≡ g l.items
    → update_at f [] y (map cells_of xs) ≡ update_at g [] y (map cells_of xs)
update_at-congr f g [] y l h e = cc
update_at-congr f g (x ∷ xs) zero l h e = cc
update_at-congr f g (x ∷ xs) (suc y) l h e = ap (x.items ∷◌) (update_at-congr f g xs y l h e)

revealed-text :
    (f : List Cell → List Cell) (y : ℕ) (ls : Lines)
    → update_at f [] y (map cells_of (ls.items ++ replicate (y + 1 - len ls) nil_line))
      ≡ update_at f [] y (text ls)
revealed-text f y ls = elim (dec_le (len ls) y) [
  | yes short ↦ text-lengthen f ls.items y (y + 1 - len ls) (omega arith)
  | no long ↦ let e : y + 1 - len ls ≡ 0 = omega arith in rw (e, append-nil ls.items)
]

module _ (rt : Runtime) where
  -- Where no array of the buffer holds anything but zero values behind its slice, makeWriteable
  -- returns and adds empty lines and blank cells only.
  pub make_writeable-fresh :
      (x y : ℕ) (ls : Lines)
      → IsFresh ls
      → (t : Lines) × (make_writeable rt x y ls ≡ ok t)
        × (text t ≡ update_at (pad_to x) [] y (text ls))
  make_writeable-fresh x y ls fresh =
      let (t, l, run, at, shown, _) = make_writeable_lem rt x y ls in
      let k = y + 1 - len ls in
      let lines : revealed y ls ≡ ls.items ++ replicate k nil_line =
        ap (λ sp. ls.items ++ pad nil_line k sp) fresh.no_lines
        ∙ ap (ls.items ++◌) (pad-replicate nil_line k (length ls.spare)) in
      let at' : index (ls.items ++ replicate k nil_line) y ≡ ok l =
        ap (λ xs. index xs y) (sym lines) ∙ at in
      let cells : pad blank (x - len l) l.spare ≡ replicate (x - len l) blank =
        ap (pad blank (x - len l)) (row-IsZeroed ls.items k y l fresh.no_cells at')
        ∙ pad-replicate blank (x - len l) (length l.spare) in
      (
        t,
        run,
        shown
            ∙ ap (λ xs. update_at (λ c. c ++ pad blank (x - len l) l.spare) [] y (map cells_of xs))
                lines
            ∙ update_at-congr (λ c. c ++ pad blank (x - len l) l.spare) (pad_to x) _ y l at'
                (ap (l.items ++◌) cells)
            ∙ revealed-text (pad_to x) y ls,
      )

  -- After the last cell of a line is deleted, makeWriteable of the place behind it brings the
  -- deleted cell back: both calls return and the text is the one before the deletion.
  pub make_writeable-delete_rune :
      (x y : ℕ) (ls : Lines) (l : Line)
      → index ls.items y ≡ ok l
      → len l ≡ x + 1
      → (t u : Lines) × (delete_rune rt x y ls ≡ ok t)
        × (make_writeable rt (x + 1) y t ≡ ok u)
        × (text u ≡ text ls)
  unfolding delete_rune
  make_writeable-delete_rune x y ls l at e =
      let l' = delete_rune_line rt.cells x l in
      let t = set_item ls y l' in
      let (u, m, run, at', shown, _) = make_writeable_lem rt (x + 1) y t in
      let lt = index-lt ls.items y at in
      let cut = cut_last rt.cells x l e in
      let none_missing : y + 1 - len t ≡ 0 = omega (arith, length-set ls.items y l') in
      let same : revealed y t ≡ t.items = rw (none_missing, append-nil t.items) in
      let is_cut : ok l' ≡ ok m =
        sym (index-set ls.items y l' lt) ∙ ap (λ xs. index xs y) (sym same) ∙ at' in
      let m_is : m ≡ reslice l x = let p : l' ≡ m = cc in sym p ∙ cut in
      let f = λ (c : List Cell). c ++ pad blank (x + 1 - len m) m.spare in
      let back : l.items ≡ f l'.items =
        restored x l e
        ∙ ap₂ (λ (a b : Line). a.items ++ pad blank (x + 1 - len b) b.spare) (sym cut) (sym m_is) in
      (
        t,
        u,
        rw at,
        run,
        shown
            ∙ ap (λ xs. update_at f [] y (map cells_of xs)) same
            ∙ sym (text-set f t.items y l' l (index-set ls.items y l' lt) back)
            ∙ ap (map cells_of) (set-set ls.items y l' l ∙ set_self ls.items y l at),
      )
