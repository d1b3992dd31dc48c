-- ===== src/Buffer/RoundTrip.antt =====
-- What one method of the buffer does, another takes back.
use gocui.Common.{
  ℕ, zero, suc, ◌-◌, ◌≤◌, ◌<◌, ◌≡◌, refl, sym, ap, ◌∙◌, false, List, [], ◌∷◌, ◌++◌, map, append-nil,
  arith, ok, length, take, drop, length-append, length-take,
}
use gocui.Slice.{len, index, take-append-drop}
use gocui.Cell.{Cell, Line, Lines, Runtime}
use gocui.Buffer.Spec.{text, put, remove, update_at, split_line, join_line}
use gocui.Buffer.Text.{
  cells_of, write_rune-put, delete_rune-remove, merge_lines-join_line, break_line-split_line,
}
use gocui.Buffer.{write_rune, delete_rune, merge_lines, break_line}

module _ {ℓ} {A : Type ℓ} where
  pub index-update_at :
      (f : A → A) (d : A) (xs : List A) (y : ℕ) (a : A)
      → index xs y ≡ ok a
      → index (update_at f d y xs) y ≡ ok (f a)
  index-update_at f d [] y a h = cc
  index-update_at f d (x ∷ xs) zero a h = cc
  index-update_at f d (x ∷ xs) (suc y) a h = index-update_at f d xs y a h

  update_at-update_at :
      (f g : A → A) (d : A) (xs : List A) (y : ℕ) (a : A)
      → index xs y ≡ ok a
      → f (g a) ≡ a
      → update_at f d y (update_at g d y xs) ≡ xs
  update_at-update_at f g d [] y a h e = cc
  update_at-update_at f g d (x ∷ xs) zero a h e = cc
  update_at-update_at f g d (x ∷ xs) (suc y) a h e =
      ap (x ∷◌) (update_at-update_at f g d xs y a h e)

  join-split : (x y : ℕ) (xs : List (List A)) → y < length xs → join_line y (split_line x y xs) ≡ xs
  join-split x y [] h = refl
  join-split x zero (l ∷ ls) h = ap (◌∷ ls) (take-append-drop x l)
  join-split x (suc y) (l ∷ []) h = absurd (omega arith)
  join-split x (suc zero) (l ∷ m ∷ ls) h = ap (l ∷◌) (join-split x zero (m ∷ ls) (omega arith))
  join-split x (suc (suc y)) (l ∷ m ∷ ls) h =
      ap (l ∷◌) (join-split x (suc y) (m ∷ ls) (omega arith))

  pub length-split :
      (x y : ℕ) (xs : List (List A)) → y < length xs → length (split_line x y xs) ≡ suc (length xs)
  length-split x y [] h = absurd (omega arith)
  length-split x zero (l ∷ ls) h = refl
  length-split x (suc y) (l ∷ ls) h = ap suc (length-split x y ls (omega arith))

insert_remove :
    (x : ℕ) (c : Cell) (l : List Cell)
    → x ≤ length l
    → take x (take x l ++ c ∷ drop x l) ++ drop (suc x) (take x l ++ c ∷ drop x l) ≡ l
insert_remove zero c l h = refl
insert_remove (suc x) c [] h = absurd (omega arith)
insert_remove (suc x) c (a ∷ l) h = ap (a ∷◌) (insert_remove x c l (omega arith))

put_within :
    (x : ℕ) (c : Cell) (l : List Cell) → x ≤ length l → put false x c l ≡ take x l ++ c ∷ drop x l
put_within x c l h = let e : x - length l ≡ 0 = omega arith in rw e (rw (append-nil l))

pub index-text :
    (xs : List Line) (y : ℕ) (c : List Cell)
    → index (map cells_of xs) y ≡ ok c
    → (l : Line) × (index xs y ≡ ok l) × (l.items ≡ c)
index-text [] y c h = cc
index-text (x ∷ xs) zero c h = (x, refl, cc)
index-text (x ∷ xs) (suc y) c h = index-text xs y c h

pub text-index :
    (xs : List Line) (y : ℕ) (l : Line) → index xs y ≡ ok l → index (map cells_of xs) y ≡ ok l.items
text-index [] y l h = cc
text-index (x ∷ xs) zero l h = cc
text-index (x ∷ xs) (suc y) l h = text-index xs y l h

pub length-text : (xs : List Line) → length (map cells_of xs) ≡ length xs
length-text [] = refl
length-text (x ∷ xs) = ap suc (length-text xs)

-- Inserting a cell and removing it again.
remove-put : (x : ℕ) (c : Cell) (l : List Cell) → x ≤ length l → remove x (put false x c l) ≡ l
remove-put x c l h =
    let zs = take x l ++ c ∷ drop x l in
    ap (remove x) (put_within x c l h)
    ∙ ap (λ i. take x zs ++ drop i zs) {y = suc x} (omega arith)
    ∙ insert_remove x c l h

pub length-put : (x : ℕ) (c : Cell) (l : List Cell) → x ≤ length l → x < length (put false x c l)
length-put x c l h =
    rw (put_within x c l h)
      (omega (arith, length-append (take x l) (c ∷ drop x l), length-take x l))

module _ (rt : Runtime) where
  -- A cell that is inserted in a line, its end included, and deleted at the same point: both calls
  -- return and the text is the old one.
  pub delete_rune-write_rune :
      (x y : ℕ) (c : Cell) (ls : Lines) (l : Line)
      → index ls.items y ≡ ok l
      → x ≤ len l
      → (t u : Lines) × (write_rune rt false x y c ls ≡ ok t)
        × (delete_rune rt x y t ≡ ok u)
        × (text u ≡ text ls)
  delete_rune-write_rune x y c ls l at h =
      let (t, run, shown) = write_rune-put rt false x y c ls in
      let there = text-index ls.items y l at in
      let (m, at', is) = index-text t.items y (put false x c l.items) (
        ap (λ s. index s y) shown ∙ index-update_at (put false x c) [] (text ls) y l.items there) in
      let (u, run', shown') =
        delete_rune-remove rt x y t m at' (rw is (length-put x c l.items h)) in
      (
        t,
        u,
        run,
        run',
        shown'
            ∙ ap (update_at (remove x) [] y) shown
            ∙ update_at-update_at (remove x) (put false x c) [] (text ls) y l.items there
                (remove-put x c l.items h),
      )

  -- A line of the buffer that is broken at any column and merged again: both calls return and the
  -- text is the old one.
  pub merge_lines-break_line :
      (x y : ℕ) (ls : Lines)
      → y < len ls
      → (t u : Lines) × (break_line x y ls ≡ ok t)
        × (merge_lines rt y t ≡ ok u)
        × (text u ≡ text ls)
  merge_lines-break_line x y ls h =
      let (t, run, shown) = break_line-split_line x y ls h in
      let inside = length-text ls.items in
      let long : len t ≡ suc (len ls) =
        sym (length-text t.items)
        ∙ ap length shown
        ∙ length-split x y (text ls) (omega arith)
        ∙ ap suc inside in
      let (u, run', shown') = merge_lines-join_line rt y t (omega arith) in
      (t, u, run, run', shown' ∙ ap (join_line y) shown ∙ join-split x y (text ls) (omega arith))
