-- ===== src/Buffer/Text.antt =====
-- The buffer's methods refine the operations on plain lists of `Spec`, whatever the arrays hold
-- behind the slices, and none of them panics at a point of the buffer.
use native.Mathlib.Decide.{dec_le, dec_lt}
use gocui.Common.{
  ℕ, zero, suc, ◌+◌, ◌-◌, ◌≤◌, ◌<◌, ◌≡◌, refl, sym, ap, ap₂, ◌∙◌, inl, inr, Bool, List, [], ◌∷◌,
  ◌++◌, map, append-nil, arith, ok, ltb, if◌then◌else◌, lt→ltb, le→ltb, ltb→le, le→leb, lt→leb,
  Bool-cases, length, set, take, drop, replicate, length-append, length-replicate, length-set,
}
use gocui.Slice.{
  append, len, reslice, of_list, set_item, copy, copy_at, index, take_all, drop_all, take-append_le,
}
use gocui.Slice.Laws.{items-append}
use gocui.Cell.{Cell, blank, Line, Lines, nil_line, Runtime}
use gocui.Buffer.Row.{delete_rune_line}
use gocui.Buffer.Spec.{text, put, overlay, remove, update_at, split_line, join_line}
use gocui.Buffer.RowLaws.{write_cells_line_lem, write_rune_line_lem, items-delete_rune_line}
use gocui.Buffer.{
  merge_next, with_line, write_cells, write_rune, delete_rune, merge_lines, break_line,
}

module _ {ℓ} {A : Type ℓ} where
  -- An index in range does not panic.
  pub index_lem : (xs : List A) (i : ℕ) → i < length xs → (a : A) × (index xs i ≡ ok a)
  index_lem [] i h = absurd (omega arith)
  index_lem (x ∷ xs) zero h = (x, refl)
  index_lem (x ∷ xs) (suc i) h = index_lem xs i (omega arith)

  pub index-lt : (xs : List A) (i : ℕ) {a : A} → index xs i ≡ ok a → i < length xs
  index-lt [] i h = cc
  index-lt (x ∷ xs) zero h = omega arith
  index-lt (x ∷ xs) (suc i) h = omega (arith, index-lt xs i h)

  copy-replicate : (m : ℕ) (d : A) (ys : List A) → length ys ≡ m → copy (replicate m d) ys ≡ ys
  copy-replicate zero d [] h = refl
  copy-replicate zero d (y ∷ ys) h = absurd (omega arith)
  copy-replicate (suc m) d [] h = absurd (omega arith)
  copy-replicate (suc m) d (y ∷ ys) h = ap (y ∷◌) (copy-replicate m d ys (omega arith))

  -- The copying of `breakLine`.
  broken :
      (xs : List A) (y : ℕ) (d l r : A)
      → y < length xs
      → copy_at
          (copy (set (set (replicate (suc (length xs)) d) y l) (suc y) r) (take y xs))
          (suc (suc y))
          (drop (suc y) xs)
        ≡ take y xs ++ l ∷ r ∷ drop (suc y) xs
  broken [] y d l r h = absurd (omega arith)
  broken (x ∷ xs) zero d l r h = ap (λ t. l ∷ r ∷ t) (copy-replicate (length xs) d xs refl)
  broken (x ∷ xs) (suc y) d l r h = ap (x ∷◌) (broken xs y d l r (omega arith))

  broken_at :
      (xs : List A) (y n y1 y2 : ℕ) (d l r : A)
      → y < length xs
      → n ≡ suc (length xs)
      → y1 ≡ suc y
      → y2 ≡ suc (suc y)
      → copy_at (copy (set (set (replicate n d) y l) y1 r) (take y xs)) y2 (drop y1 xs)
        ≡ take y xs ++ l ∷ r ∷ drop (suc y) xs
  broken_at xs y n y1 y2 d l r h p q s = rw (p, q, s) (broken xs y d l r h)

abbrev pub cells_of : Line → List Cell
cells_of l = l.items

-- The three ways in which a stored line shows in the text.
pub text-set :
    (f : List Cell → List Cell) (xs : List Line) (y : ℕ) (l l' : Line)
    → index xs y ≡ ok l
    → l'.items ≡ f l.items
    → map cells_of (set xs y l') ≡ update_at f [] y (map cells_of xs)
text-set f [] y l l' h e = cc
text-set f (x ∷ xs) zero l l' h e = cc
text-set f (x ∷ xs) (suc y) l l' h e = ap (x.items ∷◌) (text-set f xs y l l' h e)

text-split :
    (x : ℕ) (xs : List Line) (y : ℕ) (l left right : Line)
    → index xs y ≡ ok l
    → left.items ≡ take x l.items
    → right.items ≡ drop x l.items
    → map cells_of (take y xs ++ left ∷ right ∷ drop (suc y) xs) ≡ split_line x y (map cells_of xs)
text-split x [] y l left right h p q = cc
text-split x (m ∷ xs) zero l left right h p q = cc
text-split x (m ∷ xs) (suc y) l left right h p q =
    ap (m.items ∷◌) (text-split x xs y l left right h p q)

text-join :
    (xs : List Line) (y : ℕ) (l m l' : Line)
    → index xs y ≡ ok l
    → index xs (suc y) ≡ ok m
    → l'.items ≡ l.items ++ m.items
    → map cells_of (take (suc y) (set xs y l') ++ drop (suc (suc y)) (set xs y l'))
      ≡ join_line y (map cells_of xs)
text-join [] y l m l' h k e = cc
text-join (x ∷ []) zero l m l' h k e = cc
text-join (x ∷ []) (suc y) l m l' h k e = cc
text-join (x ∷ z ∷ xs) zero l m l' h k e = cc
text-join (x ∷ z ∷ xs) (suc y) l m l' h k e = ap (x.items ∷◌) (text-join (z ∷ xs) y l m l' h k e)

text-join_last :
    (xs : List Line) (y : ℕ) → length xs ≤ suc y → map cells_of xs ≡ join_line y (map cells_of xs)
text-join_last [] y h = refl
text-join_last (x ∷ []) y h = refl
text-join_last (x ∷ z ∷ xs) zero h = absurd (omega arith)
text-join_last (x ∷ z ∷ xs) (suc y) h = ap (x.items ∷◌) (text-join_last (z ∷ xs) y (omega arith))

pub text-lengthen :
    (f : List Cell → List Cell) (xs : List Line) (y k : ℕ)
    → y + 1 ≡ length xs + k
    → update_at f [] y (map cells_of (xs ++ replicate k nil_line))
      ≡ update_at f [] y (map cells_of xs)
text-lengthen f [] y zero h = refl
text-lengthen f [] zero (suc zero) h = refl
text-lengthen f [] zero (suc (suc k)) h = absurd (omega arith)
text-lengthen f [] (suc y) (suc k) h = ap ([] ∷◌) (text-lengthen f [] y k (omega arith))
text-lengthen f (x ∷ xs) zero zero h =
    ap (λ l. update_at f [] 0 (map cells_of (x ∷ l))) (append-nil xs)
text-lengthen f (x ∷ xs) zero (suc k) h = absurd (omega arith)
text-lengthen f (x ∷ xs) (suc y) k h = ap (x.items ∷◌) (text-lengthen f xs y k (omega arith))

module _ (rt : Runtime) where
  -- The lines that are missing read as empty ones.
  text-with_line :
      (f : List Cell → List Cell) (y : ℕ) (ls : Lines)
      → (update_at f [] y (text (with_line rt y ls)) ≡ update_at f [] y (text ls))
        × (y < len (with_line rt y ls))
  unfolding with_line
  text-with_line f y ls = elim (dec_le (len ls) y) [
    | yes short ↦
        let k = y - len ls + 1 in
        let shown = items-append rt.lines nil_line ls (replicate k nil_line) in
        rw (le→leb (len ls) y short) (
          ap (λ l. update_at f [] y (map cells_of l)) shown
              ∙ text-lengthen f ls.items y k (omega arith),
          rw shown (
              omega (
                arith,
                length-append ls.items (replicate k nil_line),
                length-replicate k nil_line,
              )),
        )
    | no long ↦ rw (lt→leb (len ls) y (omega arith)) (refl, omega arith)
  ]

  -- Writing a rune, in insert or overwrite mode, at any point that is not negative: the call
  -- returns, and the text is the old one with the rune put at column x of line y, before the cell
  -- there or in its place, after empty lines and blank cells up to the point where they are
  -- missing.
  pub write_rune-put :
      (overwrite : Bool) (x y : ℕ) (c : Cell) (ls : Lines)
      → (t : Lines) × (write_rune rt overwrite x y c ls ≡ ok t)
        × (text t ≡ update_at (put overwrite x c) [] y (text ls))
  unfolding write_rune
  write_rune-put overwrite x y c ls =
      let ls' = with_line rt y ls in
      let (same, there) = text-with_line (put overwrite x c) y ls in
      let (l, at) = index_lem ls'.items y there in
      let (l', run, shown) = write_rune_line_lem rt.cells overwrite x c l in
      (
        set_item ls' y l',
        rw (at, run),
        text-set (put overwrite x c) ls'.items y l l' at shown ∙ same,
      )

  -- Deleting a rune at a cell of the buffer returns, and the text is the old one without that
  -- cell.
  pub delete_rune-remove :
      (x y : ℕ) (ls : Lines) (l : Line)
      → index ls.items y ≡ ok l
      → x < len l
      → (t : Lines) × (delete_rune rt x y ls ≡ ok t)
        × (text t ≡ update_at (remove x) [] y (text ls))
  unfolding delete_rune
  delete_rune-remove x y ls l at h =
      let l' = delete_rune_line rt.cells x l in
      (
        set_item ls y l',
        rw at,
        text-set (remove x) ls.items y l l' at (items-delete_rune_line rt.cells x l h),
      )

  -- Writing cells at a point of a line, its end included, returns, and the text is the old one
  -- with the cells laid over the line.
  pub write_cells-overlay :
      (x y : ℕ) (cells : List Cell) (ls : Lines) (l : Line)
      → index ls.items y ≡ ok l
      → x ≤ len l
      → (t : Lines) × (write_cells rt x y cells ls ≡ ok t)
        × (text t ≡ update_at (overlay x cells) [] y (text ls))
  unfolding write_cells
  write_cells-overlay x y cells ls l at h =
      let (l', run, shown) = write_cells_line_lem rt.cells x cells l h in
      (set_item ls y l', rw (at, run), text-set (overlay x cells) ls.items y l l' at shown)

  merge_more :
      (y : ℕ) (ls : Lines)
      → suc y < len ls
      → (t : Lines) × (merge_next rt y ls ≡ ok t) × (text t ≡ join_line y (text ls))
  unfolding merge_next
  merge_more y ls h =
      let (l, at) = index_lem ls.items y (omega arith) in
      let (m, behind) = index_lem ls.items (suc y) h in
      let l' = append rt.cells blank l m.items in
      let xs = set ls.items y l' in
      let long = length-set ls.items y l' in
      let joined = text-join ls.items y l m l' at behind (items-append rt.cells blank l m.items) in
      let next : index ls.items (y + 1) ≡ ok m = ap (index ls.items) (omega arith) ∙ behind in
      (
        append rt.lines nil_line (reslice (set_item ls y l') (y + 1)) (drop (y + 2) xs),
        rw (at, next),
        ap (map cells_of) (
              items-append rt.lines nil_line _ _
              ∙ ap (λ t. t ++ drop (y + 2) xs) (take-append_le (y + 1) xs ls.spare (omega arith))
              ∙ ap₂ (λ a b. take a xs ++ drop b xs) {y = suc y} {v = suc (suc y)} (omega arith)
                  (omega arith))
            ∙ joined,
      )

  -- Merging a line of the buffer with the next one returns, and the text is the old one with the
  -- two lines joined; the last line is left as it is.
  pub merge_lines-join_line :
      (y : ℕ) (ls : Lines)
      → y < len ls
      → (t : Lines) × (merge_lines rt y ls ≡ ok t) × (text t ≡ join_line y (text ls))
  unfolding merge_lines
  merge_lines-join_line y ls h = elim (dec_lt (suc y) (len ls)) [
    | yes more ↦ rw (lt→ltb (y + 1) (len ls) (omega arith)) (merge_more y ls more)
    | no last ↦
        (ls, rw (le→ltb (y + 1) (len ls) (omega arith)), text-join_last ls.items y (omega arith))
  ]

left_items :
    (x : ℕ) (l : Line)
    → (if ltb x (len l) then of_list (take x l.items) else l).items ≡ take x l.items
left_items x l = elim (Bool-cases (ltb x (len l))) [
  | inl e ↦ rw e
  | inr e ↦ rw e (sym (take_all x l.items (ltb→le _ _ e)))
]

right_items :
    (x : ℕ) (l : Line)
    → (if ltb x (len l) then of_list (drop x l.items) else nil_line).items ≡ drop x l.items
right_items x l = elim (Bool-cases (ltb x (len l))) [
  | inl e ↦ rw e
  | inr e ↦ rw e (sym (drop_all x l.items (ltb→le _ _ e)))
]

-- Breaking a line of the buffer at any column returns, and the text is the old one with the line
-- split in front of that column.
pub break_line-split_line :
    (x y : ℕ) (ls : Lines)
    → y < len ls
    → (t : Lines) × (break_line x y ls ≡ ok t) × (text t ≡ split_line x y (text ls))
unfolding break_line
break_line-split_line x y ls h =
    let (l, at) = index_lem ls.items y h in
    let left : Line = if ltb x (len l) then of_list (take x l.items) else l in
    let right : Line = if ltb x (len l) then of_list (drop x l.items) else nil_line in
    let n = len ls in
    let made =
      copy_at (copy (set (set (replicate (n + 1) nil_line) y left) (y + 1) right) (take y ls.items))
        (y + 2) (drop (y + 1) ls.items) in
    (
      of_list made,
      rw at,
      ap (map cells_of) (
            broken_at ls.items y (n + 1) (y + 1) (y + 2) nil_line left right h (omega arith)
              (omega arith) (omega arith))
          ∙ text-split x ls.items y l left right at (left_items x l) (right_items x l),
    )
