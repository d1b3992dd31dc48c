-- ===== src/Buffer/RowLaws.antt =====
-- What the methods on a line do to the cells that a reader sees: the capacity does not matter.
use native.Mathlib.Decide.{dec_le}
use gocui.Common.{
  ℕ, zero, suc, ◌+◌, ◌-◌, ◌≤◌, ◌<◌, ◌≡◌, refl, sym, ap, ap₂, ◌∙◌, ◌⊎◌, leb→le, List, [], ◌∷◌, ◌++◌,
  Bool, true, false, ok, arith, length, take, drop, replicate, set, length-append, length-take,
  length-drop, length-replicate, append-nil, append_assoc, lt→ltb, le→ltb, ltb→lt, ltb→le,
  Bool-cases, inl, inr, ltb, leb, if◌then◌else◌, le→leb, lt→leb, not, ◌&&◌, ◌||◌,
}
use gocui.Slice.{
  Growth, append, len, full, cap_of, reslice, of_list, copy, copy_at, take_all, drop_all,
  copy-shift, take-append_le, take-append, take-append-drop,
}
use gocui.Slice.Laws.{items-append, take-append_add}
use gocui.Cell.{Cell, blank, Line}
use gocui.Buffer.Row.{write_cells_line, write_rune_line, delete_rune_line, place, placed, moved}
use gocui.Buffer.Spec.{put, overlay, remove, pad_to}

module _ {ℓ} {A : Type ℓ} where
  copy-split :
      (zs src : List A) → length src ≤ length zs → copy zs src ≡ src ++ drop (length src) zs
  copy-split [] [] h = refl
  copy-split [] (y ∷ src) h = absurd (omega arith)
  copy-split (z ∷ zs) [] h = refl
  copy-split (z ∷ zs) (y ∷ src) h = ap (y ∷◌) (copy-split zs src (omega arith))

  copy_at-split :
      (zs : List A) (x k : ℕ) (src : List A)
      → k ≡ x + length src
      → k ≤ length zs
      → copy_at zs x src ≡ take x zs ++ (src ++ drop k zs)
  copy_at-split zs zero k src e h =
      copy-split zs src (omega arith) ∙ ap (λ i. src ++ drop i zs) (omega arith)
  copy_at-split [] (suc x) k src e h = absurd (omega arith)
  copy_at-split (z ∷ zs) (suc x) zero src e h = absurd (omega arith)
  copy_at-split (z ∷ zs) (suc x) (suc k) src e h =
      ap (z ∷◌) (copy_at-split zs x k src (omega arith) (omega arith))

  pub drop-append_le :
      (n : ℕ) (xs ys : List A) → n ≤ length xs → drop n (xs ++ ys) ≡ drop n xs ++ ys
  drop-append_le zero xs ys h = refl
  drop-append_le (suc n) [] ys h = absurd (omega arith)
  drop-append_le (suc n) (x ∷ xs) ys h = drop-append_le n xs ys (omega arith)

  pub drop-append_add :
      (j k : ℕ) (xs ys : List A) → j ≡ length xs + k → drop j (xs ++ ys) ≡ drop k ys
  drop-append_add j k [] ys h = ap (λ i. drop i ys) (omega arith)
  drop-append_add zero k (x ∷ xs) ys h = absurd (omega arith)
  drop-append_add (suc j) k (x ∷ xs) ys h = drop-append_add j k xs ys (omega arith)

  -- The elements from k up to n, where n is the end of xs or k.
  take-drop_between :
      (n k : ℕ) (xs ys : List A)
      → n ≡ (if ltb k (length xs) then length xs else k)
      → take (n - k) (drop k (xs ++ ys)) ≡ drop k xs
  take-drop_between n k xs ys e = elim (Bool-cases (ltb k (length xs))) [
    | inl lt ↦
        let m : n ≡ length xs = rw lt at e in
        let l = ltb→lt k (length xs) lt in
        rw (drop-append_le k xs ys (omega arith))
          (take-append (n - k) (drop k xs) ys (omega (arith, length-drop k xs)))
    | inr ge ↦
        let m : n ≡ k = rw ge at e in
        let z : n - k ≡ 0 = omega arith in rw z (sym (drop_all k xs (ltb→le k (length xs) ge)))
  ]

  set-split :
      (xs : List A) (x : ℕ) (c : A) → x < length xs → set xs x c ≡ take x xs ++ c ∷ drop (x + 1) xs
  set-split [] x c h = elim h [ ]
  set-split (y ∷ xs) zero c h = refl
  set-split (y ∷ xs) (suc x) c h =
      ap (y ∷◌) (set-split xs x c (omega arith))
      ∙ ap (λ i. y ∷ take x xs ++ c ∷ drop i (y ∷ xs)) {x = suc (x + 1)} (omega arith)

  copy_at_end : (zs : List A) (a : ℕ) (src : List A) → length zs ≤ a → copy_at zs a src ≡ zs
  copy_at_end [] zero src h = refl
  copy_at_end [] (suc a) src h = refl
  copy_at_end (z ∷ zs) zero src h = elim h [ ]
  copy_at_end (z ∷ zs) (suc a) src h = ap (z ∷◌) (copy_at_end zs a src (omega arith))

  -- Shifting the elements from x on by one place and writing at x inserts.
  insert-shift :
      (xs : List A) (b c : A) (x : ℕ)
      → x ≤ length xs
      → set (copy_at (xs ++ b ∷ []) (suc x) (drop x (xs ++ b ∷ []))) x c
        ≡ take x xs ++ c ∷ drop x xs
  insert-shift [] b c zero h = refl
  insert-shift [] b c (suc x) h = absurd (omega arith)
  insert-shift (y ∷ ys) b c zero h = ap (c ∷◌) (copy-shift y ys b)
  insert-shift (y ∷ ys) b c (suc x) h = ap (y ∷◌) (insert-shift ys b c x (omega arith))

  set-append_end :
      (p : List A) (x : ℕ) (b c : A) → length p ≡ x → set (p ++ b ∷ []) x c ≡ p ++ c ∷ []
  set-append_end [] zero b c h = refl
  set-append_end [] (suc x) b c h = absurd (omega arith)
  set-append_end (y ∷ p) zero b c h = absurd (omega arith)
  set-append_end (y ∷ p) (suc x) b c h = ap (y ∷◌) (set-append_end p x b c (omega arith))

  replicate_end : (n m : ℕ) (b : A) → m ≡ n + 1 → replicate m b ≡ replicate n b ++ b ∷ []
  replicate_end n zero b h = absurd (omega arith)
  replicate_end zero (suc zero) b h = refl
  replicate_end zero (suc (suc m)) b h = absurd (omega arith)
  replicate_end (suc n) (suc m) b h = ap (b ∷◌) (replicate_end n m b (omega arith))

module _ (grow : Growth) where
  -- The line when the cells do not fit into the array, and when they do.
  abbrev over_line : ℕ → List Cell → Line → Line
  over_line x cells s =
      append grow blank (of_list (copy_at (full s) x (take (cap_of s - x) cells)))
        (drop (cap_of s - x) cells)

  abbrev within_line : ℕ → List Cell → Line → Line
  within_line x cells s =
      reslice (of_list (copy_at (full s) x cells))
        (if ltb (x + length cells) (len s) then len s else x + length cells)

  over_items :
      (x : ℕ) (cells : List Cell) (s : Line)
      → x ≤ len s
      → cap_of s - x < length cells
      → (over_line x cells s).items ≡ overlay x cells s.items
  over_items x cells s h more =
      let room = length-append s.items s.spare in
      let m = cap_of s - x in
      let split =
        copy_at-split (full s) x (cap_of s) (take m cells) (omega (arith, length-take m cells))
          (omega arith) in
      items-append grow blank _ _
      ∙ ap (λ l. l ++ drop m cells)
          (split
            ∙ ap (λ l. take x (full s) ++ (take m cells ++ l))
                (drop_all (cap_of s) (full s) (omega arith)))
      ∙ simp (
        append-nil,
        append_assoc,
        take-append-drop m cells,
        take-append_le x s.items s.spare h,
        drop_all (x + length cells) s.items (omega arith),
      )

  above_k : (k n : ℕ) → k ≤ (if ltb k n then n else k)
  above_k k n = ground arith

  within_items :
      (x : ℕ) (cells : List Cell) (s : Line)
      → x ≤ len s
      → length cells ≤ cap_of s - x
      → (within_line x cells s).items ≡ overlay x cells s.items
  within_items x cells s h fits =
      let room = length-append s.items s.spare in
      let k = x + length cells in
      let n = (if ltb k (len s) then len s else k) in
      let at_x : length (take x (full s)) ≡ x = omega (arith, length-take x (full s)) in
      let above : k ≤ n = above_k k (len s) in
      let split = copy_at-split (full s) x k cells refl (omega arith) in
      ap (take n) (append-nil _ ∙ split)
      ∙ take-append_add n (n - x) (take x (full s)) (cells ++ drop k (full s)) (omega (arith, at_x))
      ∙ ap (take x (full s) ++◌) (
          take-append_add (n - x) (n - k) cells (drop k (full s)) (omega arith)
          ∙ ap (cells ++◌) (take-drop_between n k s.items s.spare refl))
      ∙ ap (λ l. l ++ (cells ++ drop k s.items)) (take-append_le x s.items s.spare h)

  pub write_cells_line_lem :
      (x : ℕ) (cells : List Cell) (s : Line)
      → x ≤ len s
      → (t : Line) × (write_cells_line grow x cells s ≡ ok t) × (t.items ≡ overlay x cells s.items)
  unfolding write_cells_line
  write_cells_line_lem x cells s h =
      let room = length-append s.items s.spare in
      rw (le→ltb (cap_of s) x (omega arith))
        (elim (Bool-cases (ltb (cap_of s - x) (length cells))) [
          | inl more ↦ (over_line x cells s, rw more, over_items x cells s h (ltb→lt _ _ more))
          | inr fits ↦ (within_line x cells s, rw fits, within_items x cells s h (ltb→le _ _ fits))
        ])

  pub items-delete_rune_line :
      (x : ℕ) (s : Line) → x < len s → (delete_rune_line grow x s).items ≡ remove x s.items
  unfolding delete_rune_line
  items-delete_rune_line x s h =
      items-append grow blank _ _
      ∙ ap (λ l. l ++ drop (x + 1) s.items) (take-append_le x s.items s.spare (omega arith))

  place_lem :
      (moves : Bool) (x : ℕ) (c : Cell) (t : Line)
      → x < len t
      → place moves x c t ≡ ok (placed moves x c t)
  unfolding place
  place_lem moves x c t h = rw (lt→ltb x (len t) h)

  -- A line after the rune is put, by the cells that it has before.
  abbrev Put : Bool → Bool → ℕ → Cell → Line → List Cell → Type 0
  Put moves overwrite x c s room =
      (t : Line) × (place moves x c (append grow blank s room) ≡ ok t)
      × (t.items ≡ put overwrite x c s.items)

  put_by :
      (moves overwrite : Bool) (x : ℕ) (c : Cell) (s : Line) (room : List Cell)
      → x < len s + length room
      → set (moved moves x (s.items ++ room)) x c ≡ put overwrite x c s.items
      → Put moves overwrite x c s room
  put_by moves overwrite x c s room h e =
      let t = append grow blank s room in
      let shown : t.items ≡ s.items ++ room = items-append grow blank s room in
      let long : len t ≡ len s + length room = ap length shown ∙ length-append s.items room in
      (
        placed moves x c t,
        place_lem moves x c t (omega arith),
        ap (λ l. set (moved moves x l) x c) shown ∙ e,
      )

  moved_end : (moves : Bool) (x : ℕ) (xs : List Cell) → length xs ≤ x + 1 → moved moves x xs ≡ xs
  moved_end true x xs h = copy_at_end xs (x + 1) (drop x xs) h
  moved_end false x xs h = refl

  put_column : (overwrite : Bool) (x : ℕ) → x ≤ (if overwrite then x + 1 else x)
  put_column overwrite x = ground arith

  -- Behind the end of the line: blanks up to x, then the rune.
  behind_end :
      (moves overwrite : Bool) (x : ℕ) (c : Cell) (s : Line)
      → len s ≤ x
      → Put moves overwrite x c s (replicate (x - len s + 1) blank)
  behind_end moves overwrite x c s h =
      let k = x - len s in
      let p = pad_to x s.items in
      let long : length p ≡ x =
        length-append s.items (replicate k blank) ∙ omega (arith, length-replicate k blank) in
      let end : s.items ++ replicate (k + 1) blank ≡ p ++ blank ∷ [] =
        ap (s.items ++◌) (replicate_end k (k + 1) blank refl)
        ∙ sym (append_assoc s.items (replicate k blank) (blank ∷ [])) in
      put_by moves overwrite x c s (replicate (k + 1) blank)
        (omega (arith, length-replicate (k + 1) blank))
        (ap (λ l. set (moved moves x l) x c) end
          ∙ ap (λ l. set l x c)
              (moved_end moves x (p ++ blank ∷ []) (omega (arith, length-append p (blank ∷ []))))
          ∙ set-append_end p x blank c long
          ∙ sym (
              ap₂ (λ a b. a ++ c ∷ b) (take_all x p (omega arith))
                (drop_all (if overwrite then x + 1 else x) p
                  (omega (arith, put_column overwrite x)))))

  -- Within the line, in front of the rune at x.
  before_end : (x : ℕ) (c : Cell) (s : Line) → x < len s → Put true false x c s (blank ∷ [])
  before_end x c s h =
      let nothing : x - len s ≡ 0 = omega arith in
      put_by true false x c s (blank ∷ []) (omega arith) (
        ap (λ i. set (copy_at (s.items ++ blank ∷ []) i (drop x (s.items ++ blank ∷ []))) x c)
          {y = suc x} (omega arith)
        ∙ insert-shift s.items blank c x (omega arith)
        ∙ rw nothing (rw (append-nil s.items)))

  -- Within the line, over the rune at x.
  over_cell : (x : ℕ) (c : Cell) (s : Line) → x < len s → Put (leb (len s) (x + 1)) true x c s []
  over_cell x c s h =
      let nothing : x - len s ≡ 0 = omega arith in
      put_by (leb (len s) (x + 1)) true x c s [] (omega arith) (
        ap (λ l. set l x c) (kept (Bool-cases (leb (len s) (x + 1))))
        ∙ set-split s.items x c h
        ∙ rw nothing (rw (append-nil s.items)))
    where
      kept :
          ((leb (len s) (x + 1) ≡ true) ⊎ (leb (len s) (x + 1) ≡ false))
          → moved (leb (len s) (x + 1)) x (s.items ++ []) ≡ s.items
      kept (inl e) = rw (append-nil s.items) (moved_end _ x s.items (leb→le _ _ e))
      kept (inr e) = rw (append-nil s.items, e)

  pub write_rune_line_lem :
      (overwrite : Bool) (x : ℕ) (c : Cell) (s : Line)
      → (t : Line) × (write_rune_line grow overwrite x c s ≡ ok t)
        × (t.items ≡ put overwrite x c s.items)
  unfolding write_rune_line
  write_rune_line_lem overwrite x c s = elim (dec_le (len s) x) [
    | yes behind ↦ rw (le→leb (len s) x behind) (behind_end _ overwrite x c s behind)
    | no within ↦ rw (lt→leb (len s) x (omega arith)) (by_mode overwrite (omega arith))
  ]
    where
      by_mode :
          (b : Bool)
          → x < len s
          → Put (not b || (b && leb (len s) (x + 1))) b x c s (if not b then blank ∷ [] else [])
      by_mode true h = over_cell x c s h
      by_mode false h = before_end x c s h
