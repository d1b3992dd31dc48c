-- ===== src/Strings/Word.antt =====
-- `Word`: the stretch without spaces around a column.
use mathlib.Core.Path.{subst}
use gocui.Common.{
  ℕ, zero, suc, ◌+◌, ◌≤◌, ◌<◌, ◌≡◌, refl, sym, ap, ap₂, ◌∙◌, ◌⊎◌, inl, inr, List, [], ◌∷◌, ◌++◌,
  append_assoc, arith, true, false, Bool-cases, none, some, length, length-append, length-take,
  length-drop, take, drop, ok, lt→ltb, lt→leb,
}
use gocui.Slice.{take-append, drop-append, take-append-drop}
use gocui.Slice.{len, index}
use gocui.Cell.{Cell, Line}
use gocui.Common.Int.{pos}
use gocui.View.{View}
use gocui.Buffer.Text.{index-lt}
use gocui.Read.Reader.{chars, Ascii}
use gocui.Strings.{
  line_string, word, index_func, index_from, last_index_from, word_start, word_end, word_at,
}

abbrev pub NoSpace : List ℕ → Type 0
NoSpace [] = Unit
NoSpace (b ∷ bs) = (index_func b ≡ false) × NoSpace bs

NoSpace-append : (p q : List ℕ) → NoSpace p → NoSpace q → NoSpace (p ++ q)
NoSpace-append [] q h k = k
NoSpace-append (b ∷ p) q h k = (h.0, NoSpace-append p q h.1 k)

-- Nothing, or a space first; nothing, or a space last.
abbrev pub BeginsWithSpace : List ℕ → Type 0
BeginsWithSpace [] = Unit
BeginsWithSpace (b ∷ bs) = index_func b ≡ true

abbrev pub EndsWithSpace : List ℕ → Type 0
EndsWithSpace [] = Unit
EndsWithSpace (b ∷ []) = index_func b ≡ true
EndsWithSpace (b ∷ c ∷ bs) = EndsWithSpace (c ∷ bs)

-- The part in front of the first space.
abbrev Right : ℕ → List ℕ → Type 0
Right i s =
    (e r : List ℕ) × (s ≡ e ++ r)
    × NoSpace e
    × BeginsWithSpace r
    × (((index_from i s ≡ none) × (r ≡ [])) ⊎ (index_from i s ≡ some (i + length e)))

before_space : (i : ℕ) (s : List ℕ) → Right i s
before_space i [] = ([], [], refl, tt, tt, inl (refl, refl))
before_space i (b ∷ s) = elim (Bool-cases (index_func b)) [
  | inl y ↦ ([], b ∷ s, refl, tt, y, inr (rw y (ap some (omega arith))))
  | inr n ↦
      (let (e, r, q, none_in, begins, found) = before_space (suc i) s in
        (
          b ∷ e,
          r,
          ap (b ∷◌) q,
          (n, none_in),
          begins,
          rw n (elim found [ inl (a, c) ↦ inl (a, c) | inr a ↦ inr (a ∙ ap some (omega arith)) ]),
        ))
]

-- The part behind the last space.
abbrev Left : ℕ → List ℕ → Type 0
Left i s =
    (r e : List ℕ) × (s ≡ r ++ e)
    × NoSpace e
    × EndsWithSpace r
    × (((last_index_from i s ≡ none) × (r ≡ []))
        ⊎ ((k : ℕ) × (last_index_from i s ≡ some k) × (suc k ≡ i + length r) × (0 < length r)))

EndsWithSpace-cons : (b c : ℕ) (r : List ℕ) → EndsWithSpace (c ∷ r) → EndsWithSpace (b ∷ c ∷ r)
EndsWithSpace-cons b c r h = h

behind_space : (i : ℕ) (s : List ℕ) → Left i s
behind_space i [] = ([], [], refl, tt, tt, inl (refl, refl))
behind_space i (b ∷ s) = go (behind_space (suc i) s)
  where
    go : Left (suc i) s → Left i (b ∷ s)
    go ([], e, q, none_in, ends, inl (a, c)) = elim (Bool-cases (index_func b)) [
      | inl y ↦
          (b ∷ [], e, ap (b ∷◌) q, none_in, y, inr (i, rw (a, y) refl, omega arith, omega arith))
      | inr n ↦ ([], b ∷ e, ap (b ∷◌) q, (n, none_in), tt, inl (rw (a, n) refl, refl))
    ]
    go ([], e, q, none_in, ends, inr (k, a, c, l)) = absurd (omega (arith, l))
    go (d ∷ r, e, q, none_in, ends, inl (a, c)) = cc
    go (d ∷ r, e, q, none_in, ends, inr (k, a, c, l)) = (
      b ∷ d ∷ r,
      e,
      ap (b ∷◌) q,
      none_in,
      ends,
      inr (k, rw a refl, omega (arith, c), omega arith),
    )

-- The word around a byte that is no space.
abbrev pub IsWord : List ℕ → ℕ → List ℕ → Type 0
IsWord s x w =
    (before after : List ℕ) × (s ≡ before ++ w ++ after)
    × NoSpace w
    × EndsWithSpace before
    × BeginsWithSpace after
    × (length before ≤ x)
    × (x < length before + length w)

cut :
    (r f e t s : List ℕ) (nl nr : ℕ)
    → s ≡ (r ++ f) ++ (e ++ t)
    → nl ≡ length r
    → nr ≡ length (r ++ f) + length e
    → (drop nl (take nr s) ≡ f ++ e) × (s ≡ r ++ (f ++ e) ++ t)
cut r f e t s nl nr h k l =
    let whole : s ≡ ((r ++ f) ++ e) ++ t = h ∙ sym (append_assoc (r ++ f) e t) in
    (
      ap (λ s. drop nl (take nr s)) whole
          ∙ ap (drop nl)
              (take-append nr ((r ++ f) ++ e) t (omega (arith, length-append (r ++ f) e, l)))
          ∙ ap (drop nl) (append_assoc r f e)
          ∙ drop-append nl r (f ++ e) (sym k),
      whole ∙ ap (◌++ t) (append_assoc r f e),
    )

starts : (s : List ℕ) (l : Left 0 s) → word_start (last_index_from 0 s) ≡ length l.0
starts s (r, e, q, a, b, inl (none_in, empty)) = rw (none_in, empty) refl
starts s (r, e, q, a, b, inr (k, at, long, _)) = rw at (omega (arith, long))

ends :
    (x n : ℕ) (s : List ℕ) (p : Right 0 s)
    → n ≡ x + length s
    → word_end x n (index_from 0 s) ≡ x + length p.0
ends x n s (e, r, q, a, b, inl (none_in, empty)) h =
    rw none_in (omega (arith, h, ap length q, length-append e r, ap length empty))
ends x n s (e, r, q, a, b, inr at) h = rw at (omega arith)

-- The part in front of the first space is not empty.
not_empty :
    (e r s : List ℕ) (b : ℕ)
    → b ∷ s ≡ e ++ r
    → index_func b ≡ false
    → BeginsWithSpace r
    → 0 < length e
not_empty [] [] s b h n g = cc
not_empty [] (c ∷ r) s b h n g =
    let same : b ≡ c = cc in absurd (true_ne_false (sym g ∙ ap index_func (sym same) ∙ n))
  where
    true_ne_false : true ≡ false → ⊥
    true_ne_false e = cc
not_empty (c ∷ e) r s b h n g = omega arith

pub word_at-IsWord :
    (s : List ℕ) (x b : ℕ) (rest : List ℕ)
    → drop x s ≡ b ∷ rest
    → index_func b ≡ false
    → IsWord s x (word_at s x)
word_at-IsWord s x b rest h n =
    let left = behind_space 0 (take x s) in
    let right = before_space 0 (drop x s) in
    let (r, f, q, no_f, end_r, _) = left in
    let (e, t, q', no_e, begin_t, _) = right in
    let inside : x < length s = omega (arith, ap length h, length-drop x s) in
    let here : length (r ++ f) ≡ x = ap length (sym q) ∙ length-take x s ∙ omega (arith, inside) in
    let (is, parts) =
      cut r f e t s _ _ (sym (take-append-drop x s) ∙ ap₂ (λ (a b : List ℕ). a ++ b) q q')
        (starts (take x s) left)
        (ends x (length s) (drop x s) right (omega (arith, inside, length-drop x s))
          ∙ ap (λ i. i + length e) (sym here)) in
    let some_e = not_empty e t rest b (sym h ∙ q') n begin_t in
    (
      r,
      t,
      parts ∙ ap (λ w. r ++ w ++ t) (sym is),
      subst NoSpace (sym is) (NoSpace-append f e no_f no_e),
      end_r,
      begin_t,
      omega (arith, here, length-append r f),
      omega (arith, here, length-append r f, length-append f e, ap length is, some_e),
    )

line_string-chars : (l : List Cell) → Ascii (chars l) → line_string l ≡ chars l
line_string-chars [] a = refl
line_string-chars (c ∷ cs) a = rw (lt→ltb c.chr 0x80 a.0) (ap (c.chr ∷◌) (line_string-chars cs a.1))

drop-chars : (x : ℕ) (l : List Cell) → drop x (chars l) ≡ chars (drop x l)
drop-chars zero l = refl
drop-chars (suc x) [] = refl
drop-chars (suc x) (c ∷ l) = drop-chars x l

-- In a line of one-byte runes, at a column whose rune is neither a space nor NUL, Word returns the
-- stretch of the line around the column that has no space or NUL and that such a rune or an end of
-- the line limits on both sides.
pub word-IsWord :
    (v : View) (x y : ℕ) (l : Line) (c : Cell) (cs : List Cell)
    → index v.lines.items y ≡ ok l
    → drop x l.items ≡ c ∷ cs
    → Ascii (chars l.items)
    → index_func c.chr ≡ false
    → (w : List ℕ) × (word (pos x) (pos y) v ≡ ok (w, none)) × IsWord (chars l.items) x w
unfolding word
word-IsWord v x y l c cs at here a n =
    let inside : x < len l = omega (arith, ap length here, length-drop x l.items) in
    let w = word_at (chars l.items) x in
    (
      w,
      rw (lt→leb (len v.lines) y (index-lt v.lines.items y at)) (
          rw at (
            rw (lt→leb (len l) x inside)
              (ap (λ s. ok (word_at s x, none)) (line_string-chars l.items a)))),
      word_at-IsWord (chars l.items) x c.chr (chars cs) (drop-chars x l.items ∙ ap chars here) n,
    )
