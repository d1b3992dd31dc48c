-- ===== src/Buffer/Spec.antt =====
-- What the buffer's methods mean on plain lists of cells, with no capacity in sight. A line that
-- the text lacks reads as an empty one.
use gocui.Common.{
  ℕ, zero, suc, ◌+◌, ◌-◌, List, [], ◌∷◌, ◌++◌, Bool, if◌then◌else◌, length, take, drop, replicate,
  map,
}
use gocui.Cell.{Cell, blank, Line, Lines}

-- The cells that a reader of the buffer sees.
abbrev pub text : Lines → List (List Cell)
text ls = map (λ (l : Line). l.items) ls.items

-- The line with blanks up to column x.
abbrev pub pad_to : ℕ → List Cell → List Cell
pad_to x l = l ++ replicate (x - length l) blank

-- A rune put at column x: in the place of the one there, or before it.
abbrev pub put : Bool → ℕ → Cell → List Cell → List Cell
put overwrite x c l = take x (pad_to x l) ++ c ∷ drop (if overwrite then x + 1 else x) (pad_to x l)

abbrev pub overlay : ℕ → List Cell → List Cell → List Cell
overlay x cells l = take x l ++ (cells ++ drop (x + length cells) l)

abbrev pub remove : ℕ → List Cell → List Cell
remove x l = take x l ++ drop (x + 1) l

module _ {ℓ} {A : Type ℓ} where
  -- The element at y replaced, with copies of d before it where the list is too short.
  abbrev pub update_at : (A → A) → A → ℕ → List A → List A
  update_at f d zero [] = f d ∷ []
  update_at f d zero (l ∷ ls) = f l ∷ ls
  update_at f d (suc y) [] = d ∷ update_at f d y []
  update_at f d (suc y) (l ∷ ls) = l ∷ update_at f d y ls

  -- Line y broken in front of its element x.
  abbrev pub split_line : ℕ → ℕ → List (List A) → List (List A)
  split_line x y [] = []
  split_line x zero (l ∷ ls) = take x l ∷ drop x l ∷ ls
  split_line x (suc y) (l ∷ ls) = l ∷ split_line x y ls

  -- Line y joined with the one behind it.
  abbrev pub join_line : ℕ → List (List A) → List (List A)
  join_line y [] = []
  join_line y (l ∷ []) = l ∷ []
  join_line zero (l ∷ m ∷ ls) = (l ++ m) ∷ ls
  join_line (suc y) (l ∷ m ∷ ls) = l ∷ join_line y (m ∷ ls)
