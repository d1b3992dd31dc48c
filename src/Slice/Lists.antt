-- ===== src/Slice/Lists.antt =====
-- Go's `copy` on the elements of a slice, and list laws that the slice operations rest on.
use gocui.Common.{
  ℕ, zero, suc, ◌+◌, ◌≤◌, ◌≡◌, refl, ap, List, [], ◌∷◌, ◌++◌, arith, length, take, drop,
}

module _ {ℓ} {A : Type ℓ} where
  -- `copy(xs, src)`: as many elements as both have.
  abbrev pub copy : List A → List A → List A
  copy [] src = []
  copy (x ∷ xs) [] = x ∷ xs
  copy (x ∷ xs) (y ∷ ys) = y ∷ copy xs ys

  -- `copy(xs[a:], src)`
  abbrev pub copy_at : List A → ℕ → List A → List A
  copy_at xs zero src = copy xs src
  copy_at [] (suc a) src = []
  copy_at (x ∷ xs) (suc a) src = x ∷ copy_at xs a src

  pub take_all : (n : ℕ) (xs : List A) → length xs ≤ n → take n xs ≡ xs
  take_all zero [] h = refl
  take_all zero (x ∷ xs) h = elim h [ ]
  take_all (suc n) [] h = refl
  take_all (suc n) (x ∷ xs) h = ap (x ∷◌) (take_all n xs (omega arith))

  pub drop_all : (n : ℕ) (xs : List A) → length xs ≤ n → drop n xs ≡ []
  drop_all zero [] h = refl
  drop_all zero (x ∷ xs) h = elim h [ ]
  drop_all (suc n) [] h = refl
  drop_all (suc n) (x ∷ xs) h = drop_all n xs (omega arith)

  pub take-append : (n : ℕ) (xs ys : List A) → length xs ≡ n → take n (xs ++ ys) ≡ xs
  take-append zero [] ys h = refl
  take-append zero (x ∷ xs) ys h = absurd (omega arith)
  take-append (suc n) [] ys h = absurd (omega arith)
  take-append (suc n) (x ∷ xs) ys h = ap (x ∷◌) (take-append n xs ys (omega arith))

  pub drop-append : (n : ℕ) (xs ys : List A) → length xs ≡ n → drop n (xs ++ ys) ≡ ys
  drop-append zero [] ys h = refl
  drop-append zero (x ∷ xs) ys h = absurd (omega arith)
  drop-append (suc n) [] ys h = absurd (omega arith)
  drop-append (suc n) (x ∷ xs) ys h = drop-append n xs ys (omega arith)

  pub take-append_le : (n : ℕ) (xs ys : List A) → n ≤ length xs → take n (xs ++ ys) ≡ take n xs
  take-append_le zero xs ys h = refl
  take-append_le (suc n) [] ys h = absurd (omega arith)
  take-append_le (suc n) (x ∷ xs) ys h = ap (x ∷◌) (take-append_le n xs ys (omega arith))

  pub take-append-drop : (n : ℕ) (xs : List A) → take n xs ++ drop n xs ≡ xs
  take-append-drop zero xs = refl
  take-append-drop (suc n) [] = refl
  take-append-drop (suc n) (x ∷ xs) = ap (x ∷◌) (take-append-drop n xs)

  pub length-copy : (xs src : List A) → length (copy xs src) ≡ length xs
  length-copy [] src = refl
  length-copy (x ∷ xs) [] = refl
  length-copy (x ∷ xs) (y ∷ ys) = ap suc (length-copy xs ys)

  pub length-copy_at : (xs : List A) (a : ℕ) (src : List A) → length (copy_at xs a src) ≡ length xs
  length-copy_at xs zero src = length-copy xs src
  length-copy_at [] (suc a) src = refl
  length-copy_at (x ∷ xs) (suc a) src = ap suc (length-copy_at xs a src)

  -- Shifting the elements behind `a` by one place doubles the one at `a` and loses the last.
  pub copy-shift : (x : A) (xs : List A) (l : A) → copy (xs ++ l ∷ []) (x ∷ (xs ++ l ∷ [])) ≡ x ∷ xs
  copy-shift x [] l = refl
  copy-shift x (y ∷ ys) l = ap (x ∷◌) (copy-shift y ys l)

  pub drop-drop : (n k j : ℕ) (xs : List A) → j ≡ n + k → drop j xs ≡ drop k (drop n xs)
  drop-drop zero k j xs e = ap (λ i. drop i xs) (omega arith)
  drop-drop (suc n) k zero xs e = absurd (omega arith)
  drop-drop (suc n) zero (suc j) [] e = refl
  drop-drop (suc n) (suc k) (suc j) [] e = refl
  drop-drop (suc n) k (suc j) (x ∷ xs) e = drop-drop n k j xs (omega arith)
