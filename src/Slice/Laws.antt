-- ===== src/Slice/Laws.antt =====
-- What a reader of a slice sees of `append` and `extend`.
use native.Mathlib.Decide.{dec_le}
use gocui.Common.{
  ℕ, zero, suc, ◌+◌, ◌-◌, ◌≤◌, ◌<◌, ◌≡◌, refl, sym, ap, ap₂, ◌∙◌, List, [], ◌∷◌, ◌++◌, arith,
  length, replicate, take, drop, ok, ltb, if◌then◌else◌, length-append, length-take, append-nil,
  append_assoc, le→ltb, lt→ltb, max, Bool-cases, inl, inr, ltb→le,
}
use gocui.Slice.{Slice, Growth, append, extend, len, cap_of, reslice, take_all, drop_all}

module _ {ℓ} {A : Type ℓ} where
  -- The first k elements of an array's room, with zero values where it ends.
  abbrev pub pad : A → ℕ → List A → List A
  pad z zero sp = []
  pad z (suc k) [] = z ∷ pad z k []
  pad z (suc k) (y ∷ sp) = y ∷ pad z k sp

  pub length-pad : (z : A) (k : ℕ) (sp : List A) → length (pad z k sp) ≡ k
  length-pad z zero sp = refl
  length-pad z (suc k) [] = ap suc (length-pad z k [])
  length-pad z (suc k) (y ∷ sp) = ap suc (length-pad z k sp)

  pub pad-nil : (z : A) (k : ℕ) → pad z k [] ≡ replicate k z
  pad-nil z zero = refl
  pad-nil z (suc k) = ap (z ∷◌) (pad-nil z k)

  pub pad-replicate : (z : A) (k g : ℕ) → pad z k (replicate g z) ≡ replicate k z
  pad-replicate z zero g = refl
  pad-replicate z (suc k) zero = ap (z ∷◌) (pad-nil z k)
  pad-replicate z (suc k) (suc g) = ap (z ∷◌) (pad-replicate z k g)

  pad-take : (z : A) (k : ℕ) (sp : List A) → k ≤ length sp → pad z k sp ≡ take k sp
  pad-take z zero sp h = refl
  pad-take z (suc k) [] h = absurd (omega arith)
  pad-take z (suc k) (y ∷ sp) h = ap (y ∷◌) (pad-take z k sp (omega arith))

  pad-append : (z : A) (j k : ℕ) (sp : List A) → j ≡ length sp + k → pad z j sp ≡ sp ++ pad z k []
  pad-append z j k [] h = ap (λ i. pad z i []) (omega arith)
  pad-append z zero k (y ∷ sp) h = absurd (omega arith)
  pad-append z (suc j) k (y ∷ sp) h = ap (y ∷◌) (pad-append z j k sp (omega arith))

  pub take-append_add :
      (j k : ℕ) (xs sp : List A) → j ≡ length xs + k → take j (xs ++ sp) ≡ xs ++ take k sp
  take-append_add j k [] sp h = ap (λ i. take i sp) (omega arith)
  take-append_add zero k (x ∷ xs) sp h = absurd (omega arith)
  take-append_add (suc j) k (x ∷ xs) sp h = ap (x ∷◌) (take-append_add j k xs sp (omega arith))

  abbrev slice : List A → List A → Slice A
  slice xs sp = record { items = xs; spare = sp }

module _ {ℓ} {A : Type ℓ} (grow : Growth) (z : A) where
  -- The elements do not depend on the room.
  pub items-append : (s : Slice A) (xs : List A) → (append grow z s xs).items ≡ s.items ++ xs
  unfolding append
  items-append s xs = ground arith

  -- What `extend` makes of a slice that lacks k elements.
  abbrev pub Extended : ℕ → ℕ → ℕ → Slice A → Type ℓ
  Extended fuel n k s =
      (t : Slice A) × (extend grow z fuel n s ≡ ok t) × (t.items ≡ s.items ++ pad z k s.spare)

  extend_done : (fuel n : ℕ) (s : Slice A) → n ≤ len s → Extended fuel n 0 s
  unfolding extend
  extend_done zero n s h = (s, rw (le→ltb (len s) n h), sym (append-nil s.items))
  extend_done (suc fuel) n s h = (s, rw (le→ltb (len s) n h), sym (append-nil s.items))

  -- One round of the loop.
  extend_round : (n : ℕ) → Slice A → Slice A
  extend_round n s =
      if ltb (len s) (cap_of s)
      then reslice s (if ltb n (cap_of s) then n else cap_of s)
      else append grow z s (z ∷ [])

  extend_step :
      (fuel n : ℕ) (s : Slice A)
      → len s < n
      → extend grow z (suc fuel) n s ≡ extend grow z fuel n (extend_round n s)
  unfolding extend extend_round
  extend_step fuel n s h = rw (lt→ltb (len s) n h)

  round_full :
      (n : ℕ) (xs : List A)
      → (g : ℕ) × (extend_round n (slice xs []) ≡ slice (xs ++ z ∷ []) (replicate g z))
  unfolding extend_round append
  round_full n xs = (grow (length (xs ++ [])) (length xs + 1), rw (append-nil xs) (ground arith))

  round_room :
      (n k : ℕ) (xs : List A) (y : A) (sp : List A)
      → n ≡ length xs + k
      → k ≤ length (y ∷ sp)
      → extend_round n (slice xs (y ∷ sp)) ≡ slice (xs ++ take k (y ∷ sp)) (drop n (xs ++ y ∷ sp))
  unfolding extend_round
  round_room n k xs y sp e h =
      let l = length-append xs (y ∷ sp) in
      let c = length (xs ++ y ∷ sp) in
      let r : reslice (slice xs (y ∷ sp)) n
          ≡ slice (xs ++ take k (y ∷ sp)) (drop n (xs ++ y ∷ sp)) =
        ap₂ slice (take-append_add n k xs (y ∷ sp) e) refl in
      rw (lt→ltb (length xs) c (omega arith)) (elim (Bool-cases (ltb n c)) [
        | inl below ↦ rw below r
        | inr at ↦
            let q : c ≡ n = omega (arith, ltb→le n c at) in
            rw at (ap (reslice (slice xs (y ∷ sp))) q ∙ r)
      ])

  round_all :
      (n k : ℕ) (xs : List A) (y : A) (sp : List A)
      → n ≡ length xs + k
      → length (y ∷ sp) < k
      → extend_round n (slice xs (y ∷ sp)) ≡ slice (xs ++ y ∷ sp) []
  unfolding extend_round
  round_all n k xs y sp e h = ground (
    arith,
    length-append xs (y ∷ sp),
    take_all (length (xs ++ y ∷ sp)) (xs ++ y ∷ sp),
    drop_all (length (xs ++ y ∷ sp)) (xs ++ y ∷ sp),
  )

  extend_items :
      (fuel n k : ℕ) (xs sp : List A)
      → n ≡ length xs + k
      → k ≤ fuel
      → Extended fuel n k (slice xs sp)
  extend_items fuel n zero xs sp e h = extend_done fuel n _ (omega arith)
  extend_items zero n (suc k) xs sp e h = absurd (omega arith)
  extend_items (suc fuel) n (suc k) xs [] e h =
      let (g, r) = round_full n xs in
      let (t, run, items) =
        extend_items fuel n k (xs ++ z ∷ []) (replicate g z)
          (omega (arith, length-append xs (z ∷ []))) (omega arith) in
      (
        t,
        extend_step fuel n (slice xs []) (omega arith) ∙ ap (extend grow z fuel n) r ∙ run,
        items
            ∙ append_assoc xs (z ∷ []) (pad z k (replicate g z))
            ∙ ap (λ l. xs ++ z ∷ l) (pad-replicate z k g ∙ sym (pad-nil z k)),
      )
  extend_items (suc fuel) n (suc k) xs (y ∷ sp) e h = elim (dec_le (suc k) (length (y ∷ sp))) [
    | yes fits ↦
        let r = round_room n (suc k) xs y sp e fits in
        let (t, run, items) =
          extend_done fuel n (slice (xs ++ take (suc k) (y ∷ sp)) (drop n (xs ++ y ∷ sp))) (
            omega
              (arith, length-append xs (take (suc k) (y ∷ sp)), length-take (suc k) (y ∷ sp))) in
        (
          t,
          extend_step fuel n (slice xs (y ∷ sp)) (omega arith) ∙ ap (extend grow z fuel n) r ∙ run,
          items ∙ append-nil _ ∙ ap (xs ++◌) (sym (pad-take z (suc k) (y ∷ sp) fits)),
        )
    | no short ↦
        let r = round_all n (suc k) xs y sp e (omega arith) in
        let (t, run, items) =
          extend_items fuel n (suc k - length (y ∷ sp)) (xs ++ y ∷ sp) []
            (omega (arith, length-append xs (y ∷ sp))) (omega arith) in
        (
          t,
          extend_step fuel n (slice xs (y ∷ sp)) (omega arith) ∙ ap (extend grow z fuel n) r ∙ run,
          items
              ∙ append_assoc xs (y ∷ sp) _
              ∙ ap (xs ++◌)
                  (sym (pad-append z (suc k) (suc k - length (y ∷ sp)) (y ∷ sp) (omega arith))),
        )
  ]

  -- With as many rounds as elements are missing, the loop ends, and what it adds is the room that
  -- the array had, then zero values.
  pub extend_lem : (fuel n : ℕ) (s : Slice A) → n ≤ fuel + len s → Extended fuel n (n - len s) s
  extend_lem fuel n s h = elim (dec_le (len s) n) [
    | yes below ↦ extend_items fuel n (n - len s) s.items s.spare (omega arith) (omega arith)
    | no above ↦ let e : n - len s ≡ 0 = omega arith in rw e (extend_done fuel n s (omega arith))
  ]

  pub length-extend :
      (fuel n : ℕ) (s t : Slice A)
      → t.items ≡ s.items ++ pad z (n - len s) s.spare
      → (n ≤ len t) × (len t ≡ max n (len s))
  length-extend fuel n s t e =
      let l : len t ≡ len s + (n - len s) =
        ap length e ∙ length-append s.items _ ∙ ap (len s +◌) (length-pad z (n - len s) s.spare) in
      (omega arith, omega arith)
