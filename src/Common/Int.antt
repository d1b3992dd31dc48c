-- ===== src/Common/Int.antt =====
-- Go's `int` as a signed integer over the native numbers. Sums and orders go through the two parts
-- of an integer, which are numbers that `omega` reads.
use gocui.Common.{
  ℕ, suc, ◌+◌, ◌-◌, ◌*◌, ◌/◌, ◌≤◌, ◌<◌, ◌≡◌, refl, Bool, true, false, ◌⊎◌, inl, inr, arith, ltb,
  leb, ◌==◌, ltb→lt, ltb→le, if◌then◌else◌,
}

-- `negsuc n` is -(n + 1).
pub data ℤ : Type 0 where
  pos : ℕ → ℤ
  negsuc : ℕ → ℤ

abbrev pub pos_part : ℤ → ℕ
pos_part (pos n) = n
pos_part (negsuc n) = 0

abbrev pub neg_part : ℤ → ℕ
neg_part (pos n) = 0
neg_part (negsuc n) = suc n

-- a - b, as an integer.
abbrev pub sub_ℕ : ℕ → ℕ → ℤ
sub_ℕ a b = if leb b a then pos (a - b) else negsuc (b - a - 1)

infixl 65 ◌+ℤ◌ ◌-ℤ◌
infix 50 ◌≤ℤ◌ ◌<ℤ◌
unfoldable pub ◌+ℤ◌ : ℤ → ℤ → ℤ
a +ℤ b = sub_ℕ (pos_part a + pos_part b) (neg_part a + neg_part b)

unfoldable pub ◌-ℤ◌ : ℤ → ℤ → ℤ
a -ℤ b = sub_ℕ (pos_part a + neg_part b) (neg_part a + pos_part b)

abbrev pub ◌≤ℤ◌ : ℤ → ℤ → Type 0
a ≤ℤ b = pos_part a + neg_part b ≤ pos_part b + neg_part a

abbrev pub ◌<ℤ◌ : ℤ → ℤ → Type 0
a <ℤ b = pos_part a + neg_part b < pos_part b + neg_part a

abbrev pub ltb_ℤ : ℤ → ℤ → Bool
ltb_ℤ a b = ltb (pos_part a + neg_part b) (pos_part b + neg_part a)

abbrev pub leb_ℤ : ℤ → ℤ → Bool
leb_ℤ a b = leb (pos_part a + neg_part b) (pos_part b + neg_part a)

abbrev pub eqb_ℤ : ℤ → ℤ → Bool
eqb_ℤ a b = (pos_part a + neg_part b) == (pos_part b + neg_part a)

-- One lemma for each operation lets `omega` work with the operations shut, at any depth.
pub +ℤ_parts :
    (a b : ℤ)
    → pos_part (a +ℤ b) + neg_part a + neg_part b ≡ neg_part (a +ℤ b) + pos_part a + pos_part b
unfolding ◌+ℤ◌
+ℤ_parts a b = ground arith

pub -ℤ_parts :
    (a b : ℤ)
    → pos_part (a -ℤ b) + neg_part a + pos_part b ≡ neg_part (a -ℤ b) + pos_part a + neg_part b
unfolding ◌-ℤ◌
-ℤ_parts a b = ground arith

pub eq_of_parts : (a b : ℤ) → pos_part a + neg_part b ≡ pos_part b + neg_part a → a ≡ b
eq_of_parts a b h = ground arith

pub ruleset int_laws = (arith, +ℤ_parts, -ℤ_parts, eq_of_parts)

-- A split on a comparison that keeps the order.
pub ltb_ℤ-cases : (a b : ℤ) → ((ltb_ℤ a b ≡ true) × (a <ℤ b)) ⊎ ((ltb_ℤ a b ≡ false) × (b ≤ℤ a))
ltb_ℤ-cases a b = ground arith

-- Steps from a position that is not negative.
pub step_on : (a : ℤ) (n k : ℕ) → a ≡ pos n → a +ℤ pos k ≡ pos (n + k)
unfolding ◌+ℤ◌
step_on a n k e = rw e (ground arith)

pub step_back : (a : ℤ) (n : ℕ) → a ≡ pos (suc n) → a +ℤ negsuc 0 ≡ pos n
unfolding ◌+ℤ◌
step_back a n e = rw e (ground arith)

pub step_out : (a : ℤ) → a ≡ pos 0 → a +ℤ negsuc 0 ≡ negsuc 0
unfolding ◌+ℤ◌
step_out a e = rw e (ground arith)

pub pred_pos : (a : ℤ) (n : ℕ) → a ≡ pos (suc n) → a -ℤ pos 1 ≡ pos n
unfolding ◌-ℤ◌
pred_pos a n e = rw e (ground arith)

pub stay_on : (a : ℤ) → a +ℤ pos 0 ≡ a
unfolding ◌+ℤ◌
stay_on a = ground arith
