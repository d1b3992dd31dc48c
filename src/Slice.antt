-- ===== src/Slice.antt =====
-- Go slices: the elements of a slice, and those that its array holds behind them up to the
-- capacity. What `append` allocates is the runtime's, so the room it adds is a parameter.
mod Lists
pub mod Laws
pub use Lists.*
use gocui.Common.{
  ℕ, ◌+◌, ◌-◌, List, [], ◌∷◌, panic, ◌++◌, Outcome, ok, panic, out_of_fuel, ltb, leb, if◌then◌else◌,
  length, take, drop, replicate, zero, suc, set,
}

pub record Slice {ℓ} (A : Type ℓ) : Type ℓ where
  pub items : List A
  pub spare : List A

-- The room that an allocation leaves behind the elements, from the old capacity and the new length.
abbrev pub Growth : Type 0
Growth = ℕ → ℕ → ℕ

module _ {ℓ} {A : Type ℓ} where
  abbrev pub len : Slice A → ℕ
  len s = length s.items

  -- The whole array: `s[:cap(s)]`.
  abbrev pub full : Slice A → List A
  full s = s.items ++ s.spare

  abbrev pub cap_of : Slice A → ℕ
  cap_of s = length (full s)

  -- `s[:n]`, for n up to the capacity.
  abbrev pub reslice : Slice A → ℕ → Slice A
  reslice s n = record { items = take n (full s); spare = drop n (full s) }

  -- A slice with no room, as a literal or `make` gives.
  abbrev pub of_list : List A → Slice A
  of_list xs = record { items = xs; spare = [] }

  -- `append(s, xs...)`, where `z` is the zero value of the elements.
  unfoldable pub append : Growth → A → Slice A → List A → Slice A
  append grow z s xs =
      if leb (length xs) (length s.spare)
      then record { items = s.items ++ xs; spare = drop (length xs) s.spare }
      else record {
        items = s.items ++ xs;
        spare = replicate (grow (cap_of s) (length s.items + length xs)) z;
      }

  -- `xs[i]`
  abbrev pub index : List A → ℕ → Outcome A
  index [] i = panic
  index (x ∷ xs) zero = ok x
  index (x ∷ xs) (suc i) = index xs i

  -- `s[i] = v`, for i below the length.
  abbrev pub set_item : Slice A → ℕ → A → Slice A
  set_item s i v = record s { items = set s.items i v }

  -- A loop `for len(s) < n`: it takes in what the array holds behind the slice, and appends a zero
  -- value when there is no room.
  unfoldable pub extend : Growth → A → ℕ → ℕ → Slice A → Outcome (Slice A)
  extend grow z zero n s = if ltb (len s) n then out_of_fuel else ok s
  extend grow z (suc fuel) n s =
      let more = extend grow z fuel n (
        if ltb (len s) (cap_of s)
        then reslice s (if ltb n (cap_of s) then n else cap_of s)
        else append grow z s (replicate 1 z)) in
      if ltb (len s) n then more else ok s
