-- ===== src/Escape/Params.antt =====
-- The interpreter's state, and its parameters as digit strings.
use gocui.Common.{
  ℕ, ◌+◌, ◌-◌, ◌*◌, ◌^◌, List, [], ◌∷◌, ◌++◌, Bool, true, false, ◌&&◌, Option, none, some, Outcome,
  ok, panic, ltb, leb, if◌then◌else◌,
}
use gocui.Attribute.{OutputMode}

-- `escapeState`
pub data EscapeState : Type 0 where
  state_none state_escape state_csi state_params : EscapeState

-- errNotCSI, errCSIParseError, errCSITooLong
pub data EscapeError : Type 0 where
  not_csi csi_parse_error csi_too_long : EscapeError

-- `escapeInterpreter`
pub record EscapeInterpreter : Type 0 where
  pub state : EscapeState
  pub curch : ℕ
  pub csi_param : List (List ℕ)
  pub cur_fg_color : ℕ
  pub cur_bg_color : ℕ
  pub mode : OutputMode

abbrev pub is_digit : ℕ → Bool
is_digit ch = leb b'0' ch && leb ch b'9'

abbrev pub last_or_nil : List (List ℕ) → List ℕ
last_or_nil [] = []
last_or_nil (s ∷ []) = s
last_or_nil (s ∷ t ∷ ss) = last_or_nil (t ∷ ss)

-- `csiParam[len(csiParam)-1] += string(ch)`
abbrev pub add_to_last : List (List ℕ) → ℕ → Outcome (List (List ℕ))
add_to_last [] ch = panic
add_to_last (s ∷ []) ch = ok ((s ++ ch ∷ []) ∷ [])
add_to_last (s ∷ t ∷ ss) ch = elim (add_to_last (t ∷ ss) ch) [
  | ok r ↦ ok (s ∷ r)
  | panic ↦ panic
  | Outcome.out_of_fuel ↦ Outcome.out_of_fuel
]

-- The value of a string of digits, none if there is another character.
abbrev pub digits_value : ℕ → List ℕ → Option ℕ
digits_value acc [] = some acc
digits_value acc (c ∷ cs) = elim (is_digit c) [
  | true ↦ digits_value (acc * 10 + (c - b'0')) cs
  | false ↦ none
]

-- `strconv.Atoi` on a string of digits, for a 64-bit int: an error for the empty string and behind
-- the largest int. The interpreter collects digits only, so signs are left out.
abbrev pub atoi : List ℕ → Option ℕ
atoi [] = none
atoi (c ∷ cs) = elim (digits_value 0 (c ∷ cs)) [
  | none ↦ none
  | some n ↦ if ltb n (2 ^ 63) then some n else none
]

module _ {ℓ} {A : Type ℓ} where
  abbrev pub on_value : Option ℕ → A → (ℕ → A) → A
  on_value none bad use_it = bad
  on_value (some n) bad use_it = use_it n

  -- `n, err := strconv.Atoi(s); if err != nil { return bad }`
  abbrev pub checked : List ℕ → A → (ℕ → A) → A
  checked s bad use_it = on_value (atoi s) bad use_it

-- A property of both ends is one of the whole.
pub checked_rule {ℓ κ} :
    {A : Type ℓ} (P : A → Type κ) (s : List ℕ) (bad : A) (use_it : ℕ → A)
    → P bad
    → ((n : ℕ) → P (use_it n))
    → P (checked s bad use_it)
checked_rule P s bad use_it h k = go (atoi s)
  where
    go : (o : Option ℕ) → P (on_value o bad use_it)
    go none = h
    go (some n) = k n
