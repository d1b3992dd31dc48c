-- ===== src/Keybinding/Parse.antt =====
-- keybinding.go: `Parse`, `ParseAll`, `MustParse` and `MustParseAll`, and `getKey` of gui.go. Upper and
-- lower case are those of ASCII; no name of a key has another letter.
pub mod Names
use gocui.Common.{
  ℕ, ◌+◌, ◌-◌, List, [], ◌∷◌, ◌++◌, Bool, true, false, not, ◌&&◌, ◌||◌, Option, none, some, Outcome,
  ok, panic, leb, ◌==◌, if◌then◌else◌,
}
use gocui.Tcell.{KeyCodes, Modifiers}
use gocui.Keybinding.Codes.{mod_none, mod_alt}
use gocui.Keybinding.Table.{NamedKey, translate}

-- A value of the type `interface{}`: a Key, a rune, or something else.
pub data AnyKey : Type 0 where
  key_value rune_value : ℕ → AnyKey
  other_value : AnyKey

-- `getKey`: key and rune, or none for the error.
abbrev pub get_key : AnyKey → Option (ℕ × ℕ)
get_key (key_value k) = some (k, 0)
get_key (rune_value r) = some (0, r)
get_key other_value = none

abbrev pub same_text : List ℕ → List ℕ → Bool
same_text [] [] = true
same_text [] (c ∷ cs) = false
same_text (b ∷ bs) [] = false
same_text (b ∷ bs) (c ∷ cs) = b == c && same_text bs cs

-- `strings.Split(input, "+")`
abbrev pub cons_head : ℕ → List (List ℕ) → List (List ℕ)
cons_head c [] = (c ∷ []) ∷ []
cons_head c (t ∷ ts) = (c ∷ t) ∷ ts

abbrev pub split : List ℕ → List (List ℕ)
split [] = [] ∷ []
split (c ∷ cs) = let rest = split cs in if c == 43 then [] ∷ rest else cons_head c rest

abbrev pub lower : ℕ → ℕ
lower c = if leb 65 c && leb c 90 then c + 32 else c

abbrev pub upper : ℕ → ℕ
upper c = if leb 97 c && leb c 122 then c - 32 else c

-- Between two words, as `strings.Title` sees it.
abbrev pub is_separator : ℕ → Bool
is_separator c =
    not (
      leb 48 c && leb c 57 || leb 65 c && leb c 90 || leb 97 c && leb c 122 || c == 95 || leb 128 c)

-- `strings.Title(strings.ToLower(t))`, behind a separator or not.
abbrev pub title_from : Bool → List ℕ → List ℕ
title_from sep [] = []
title_from sep (c ∷ cs) =
    (if sep then upper (lower c) else lower c) ∷ title_from (is_separator (lower c)) cs

abbrev pub normalized : List ℕ → List ℕ
normalized t = title_from true t

abbrev pub alt_name : List ℕ
alt_name = b'A' ∷ b'l' ∷ b't' ∷ []

module _ (kc : KeyCodes) (m : Modifiers) where
  -- The loop over the tokens: the modifier and `strings.Join(cleaned, "")`.
  pub record Cleaned : Type 0 where
    pub modifier : ℕ
    pub name : List ℕ

  abbrev pub clean : List (List ℕ) → Cleaned
  clean [] = record { modifier = mod_none; name = [] }
  clean (t ∷ ts) =
      let rest = clean ts in
      if same_text t alt_name
      then record rest { modifier = mod_alt m }
      else record rest { name = normalized t ++ rest.name }

  abbrev pub look_up : List ℕ → List NamedKey → Option ℕ
  look_up name [] = none
  look_up name (e ∷ es) =
      let rest = look_up name es in if same_text e.name name then some e.key else rest

  abbrev pub found : ℕ → Option ℕ → Option (AnyKey × ℕ)
  found modifier none = none
  found modifier (some k) = some (key_value k, modifier)

  abbrev pub parse_name : List ℕ → Option (AnyKey × ℕ)
  parse_name s = let c = clean (split s) in found c.modifier (look_up c.name (translate kc))

  -- `Parse`: a key or a rune and a modifier, or none for ErrNoSuchKeybind.
  unfoldable pub parse : List ℕ → Option (AnyKey × ℕ)
  parse [] = parse_name []
  parse (c ∷ []) = some (rune_value c, mod_none)
  parse (c ∷ d ∷ cs) = parse_name (c ∷ d ∷ cs)

  abbrev pub same_key : AnyKey → AnyKey → Bool
  same_key (key_value j) (key_value k) = j == k
  same_key (rune_value j) (rune_value k) = j == k
  same_key other_value other_value = true
  same_key _ _ = false

  -- A map from keys to modifiers.
  abbrev pub put : AnyKey → ℕ → List (AnyKey × ℕ) → List (AnyKey × ℕ)
  put k modifier [] = (k, modifier) ∷ []
  put k modifier ((j, n) ∷ es) =
      let rest = put k modifier es in if same_key j k then (k, modifier) ∷ es else (j, n) ∷ rest

  -- `ParseAll`: the map so far, and whether there is an error.
  unfoldable pub parse_all_from : List (AnyKey × ℕ) → List (List ℕ) → List (AnyKey × ℕ) × Bool
  unfolding parse
  parse_all_from ret [] = (ret, false)
  parse_all_from ret (s ∷ ss) = elim (parse s) [
    | none ↦ (ret, true)
    | some p ↦ parse_all_from (put p.0 p.1 ret) ss
  ]

  abbrev pub parse_all : List (List ℕ) → List (AnyKey × ℕ) × Bool
  parse_all ss = parse_all_from [] ss

  -- `MustParse` and `MustParseAll`
  abbrev pub must_parse : List ℕ → Outcome (AnyKey × ℕ)
  must_parse s = elim (parse s) [ none ↦ panic | some p ↦ ok p ]

  abbrev pub must_parse_all : List (List ℕ) → Outcome (List (AnyKey × ℕ))
  must_parse_all ss = let r = parse_all ss in if r.1 then panic else ok r.0
