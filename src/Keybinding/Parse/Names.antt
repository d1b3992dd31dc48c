-- ===== src/Keybinding/Parse/Names.antt =====
-- Every key of the table has a spelling that `Parse` takes.
use mathlib.Core.Path.{subst}
use gocui.Common.{
  ℕ, zero, suc, ◌≡◌, refl, List, [], ◌∷◌, ◌++◌, ◌&&◌, Option, none, some, leb, if◌then◌else◌,
  get_elem?, length, ◌≢◌,
}
use gocui.Tcell.{KeyCodes, Modifiers}
use gocui.Keybinding.Codes.{mod_none, mod_alt}
use gocui.Keybinding.Table.{NamedKey, translate}
use gocui.Keybinding.Parse.{
  AnyKey, key_value, same_text, normalized, alt_name, clean, split, found, look_up, parse_name,
  parse,
}

-- A plus in front of every capital but the first letter, as in "Ctrl+A" and "Arrow+Up".
abbrev pub spaced : List ℕ → List ℕ
spaced [] = []
spaced (c ∷ cs) = if leb 65 c && leb c 90 then 43 ∷ c ∷ spaced cs else c ∷ spaced cs

abbrev pub spelled : List ℕ → List ℕ
spelled [] = []
spelled (c ∷ cs) = c ∷ spaced cs

module _ (kc : KeyCodes) (m : Modifiers) where
  -- What `Parse` does with the two spellings of an entry.
  abbrev IsParsed : NamedKey → Type 0
  IsParsed e =
      (parse kc m (spelled e.name) ≡ some (key_value e.key, mod_none))
      × (parse kc m e.name ≡ (
          if same_text (normalized e.name) e.name then some (key_value e.key, mod_none) else none))

  abbrev AllParsed : List NamedKey → Type 0
  AllParsed [] = Unit
  AllParsed (e ∷ es) = IsParsed e × AllParsed es

  translate-AllParsed : AllParsed (translate kc)
  unfolding parse
  translate-AllParsed = search (tt)

  AllParsed-get :
      (es : List NamedKey) (i : ℕ) (e : NamedKey)
      → AllParsed es
      → get_elem? es i ≡ some e
      → IsParsed e
  AllParsed-get [] i e a h = cc
  AllParsed-get (d ∷ es) zero e a h = let same : d ≡ e = cc in subst IsParsed same a.0
  AllParsed-get (d ∷ es) (suc i) e a h = AllParsed-get es i e a.1 h

  -- For every entry of the table translate, Parse returns the key of the entry for its name with a
  -- plus in front of every capital but the first letter; for the bare name it returns the key if
  -- the name is what Title and ToLower make of it, and the error ErrNoSuchKeybind otherwise.
  pub parse-translate :
      (i : ℕ) (e : NamedKey)
      → get_elem? (translate kc) i ≡ some e
      → (parse kc m (spelled e.name) ≡ some (key_value e.key, mod_none))
        × (parse kc m e.name ≡ (
            if same_text (normalized e.name) e.name
            then some (key_value e.key, mod_none)
            else none))
  parse-translate i e h = AllParsed-get (translate kc) i e translate-AllParsed h

  -- The same key with the modifier Alt.
  abbrev pub with_alt : Option (AnyKey × ℕ) → Option (AnyKey × ℕ)
  with_alt none = none
  with_alt (some (k, n)) = some (k, mod_alt m)

  found-with_alt : (n : ℕ) (o : Option ℕ) → found kc m (mod_alt m) o ≡ with_alt (found kc m n o)
  found-with_alt n none = refl
  found-with_alt n (some k) = refl

  parse_name-alt : (s : List ℕ) → parse kc m (alt_name ++ b'+' ∷ s) ≡ with_alt (parse_name kc m s)
  unfolding parse
  parse_name-alt s =
      let c = clean kc m (split s) in found-with_alt c.modifier (look_up kc m c.name (translate kc))

  -- "Alt+" in front of a name that is not one byte long adds the modifier, and changes nothing else.
  pub parse-alt :
      (s : List ℕ) → length s ≢ 1 → parse kc m (alt_name ++ b'+' ∷ s) ≡ with_alt (parse kc m s)
  unfolding parse
  parse-alt [] n = parse_name-alt []
  parse-alt (c ∷ []) n = absurd (n refl)
  parse-alt (c ∷ d ∷ s) n = parse_name-alt (c ∷ d ∷ s)
