-- ===== src/Tests/Spellings.antt =====
-- Names of keys.
use gocui.Common.{ℕ, ◌≡◌, refl, List, [], ◌∷◌, none, some, if◌then◌else◌}
use gocui.Keybinding.Table.{NamedKey}
use gocui.Keybinding.Parse.{key_value, normalized, same_text, parse}
use gocui.Keybinding.Parse.Names.{spelled, parse-translate}
use gocui.Tests.Codes.{codes, modifiers}

-- "Home"
abbrev home : List ℕ
home = b'H' ∷ b'o' ∷ b'm' ∷ b'e' ∷ []

abbrev home_key : NamedKey
home_key = record { name = home; key = 268 }

parse-translate_example :
    (parse codes modifiers (spelled home) ≡ some (key_value 268, 0))
    × (parse codes modifiers home
        ≡ (if same_text (normalized home) home then some (key_value 268, 0) else none))
parse-translate_example = parse-translate codes modifiers 14 home_key refl

-- "ctrl+a" is a key, and "ArrowUp" is none.
ctrl_a :
    parse codes modifiers (b'c' ∷ b't' ∷ b'r' ∷ b'l' ∷ b'+' ∷ b'a' ∷ []) ≡ some (key_value 1, 0)
unfolding parse
ctrl_a = refl

arrow_up : parse codes modifiers (b'A' ∷ b'r' ∷ b'r' ∷ b'o' ∷ b'w' ∷ b'U' ∷ b'p' ∷ []) ≡ none
unfolding parse
arrow_up = refl
