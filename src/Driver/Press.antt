-- ===== src/Driver/Press.antt =====
-- The key events of the driver: which modifiers they keep.
use gocui.Common.{◌≡◌, ◌≢◌, ◌⊎◌}
use gocui.Tcell.{KeyCodes, Modifiers}
use gocui.Driver.{GocuiEvent, event_key}
use gocui.Keybinding.Codes.{key_space}

-- A key event that a key binding can name: a key or a rune, not both; no Ctrl, which is part of the
-- key; no Shift on a rune or on the space bar.
abbrev pub IsClean : KeyCodes → Modifiers → GocuiEvent → Type 0
IsClean kc m e =
    (e.type ≡ event_key)
    × ((e.key ≡ 0) ⊎ (e.ch ≡ 0))
    × (e.mod' ≢ m.ctrl)
    × (e.mod' ≡ m.shift → (e.ch ≡ 0) × (e.key ≢ key_space kc))
