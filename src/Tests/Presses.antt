-- ===== src/Tests/Presses.antt =====
-- Key presses on the small view.
use Prim.Native.String.{String}
use gocui.Common.{ℕ, ◌≡◌, refl, [], ◌∷◌, none, some}
use gocui.View.{new_view}
use gocui.Keybinding.{
  Binding, Bindings, Press, calls, blocked, exec_keybinding, exec_keybindings, blacklist_keybinding,
}
use gocui.Keybinding.Choice.{or_else, first_of, last_of, of_view, of_all, exec_keybindings_lem}
use gocui.Tests.Data.{small_view}

abbrev binding : String → ℕ → Binding
binding name handler = record {
  view_name = name;
  key = 13;
  ch = 0;
  mod' = 0;
  handler = some handler;
}

abbrev enter : Press
enter = record { key = 13; ch = 0; mod' = 0 }

-- Two bindings for all views and two for the small one.
abbrev four : Bindings
four = record {
  keybindings = binding "" 1 ∷ binding "" 2 ∷ binding "small" 3 ∷ binding "small" 4 ∷ [];
  blacklist = [];
}

first_of_view : exec_keybindings (some small_view) enter four ≡ calls 3
unfolding exec_keybindings new_view
first_of_view = refl

last_of_all : exec_keybindings none enter four ≡ calls 2
unfolding exec_keybindings
last_of_all = refl

blocked_enter : exec_keybindings none enter (blacklist_keybinding 13 four).0 ≡ blocked
unfolding exec_keybindings blacklist_keybinding
blocked_enter = refl

exec_keybindings_example :
    exec_keybindings (some small_view) enter four
    ≡ exec_keybinding [] (
        or_else
          (first_of (of_view (some small_view) enter) four.keybindings)
          (last_of (of_all (some small_view) enter) four.keybindings))
exec_keybindings_example = exec_keybindings_lem (some small_view) enter four
