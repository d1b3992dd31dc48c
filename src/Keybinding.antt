-- ===== src/Keybinding.antt =====
-- keybinding.go, and the methods of gui.go that keep the key bindings and the blacklist and choose the
-- binding for a key press. A handler is a number, and is none where the code has nil; what a handler
-- does is left to the caller.
pub mod Choice
pub mod Codes
pub mod Table
pub mod Parse
use Prim.Native.String.{String}
use gocui.Common.{
  ℕ, List, [], ◌∷◌, ◌++◌, Bool, true, false, not, ◌&&◌, ◌||◌, Option, none, some, ◌==◌,
  if◌then◌else◌,
}
use gocui.View.{View}
use gocui.Gui.{same_name}

-- `keybinding`
pub record Binding : Type 0 where
  pub view_name : String
  pub key : ℕ
  pub ch : ℕ
  pub mod' : ℕ
  pub handler : Option ℕ

-- What is bound and what is blocked.
pub record Bindings : Type 0 where
  pub keybindings : List Binding
  pub blacklist : List ℕ

-- The errors of these methods; the last one is the "keybinding not found" of DeleteKeybinding.
pub data KeyError : Type 0 where
  blacklisted already_blacklisted not_blacklisted not_found : KeyError

-- The key, the rune and the modifier of a key press.
pub record Press : Type 0 where
  pub key : ℕ
  pub ch : ℕ
  pub mod' : ℕ

-- `isBlacklisted`
unfoldable pub is_blacklisted : ℕ → List ℕ → Bool
is_blacklisted k [] = false
is_blacklisted k (j ∷ js) = if j == k then true else is_blacklisted k js

-- `SetKeybinding`, behind `getKey`.
unfoldable pub set_keybinding : Binding → Bindings → Bindings × Option KeyError
unfolding is_blacklisted
set_keybinding kb b =
    if is_blacklisted kb.key b.blacklist
    then (b, some blacklisted)
    else (record b { keybindings = b.keybindings ++ kb ∷ [] }, none)

abbrev pub same_binding : Binding → String → Press → Bool
same_binding kb name p =
    same_name kb.view_name name && kb.ch == p.ch && kb.key == p.key && kb.mod' == p.mod'

unfoldable pub remove_binding : String → Press → List Binding → Option (List Binding)
remove_binding name p [] = none
remove_binding name p (kb ∷ kbs) =
    let rest = elim (remove_binding name p kbs) as (λ _. Option (List Binding)) [
      | none ↦ none
      | some r ↦ some (kb ∷ r)
    ] in
    if same_binding kb name p then some kbs else rest

-- `DeleteKeybinding`, behind `getKey`.
unfoldable pub delete_keybinding : String → Press → Bindings → Bindings × Option KeyError
unfolding remove_binding
delete_keybinding name p b = elim (remove_binding name p b.keybindings) [
  | none ↦ (b, some not_found)
  | some r ↦ (record b { keybindings = r }, none)
]

unfoldable pub without_view : String → List Binding → List Binding
without_view name [] = []
without_view name (kb ∷ kbs) =
    let rest = without_view name kbs in
    if not (same_name kb.view_name name) then kb ∷ rest else rest

-- `DeleteKeybindings`
unfoldable pub delete_keybindings : String → Bindings → Bindings
unfolding without_view
delete_keybindings name b = record b { keybindings = without_view name b.keybindings }

-- `BlacklistKeybinding`
unfoldable pub blacklist_keybinding : ℕ → Bindings → Bindings × Option KeyError
unfolding is_blacklisted
blacklist_keybinding k b =
    if is_blacklisted k b.blacklist
    then (b, some already_blacklisted)
    else (record b { blacklist = b.blacklist ++ k ∷ [] }, none)

unfoldable pub remove_key : ℕ → List ℕ → List ℕ
remove_key k [] = []
remove_key k (j ∷ js) = let rest = remove_key k js in if j == k then js else j ∷ rest

-- `WhitelistKeybinding`
unfoldable pub whitelist_keybinding : ℕ → Bindings → Bindings × Option KeyError
unfolding is_blacklisted remove_key
whitelist_keybinding k b =
    if is_blacklisted k b.blacklist
    then (record b { blacklist = remove_key k b.blacklist }, none)
    else (b, some not_blacklisted)

-- `matchKeypress`
abbrev pub match_keypress : Binding → Press → Bool
match_keypress kb p = kb.key == p.key && kb.ch == p.ch && kb.mod' == p.mod'

-- `matchView`
abbrev pub match_view : Binding → Option View → Bool
match_view kb none = false
match_view kb (some v) =
    if v.editable && not (kb.ch == 0) && not v.keybind_on_edit
    then false
    else same_name kb.view_name v.name

-- A binding for all views that may be used in this one.
abbrev pub match_global : Binding → Option View → Bool
match_global kb none = same_name kb.view_name ""
match_global kb (some v) = same_name kb.view_name "" && (not v.editable || kb.ch == 0)

abbrev pub has_handler : Binding → Bool
has_handler kb = elim (kb.handler) [ none ↦ false | some h ↦ true ]

-- The loop of `execKeybindings`, with its variable `globalKb`: the binding that is executed.
unfoldable pub pick : Option View → Press → Option Binding → List Binding → Option Binding
pick v p global [] = global
pick v p global (kb ∷ kbs) =
    let skipped = pick v p global kbs in
    let taken = pick v p (some kb) kbs in
    if not (has_handler kb)
    then skipped
    else if not (match_keypress kb p)
    then skipped
    else if match_view kb v
    then some kb
    else if match_global kb v
    then taken
    else skipped

-- What a key press comes to: no binding, a binding of a blocked key, or the call of a handler.
pub data Reaction : Type 0 where
  unmatched blocked : Reaction
  calls : ℕ → Reaction

-- `execKeybinding`, up to the call.
abbrev pub exec_keybinding : List ℕ → Option Binding → Reaction
exec_keybinding blacklist none = unmatched
exec_keybinding blacklist (some kb) = elim (kb.handler) [
  | none ↦ unmatched
  | some h ↦ if is_blacklisted kb.key blacklist then blocked else calls h
]

-- `execKeybindings`
unfoldable pub exec_keybindings : Option View → Press → Bindings → Reaction
unfolding pick is_blacklisted
exec_keybindings v p b = exec_keybinding b.blacklist (pick v p none b.keybindings)
