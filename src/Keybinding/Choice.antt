-- ===== src/Keybinding/Choice.antt =====
-- Which binding is chosen: the first one of the view, else the last one for all views.
use gocui.Common.{
  ◌≡◌, refl, sym, ap, ◌∙◌, List, [], ◌∷◌, Bool, true, false, not, ◌&&◌, Option, none, some,
  if◌then◌else◌,
}
use gocui.View.{View}
use gocui.Keybinding.{
  Binding, Bindings, Press, has_handler, match_keypress, match_view, match_global, pick,
  exec_keybinding, exec_keybindings,
}

module _ {ℓ} {A : Type ℓ} where
  abbrev pub or_else : Option A → Option A → Option A
  or_else none o = o
  or_else (some a) o = some a

  abbrev pub first_of : (A → Bool) → List A → Option A
  first_of f [] = none
  first_of f (x ∷ xs) = if f x then some x else first_of f xs

  abbrev pub last_of : (A → Bool) → List A → Option A
  last_of f [] = none
  last_of f (x ∷ xs) = or_else (last_of f xs) (if f x then some x else none)

  or_else-none : (o : Option A) → or_else o none ≡ o
  or_else-none none = refl
  or_else-none (some a) = refl

  or_else-some : (o g : Option A) (a : A) → or_else (or_else o (some a)) g ≡ or_else o (some a)
  or_else-some none g a = refl
  or_else-some (some b) g a = refl

  -- One round of the loop, from the outcomes of the four tests.
  round :
      (handled pressed here anywhere : Bool) (kb : A) (skipped taken first last global : Option A)
      → skipped ≡ or_else first (or_else last global)
      → taken ≡ or_else first (or_else last (some kb))
      → (if not handled
          then skipped
          else if not pressed
          then skipped
          else if here
          then some kb
          else if anywhere
          then taken
          else skipped)
        ≡ or_else (if handled && pressed && here then some kb else first) (
            or_else
              (or_else last (if handled && pressed && anywhere then some kb else none))
              global)
  round false pressed here anywhere kb s t f l g hs ht =
      hs ∙ ap (λ o. or_else f (or_else o g)) (sym (or_else-none l))
  round true false here anywhere kb s t f l g hs ht =
      hs ∙ ap (λ o. or_else f (or_else o g)) (sym (or_else-none l))
  round true true true anywhere kb s t f l g hs ht = refl
  round true true false true kb s t f l g hs ht = ht ∙ ap (or_else f) (sym (or_else-some l g kb))
  round true true false false kb s t f l g hs ht =
      hs ∙ ap (λ o. or_else f (or_else o g)) (sym (or_else-none l))

-- The bindings of the view, and those for all views, that answer a key press.
abbrev pub of_view : Option View → Press → Binding → Bool
of_view v p kb = has_handler kb && match_keypress kb p && match_view kb v

abbrev pub of_all : Option View → Press → Binding → Bool
of_all v p kb = has_handler kb && match_keypress kb p && match_global kb v

pick_lem :
    (v : Option View) (p : Press) (global : Option Binding) (kbs : List Binding)
    → pick v p global kbs
      ≡ or_else (first_of (of_view v p) kbs) (or_else (last_of (of_all v p) kbs) global)
unfolding pick
pick_lem v p global [] = refl
pick_lem v p global (kb ∷ kbs) =
    round (has_handler kb) (match_keypress kb p) (match_view kb v) (match_global kb v) kb _ _ _ _
      global (pick_lem v p global kbs) (pick_lem v p (some kb) kbs)

-- For every view or none, key press, list of bindings and blacklist, the loop of execKeybindings
-- comes to executing the first binding of the view that answers the press, or, if there is none,
-- the last one for all views that does, or none.
pub exec_keybindings_lem :
    (v : Option View) (p : Press) (b : Bindings)
    → exec_keybindings v p b
      ≡ exec_keybinding b.blacklist
          (or_else (first_of (of_view v p) b.keybindings) (last_of (of_all v p) b.keybindings))
unfolding exec_keybindings
exec_keybindings_lem v p b = ap (exec_keybinding b.blacklist) (
    pick_lem v p none b.keybindings
    ∙ ap (or_else (first_of (of_view v p) b.keybindings))
        (or_else-none (last_of (of_all v p) b.keybindings)))
