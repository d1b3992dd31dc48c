-- ===== src/Tests/Writing.antt =====
-- Writing into the small view.
use gocui.Common.{ℕ, ◌≡◌, refl, List, [], ◌∷◌, arith, ok, map}
use gocui.Cell.{Cell, Lines}
use gocui.Buffer.Spec.{text}
use gocui.Buffer.{make_writeable}
use gocui.View.{View, new_view}
use gocui.Write.Spec.{type_all}
use gocui.Write.Plain.{NoEsc, AtRest, Ready, page_of, write_runes-type_all}
use gocui.Write.Clear.{default_paint}
use gocui.Write.{write_runes}
use gocui.Tests.Data.{host, two_lines, small_view}

-- "x\ny"
abbrev x_and_y : List ℕ
x_and_y = b'x' ∷ 10 ∷ b'y' ∷ []

x_and_y-NoEsc : NoEsc x_and_y
x_and_y-NoEsc = ((λ e. omega arith), ((λ e. omega arith), ((λ e. omega arith), tt)))

-- The write position is at the start, so the runes go over the text.
typed_over :
    map
      (λ (l : List Cell). map (λ (c : Cell). c.chr) l)
      (type_all (default_paint host) x_and_y (record { rows = text two_lines; x = 0; y = 0 })).rows
    ≡ (b'x' ∷ b'b' ∷ b'c' ∷ []) ∷ (b'y' ∷ b'e' ∷ []) ∷ []
typed_over = refl

write_runes-type_all_example :
    (t : Lines) × (w : View) × (make_writeable host.runtime 0 0 two_lines ≡ ok t)
    × (write_runes host x_and_y small_view ≡ ok w)
    × (page_of w ≡ type_all (default_paint host) x_and_y (record { rows = text t; x = 0; y = 0 }))
    × Ready w
    × AtRest (default_paint host) w.ei
unfolding new_view
write_runes-type_all_example =
    write_runes-type_all host (default_paint host) x_and_y small_view x_and_y-NoEsc
      (record { between = refl; no_params = refl; paints = λ ch. refl })
