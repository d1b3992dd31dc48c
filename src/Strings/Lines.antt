-- ===== src/Strings/Lines.antt =====
-- The text of a view as one string and as the strings of its lines.
use gocui.Common.{
  ℕ, ◌≡◌, refl, sym, ap, ap₂, ◌∙◌, List, [], ◌∷◌, ◌++◌, map, arith, Outcome, ok, panic, out_of_fuel,
  ◌>>=◌,
}
use gocui.Cell.{Cell}
use gocui.View.{View, Host}
use gocui.Wrap.{view_lines}
use gocui.Buffer.Spec.{text}
use gocui.Read.{encode_rune}
use gocui.Strings.{
  line_string, line_strings, rune_string, space_for_nul, join, lines_to_string, buffer,
  buffer_lines, view_buffer, view_buffer_lines,
}

map-append {ℓ κ} :
    {A : Type ℓ} {B : Type κ} (f : A → B) (xs ys : List A) → map f (xs ++ ys) ≡ map f xs ++ map f ys
map-append f [] ys = refl
map-append f (x ∷ xs) ys = ap (f x ∷◌) (map-append f xs ys)

-- NUL is a byte of its own, and in no other rune.
encode-space_for_nul : (c : ℕ) → map space_for_nul (encode_rune c) ≡ encode_rune (space_for_nul c)
encode-space_for_nul c = ground arith

rune_string-line_string : (l : List Cell) → rune_string l ≡ map space_for_nul (line_string l)
rune_string-line_string [] = refl
rune_string-line_string (c ∷ cs) =
    ap₂ (λ (a b : List ℕ). a ++ b) (sym (encode-space_for_nul c.chr)) (rune_string-line_string cs)
    ∙ sym (map-append space_for_nul (encode_rune c.chr) (line_string cs))

strings_lem : (ls : List (List Cell)) → map rune_string ls ≡ line_strings ls
strings_lem [] = refl
strings_lem (l ∷ ls) =
    ap₂ (λ (a : List ℕ) (b : List (List ℕ)). a ∷ b) (rune_string-line_string l) (strings_lem ls)

-- Buffer is BufferLines joined with newlines, and ViewBuffer is ViewBufferLines joined with
-- newlines, also when wrapping panics or never ends.
pub buffer-buffer_lines :
    (host : Host) (v : View)
    → (buffer v ≡ join (buffer_lines v))
      × (view_buffer host v ≡ (view_buffer_lines host v >>= λ ss. ok (join ss)))
unfolding buffer buffer_lines view_buffer view_buffer_lines
buffer-buffer_lines host v = (ap join (strings_lem (text v.lines)), go (view_lines host v))
  where
    go :
        (o : Outcome (List (List Cell)))
        → (o >>= λ ls. ok (lines_to_string ls))
          ≡ ((o >>= λ ls. ok (line_strings ls)) >>= λ ss. ok (join ss))
    go (ok ls) = ap (λ s. ok (join s)) (strings_lem ls)
    go panic = refl
    go out_of_fuel = refl
