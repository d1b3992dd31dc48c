-- ===== src/Attribute/Colors.antt =====
-- attribute.go: the other constants and functions of colours. `Hex` and `GetColor` of tcell are
-- parameters; an int32 is its number, which is -1 or a colour of 24 bits.
use Prim.Native.Nat.{bit_or}
use gocui.Common.{
  ℕ, ◌+◌, ◌*◌, ◌/◌, ◌%◌, ◌<◌, ◌≡◌, refl, arith, not, Outcome, ok, ◌>>=◌, if◌then◌else◌,
}
use gocui.Common.Int.{ℤ, pos, negsuc}
use gocui.Tcell.{Tcell}
use gocui.Attribute.{
  attribute_of_int32, attr_bold, attr_blink, attr_reverse, attr_underline, attr_dim, attr_italic,
  output_true,
}
use gocui.Attribute.Terminal.{is_valid_color, get_tcell_color}

-- `AttrStyleBits`
abbrev pub attr_style_bits : ℕ
attr_style_bits = 0xffffff0000000000

-- `AttrAll`
abbrev pub attr_all : ℕ
attr_all =
    bit_or attr_bold (
      bit_or attr_blink (bit_or attr_reverse (bit_or attr_underline (bit_or attr_dim attr_italic))))

-- Red, green and blue, or -1 for each.
pub record Rgb : Type 0 where
  pub red : ℤ
  pub green : ℤ
  pub blue : ℤ

-- The shifts and masks of `RGB`.
abbrev pub rgb_of : ℤ → Rgb
rgb_of (negsuc n) = record { red = negsuc 0; green = negsuc 0; blue = negsuc 0 }
rgb_of (pos v) = record {
  red = pos (v / 65536 % 256);
  green = pos (v / 256 % 256);
  blue = pos (v % 256);
}

module _ (tc : Tcell) (tcell_hex : ℕ → ℤ) where
  -- `Hex`
  unfoldable pub hex : ℕ → Outcome ℤ
  unfolding get_tcell_color
  hex a =
      if not (is_valid_color tc a)
      then ok (negsuc 0)
      else (get_tcell_color tc a output_true >>= λ c. ok (tcell_hex c))

  -- `RGB`
  unfoldable pub rgb : ℕ → Outcome Rgb
  unfolding hex
  rgb a = hex a >>= λ v. ok (rgb_of v)

module _ (tc : Tcell) where
  -- `GetRGBColor`
  abbrev pub get_rgb_color : ℕ → ℕ
  get_rgb_color color = bit_or (bit_or (attribute_of_int32 color) tc.color_valid) tc.color_is_rgb

  -- `NewRGBColor`
  abbrev pub new_rgb_color : ℕ → ℕ → ℕ → ℕ
  new_rgb_color r g b = tc.new_rgb_color r g b

-- The components of a colour come back from its number.
pub rgb_of-parts :
    (r g b : ℕ)
    → r < 256
    → g < 256
    → b < 256
    → rgb_of (pos (r * 65536 + g * 256 + b)) ≡ record { red = pos r; green = pos g; blue = pos b }
rgb_of-parts r g b x y z =
    let v = r * 65536 + g * 256 + b in
    let high : v / 65536 % 256 ≡ r = omega arith in
    let middle : v / 256 % 256 ≡ g = omega arith in
    let low : v % 256 ≡ b = omega arith in rw (high, middle, low) refl
