-- ===== src/Attribute/Terminal.antt =====
-- attribute.go: `getTcellColor`, the colour that is sent to the terminal in each output mode.
use Prim.Native.Nat.{bit_and, bit_or}
use gocui.Common.{
  ℕ, ◌+◌, ◌-◌, ◌%◌, ◌^◌, ◌<◌, ◌≡◌, refl, ◌≢◌, Bool, true, false, not, ◌&&◌, List, [], ◌∷◌, Outcome,
  ok, ◌>>=◌, ltb, leb, ◌==◌, if◌then◌else◌, arith, Bool-cases, inl, inr,
}
use gocui.Slice.{index}
use gocui.Tcell.{Tcell}
use gocui.Attribute.{
  OutputMode, output_normal, output_256, output_216, output_grayscale, output_true,
  output_simulator,
}
use gocui.Buffer.Text.{index_lem}

-- `AttrColorBits`
abbrev pub attr_color_bits : ℕ
attr_color_bits = 0xffffffffff

-- The grayscale indexes.
abbrev pub grayscale : List ℕ
grayscale =
    16 ∷ 232 ∷ 233 ∷ 234 ∷ 235 ∷ 236 ∷ 237 ∷ 238 ∷ 239 ∷ 240 ∷ 241 ∷ 242 ∷ 243 ∷ 244 ∷ 245 ∷ 246
    ∷ 247 ∷ 248 ∷ 249 ∷ 250 ∷ 251 ∷ 252 ∷ 253 ∷ 254 ∷ 255 ∷ 231 ∷ []

module _ (tc : Tcell) where
  -- `IsValidColor`
  abbrev pub is_valid_color : ℕ → Bool
  is_valid_color c = not (bit_and c tc.color_valid == 0)

  -- The colour before the mode is looked at. An attribute of termbox-go counts from 1.
  abbrev pub base_color : ℕ → ℕ
  base_color c =
      if is_valid_color c
      then c
      else if ltb 0 c && leb c 256
      then bit_or (c - 1) tc.color_valid
      else tc.color_default

  abbrev pub gray : ℕ → Outcome ℕ
  gray i =
      if ltb 26 i
      then ok tc.color_default
      else (index grayscale i >>= λ g. ok (bit_or g tc.color_valid))

  -- The switch on the output mode.
  unfoldable pub in_mode : OutputMode → ℕ → Outcome ℕ
  in_mode output_true t = ok t
  in_mode output_normal t = ok (bit_and t (bit_or 0xf tc.color_valid))
  in_mode output_256 t = ok (bit_and t (bit_or 0xff tc.color_valid))
  in_mode output_216 t =
      let i = bit_and t 0xff in
      if ltb 215 i then ok tc.color_default else ok ((i + bit_or 16 tc.color_valid) % 2 ^ 64)
  in_mode output_grayscale t = gray (bit_and t 0x1f)
  in_mode output_simulator t = ok tc.color_default

  -- `getTcellColor`
  unfoldable pub get_tcell_color : ℕ → OutputMode → Outcome ℕ
  unfolding in_mode
  get_tcell_color c mode =
      let c' = bit_and c attr_color_bits in
      if c' == tc.color_default then ok tc.color_default else in_mode mode (base_color c')

  -- The low five bits that pick the shade of gray.
  abbrev pub shade : ℕ → ℕ
  shade c = bit_and (base_color (bit_and c attr_color_bits)) 0x1f

  abbrev Returns : Outcome ℕ → Type 0
  Returns o = (t : ℕ) × (o ≡ ok t)

  Returns-if : (b : Bool) {x y : Outcome ℕ} → Returns x → Returns y → Returns (if b then x else y)
  Returns-if true h k = h
  Returns-if false h k = k

  gray-Returns : (i : ℕ) → i ≢ 26 → Returns (gray i)
  gray-Returns i ne = elim (Bool-cases (ltb 26 i)) [
    | inl e ↦ rw e (_, refl)
    | inr e ↦
        let lt : i < 26 = below i e ne in
        let (g, at) = index_lem grayscale i (omega arith) in rw e (rw at (_, refl))
  ]
    where
      below : (i : ℕ) → ltb 26 i ≡ false → i ≢ 26 → i < 26
      below i e ne = ground arith

  in_mode-Returns :
      (mode : OutputMode) (t : ℕ)
      → (mode ≡ output_grayscale → bit_and t 0x1f ≢ 26)
      → Returns (in_mode mode t)
  unfolding in_mode
  in_mode-Returns output_true t h = (_, refl)
  in_mode-Returns output_normal t h = (_, refl)
  in_mode-Returns output_256 t h = (_, refl)
  in_mode-Returns output_216 t h = Returns-if (ltb 215 (bit_and t 0xff)) (_, refl) (_, refl)
  in_mode-Returns output_grayscale t h = gray-Returns (bit_and t 0x1f) (h refl)
  in_mode-Returns output_simulator t h = (_, refl)

  -- getTcellColor returns for every attribute in every output mode, unless the mode is
  -- OutputGrayscale and the low five bits of the colour are 26.
  pub get_tcell_color-Returns :
      (c : ℕ) (mode : OutputMode)
      → (mode ≡ output_grayscale → shade c ≢ 26)
      → (t : ℕ) × (get_tcell_color c mode ≡ ok t)
  unfolding get_tcell_color
  get_tcell_color-Returns c mode h =
      Returns-if (bit_and c attr_color_bits == tc.color_default) (_, refl)
        (in_mode-Returns mode (base_color (bit_and c attr_color_bits)) h)
