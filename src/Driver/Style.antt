-- ===== src/Driver/Style.antt =====
-- The style of a cell: `getTcellStyle` and `tcellSetCell`. A style and its methods are tcell's.
use Prim.Native.Nat.{bit_and}
use gocui.Common.{
  ℕ, ◌≡◌, refl, ap, ◌∙◌, List, [], ◌∷◌, ◌++◌, Bool, true, false, not, ◌&&◌, ◌||◌, ◌==◌,
  if◌then◌else◌, Bool-cases, if_rule, inl, inr, Outcome, ok, ◌>>=◌,
}
use gocui.Common.Int.{ℤ}
use gocui.Tcell.{Tcell}
use gocui.Attribute.{
  OutputMode, attr_bold, attr_blink, attr_reverse, attr_underline, attr_dim, attr_italic,
  attr_strike_through,
}
use gocui.Attribute.Terminal.{get_tcell_color}

-- The methods of a style that switch an effect on.
pub data Effect : Type 0 where
  bold underline reverse blink dim italic strike_through : Effect

-- `tcell.Style`
pub record Styles : Type 1 where
  pub Style : Type 0
  pub style_default : Style
  pub foreground : ℕ → Style → Style
  pub background : ℕ → Style → Style
  pub switch_on : Effect → Style → Style

abbrev pub attr_of : Effect → ℕ
attr_of bold = attr_bold
attr_of underline = attr_underline
attr_of reverse = attr_reverse
attr_of blink = attr_blink
attr_of dim = attr_dim
attr_of italic = attr_italic
attr_of strike_through = attr_strike_through

abbrev pub has : Effect → ℕ → Bool
has e attr = not (bit_and attr (attr_of e) == 0)

abbrev pub same_effect : Effect → Effect → Bool
same_effect e d = attr_of e == attr_of d

or_false : (b : Bool) → b || false ≡ b
or_false true = refl
or_false false = refl

module _ (ss : Styles) where
  -- One of the tests of `setTcellFontEffectStyle`.
  abbrev pub set_effect : Effect → ℕ → ss.Style → ss.Style
  set_effect e attr st = if has e attr then ss.switch_on e st else st

  -- `setTcellFontEffectStyle`
  unfoldable pub set_tcell_font_effect_style : ss.Style → ℕ → ss.Style
  set_tcell_font_effect_style st attr =
      let st1 = set_effect bold attr st in
      let st2 = set_effect underline attr st1 in
      let st3 = set_effect reverse attr st2 in
      let st4 = set_effect blink attr st3 in
      let st5 = set_effect dim attr st4 in
      let st6 = set_effect italic attr st5 in set_effect strike_through attr st6

  -- The two halves of `getTcellStyle`.
  abbrev pub with_foreground : Tcell → ℕ → OutputMode → ss.Style → Outcome ss.Style
  with_foreground tc fg mode st =
      if fg == tc.color_default
      then ok st
      else (get_tcell_color tc fg mode >>= λ c.
          ok (set_tcell_font_effect_style (ss.foreground c st) fg))

  abbrev pub with_background : Tcell → ℕ → OutputMode → ss.Style → Outcome ss.Style
  with_background tc bg mode st =
      if bg == tc.color_default
      then ok st
      else (get_tcell_color tc bg mode >>= λ c.
          ok (set_tcell_font_effect_style (ss.background c st) bg))

  -- `getTcellStyle`
  unfoldable pub get_tcell_style : Tcell → ℕ → ℕ → OutputMode → Outcome ss.Style
  unfolding set_tcell_font_effect_style
  get_tcell_style tc fg bg mode =
      with_foreground tc fg mode ss.style_default >>= with_background tc bg mode

  -- `tcellSetCell`; `SetContent` is the screen's.
  abbrev pub tcell_set_cell :
      {S : Type 0}
      → (S → ℤ → ℤ → ℕ → ss.Style → S)
      → Tcell
      → ℤ
      → ℤ
      → ℕ
      → ℕ
      → ℕ
      → OutputMode
      → S
      → Outcome S
  tcell_set_cell set_content tc x y ch fg bg mode s =
      get_tcell_style tc fg bg mode >>= λ st. ok (set_content s x y ch st)

  -- How a style answers whether an effect is on.
  module _ (is_on : Effect → ss.Style → Bool) where
    -- Switching on does that, and touches no other effect, nor do the colours.
    abbrev pub Switches : Type 0
    Switches =
        ((e : Effect) (st : ss.Style) → is_on e (ss.switch_on e st) ≡ true)
        × ((e d : Effect) (st : ss.Style)
            → same_effect e d ≡ false
            → is_on e (ss.switch_on d st) ≡ is_on e st)
        × ((e : Effect) (c : ℕ) (st : ss.Style) → is_on e (ss.foreground c st) ≡ is_on e st)
        × ((e : Effect) (c : ℕ) (st : ss.Style) → is_on e (ss.background c st) ≡ is_on e st)
        × ((e : Effect) → is_on e ss.style_default ≡ false)

    set_effect-other :
        Switches
        → (e d : Effect) (attr : ℕ) (st : ss.Style) → same_effect e d ≡ false
        → is_on e (set_effect d attr st) ≡ is_on e st
    set_effect-other (_, h, _, _, _) e d attr st n =
        if_rule (λ s. is_on e s ≡ is_on e st) (has d attr) (h e d st n) refl

    set_effect-same :
        Switches
        → (e : Effect) (attr : ℕ) (st : ss.Style)
        → is_on e (set_effect e attr st) ≡ has e attr || is_on e st
    set_effect-same (h, _, _, _, _) e attr st = elim (Bool-cases (has e attr)) [
      | inl y ↦ rw y (h e st)
      | inr n ↦ rw n refl
    ]

    abbrev chain : ss.Style → ℕ → List Effect → ss.Style
    chain st attr [] = st
    chain st attr (d ∷ ds) = chain (set_effect d attr st) attr ds

    abbrev Others : Effect → List Effect → Type 0
    Others e [] = Unit
    Others e (d ∷ ds) = (same_effect e d ≡ false) × Others e ds

    chain-other :
        Switches
        → (e : Effect) (attr : ℕ) (st : ss.Style) (ds : List Effect) → Others e ds
        → is_on e (chain st attr ds) ≡ is_on e st
    chain-other sw e attr st [] o = refl
    chain-other sw e attr st (d ∷ ds) o =
        chain-other sw e attr (set_effect d attr st) ds o.1 ∙ set_effect-other sw e d attr st o.0

    chain_lem :
        Switches
        → (e : Effect) (attr : ℕ) (st : ss.Style) (ps qs : List Effect) → Others e ps
        → Others e qs
        → is_on e (chain st attr (ps ++ e ∷ qs)) ≡ has e attr || is_on e st
    chain_lem sw e attr st [] qs o q =
        chain-other sw e attr (set_effect e attr st) qs q ∙ set_effect-same sw e attr st
    chain_lem sw e attr st (d ∷ ps) qs o q =
        chain_lem sw e attr (set_effect d attr st) ps qs o.1 q
        ∙ ap (λ b. has e attr || b) (set_effect-other sw e d attr st o.0)

    style_effects :
        Switches
        → (e : Effect) (attr : ℕ) (st : ss.Style)
        → is_on e (set_tcell_font_effect_style st attr) ≡ has e attr || is_on e st
    unfolding set_tcell_font_effect_style
    style_effects sw bold attr st =
        chain_lem sw bold attr st ([])
          (underline ∷ reverse ∷ blink ∷ dim ∷ italic ∷ strike_through ∷ []) tt
          (refl, (refl, (refl, (refl, (refl, (refl, tt))))))
    style_effects sw underline attr st =
        chain_lem sw underline attr st (bold ∷ [])
          (reverse ∷ blink ∷ dim ∷ italic ∷ strike_through ∷ []) (refl, tt)
          (refl, (refl, (refl, (refl, (refl, tt)))))
    style_effects sw reverse attr st =
        chain_lem sw reverse attr st (bold ∷ underline ∷ [])
          (blink ∷ dim ∷ italic ∷ strike_through ∷ []) (refl, (refl, tt))
          (refl, (refl, (refl, (refl, tt))))
    style_effects sw blink attr st =
        chain_lem sw blink attr st (bold ∷ underline ∷ reverse ∷ [])
          (dim ∷ italic ∷ strike_through ∷ []) (refl, (refl, (refl, tt))) (refl, (refl, (refl, tt)))
    style_effects sw dim attr st =
        chain_lem sw dim attr st (bold ∷ underline ∷ reverse ∷ blink ∷ [])
          (italic ∷ strike_through ∷ []) (refl, (refl, (refl, (refl, tt)))) (refl, (refl, tt))
    style_effects sw italic attr st =
        chain_lem sw italic attr st (bold ∷ underline ∷ reverse ∷ blink ∷ dim ∷ [])
          (strike_through ∷ []) (refl, (refl, (refl, (refl, (refl, tt))))) (refl, tt)
    style_effects sw strike_through attr st =
        chain_lem sw strike_through attr st (bold ∷ underline ∷ reverse ∷ blink ∷ dim ∷ italic ∷ [])
          ([]) (refl, (refl, (refl, (refl, (refl, (refl, tt)))))) tt

    -- A colour that is not the default asks for the effect.
    abbrev pub asks : Tcell → Effect → ℕ → Bool
    asks tc e c = not (c == tc.color_default) && has e c

    with_foreground_lem :
        Switches
        → (tc : Tcell) (fg c : ℕ) (mode : OutputMode) (st : ss.Style)
        → get_tcell_color tc fg mode ≡ ok c
        → (r : ss.Style) × (with_foreground tc fg mode st ≡ ok r)
          × ((e : Effect) → is_on e r ≡ asks tc e fg || is_on e st)
    with_foreground_lem sw tc fg c mode st h = elim (Bool-cases (fg == tc.color_default)) [
      | inl d ↦ (st, rw d refl, λ e. rw d refl)
      | inr d ↦
          let next = ss.foreground c st in
          let (_, _, same, _, _) = sw in
          (
            set_tcell_font_effect_style next fg,
            rw (d, h) refl,
            λ e. rw d (style_effects sw e fg next ∙ ap (λ b. has e fg || b) (same e c st)),
          )
    ]

    with_background_lem :
        Switches
        → (tc : Tcell) (bg c : ℕ) (mode : OutputMode) (st : ss.Style)
        → get_tcell_color tc bg mode ≡ ok c
        → (r : ss.Style) × (with_background tc bg mode st ≡ ok r)
          × ((e : Effect) → is_on e r ≡ asks tc e bg || is_on e st)
    with_background_lem sw tc bg c mode st h = elim (Bool-cases (bg == tc.color_default)) [
      | inl d ↦ (st, rw d refl, λ e. rw d refl)
      | inr d ↦
          let next = ss.background c st in
          let (_, _, _, same, _) = sw in
          (
            set_tcell_font_effect_style next bg,
            rw (d, h) refl,
            λ e. rw d (style_effects sw e bg next ∙ ap (λ b. has e bg || b) (same e c st)),
          )
    ]

    -- Where a style switches effects on one by one and colours leave them alone: if getTcellColor
    -- returns for both attributes, getTcellStyle returns a style in which an effect is on just
    -- when the foreground or the background, unless it is the default, has its bit.
    pub get_tcell_style_lem :
        Switches
        → (tc : Tcell) (fg bg c d : ℕ) (mode : OutputMode) → get_tcell_color tc fg mode ≡ ok c
        → get_tcell_color tc bg mode ≡ ok d
        → (st : ss.Style) × (get_tcell_style tc fg bg mode ≡ ok st)
          × ((e : Effect) → is_on e st ≡ asks tc e bg || asks tc e fg)
    unfolding get_tcell_style
    get_tcell_style_lem sw tc fg bg c d mode h k =
        let (st, first, on) = with_foreground_lem sw tc fg c mode ss.style_default h in
        let (r, second, on') = with_background_lem sw tc bg d mode st k in
        let (_, _, _, _, off) = sw in
        (
          r,
          ap (λ o. o >>= with_background tc bg mode) first ∙ second,
          λ e.
              on' e
              ∙ ap (λ b. asks tc e bg || b)
                  (on e ∙ ap (λ b. asks tc e fg || b) (off e) ∙ or_false (asks tc e fg)),
        )
