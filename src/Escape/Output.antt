-- ===== src/Escape/Output.antt =====
-- escape.go: the three ways to carry out a sequence that ends in `m`. A result is the interpreter and
-- whether there was an error; colours that were set before the error stay set.
use Prim.Native.Nat.{bit_or}
use gocui.Common.{
  ℕ, ◌-◌, List, [], ◌∷◌, ◌++◌, Bool, true, false, ◌&&◌, ◌||◌, Outcome, ok, ◌>>=◌, ltb, leb, ◌==◌,
  if◌then◌else◌, length, drop,
}
use gocui.Slice.{index}
use gocui.Attribute.{
  OutputMode, output_normal, output_256, output_true, attr_bold, attr_blink, attr_reverse,
  attr_underline, attr_dim, attr_italic, attr_strike_through, attr_none, int32, get_256_color,
}
use gocui.Tcell.{Tcell}
use gocui.Escape.Params.{EscapeInterpreter, checked}

abbrev pub Output : Type 0
Output = EscapeInterpreter × Bool

-- `getFontEffect`
unfoldable pub get_font_effect : ℕ → ℕ
get_font_effect f =
    if f == 1
    then attr_bold
    else if f == 2
    then attr_dim
    else if f == 3
    then attr_italic
    else if f == 4
    then attr_underline
    else if f == 5
    then attr_blink
    else if f == 7
    then attr_reverse
    else if f == 9
    then attr_strike_through
    else attr_none

module _ (tc : Tcell) where
  -- One round of `outputNormal`.
  unfoldable pub select_graphic : ℕ → EscapeInterpreter → EscapeInterpreter
  select_graphic p ei =
      if leb 30 p && leb p 37
      then record ei { cur_fg_color = get_256_color tc (int32 p - 30) }
      else if p == 39
      then record ei { cur_fg_color = tc.color_default }
      else if leb 40 p && leb p 47
      then record ei { cur_bg_color = get_256_color tc (int32 p - 40) }
      else if p == 49
      then record ei { cur_bg_color = tc.color_default }
      else if p == 0
      then record ei { cur_fg_color = tc.color_default; cur_bg_color = tc.color_default }
      else record ei { cur_fg_color = bit_or ei.cur_fg_color (get_font_effect p) }

  -- `outputNormal`
  unfoldable pub run_normal : List (List ℕ) → EscapeInterpreter → Output
  unfolding select_graphic
  run_normal [] ei = (ei, false)
  run_normal (s ∷ ss) ei = checked s (ei, true) (λ p. run_normal ss (select_graphic p ei))

  -- The font effects behind a foreground colour.
  unfoldable pub font_effects : List (List ℕ) → EscapeInterpreter → Output
  font_effects [] ei = (ei, false)
  font_effects (s ∷ ss) ei =
      checked s (ei, true)
        (λ p.
          font_effects ss (record ei { cur_fg_color = bit_or ei.cur_fg_color (get_font_effect p) }))

  -- The switch on 38 and 48, for a group that gave the colour.
  unfoldable pub set_color : ℕ → ℕ → List (List ℕ) → EscapeInterpreter → Output
  unfolding font_effects
  set_color fgbg color rest ei =
      if fgbg == 38
      then font_effects rest (record ei { cur_fg_color = color })
      else if fgbg == 48
      then (record ei { cur_bg_color = color }, false)
      else (ei, true)

  -- One group of `output256`; an index that the group lacks panics.
  unfoldable pub group_256 : List (List ℕ) → EscapeInterpreter → Outcome Output
  unfolding set_color
  group_256 ps ei = do
    p0 ← index ps 0
    checked p0 (ok (ei, true)) λ fgbg. do
      p2 ← index ps 2
      checked p2 (ok (ei, true))
          λ color. ok (set_color fgbg (get_256_color tc (int32 color)) (drop 3 ps) ei)

  -- One group of `outputTrue`.
  unfoldable pub group_true : List (List ℕ) → EscapeInterpreter → Outcome Output
  unfolding set_color
  group_true ps ei = do
    p0 ← index ps 0
    checked p0 (ok (ei, true)) λ fgbg. do
      p2 ← index ps 2
      checked p2 (ok (ei, true)) λ colr. do
        p3 ← index ps 3
        checked p3 (ok (ei, true)) λ colg. do
          p4 ← index ps 4
          checked p4 (ok (ei, true)) λ colb. ok (
              set_color fgbg (tc.new_rgb_color (int32 colr) (int32 colg) (int32 colb)) (drop 5 ps)
                ei)

  -- The loop over the groups, which the first error ends.
  unfoldable pub run_groups :
      (List (List ℕ) → EscapeInterpreter → Outcome Output)
      → List (List (List ℕ))
      → EscapeInterpreter
      → Outcome Output
  run_groups group [] ei = ok (ei, false)
  run_groups group (g ∷ gs) ei =
      group g ei >>= λ r. elim (r.1) [ true ↦ ok r | false ↦ run_groups group gs (r.0) ]

-- The test `p == "48" || p == "38"`.
abbrev pub is_fg_bg : List ℕ → Bool
is_fg_bg [] = false
is_fg_bg (a ∷ []) = false
is_fg_bg (a ∷ b ∷ []) = (a == b'4' && b == b'8') || (a == b'3' && b == b'8')
is_fg_bg (a ∷ b ∷ c ∷ s) = false

-- The loop of `splitFgBg` with its variable `current`; the groups come in order.
unfoldable pub split_loop : ℕ → List (List ℕ) → List (List ℕ) → List (List (List ℕ))
split_loop num current [] = elim current [ [] ↦ [] | p ∷ ps ↦ (p ∷ ps) ∷ [] ]
split_loop num current (p ∷ ps) = elim ((length current == num) && is_fg_bg p) [
  | true ↦ current ∷ split_loop num (p ∷ []) ps
  | false ↦ split_loop num (current ++ p ∷ []) ps
]

-- `splitFgBg`
unfoldable pub split_fg_bg : List (List ℕ) → ℕ → List (List (List ℕ))
unfolding split_loop
split_fg_bg params num = split_loop num [] params

module _ (tc : Tcell) where
  -- `output256`
  unfoldable pub run_256 : EscapeInterpreter → Outcome Output
  unfolding run_normal run_groups group_256 split_fg_bg
  run_256 ei = if ltb (length ei.csi_param) 3 then ok (run_normal tc ei.csi_param ei) else do
    p1 ← index ei.csi_param 1
    checked p1 (ok (ei, true)) λ mode.
        if mode == 5
        then run_groups tc (group_256 tc) (split_fg_bg ei.csi_param 3) ei
        else ok (run_normal tc ei.csi_param ei)

  -- `outputTrue`
  unfoldable pub run_true : EscapeInterpreter → Outcome Output
  unfolding run_256 run_groups group_true split_fg_bg
  run_true ei = if ltb (length ei.csi_param) 5 then run_256 ei else do
    p1 ← index ei.csi_param 1
    checked p1 (ok (ei, true)) λ mode.
        if mode == 2
        then run_groups tc (group_true tc) (split_fg_bg ei.csi_param 5) ei
        else run_256 ei

  -- The switch on the output mode: in the other modes the sequence has no effect.
  unfoldable pub dispatch_output : OutputMode → EscapeInterpreter → Outcome Output
  unfolding run_normal run_256 run_true
  dispatch_output output_normal ei = ok (run_normal tc ei.csi_param ei)
  dispatch_output output_256 ei = run_256 ei
  dispatch_output output_true ei = run_true ei
  dispatch_output _ ei = ok (ei, false)
