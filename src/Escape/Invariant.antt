-- ===== src/Escape/Invariant.antt =====
-- What holds of the interpreter after every rune, in error or not.
use gocui.Common.{
  ℕ, ◌≤◌, ◌≡◌, refl, sym, ◌≢◌, inl, inr, true, false, List, [], ◌∷◌, ◌++◌, arith, Outcome, IfOk,
  IfOk->>=, IfOk-ok, ok, panic, out_of_fuel, ltb, ◌==◌, if_rule, Bool-cases, length, drop,
  length-append,
}
use mathlib.Core.Path.{subst}
use gocui.Slice.{index}
use gocui.Tcell.{Tcell}
use gocui.Attribute.{
  OutputMode, output_normal, output_256, output_216, output_grayscale, output_true,
  output_simulator,
}
use gocui.Escape.Params.{
  EscapeState, state_none, state_escape, state_csi, state_params, EscapeInterpreter, is_digit,
  last_or_nil, add_to_last, checked_rule,
}
use gocui.Escape.Output.{
  Output, dispatch_output, run_normal, run_256, run_true, run_groups, group_256, group_true,
  font_effects, set_color, select_graphic, split_fg_bg,
}
use gocui.Escape.Sequence.{Digits}
use gocui.Escape.{Parsed, finish, esc, parse_one, parse_state, parse_params, too_long}

-- Carrying out a sequence changes colours only.
abbrev Keeps : EscapeInterpreter → EscapeInterpreter → Type 0
Keeps a b = (b.state ≡ a.state) × (b.csi_param ≡ a.csi_param) × (b.mode ≡ a.mode)

abbrev KeepsOk : EscapeInterpreter → Outcome Output → Type 0
KeepsOk a = IfOk (λ (r : Output). Keeps a (r.0))

KeepsOk-trans :
    (a b : EscapeInterpreter) (o : Outcome Output) → Keeps a b → KeepsOk b o → KeepsOk a o
KeepsOk-trans a b (ok r) k h = ground arith
KeepsOk-trans a b panic k h = tt
KeepsOk-trans a b out_of_fuel k h = tt

module _ (tc : Tcell) where
  select_graphic-Keeps : (p : ℕ) (ei : EscapeInterpreter) → Keeps ei (select_graphic tc p ei)
  unfolding select_graphic
  select_graphic-Keeps p ei = ground arith

  run_normal-Keeps :
      (ss : List (List ℕ)) (ei : EscapeInterpreter) → Keeps ei (run_normal tc ss ei).0
  unfolding run_normal
  run_normal-Keeps [] ei = ground arith
  run_normal-Keeps (s ∷ ss) ei =
      checked_rule (λ (r : Output). Keeps ei (r.0)) s _ _ (ground arith)
        λ p. ground (arith, run_normal-Keeps ss (select_graphic tc p ei), select_graphic-Keeps p ei)

  font_effects-Keeps :
      (ss : List (List ℕ)) (ei : EscapeInterpreter) → Keeps ei (font_effects tc ss ei).0
  unfolding font_effects
  font_effects-Keeps [] ei = ground arith
  font_effects-Keeps (s ∷ ss) ei =
      checked_rule (λ (r : Output). Keeps ei (r.0)) s _ _ (ground arith)
        λ p. font_effects-Keeps ss _

  set_color-Keeps :
      (fgbg color : ℕ) (ss : List (List ℕ)) (ei : EscapeInterpreter)
      → Keeps ei (set_color tc fgbg color ss ei).0
  unfolding set_color
  set_color-Keeps fgbg color ss ei =
      ground (arith, font_effects-Keeps ss (record ei { cur_fg_color = color }))

  group_256-Keeps : (ps : List (List ℕ)) (ei : EscapeInterpreter) → KeepsOk ei (group_256 tc ps ei)
  unfolding group_256
  group_256-Keeps ps ei = IfOk->>= _ (index ps 0) _ λ p0 _.
      checked_rule (KeepsOk ei) p0 _ _ (ground arith) λ fgbg. IfOk->>= _ (index ps 2) _ λ p2 _.
        checked_rule (KeepsOk ei) p2 _ _ (ground arith)
          λ color. set_color-Keeps fgbg _ (drop 3 ps) ei

  group_true-Keeps :
      (ps : List (List ℕ)) (ei : EscapeInterpreter) → KeepsOk ei (group_true tc ps ei)
  unfolding group_true
  group_true-Keeps ps ei = IfOk->>= _ (index ps 0) _ λ p0 _.
      checked_rule (KeepsOk ei) p0 _ _ (ground arith) λ fgbg. IfOk->>= _ (index ps 2) _ λ p2 _.
        checked_rule (KeepsOk ei) p2 _ _ (ground arith) λ colr. IfOk->>= _ (index ps 3) _ λ p3 _.
          checked_rule (KeepsOk ei) p3 _ _ (ground arith) λ colg. IfOk->>= _ (index ps 4) _ λ p4 _.
            checked_rule (KeepsOk ei) p4 _ _ (ground arith)
              λ colb. set_color-Keeps fgbg _ (drop 5 ps) ei

  run_groups-Keeps :
      (group : List (List ℕ) → EscapeInterpreter → Outcome Output)
      → ((ps : List (List ℕ)) (ei : EscapeInterpreter) → KeepsOk ei (group ps ei))
      → (gs : List (List (List ℕ))) (ei : EscapeInterpreter)
      → KeepsOk ei (run_groups tc group gs ei)
  unfolding run_groups
  run_groups-Keeps group keep [] ei = ground arith
  run_groups-Keeps group keep (g ∷ gs) ei = IfOk->>= _ (group g ei) _ λ r e.
      by_error r (IfOk-ok (λ (r : Output). Keeps ei (r.0)) _ e (keep g ei))
        (run_groups-Keeps group keep gs (r.0))
    where
      by_error :
          (r : Output)
          → Keeps ei (r.0)
          → KeepsOk (r.0) (run_groups tc group gs (r.0))
          → KeepsOk ei (elim (r.1) [ true ↦ ok r | false ↦ run_groups tc group gs (r.0) ])
      by_error (b, true) k h = k
      by_error (b, false) k h = KeepsOk-trans ei b _ k h

  run_256-Keeps : (ei : EscapeInterpreter) → KeepsOk ei (run_256 tc ei)
  unfolding run_256
  run_256-Keeps ei =
      if_rule (KeepsOk ei) (ltb (length ei.csi_param) 3) (run_normal-Keeps ei.csi_param ei) (
        IfOk->>= _ (index ei.csi_param 1) _ λ p1 _.
          checked_rule (KeepsOk ei) p1 _ _ (ground arith) λ mode.
            if_rule (KeepsOk ei) (mode == 5)
              (run_groups-Keeps (group_256 tc) group_256-Keeps (split_fg_bg ei.csi_param 3) ei)
              (run_normal-Keeps ei.csi_param ei))

  run_true-Keeps : (ei : EscapeInterpreter) → KeepsOk ei (run_true tc ei)
  unfolding run_true
  run_true-Keeps ei = if_rule (KeepsOk ei) (ltb (length ei.csi_param) 5) (run_256-Keeps ei) (
      IfOk->>= _ (index ei.csi_param 1) _ λ p1 _.
        checked_rule (KeepsOk ei) p1 _ _ (ground arith) λ mode.
          if_rule (KeepsOk ei) (mode == 2)
            (run_groups-Keeps (group_true tc) group_true-Keeps (split_fg_bg ei.csi_param 5) ei)
            (run_256-Keeps ei))

  pub dispatch_output-Keeps :
      (mode : OutputMode) (ei : EscapeInterpreter) → KeepsOk ei (dispatch_output tc mode ei)
  unfolding dispatch_output
  dispatch_output-Keeps output_normal ei = run_normal-Keeps ei.csi_param ei
  dispatch_output-Keeps output_256 ei = run_256-Keeps ei
  dispatch_output-Keeps output_true ei = run_true-Keeps ei
  dispatch_output-Keeps output_216 ei = ground arith
  dispatch_output-Keeps output_grayscale ei = ground arith
  dispatch_output-Keeps output_simulator ei = ground arith

-- Each parameter is a string of at most 256 digits.
abbrev pub Bounded : List (List ℕ) → Type 0
Bounded [] = Unit
Bounded (s ∷ ss) = Digits s × (length s ≤ 256) × Bounded ss

abbrev Fits : EscapeState → List (List ℕ) → Type 0
Fits state_params ps = ps ≢ []
Fits _ ps = ps ≡ []

-- Parameters are there exactly in the state that reads them, at most 21 of them.
pub record IsWellFormed (ei : EscapeInterpreter) : Type 0 where
  pub fits : Fits ei.state ei.csi_param
  pub few : length ei.csi_param ≤ 21
  pub bounded : Bounded ei.csi_param

Digits-append : (s : List ℕ) (c : ℕ) → Digits s → is_digit c ≡ true → Digits (s ++ c ∷ [])
Digits-append [] c h d = (d, tt)
Digits-append (a ∷ s) c h d = (h.0, Digits-append s c h.1 d)

-- A rune more in the last parameter.
add_to_last-Bounded :
    (ps : List (List ℕ)) (c : ℕ)
    → ps ≢ []
    → Bounded ps
    → length (last_or_nil ps) ≤ 255
    → is_digit c ≡ true
    → (qs : List (List ℕ)) × (add_to_last ps c ≡ ok qs)
      × (length qs ≡ length ps)
      × Bounded qs
      × (qs ≢ [])
add_to_last-Bounded [] c ne b l d = absurd (ne refl)
add_to_last-Bounded (s ∷ []) c ne b l d =
    (_, refl, refl, (Digits-append s c b.0 d, omega (arith, length-append s (c ∷ [])), tt), λ e. cc)
add_to_last-Bounded (s ∷ t ∷ ss) c ne b l d =
    let (qs, run, n, bs, _) = add_to_last-Bounded (t ∷ ss) c (λ e. cc) b.2 l d in
    (s ∷ qs, rw run, omega arith, (b.0, b.1, bs), λ e. cc)

new_param-Bounded :
    (ps : List (List ℕ)) (t : List ℕ)
    → Bounded ps
    → Digits t
    → length t ≤ 256
    → Bounded (ps ++ t ∷ [])
new_param-Bounded [] t b d l = (d, l, tt)
new_param-Bounded (s ∷ ss) t b d l = (b.0, b.1, new_param-Bounded ss t b.2 d l)

new_param-ne : (ps : List (List ℕ)) (s : List ℕ) → ps ++ s ∷ [] ≢ []
new_param-ne [] s = λ e. cc
new_param-ne (p ∷ ps) s = λ e. cc

abbrev pub KeepsForm : Outcome (EscapeInterpreter × Parsed) → Type 0
KeepsForm = IfOk (λ (r : EscapeInterpreter × Parsed). IsWellFormed (r.0))

abbrev at_params : EscapeInterpreter → List (List ℕ) → EscapeInterpreter
at_params ei ps = record ei { state = state_params; csi_param = ps }

module _ (tc : Tcell) where
  m-IsWellFormed :
      (ei : EscapeInterpreter) (r : Output)
      → IsWellFormed ei
      → Keeps ei (r.0)
      → IsWellFormed (finish r).0
  m-IsWellFormed ei (b, true) w k = record {
    fits = rw (k.0, k.1) w.fits;
    few = rw (k.1) w.few;
    bounded = rw (k.1) w.bounded;
  }
  m-IsWellFormed ei (b, false) w k = record { fits = refl; few = omega arith; bounded = tt }

  parse_params-IsWellFormed :
      (ei : EscapeInterpreter) (ps : List (List ℕ)) (ch : ℕ)
      → ps ≢ []
      → length ps ≤ 20
      → length (last_or_nil ps) ≤ 255
      → Bounded ps
      → KeepsForm (parse_params tc (at_params ei ps) ch)
  unfolding parse_params
  parse_params-IsWellFormed ei ps ch ne few last b = elim (Bool-cases (is_digit ch)) [
    | inl d ↦
        let (qs, run, n, bs, ne') = add_to_last-Bounded ps ch ne b last d in
        rw d (rw run (record { fits = ne'; few = omega arith; bounded = bs }))
    | inr d ↦ rw d (
        if_rule KeepsForm (ch == b';')
          (record {
            fits = new_param-ne ps [];
            few = omega (arith, length-append ps ([] ∷ []));
            bounded = new_param-Bounded ps [] b tt (omega arith);
          })
          (if_rule KeepsForm (ch == b'm')
            (IfOk->>= _ (dispatch_output tc ei.mode (at_params ei ps)) _ λ r e.
              m-IsWellFormed (at_params ei ps) r w (
                IfOk-ok (λ (r : Output). Keeps (at_params ei ps) (r.0)) _ e
                  (dispatch_output-Keeps tc ei.mode (at_params ei ps))))
            w))
  ]
    where
      w : IsWellFormed (at_params ei ps)
      w = record { fits = ne; few = omega arith; bounded = b }

  -- A first parameter, in the state stateCSI.
  first_param-IsWellFormed :
      (ei : EscapeInterpreter) (ps : List (List ℕ)) (s : List ℕ) (ch : ℕ)
      → ps ≡ []
      → Digits s
      → length s ≤ 255
      → KeepsForm (parse_params tc (at_params ei (ps ++ s ∷ [])) ch)
  first_param-IsWellFormed ei ps s ch e d l =
      rw e (parse_params-IsWellFormed ei (s ∷ []) ch (λ e. cc) (omega arith) l (d, omega arith, tt))

  parse_state-IsWellFormed :
      (st : EscapeState) (ei : EscapeInterpreter) (ch : ℕ)
      → ei.state ≡ st
      → IsWellFormed ei
      → length ei.csi_param ≤ 20
      → length (last_or_nil ei.csi_param) ≤ 255
      → KeepsForm (parse_state tc st ei ch)
  unfolding parse_state
  parse_state-IsWellFormed state_none ei ch e w few last =
      if_rule KeepsForm (ch == esc)
        (record { fits = rw e at (w.fits); few = w.few; bounded = w.bounded }) w
  parse_state-IsWellFormed state_escape ei ch e w few last =
      if_rule KeepsForm (ch == b'[')
        (record { fits = rw e at (w.fits); few = w.few; bounded = w.bounded }) w
  parse_state-IsWellFormed state_csi ei ch e w few last =
      if_rule KeepsForm (is_digit ch)
        (first_param-IsWellFormed ei ei.csi_param [] ch (rw e at (w.fits)) tt (omega arith))
        (if_rule KeepsForm (ch == b'm')
          (first_param-IsWellFormed ei ei.csi_param (b'0' ∷ []) ch (rw e at (w.fits)) (refl, tt)
            (omega arith))
          w)
  parse_state-IsWellFormed state_params ei ch e w few last =
      subst (λ st. KeepsForm (parse_params tc (record ei { state = st }) ch)) (sym e)
        (parse_params-IsWellFormed ei ei.csi_param ch (rw e at (w.fits)) few last w.bounded)

  -- A well-formed interpreter stays well formed after any rune for which parseOne returns: it
  -- holds parameters exactly in the state that reads them, at most 21, each of at most 256 digits.
  pub parse_one-IsWellFormed :
      (ei : EscapeInterpreter) (ch : ℕ) → IsWellFormed ei → KeepsForm (parse_one tc ei ch)
  unfolding parse_one
  parse_one-IsWellFormed ei ch w = elim (Bool-cases (too_long ei.csi_param)) [
    | inl long ↦ rw long w
    | inr short ↦ rw short (
        parse_state-IsWellFormed ei.state (record ei { curch = ch }) ch refl
          (record { fits = w.fits; few = w.few; bounded = w.bounded }) (ground arith)
          (ground arith))
  ]
