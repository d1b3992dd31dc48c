-- ===== src/Escape/Panics.antt =====
-- Where the interpreter panics, and where it does not.
use gocui.Common.{
  ℕ, ◌≡◌, refl, ◌≢◌, ◌⊎◌, inl, inr, Bool, true, false, some, List, [], ◌∷◌, ◌++◌, arith, Outcome,
  ok, panic, ◌>>=◌, ◌==◌, if◌then◌else◌,
}
use gocui.Tcell.{Tcell}
use gocui.Attribute.{
  OutputMode, output_normal, output_256, output_216, output_grayscale, output_true,
  output_simulator,
}
use gocui.Escape.Params.{
  EscapeState, state_none, state_escape, state_csi, state_params, EscapeInterpreter, is_digit, atoi,
  add_to_last,
}
use gocui.Escape.Output.{dispatch_output}
use gocui.Escape.Sequence.{Consumed, Param, Params, sequence_prefix, clean, within, prefix-Consumed}
use gocui.Escape.Colors.{code_38, code_48}
use gocui.Escape.Invariant.{IsWellFormed}
use gocui.Escape.{Parsed, parse_one, parse_state, parse_params, too_long}

-- The parameter that chooses the foreground or the background.
abbrev pub plane : Bool → List ℕ
plane fg = if fg then code_38 else code_48

-- 5 ; n ; and a lone 38 or 48.
abbrev pub lone_params : Bool → List ℕ → List (List ℕ)
lone_params second n = (b'5' ∷ []) ∷ n ∷ plane second ∷ []

lone : (second : Bool) (n : List ℕ) → Param n → Params (lone_params second n)
lone true n d = (((refl, tt), omega arith), (d, (((refl, (refl, tt)), omega arith), tt)))
lone false n d = (((refl, tt), omega arith), (d, (((refl, (refl, tt)), omega arith), tt)))

abbrev Returns {ℓ} : {A : Type ℓ} → Outcome A → Type ℓ
Returns {A} m = (a : A) × (m ≡ ok a)

-- The modes that look at one parameter at a time, or at none.
abbrev pub IsPlainMode : OutputMode → Type 0
IsPlainMode output_256 = ⊥
IsPlainMode output_true = ⊥
IsPlainMode _ = Unit

Returns-if {ℓ} :
    {A : Type ℓ} (b : Bool) {x y : Outcome A} → Returns x → Returns y → Returns (if b then x else y)
Returns-if true h k = h
Returns-if false h k = k

Returns->>= {ℓ κ} :
    {A : Type ℓ} {B : Type κ} (m : Outcome A) (f : A → Outcome B)
    → Returns m
    → ((a : A) → Returns (f a))
    → Returns (m >>= f)
Returns->>= m f (a, e) k = rw e (k a)

add_to_last-Returns : (ps : List (List ℕ)) (ch : ℕ) → ps ≢ [] → Returns (add_to_last ps ch)
add_to_last-Returns [] ch ne = absurd (ne refl)
add_to_last-Returns (s ∷ []) ch ne = (_, refl)
add_to_last-Returns (s ∷ t ∷ ss) ch ne =
    let (qs, run) = add_to_last-Returns (t ∷ ss) ch (λ e. cc) in (s ∷ qs, rw run)

append-ne : (ps : List (List ℕ)) (s : List ℕ) → ps ++ s ∷ [] ≢ []
append-ne [] s = λ e. cc
append-ne (p ∷ ps) s = λ e. cc

module _ (tc : Tcell) where
  dispatch_output-Returns :
      (mode : OutputMode) (ei : EscapeInterpreter)
      → IsPlainMode mode
      → Returns (dispatch_output tc mode ei)
  unfolding dispatch_output
  dispatch_output-Returns output_normal ei h = (_, refl)
  dispatch_output-Returns output_256 ei h = elim h [ ]
  dispatch_output-Returns output_true ei h = elim h [ ]
  dispatch_output-Returns output_216 ei h = (_, refl)
  dispatch_output-Returns output_grayscale ei h = (_, refl)
  dispatch_output-Returns output_simulator ei h = (_, refl)

  parse_params-Returns :
      (ei : EscapeInterpreter) (ch : ℕ)
      → ei.csi_param ≢ []
      → (ch ≢ b'm') ⊎ IsPlainMode ei.mode
      → Returns (parse_params tc ei ch)
  unfolding parse_params
  parse_params-Returns ei ch ne m =
      Returns-if (is_digit ch)
        (Returns->>= (add_to_last ei.csi_param ch) _ (add_to_last-Returns ei.csi_param ch ne)
          (λ ps. (_, refl)))
        (Returns-if (ch == b';') (_, refl)
          (elim m [
            | inl other ↦ rw (not_m other) (_, refl)
            | inr is_plain ↦
                Returns-if (ch == b'm')
                  (Returns->>= (dispatch_output tc ei.mode ei) _
                    (dispatch_output-Returns ei.mode ei is_plain) (λ r. (_, refl)))
                  (_, refl)
          ]))
    where
      not_m : ch ≢ b'm' → (ch == b'm') ≡ false
      not_m ne = ground arith

  parse_state-Returns :
      (st : EscapeState) (ei : EscapeInterpreter) (ch : ℕ)
      → (st ≡ state_params → ei.csi_param ≢ [])
      → (ch ≢ b'm') ⊎ IsPlainMode ei.mode
      → Returns (parse_state tc st ei ch)
  unfolding parse_state
  parse_state-Returns state_none ei ch ne m = Returns-if (ch == 0x1b) (_, refl) (_, refl)
  parse_state-Returns state_escape ei ch ne m = Returns-if (ch == b'[') (_, refl) (_, refl)
  parse_state-Returns state_csi ei ch ne m =
      Returns-if (is_digit ch)
        (parse_params-Returns
          (record ei { csi_param = ei.csi_param ++ [] ∷ []; state = state_params }) ch
          (append-ne ei.csi_param []) m)
        (Returns-if (ch == b'm')
          (parse_params-Returns
            (record ei { csi_param = ei.csi_param ++ (b'0' ∷ []) ∷ []; state = state_params }) ch
            (append-ne ei.csi_param (b'0' ∷ [])) m)
          (_, refl))
  parse_state-Returns state_params ei ch ne m = parse_params-Returns ei ch (ne refl) m

  -- On a well-formed interpreter parseOne returns for every rune but m, and for every rune in the
  -- modes other than Output256 and OutputTrue.
  pub parse_one-Returns :
      (ei : EscapeInterpreter) (ch : ℕ)
      → IsWellFormed ei
      → (ch ≢ b'm') ⊎ IsPlainMode ei.mode
      → (r : EscapeInterpreter × Parsed) × (parse_one tc ei ch ≡ ok r)
  unfolding parse_one
  parse_one-Returns ei ch w m =
      Returns-if (too_long ei.csi_param) (_, refl)
        (parse_state-Returns ei.state (record ei { curch = ch }) ch (λ e. rw e at (w.fits)) m)

  m_panics :
      (ei : EscapeInterpreter) (first second : Bool) (n : List ℕ) (k ch : ℕ)
      → ei.mode ≡ output_256
      → atoi n ≡ some k
      → parse_one tc (within ei (plane first ∷ lone_params second n) ch) b'm' ≡ panic
  unfolding parse_one
  m_panics ei true true n k ch m v = rw m (rw v)
  m_panics ei true false n k ch m v = rw m (rw v)
  m_panics ei false true n k ch m v = rw m (rw v)
  m_panics ei false false n k ch m v = rw m (rw v)

  -- In the mode Output256 the sequence ESC [ p ; 5 ; n ; q m, where p and q are 38 or 48 and
  -- strconv.Atoi takes n, is taken in up to its m, and the m panics.
  pub color_256-panics :
      (ei : EscapeInterpreter) (first second : Bool) (n : List ℕ) (k : ℕ)
      → ei.mode ≡ output_256
      → Param n
      → atoi n ≡ some k
      → (m : EscapeInterpreter) × Consumed tc
          (clean ei)
          (sequence_prefix (if first then b'3' else b'4') (b'8' ∷ []) (lone_params second n))
          m
        × (parse_one tc m b'm' ≡ panic)
  color_256-panics ei true second n k m d v =
      let (ch, before) =
        prefix-Consumed tc ei b'3' (b'8' ∷ []) (lone_params second n)
          ((refl, (refl, tt)), omega arith) (lone second n d) (omega arith) in
      (_, before, m_panics ei true second n k ch m v)
  color_256-panics ei false second n k m d v =
      let (ch, before) =
        prefix-Consumed tc ei b'4' (b'8' ∷ []) (lone_params second n)
          ((refl, (refl, tt)), omega arith) (lone second n d) (omega arith) in
      (_, before, m_panics ei false second n k ch m v)
