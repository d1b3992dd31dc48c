-- ===== src/Escape/Sequence.antt =====
-- A whole sequence is taken in, and carried out once, at its `m`.
use gocui.Common.{
  ℕ, ◌+◌, ◌≤◌, ◌<◌, ◌≡◌, refl, true, false, List, [], ◌∷◌, ◌++◌, append-nil, append_assoc, arith,
  ok, length, length-append,
}
use gocui.Tcell.{Tcell}
use gocui.Escape.Params.{
  state_none, state_escape, state_csi, state_params, EscapeInterpreter, is_digit, last_or_nil,
  add_to_last,
}
use gocui.Escape.Output.{dispatch_output}
use gocui.Escape.{escape, parse_one, too_long}

-- The interpreter takes in the runes one by one, and none of them is to be printed.
pub data Consumed (tc : Tcell) : EscapeInterpreter → List ℕ → EscapeInterpreter → Type 0 where
  done : {ei : EscapeInterpreter} → Consumed tc ei [] ei
  next :
      {a b : EscapeInterpreter} {cs : List ℕ} (m : EscapeInterpreter) (c : ℕ)
      → parse_one tc a c ≡ ok (m, escape)
      → Consumed tc m cs b
      → Consumed tc a (c ∷ cs) b

Consumed-append :
    (tc : Tcell) {a b c : EscapeInterpreter} {cs ds : List ℕ}
    → Consumed tc a cs b
    → Consumed tc b ds c
    → Consumed tc a (cs ++ ds) c
Consumed-append tc done k = k
Consumed-append tc (next m c run rest) k = next m c run (Consumed-append tc rest k)

-- A string of digits.
abbrev pub Digits : List ℕ → Type 0
Digits [] = Unit
Digits (c ∷ s) = (is_digit c ≡ true) × Digits s

-- A string of digits that the sanity checks let through.
abbrev pub Param : List ℕ → Type 0
Param s = Digits s × (length s ≤ 255)

abbrev pub Params : List (List ℕ) → Type 0
Params [] = Unit
Params (s ∷ ss) = Param s × Params ss

-- The parameters behind the first one, each with its `;`.
abbrev pub more_text : List (List ℕ) → List ℕ
more_text [] = []
more_text (s ∷ ss) = b';' ∷ (s ++ more_text ss)

-- ESC [ c s ; … m, and the same without the `m`.
abbrev pub sequence_prefix : ℕ → List ℕ → List (List ℕ) → List ℕ
sequence_prefix c s ss = 0x1b ∷ b'[' ∷ c ∷ (s ++ more_text ss)

abbrev pub sequence_text : ℕ → List ℕ → List (List ℕ) → List ℕ
sequence_text c s ss = sequence_prefix c s ss ++ b'm' ∷ []

-- The interpreter between sequences, and within one.
abbrev pub clean : EscapeInterpreter → EscapeInterpreter
clean ei = record ei { state = state_none; csi_param = [] }

abbrev pub within : EscapeInterpreter → List (List ℕ) → ℕ → EscapeInterpreter
within ei ps ch = record ei { state = state_params; csi_param = ps; curch = ch }

pub last_or_nil-append : (ps : List (List ℕ)) (s : List ℕ) → last_or_nil (ps ++ s ∷ []) ≡ s
last_or_nil-append [] s = refl
last_or_nil-append (p ∷ []) s = refl
last_or_nil-append (p ∷ q ∷ ps) s = last_or_nil-append (q ∷ ps) s

add_to_last-append :
    (ps : List (List ℕ)) (s : List ℕ) (c : ℕ)
    → add_to_last (ps ++ s ∷ []) c ≡ ok (ps ++ (s ++ c ∷ []) ∷ [])
add_to_last-append [] s c = refl
add_to_last-append (p ∷ []) s c = refl
add_to_last-append (p ∷ q ∷ ps) s c = rw (add_to_last-append (q ∷ ps) s c)

not_too_long :
    (ps : List (List ℕ)) (s : List ℕ)
    → length ps < 20
    → length s ≤ 255
    → too_long (ps ++ s ∷ []) ≡ false
not_too_long ps s h k = rw (last_or_nil-append ps s) (ground (arith, length-append ps (s ∷ [])))

module _ (tc : Tcell) (ei : EscapeInterpreter) where
  digit_step :
      (ps : List (List ℕ)) (s : List ℕ) (ch c : ℕ)
      → length ps < 20
      → length s ≤ 255
      → is_digit c ≡ true
      → parse_one tc (within ei (ps ++ s ∷ []) ch) c
        ≡ ok (within ei (ps ++ (s ++ c ∷ []) ∷ []) c, escape)
  unfolding parse_one
  digit_step ps s ch c h k d = rw (not_too_long ps s h k) (rw d (rw (add_to_last-append ps s c)))

  semicolon_step :
      (ps : List (List ℕ)) (s : List ℕ) (ch : ℕ)
      → length ps < 20
      → length s ≤ 255
      → parse_one tc (within ei (ps ++ s ∷ []) ch) b';'
        ≡ ok (within ei ((ps ++ s ∷ []) ++ [] ∷ []) b';', escape)
  unfolding parse_one
  semicolon_step ps s ch h k = rw (not_too_long ps s h k)

  -- The digits of one parameter.
  append-Consumed :
      (ps : List (List ℕ)) (s ds : List ℕ) (ch : ℕ)
      → length ps < 20
      → Digits ds
      → length s + length ds ≤ 255
      → (ch' : ℕ) × Consumed tc
          (within ei (ps ++ s ∷ []) ch)
          ds
          (within ei (ps ++ (s ++ ds) ∷ []) ch')
  append-Consumed ps s [] ch h d k = rw (append-nil s) (ch, done)
  append-Consumed ps s (c ∷ ds) ch h d k =
      let (ch', rest) =
        append-Consumed ps (s ++ c ∷ []) ds c h d.1 (omega (arith, length-append s (c ∷ []))) in
      (
        ch',
        next _ c (digit_step ps s ch c h (omega arith) d.0)
            (rw (append_assoc s (c ∷ []) ds) at rest),
      )

  -- The parameters behind the first.
  more_text-Consumed :
      (ps : List (List ℕ)) (s : List ℕ) (ss : List (List ℕ)) (ch : ℕ)
      → length ps + length ss < 20
      → length s ≤ 255
      → Params ss
      → (ch' : ℕ) × Consumed tc
          (within ei (ps ++ s ∷ []) ch)
          (more_text ss)
          (within ei (ps ++ s ∷ ss) ch')
  more_text-Consumed ps s [] ch h k d = (ch, done)
  more_text-Consumed ps s (t ∷ ss) ch h k d =
      let qs = ps ++ s ∷ [] in
      let long = length-append ps (s ∷ []) in
      let (ch', digits) = append-Consumed qs [] t b';' (omega arith) d.0.0 (omega (arith, d.0.1)) in
      let (ch'', rest) = more_text-Consumed qs t ss ch' (omega arith) d.0.1 d.1 in
      (
        ch'',
        next _ b';' (semicolon_step ps s ch (omega arith) k)
            (Consumed-append tc digits (rw (append_assoc ps (s ∷ []) (t ∷ ss)) at rest)),
      )

  m_step :
      (ps : List (List ℕ)) (ch : ℕ) (r : EscapeInterpreter)
      → too_long ps ≡ false
      → dispatch_output tc ei.mode (within ei ps b'm') ≡ ok (r, false)
      → parse_one tc (within ei ps ch) b'm' ≡ ok (clean r, escape)
  unfolding parse_one
  m_step ps ch r h e = rw h (rw e)

  esc_step :
      parse_one tc (clean ei) 0x1b
      ≡ ok (record ei { state = state_escape; csi_param = []; curch = 0x1b }, escape)
  unfolding parse_one
  esc_step = refl

  bracket_step :
      parse_one tc (record ei { state = state_escape; csi_param = []; curch = 0x1b }) b'['
      ≡ ok (record ei { state = state_csi; csi_param = []; curch = b'[' }, escape)
  unfolding parse_one
  bracket_step = refl

  first_step :
      (c : ℕ)
      → is_digit c ≡ true
      → parse_one tc (record ei { state = state_csi; csi_param = []; curch = b'[' }) c
        ≡ ok (within ei ((c ∷ []) ∷ []) c, escape)
  unfolding parse_one
  first_step c d = rw d

  Params-too_long :
      (s : List ℕ) (ss : List (List ℕ))
      → length s ≤ 255
      → Params ss
      → length ss < 20
      → too_long (s ∷ ss) ≡ false
  Params-too_long s ss h d k = ground (arith, last_short s ss h d)
    where
      last_short :
          (t : List ℕ) (ts : List (List ℕ))
          → length t ≤ 255
          → Params ts
          → length (last_or_nil (t ∷ ts)) ≤ 255
      last_short t [] h d = h
      last_short t (u ∷ us) h d = last_short u us d.0.1 d.1

  -- The runes in front of the `m` are taken in one by one, up to the state that holds the parameters.
  pub prefix-Consumed :
      (c : ℕ) (s : List ℕ) (ss : List (List ℕ))
      → Param (c ∷ s)
      → Params ss
      → length ss < 20
      → (ch : ℕ) × Consumed tc (clean ei) (sequence_prefix c s ss) (within ei ((c ∷ s) ∷ ss) ch)
  prefix-Consumed c s ss d ds k =
      let short : length s ≤ 254 = omega (arith, d.1) in
      let (ch, digits) = append-Consumed [] (c ∷ []) s c (omega arith) d.0.1 (omega arith) in
      let (ch', more) = more_text-Consumed [] (c ∷ s) ss ch (omega arith) d.1 ds in
      (
        ch',
        next _ 0x1b esc_step (
            next _ b'[' bracket_step
              (next _ c (first_step c d.0.0) (Consumed-append tc digits more))),
      )

  -- A sequence ESC [ p ; ... m of at most 20 parameters of at most 255 digits each, the first not
  -- empty, whose output succeeds: every rune is taken in, the output is carried out once, on the
  -- parameters as written, and the interpreter is between sequences again.
  pub sequence-Consumed :
      (c : ℕ) (s : List ℕ) (ss : List (List ℕ)) (r : EscapeInterpreter)
      → Param (c ∷ s)
      → Params ss
      → length ss < 20
      → dispatch_output tc ei.mode (within ei ((c ∷ s) ∷ ss) b'm') ≡ ok (r, false)
      → Consumed tc (clean ei) (sequence_text c s ss) (clean r)
  sequence-Consumed c s ss r d ds k e =
      let (ch, before) = prefix-Consumed c s ss d ds k in
      Consumed-append tc before
        (next _ b'm' (m_step ((c ∷ s) ∷ ss) ch r (Params-too_long (c ∷ s) ss d.1 ds k) e) done)
