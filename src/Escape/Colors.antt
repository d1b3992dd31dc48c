-- ===== src/Escape/Colors.antt =====
-- The colours that a sequence sets, for the sequences that the comments of escape.go give.
use gocui.Common.{ℕ, ◌≡◌, refl, false, some, List, [], ◌∷◌, arith, ok}
use gocui.Tcell.{Tcell}
use gocui.Attribute.{OutputMode, output_normal, output_256, output_true, int32, get_256_color}
use gocui.Escape.Params.{EscapeInterpreter, atoi}
use gocui.Escape.Output.{dispatch_output, select_graphic}
use gocui.Escape.Sequence.{Consumed, Param, sequence_text, clean, within, sequence-Consumed}

abbrev pub code_38 : List ℕ
code_38 = b'3' ∷ b'8' ∷ []

abbrev pub code_48 : List ℕ
code_48 = b'4' ∷ b'8' ∷ []

-- A parameter list of the 256-colour form, and one of the true-colour form.
abbrev pub form_256 : List ℕ → List (List ℕ)
form_256 n = (b'5' ∷ []) ∷ n ∷ []

abbrev pub form_true : List ℕ → List ℕ → List ℕ → List (List ℕ)
form_true r g b = (b'2' ∷ []) ∷ r ∷ g ∷ b ∷ []

module _ (tc : Tcell) where
  output_normal_lem :
      (mode : OutputMode) (ei : EscapeInterpreter) (s : List ℕ) (p : ℕ)
      → mode ≡ output_normal
      → atoi s ≡ some p
      → ei.csi_param ≡ s ∷ []
      → dispatch_output tc mode ei ≡ ok (select_graphic tc p ei, false)
  unfolding dispatch_output
  output_normal_lem mode ei s p m v e = rw m (rw e (rw v))

  output_256_fg :
      (mode : OutputMode) (ei : EscapeInterpreter) (n : List ℕ) (k : ℕ)
      → mode ≡ output_256
      → atoi n ≡ some k
      → ei.csi_param ≡ code_38 ∷ form_256 n
      → dispatch_output tc mode ei
        ≡ ok (record ei { cur_fg_color = get_256_color tc (int32 k) }, false)
  unfolding dispatch_output
  output_256_fg mode ei n k m v e = rw m (rw e (rw v))

  output_256_bg :
      (mode : OutputMode) (ei : EscapeInterpreter) (n : List ℕ) (k : ℕ)
      → mode ≡ output_256
      → atoi n ≡ some k
      → ei.csi_param ≡ code_48 ∷ form_256 n
      → dispatch_output tc mode ei
        ≡ ok (record ei { cur_bg_color = get_256_color tc (int32 k) }, false)
  unfolding dispatch_output
  output_256_bg mode ei n k m v e = rw m (rw e (rw v))

  output_true_fg :
      (mode : OutputMode) (ei : EscapeInterpreter) (r g b : List ℕ) (i j k : ℕ)
      → mode ≡ output_true
      → atoi r ≡ some i
      → atoi g ≡ some j
      → atoi b ≡ some k
      → ei.csi_param ≡ code_38 ∷ form_true r g b
      → dispatch_output tc mode ei
        ≡ ok (record ei { cur_fg_color = tc.new_rgb_color (int32 i) (int32 j) (int32 k) }, false)
  unfolding dispatch_output
  output_true_fg mode ei r g b i j k m u v w e = rw m (rw e (rw (u, v, w)))

module _ (tc : Tcell) (ei : EscapeInterpreter) where
  -- In the mode OutputNormal the sequence ESC [ p m, for a digit string p that strconv.Atoi takes,
  -- is taken in and has the effect of the number p, once.
  pub normal-Consumed :
      (c : ℕ) (s : List ℕ) (p : ℕ)
      → ei.mode ≡ output_normal
      → Param (c ∷ s)
      → atoi (c ∷ s) ≡ some p
      → Consumed tc
          (clean ei)
          (sequence_text c s [])
          (clean (select_graphic tc p (within ei ((c ∷ s) ∷ []) b'm')))
  normal-Consumed c s p m d v =
      sequence-Consumed tc ei c s [] (select_graphic tc p (within ei ((c ∷ s) ∷ []) b'm')) d tt
        (omega arith)
        (output_normal_lem tc ei.mode (within ei ((c ∷ s) ∷ []) b'm') (c ∷ s) p m v refl)

  -- In the mode Output256 the sequences ESC [ 38 ; 5 ; n m and ESC [ 48 ; 5 ; n m, for a digit
  -- string n that strconv.Atoi takes, are taken in and set the foreground and the background to
  -- colour n, and no other colour.
  pub color_256-Consumed :
      (n : List ℕ) (k : ℕ)
      → ei.mode ≡ output_256
      → Param n
      → atoi n ≡ some k
      → Consumed tc
          (clean ei)
          (sequence_text b'3' (b'8' ∷ []) (form_256 n))
          (clean (record ei { curch = b'm'; cur_fg_color = get_256_color tc (int32 k) }))
        × Consumed tc
            (clean ei)
            (sequence_text b'4' (b'8' ∷ []) (form_256 n))
            (clean (record ei { curch = b'm'; cur_bg_color = get_256_color tc (int32 k) }))
  color_256-Consumed n k m d v = (
    sequence-Consumed tc ei b'3' (b'8' ∷ []) (form_256 n) _ ((refl, (refl, tt)), omega arith)
        (((refl, tt), omega arith), (d, tt)) (omega arith)
        (output_256_fg tc ei.mode (within ei (code_38 ∷ form_256 n) b'm') n k m v refl),
    sequence-Consumed tc ei b'4' (b'8' ∷ []) (form_256 n) _ ((refl, (refl, tt)), omega arith)
        (((refl, tt), omega arith), (d, tt)) (omega arith)
        (output_256_bg tc ei.mode (within ei (code_48 ∷ form_256 n) b'm') n k m v refl),
  )

  -- In the mode OutputTrue the sequence ESC [ 38 ; 2 ; r ; g ; b m, for digit strings that
  -- strconv.Atoi takes, is taken in and sets the foreground to the colour that tcell makes of r, g
  -- and b.
  pub color_true-Consumed :
      (r g b : List ℕ) (i j k : ℕ)
      → ei.mode ≡ output_true
      → Param r
      → Param g
      → Param b
      → atoi r ≡ some i
      → atoi g ≡ some j
      → atoi b ≡ some k
      → Consumed tc (clean ei) (sequence_text b'3' (b'8' ∷ []) (form_true r g b)) (
          clean (record ei {
            curch = b'm';
            cur_fg_color = tc.new_rgb_color (int32 i) (int32 j) (int32 k);
          }))
  color_true-Consumed r g b i j k m dr dg db u v w =
      sequence-Consumed tc ei b'3' (b'8' ∷ []) (form_true r g b) _ ((refl, (refl, tt)), omega arith)
        (((refl, tt), omega arith), (dr, (dg, (db, tt)))) (omega arith)
        (output_true_fg tc ei.mode (within ei (code_38 ∷ form_true r g b) b'm') r g b i j k m u v w
          refl)
