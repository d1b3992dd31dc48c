-- ===== src/Tests/Sequences.antt =====
-- The escape interpreter on short sequences.
use gocui.Common.{ℕ, ◌+◌, ◌^◌, ◌≡◌, refl, true, false, List, [], ◌∷◌, arith, ok, panic, inl}
use gocui.Attribute.{OutputMode, output_normal, output_256, get_256_color}
use gocui.Escape.{EscapeInterpreter, new_escape_interpreter, parse_one, Parsed}
use gocui.Escape.Sequence.{
  Consumed, sequence_prefix, sequence_text, clean, within, sequence-Consumed,
}
use gocui.Escape.Invariant.{parse_one-IsWellFormed, IsWellFormed, KeepsForm}
use gocui.Escape.Panics.{parse_one-Returns, color_256-panics, lone_params}
use gocui.Escape.{select_graphic, dispatch_output, run_normal, get_font_effect}
use gocui.Tests.Data.{tc}

abbrev at_start : OutputMode → EscapeInterpreter
at_start mode = new_escape_interpreter tc mode

abbrev seven : List ℕ
seven = b'7' ∷ []

at_start-IsWellFormed : (mode : OutputMode) → IsWellFormed (at_start mode)
at_start-IsWellFormed mode = record { fits = refl; few = omega arith; bounded = tt }

parse_one-IsWellFormed_example : KeepsForm (parse_one tc (at_start output_256) 0x1b)
parse_one-IsWellFormed_example =
    parse_one-IsWellFormed tc (at_start output_256) 0x1b (at_start-IsWellFormed output_256)

parse_one-Returns_example :
    (r : EscapeInterpreter × Parsed) × (parse_one tc (at_start output_256) 0x1b ≡ ok r)
parse_one-Returns_example =
    parse_one-Returns tc (at_start output_256) 0x1b (at_start-IsWellFormed output_256)
      (inl (λ e. omega arith))

sequence-Consumed_example :
    Consumed tc
      (clean (at_start output_normal))
      (sequence_text b'3' (b'1' ∷ []) ((b'1' ∷ []) ∷ []))
      (clean
        (record (within (at_start output_normal) [] b'm') { cur_fg_color = 2 ^ 32 + 2 ^ 40 + 1 }))
unfolding dispatch_output run_normal select_graphic get_font_effect get_256_color
sequence-Consumed_example =
    sequence-Consumed tc (at_start output_normal) b'3' (b'1' ∷ []) ((b'1' ∷ []) ∷ [])
      (record (within (at_start output_normal) ((b'3' ∷ b'1' ∷ []) ∷ (b'1' ∷ []) ∷ []) b'm') {
        cur_fg_color = 2 ^ 32 + 2 ^ 40 + 1;
      })
      ((refl, (refl, tt)), omega arith) (((refl, tt), omega arith), tt) (omega arith) refl

-- ESC [ 38 ; 5 ; 7 ; 48 m
color_256-panics_example :
    (m : EscapeInterpreter) × Consumed tc
      (clean (at_start output_256))
      (sequence_prefix b'3' (b'8' ∷ []) (lone_params false seven))
      m
    × (parse_one tc m b'm' ≡ panic)
color_256-panics_example =
    color_256-panics tc (at_start output_256) true false seven 7 refl ((refl, tt), omega arith) refl
