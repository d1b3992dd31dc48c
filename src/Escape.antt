-- ===== src/Escape.antt =====
-- escape.go: the interpreter of terminal escape sequences. A rune and a digit string are a number
-- and a list of numbers.
mod Params
pub mod Sequence
pub mod Invariant
pub mod Colors
pub mod Panics
mod Output
pub use Params.*
unfoldable pub use Output.{
  split_fg_bg, dispatch_output, select_graphic, get_font_effect, run_normal,
}
use gocui.Common.{
  ℕ, ◌+◌, List, [], ◌∷◌, ◌++◌, map, Bool, true, false, ◌&&◌, ◌||◌, Option, none, some, Outcome, ok,
  panic, ◌>>=◌, ltb, leb, ◌==◌, if◌then◌else◌, length,
}
use gocui.Attribute.{OutputMode}
use gocui.Tcell.{Tcell}

-- `newEscapeInterpreter`
abbrev pub new_escape_interpreter : Tcell → OutputMode → EscapeInterpreter
new_escape_interpreter tc mode = record {
  state = state_none;
  curch = 0;
  csi_param = [];
  cur_fg_color = tc.color_default;
  cur_bg_color = tc.color_default;
  mode = mode;
}

-- `reset`
abbrev pub reset : Tcell → EscapeInterpreter → EscapeInterpreter
reset tc ei = record ei {
  state = state_none;
  cur_fg_color = tc.color_default;
  cur_bg_color = tc.color_default;
  csi_param = [];
}

abbrev esc : ℕ
esc = 0x1b

abbrev params_text : List (List ℕ) → List ℕ
params_text [] = []
params_text (s ∷ ss) = s ++ b';' ∷ params_text ss

-- `runes`: what is printed in place of a sequence that is in error.
unfoldable pub runes : EscapeInterpreter → List ℕ
runes ei = elim ei.state [
  | state_none ↦ esc ∷ []
  | state_escape ↦ esc ∷ ei.curch ∷ []
  | state_csi ↦ esc ∷ b'[' ∷ ei.curch ∷ []
  | state_params ↦ esc ∷ b'[' ∷ (params_text ei.csi_param ++ ei.curch ∷ [])
]

-- What `parseOne` returns: the pairs (true, nil), (false, nil) and (false, err).
pub data Parsed : Type 0 where
  escape plain : Parsed
  failed : EscapeError → Parsed

-- The sanity checks of `parseOne`.
abbrev pub too_long : List (List ℕ) → Bool
too_long ps = ltb 20 (length ps) || ltb 255 (length (last_or_nil ps))

-- What follows the output at the `m`.
abbrev pub finish : EscapeInterpreter × Bool → EscapeInterpreter × Parsed
finish (ei, true) = (ei, failed csi_parse_error)
finish (ei, false) = (record ei { state = state_none; csi_param = [] }, escape)

-- The case stateParams.
unfoldable pub parse_params : Tcell → EscapeInterpreter → ℕ → Outcome (EscapeInterpreter × Parsed)
unfolding dispatch_output
parse_params tc ei ch =
    if is_digit ch
    then (do ps ← add_to_last ei.csi_param ch; ok (record ei { csi_param = ps }, escape))
    else if ch == b';'
    then ok (record ei { csi_param = ei.csi_param ++ [] ∷ [] }, escape)
    else if ch == b'm'
    then (do r ← dispatch_output tc ei.mode ei; ok (finish r))
    else ok (ei, failed csi_parse_error)

-- The case stateCSI, which falls through to stateParams.
unfoldable pub parse_csi : Tcell → EscapeInterpreter → ℕ → Outcome (EscapeInterpreter × Parsed)
unfolding parse_params
parse_csi tc ei ch =
    if is_digit ch
    then parse_params tc (record ei { csi_param = ei.csi_param ++ [] ∷ []; state = state_params })
        ch
    else if ch == b'm'
    then parse_params tc
        (record ei { csi_param = ei.csi_param ++ (b'0' ∷ []) ∷ []; state = state_params }) ch
    else ok (ei, failed csi_parse_error)

-- The switch on the state.
unfoldable pub parse_state :
    Tcell → EscapeState → EscapeInterpreter → ℕ → Outcome (EscapeInterpreter × Parsed)
unfolding parse_csi parse_params
parse_state tc state_none ei ch =
    if ch == esc then ok (record ei { state = state_escape }, escape) else ok (ei, plain)
parse_state tc state_escape ei ch =
    if ch == b'[' then ok (record ei { state = state_csi }, escape) else ok (ei, failed not_csi)
parse_state tc state_csi ei ch = parse_csi tc ei ch
parse_state tc state_params ei ch = parse_params tc ei ch

-- `parseOne`
unfoldable pub parse_one : Tcell → EscapeInterpreter → ℕ → Outcome (EscapeInterpreter × Parsed)
unfolding parse_state
parse_one tc ei ch =
    if too_long ei.csi_param
    then ok (ei, failed csi_too_long)
    else parse_state tc ei.state (record ei { curch = ch }) ch
