-- ===== src/Tcell.antt =====
-- What attribute.go and escape.go use of github.com/gdamore/tcell/v2.
use gocui.Common.{ℕ}

-- Colours are uint64 numbers; the arguments of `NewRGBColor` are patterns of an int32.
pub record Tcell : Type 0 where
  pub color_default : ℕ
  pub color_valid : ℕ
  pub color_is_rgb : ℕ
  pub new_rgb_color : ℕ → ℕ → ℕ → ℕ

-- The key codes that edit.go and tcell_driver.go compare with.
pub record Keys : Type 0 where
  pub key_backspace : ℕ
  pub key_backspace2 : ℕ
  pub key_delete : ℕ
  pub key_insert : ℕ
  pub key_enter : ℕ
  pub key_down : ℕ
  pub key_up : ℕ
  pub key_left : ℕ
  pub key_right : ℕ
  pub key_tab : ℕ
  pub key_escape : ℕ

-- The key codes that keybinding.go and tcell_driver.go name; `rune_key` is tcell's KeyRune.
pub record KeyCodes : Type 0 where
  pub rune_key : ℕ
  pub f1 : ℕ
  pub f2 : ℕ
  pub f3 : ℕ
  pub f4 : ℕ
  pub f5 : ℕ
  pub f6 : ℕ
  pub f7 : ℕ
  pub f8 : ℕ
  pub f9 : ℕ
  pub f10 : ℕ
  pub f11 : ℕ
  pub f12 : ℕ
  pub insert : ℕ
  pub delete : ℕ
  pub home : ℕ
  pub end : ℕ
  pub pg_dn : ℕ
  pub pg_up : ℕ
  pub up : ℕ
  pub down : ℕ
  pub left : ℕ
  pub right : ℕ
  pub f64 : ℕ
  pub ctrl_space : ℕ
  pub ctrl_a : ℕ
  pub ctrl_b : ℕ
  pub ctrl_c : ℕ
  pub ctrl_d : ℕ
  pub ctrl_e : ℕ
  pub ctrl_f : ℕ
  pub ctrl_g : ℕ
  pub backspace : ℕ
  pub ctrl_h : ℕ
  pub tab : ℕ
  pub backtab : ℕ
  pub ctrl_i : ℕ
  pub ctrl_j : ℕ
  pub ctrl_k : ℕ
  pub ctrl_l : ℕ
  pub enter : ℕ
  pub ctrl_m : ℕ
  pub ctrl_n : ℕ
  pub ctrl_o : ℕ
  pub ctrl_p : ℕ
  pub ctrl_q : ℕ
  pub ctrl_r : ℕ
  pub ctrl_s : ℕ
  pub ctrl_t : ℕ
  pub ctrl_u : ℕ
  pub ctrl_v : ℕ
  pub ctrl_w : ℕ
  pub ctrl_x : ℕ
  pub ctrl_y : ℕ
  pub ctrl_z : ℕ
  pub escape : ℕ
  pub ctrl_underscore : ℕ
  pub backspace2 : ℕ
  pub f63 : ℕ
  pub f62 : ℕ
  pub f61 : ℕ
  pub f60 : ℕ
  pub f59 : ℕ
  pub f58 : ℕ
  pub f57 : ℕ
  pub f56 : ℕ
  pub nul : ℕ
  pub ctrl_backslash : ℕ
  pub ctrl_right_sq : ℕ
  pub ctrl_carat : ℕ
  pub ctrl_left_sq : ℕ

-- The modifier masks.
pub record Modifiers : Type 0 where
  pub shift : ℕ
  pub ctrl : ℕ
  pub alt : ℕ

-- The button masks of mouse events; `none_held` is ButtonNone.
pub record Buttons : Type 0 where
  pub none_held : ℕ
  pub primary : ℕ
  pub secondary : ℕ
  pub middle : ℕ
  pub wheel_up : ℕ
  pub wheel_down : ℕ
  pub wheel_left : ℕ
  pub wheel_right : ℕ
