-- ===== src/Keybinding/Codes.antt =====
-- keybinding.go: the constants for keys and the modifiers.
use gocui.Common.{ℕ}
use gocui.Tcell.{KeyCodes, Modifiers}

module _ (kc : KeyCodes) where
  abbrev pub key_f1 : ℕ
  key_f1 = kc.f1

  abbrev pub key_f2 : ℕ
  key_f2 = kc.f2

  abbrev pub key_f3 : ℕ
  key_f3 = kc.f3

  abbrev pub key_f4 : ℕ
  key_f4 = kc.f4

  abbrev pub key_f5 : ℕ
  key_f5 = kc.f5

  abbrev pub key_f6 : ℕ
  key_f6 = kc.f6

  abbrev pub key_f7 : ℕ
  key_f7 = kc.f7

  abbrev pub key_f8 : ℕ
  key_f8 = kc.f8

  abbrev pub key_f9 : ℕ
  key_f9 = kc.f9

  abbrev pub key_f10 : ℕ
  key_f10 = kc.f10

  abbrev pub key_f11 : ℕ
  key_f11 = kc.f11

  abbrev pub key_f12 : ℕ
  key_f12 = kc.f12

  abbrev pub key_insert : ℕ
  key_insert = kc.insert

  abbrev pub key_delete : ℕ
  key_delete = kc.delete

  abbrev pub key_home : ℕ
  key_home = kc.home

  abbrev pub key_end : ℕ
  key_end = kc.end

  abbrev pub key_pgdn : ℕ
  key_pgdn = kc.pg_dn

  abbrev pub key_pgup : ℕ
  key_pgup = kc.pg_up

  abbrev pub key_arrow_up : ℕ
  key_arrow_up = kc.up

  abbrev pub key_arrow_down : ℕ
  key_arrow_down = kc.down

  abbrev pub key_arrow_left : ℕ
  key_arrow_left = kc.left

  abbrev pub key_arrow_right : ℕ
  key_arrow_right = kc.right

  abbrev pub key_ctrl_tilde : ℕ
  key_ctrl_tilde = kc.f64

  abbrev pub key_ctrl_space : ℕ
  key_ctrl_space = kc.ctrl_space

  abbrev pub key_ctrl_a : ℕ
  key_ctrl_a = kc.ctrl_a

  abbrev pub key_ctrl_b : ℕ
  key_ctrl_b = kc.ctrl_b

  abbrev pub key_ctrl_c : ℕ
  key_ctrl_c = kc.ctrl_c

  abbrev pub key_ctrl_d : ℕ
  key_ctrl_d = kc.ctrl_d

  abbrev pub key_ctrl_e : ℕ
  key_ctrl_e = kc.ctrl_e

  abbrev pub key_ctrl_f : ℕ
  key_ctrl_f = kc.ctrl_f

  abbrev pub key_ctrl_g : ℕ
  key_ctrl_g = kc.ctrl_g

  abbrev pub key_backspace : ℕ
  key_backspace = kc.backspace

  abbrev pub key_ctrl_h : ℕ
  key_ctrl_h = kc.ctrl_h

  abbrev pub key_tab : ℕ
  key_tab = kc.tab

  abbrev pub key_backtab : ℕ
  key_backtab = kc.backtab

  abbrev pub key_ctrl_i : ℕ
  key_ctrl_i = kc.ctrl_i

  abbrev pub key_ctrl_j : ℕ
  key_ctrl_j = kc.ctrl_j

  abbrev pub key_ctrl_k : ℕ
  key_ctrl_k = kc.ctrl_k

  abbrev pub key_ctrl_l : ℕ
  key_ctrl_l = kc.ctrl_l

  abbrev pub key_enter : ℕ
  key_enter = kc.enter

  abbrev pub key_ctrl_m : ℕ
  key_ctrl_m = kc.ctrl_m

  abbrev pub key_ctrl_n : ℕ
  key_ctrl_n = kc.ctrl_n

  abbrev pub key_ctrl_o : ℕ
  key_ctrl_o = kc.ctrl_o

  abbrev pub key_ctrl_p : ℕ
  key_ctrl_p = kc.ctrl_p

  abbrev pub key_ctrl_q : ℕ
  key_ctrl_q = kc.ctrl_q

  abbrev pub key_ctrl_r : ℕ
  key_ctrl_r = kc.ctrl_r

  abbrev pub key_ctrl_s : ℕ
  key_ctrl_s = kc.ctrl_s

  abbrev pub key_ctrl_t : ℕ
  key_ctrl_t = kc.ctrl_t

  abbrev pub key_ctrl_u : ℕ
  key_ctrl_u = kc.ctrl_u

  abbrev pub key_ctrl_v : ℕ
  key_ctrl_v = kc.ctrl_v

  abbrev pub key_ctrl_w : ℕ
  key_ctrl_w = kc.ctrl_w

  abbrev pub key_ctrl_x : ℕ
  key_ctrl_x = kc.ctrl_x

  abbrev pub key_ctrl_y : ℕ
  key_ctrl_y = kc.ctrl_y

  abbrev pub key_ctrl_z : ℕ
  key_ctrl_z = kc.ctrl_z

  abbrev pub key_esc : ℕ
  key_esc = kc.escape

  abbrev pub key_ctrl_underscore : ℕ
  key_ctrl_underscore = kc.ctrl_underscore

  abbrev pub key_space : ℕ
  key_space = 32

  abbrev pub key_backspace2 : ℕ
  key_backspace2 = kc.backspace2

  abbrev pub key_ctrl8 : ℕ
  key_ctrl8 = kc.backspace2

  abbrev pub mouse_left : ℕ
  mouse_left = kc.f63

  abbrev pub mouse_right : ℕ
  mouse_right = kc.f62

  abbrev pub mouse_middle : ℕ
  mouse_middle = kc.f61

  abbrev pub mouse_release : ℕ
  mouse_release = kc.f60

  abbrev pub mouse_wheel_up : ℕ
  mouse_wheel_up = kc.f59

  abbrev pub mouse_wheel_down : ℕ
  mouse_wheel_down = kc.f58

  abbrev pub mouse_wheel_left : ℕ
  mouse_wheel_left = kc.f57

  abbrev pub mouse_wheel_right : ℕ
  mouse_wheel_right = kc.f56

  abbrev pub key_ctrl2 : ℕ
  key_ctrl2 = kc.nul

  abbrev pub key_ctrl3 : ℕ
  key_ctrl3 = kc.escape

  abbrev pub key_ctrl4 : ℕ
  key_ctrl4 = kc.ctrl_backslash

  abbrev pub key_ctrl5 : ℕ
  key_ctrl5 = kc.ctrl_right_sq

  abbrev pub key_ctrl6 : ℕ
  key_ctrl6 = kc.ctrl_carat

  abbrev pub key_ctrl7 : ℕ
  key_ctrl7 = kc.ctrl_underscore

  abbrev pub key_ctrl_slash : ℕ
  key_ctrl_slash = kc.ctrl_underscore

  abbrev pub key_ctrl_rsq_bracket : ℕ
  key_ctrl_rsq_bracket = kc.ctrl_right_sq

  abbrev pub key_ctrl_backslash : ℕ
  key_ctrl_backslash = kc.ctrl_backslash

  abbrev pub key_ctrl_lsq_bracket : ℕ
  key_ctrl_lsq_bracket = kc.ctrl_left_sq

abbrev pub mod_none : ℕ
mod_none = 0

module _ (m : Modifiers) where
  abbrev pub mod_alt : ℕ
  mod_alt = m.alt

  abbrev pub mod_shift : ℕ
  mod_shift = m.shift

  abbrev pub mod_mouse_ctrl : ℕ
  mod_mouse_ctrl = m.ctrl
