-- ===== src/Tests/Codes.antt =====
-- The codes of keys, modifiers and buttons, as tcell has them.
use gocui.Tcell.{KeyCodes, Modifiers, Buttons}

abbrev pub codes : KeyCodes
codes = record {
  rune_key = 256;
  f1 = 279;
  f2 = 280;
  f3 = 281;
  f4 = 282;
  f5 = 283;
  f6 = 284;
  f7 = 285;
  f8 = 286;
  f9 = 287;
  f10 = 288;
  f11 = 289;
  f12 = 290;
  insert = 270;
  delete = 271;
  home = 268;
  end = 269;
  pg_dn = 267;
  pg_up = 266;
  up = 257;
  down = 258;
  left = 260;
  right = 259;
  f64 = 342;
  ctrl_space = 0;
  ctrl_a = 1;
  ctrl_b = 2;
  ctrl_c = 3;
  ctrl_d = 4;
  ctrl_e = 5;
  ctrl_f = 6;
  ctrl_g = 7;
  backspace = 8;
  ctrl_h = 8;
  tab = 9;
  backtab = 274;
  ctrl_i = 9;
  ctrl_j = 10;
  ctrl_k = 11;
  ctrl_l = 12;
  enter = 13;
  ctrl_m = 13;
  ctrl_n = 14;
  ctrl_o = 15;
  ctrl_p = 16;
  ctrl_q = 17;
  ctrl_r = 18;
  ctrl_s = 19;
  ctrl_t = 20;
  ctrl_u = 21;
  ctrl_v = 22;
  ctrl_w = 23;
  ctrl_x = 24;
  ctrl_y = 25;
  ctrl_z = 26;
  escape = 27;
  ctrl_underscore = 31;
  backspace2 = 127;
  f63 = 341;
  f62 = 340;
  f61 = 339;
  f60 = 338;
  f59 = 337;
  f58 = 336;
  f57 = 335;
  f56 = 334;
  nul = 0;
  ctrl_backslash = 28;
  ctrl_right_sq = 29;
  ctrl_carat = 30;
  ctrl_left_sq = 27;
}

abbrev pub modifiers : Modifiers
modifiers = record { shift = 1; ctrl = 2; alt = 4 }

abbrev pub buttons : Buttons
buttons = record {
  none_held = 0;
  primary = 1;
  secondary = 2;
  middle = 4;
  wheel_up = 256;
  wheel_down = 512;
  wheel_left = 1024;
  wheel_right = 2048;
}
