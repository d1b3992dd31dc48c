-- ===== src/Keybinding/Table.antt =====
-- keybinding.go: `translate`, the names of the keys. A name is the list of its bytes.
use gocui.Common.{ℕ, List, [], ◌∷◌}
use gocui.Tcell.{KeyCodes}
use gocui.Keybinding.Codes.{
  key_arrow_down, key_arrow_left, key_arrow_right, key_arrow_up, key_backspace, key_backspace2,
  key_backtab, key_ctrl2, key_ctrl3, key_ctrl4, key_ctrl5, key_ctrl6, key_ctrl7, key_ctrl8,
  key_ctrl_a, key_ctrl_b, key_ctrl_backslash, key_ctrl_c, key_ctrl_d, key_ctrl_e, key_ctrl_f,
  key_ctrl_g, key_ctrl_h, key_ctrl_i, key_ctrl_j, key_ctrl_k, key_ctrl_l, key_ctrl_lsq_bracket,
  key_ctrl_m, key_ctrl_n, key_ctrl_o, key_ctrl_p, key_ctrl_q, key_ctrl_r, key_ctrl_rsq_bracket,
  key_ctrl_s, key_ctrl_slash, key_ctrl_space, key_ctrl_t, key_ctrl_tilde, key_ctrl_u,
  key_ctrl_underscore, key_ctrl_v, key_ctrl_w, key_ctrl_x, key_ctrl_y, key_ctrl_z, key_delete,
  key_end, key_enter, key_esc, key_f1, key_f10, key_f11, key_f12, key_f2, key_f3, key_f4, key_f5,
  key_f6, key_f7, key_f8, key_f9, key_home, key_insert, key_pgdn, key_pgup, key_space, key_tab,
  mouse_left, mouse_middle, mouse_release, mouse_right, mouse_wheel_down, mouse_wheel_up,
}

-- An entry of the table.
pub record NamedKey : Type 0 where
  pub name : List ℕ
  pub key : ℕ

-- `translate`
abbrev pub translate : KeyCodes → List NamedKey
translate kc =
    record { name = b'F' ∷ b'1' ∷ []; key = key_f1 kc }
    ∷ record { name = b'F' ∷ b'2' ∷ []; key = key_f2 kc }
    ∷ record { name = b'F' ∷ b'3' ∷ []; key = key_f3 kc }
    ∷ record { name = b'F' ∷ b'4' ∷ []; key = key_f4 kc }
    ∷ record { name = b'F' ∷ b'5' ∷ []; key = key_f5 kc }
    ∷ record { name = b'F' ∷ b'6' ∷ []; key = key_f6 kc }
    ∷ record { name = b'F' ∷ b'7' ∷ []; key = key_f7 kc }
    ∷ record { name = b'F' ∷ b'8' ∷ []; key = key_f8 kc }
    ∷ record { name = b'F' ∷ b'9' ∷ []; key = key_f9 kc }
    ∷ record { name = b'F' ∷ b'1' ∷ b'0' ∷ []; key = key_f10 kc }
    ∷ record { name = b'F' ∷ b'1' ∷ b'1' ∷ []; key = key_f11 kc }
    ∷ record { name = b'F' ∷ b'1' ∷ b'2' ∷ []; key = key_f12 kc }
    ∷ record { name = b'I' ∷ b'n' ∷ b's' ∷ b'e' ∷ b'r' ∷ b't' ∷ []; key = key_insert kc }
    ∷ record { name = b'D' ∷ b'e' ∷ b'l' ∷ b'e' ∷ b't' ∷ b'e' ∷ []; key = key_delete kc }
    ∷ record { name = b'H' ∷ b'o' ∷ b'm' ∷ b'e' ∷ []; key = key_home kc }
    ∷ record { name = b'E' ∷ b'n' ∷ b'd' ∷ []; key = key_end kc }
    ∷ record { name = b'P' ∷ b'g' ∷ b'u' ∷ b'p' ∷ []; key = key_pgup kc }
    ∷ record { name = b'P' ∷ b'g' ∷ b'd' ∷ b'n' ∷ []; key = key_pgdn kc }
    ∷ record { name = b'A' ∷ b'r' ∷ b'r' ∷ b'o' ∷ b'w' ∷ b'U' ∷ b'p' ∷ []; key = key_arrow_up kc }
    ∷ record {
      name = b'A' ∷ b'r' ∷ b'r' ∷ b'o' ∷ b'w' ∷ b'D' ∷ b'o' ∷ b'w' ∷ b'n' ∷ [];
      key = key_arrow_down kc;
    }
    ∷ record {
      name = b'A' ∷ b'r' ∷ b'r' ∷ b'o' ∷ b'w' ∷ b'L' ∷ b'e' ∷ b'f' ∷ b't' ∷ [];
      key = key_arrow_left kc;
    }
    ∷ record {
      name = b'A' ∷ b'r' ∷ b'r' ∷ b'o' ∷ b'w' ∷ b'R' ∷ b'i' ∷ b'g' ∷ b'h' ∷ b't' ∷ [];
      key = key_arrow_right kc;
    }
    ∷ record {
      name = b'C' ∷ b't' ∷ b'r' ∷ b'l' ∷ b'T' ∷ b'i' ∷ b'l' ∷ b'd' ∷ b'e' ∷ [];
      key = key_ctrl_tilde kc;
    }
    ∷ record { name = b'C' ∷ b't' ∷ b'r' ∷ b'l' ∷ b'2' ∷ []; key = key_ctrl2 kc }
    ∷ record {
      name = b'C' ∷ b't' ∷ b'r' ∷ b'l' ∷ b'S' ∷ b'p' ∷ b'a' ∷ b'c' ∷ b'e' ∷ [];
      key = key_ctrl_space kc;
    }
    ∷ record { name = b'C' ∷ b't' ∷ b'r' ∷ b'l' ∷ b'A' ∷ []; key = key_ctrl_a kc }
    ∷ record { name = b'C' ∷ b't' ∷ b'r' ∷ b'l' ∷ b'B' ∷ []; key = key_ctrl_b kc }
    ∷ record { name = b'C' ∷ b't' ∷ b'r' ∷ b'l' ∷ b'C' ∷ []; key = key_ctrl_c kc }
    ∷ record { name = b'C' ∷ b't' ∷ b'r' ∷ b'l' ∷ b'D' ∷ []; key = key_ctrl_d kc }
    ∷ record { name = b'C' ∷ b't' ∷ b'r' ∷ b'l' ∷ b'E' ∷ []; key = key_ctrl_e kc }
    ∷ record { name = b'C' ∷ b't' ∷ b'r' ∷ b'l' ∷ b'F' ∷ []; key = key_ctrl_f kc }
    ∷ record { name = b'C' ∷ b't' ∷ b'r' ∷ b'l' ∷ b'G' ∷ []; key = key_ctrl_g kc }
    ∷ record {
      name = b'B' ∷ b'a' ∷ b'c' ∷ b'k' ∷ b's' ∷ b'p' ∷ b'a' ∷ b'c' ∷ b'e' ∷ [];
      key = key_backspace kc;
    }
    ∷ record { name = b'C' ∷ b't' ∷ b'r' ∷ b'l' ∷ b'H' ∷ []; key = key_ctrl_h kc }
    ∷ record { name = b'T' ∷ b'a' ∷ b'b' ∷ []; key = key_tab kc }
    ∷ record { name = b'B' ∷ b'a' ∷ b'c' ∷ b'k' ∷ b't' ∷ b'a' ∷ b'b' ∷ []; key = key_backtab kc }
    ∷ record { name = b'C' ∷ b't' ∷ b'r' ∷ b'l' ∷ b'I' ∷ []; key = key_ctrl_i kc }
    ∷ record { name = b'C' ∷ b't' ∷ b'r' ∷ b'l' ∷ b'J' ∷ []; key = key_ctrl_j kc }
    ∷ record { name = b'C' ∷ b't' ∷ b'r' ∷ b'l' ∷ b'K' ∷ []; key = key_ctrl_k kc }
    ∷ record { name = b'C' ∷ b't' ∷ b'r' ∷ b'l' ∷ b'L' ∷ []; key = key_ctrl_l kc }
    ∷ record { name = b'E' ∷ b'n' ∷ b't' ∷ b'e' ∷ b'r' ∷ []; key = key_enter kc }
    ∷ record { name = b'C' ∷ b't' ∷ b'r' ∷ b'l' ∷ b'M' ∷ []; key = key_ctrl_m kc }
    ∷ record { name = b'C' ∷ b't' ∷ b'r' ∷ b'l' ∷ b'N' ∷ []; key = key_ctrl_n kc }
    ∷ record { name = b'C' ∷ b't' ∷ b'r' ∷ b'l' ∷ b'O' ∷ []; key = key_ctrl_o kc }
    ∷ record { name = b'C' ∷ b't' ∷ b'r' ∷ b'l' ∷ b'P' ∷ []; key = key_ctrl_p kc }
    ∷ record { name = b'C' ∷ b't' ∷ b'r' ∷ b'l' ∷ b'Q' ∷ []; key = key_ctrl_q kc }
    ∷ record { name = b'C' ∷ b't' ∷ b'r' ∷ b'l' ∷ b'R' ∷ []; key = key_ctrl_r kc }
    ∷ record { name = b'C' ∷ b't' ∷ b'r' ∷ b'l' ∷ b'S' ∷ []; key = key_ctrl_s kc }
    ∷ record { name = b'C' ∷ b't' ∷ b'r' ∷ b'l' ∷ b'T' ∷ []; key = key_ctrl_t kc }
    ∷ record { name = b'C' ∷ b't' ∷ b'r' ∷ b'l' ∷ b'U' ∷ []; key = key_ctrl_u kc }
    ∷ record { name = b'C' ∷ b't' ∷ b'r' ∷ b'l' ∷ b'V' ∷ []; key = key_ctrl_v kc }
    ∷ record { name = b'C' ∷ b't' ∷ b'r' ∷ b'l' ∷ b'W' ∷ []; key = key_ctrl_w kc }
    ∷ record { name = b'C' ∷ b't' ∷ b'r' ∷ b'l' ∷ b'X' ∷ []; key = key_ctrl_x kc }
    ∷ record { name = b'C' ∷ b't' ∷ b'r' ∷ b'l' ∷ b'Y' ∷ []; key = key_ctrl_y kc }
    ∷ record { name = b'C' ∷ b't' ∷ b'r' ∷ b'l' ∷ b'Z' ∷ []; key = key_ctrl_z kc }
    ∷ record { name = b'E' ∷ b's' ∷ b'c' ∷ []; key = key_esc kc }
    ∷ record {
      name =
          b'C' ∷ b't' ∷ b'r' ∷ b'l' ∷ b'L' ∷ b's' ∷ b'q' ∷ b'B' ∷ b'r' ∷ b'a' ∷ b'c' ∷ b'k' ∷ b'e'
          ∷ b't' ∷ [];
      key = key_ctrl_lsq_bracket kc;
    }
    ∷ record { name = b'C' ∷ b't' ∷ b'r' ∷ b'l' ∷ b'3' ∷ []; key = key_ctrl3 kc }
    ∷ record { name = b'C' ∷ b't' ∷ b'r' ∷ b'l' ∷ b'4' ∷ []; key = key_ctrl4 kc }
    ∷ record {
      name =
          b'C' ∷ b't' ∷ b'r' ∷ b'l' ∷ b'B' ∷ b'a' ∷ b'c' ∷ b'k' ∷ b's' ∷ b'l' ∷ b'a' ∷ b's' ∷ b'h'
          ∷ [];
      key = key_ctrl_backslash kc;
    }
    ∷ record { name = b'C' ∷ b't' ∷ b'r' ∷ b'l' ∷ b'5' ∷ []; key = key_ctrl5 kc }
    ∷ record {
      name =
          b'C' ∷ b't' ∷ b'r' ∷ b'l' ∷ b'R' ∷ b's' ∷ b'q' ∷ b'B' ∷ b'r' ∷ b'a' ∷ b'c' ∷ b'k' ∷ b'e'
          ∷ b't' ∷ [];
      key = key_ctrl_rsq_bracket kc;
    }
    ∷ record { name = b'C' ∷ b't' ∷ b'r' ∷ b'l' ∷ b'6' ∷ []; key = key_ctrl6 kc }
    ∷ record { name = b'C' ∷ b't' ∷ b'r' ∷ b'l' ∷ b'7' ∷ []; key = key_ctrl7 kc }
    ∷ record {
      name = b'C' ∷ b't' ∷ b'r' ∷ b'l' ∷ b'S' ∷ b'l' ∷ b'a' ∷ b's' ∷ b'h' ∷ [];
      key = key_ctrl_slash kc;
    }
    ∷ record {
      name =
          b'C' ∷ b't' ∷ b'r' ∷ b'l' ∷ b'U' ∷ b'n' ∷ b'd' ∷ b'e' ∷ b'r' ∷ b's' ∷ b'c' ∷ b'o' ∷ b'r'
          ∷ b'e' ∷ [];
      key = key_ctrl_underscore kc;
    }
    ∷ record { name = b'S' ∷ b'p' ∷ b'a' ∷ b'c' ∷ b'e' ∷ []; key = key_space kc }
    ∷ record {
      name = b'B' ∷ b'a' ∷ b'c' ∷ b'k' ∷ b's' ∷ b'p' ∷ b'a' ∷ b'c' ∷ b'e' ∷ b'2' ∷ [];
      key = key_backspace2 kc;
    }
    ∷ record { name = b'C' ∷ b't' ∷ b'r' ∷ b'l' ∷ b'8' ∷ []; key = key_ctrl8 kc }
    ∷ record {
      name = b'M' ∷ b'o' ∷ b'u' ∷ b's' ∷ b'e' ∷ b'l' ∷ b'e' ∷ b'f' ∷ b't' ∷ [];
      key = mouse_left kc;
    }
    ∷ record {
      name = b'M' ∷ b'o' ∷ b'u' ∷ b's' ∷ b'e' ∷ b'm' ∷ b'i' ∷ b'd' ∷ b'd' ∷ b'l' ∷ b'e' ∷ [];
      key = mouse_middle kc;
    }
    ∷ record {
      name = b'M' ∷ b'o' ∷ b'u' ∷ b's' ∷ b'e' ∷ b'r' ∷ b'i' ∷ b'g' ∷ b'h' ∷ b't' ∷ [];
      key = mouse_right kc;
    }
    ∷ record {
      name = b'M' ∷ b'o' ∷ b'u' ∷ b's' ∷ b'e' ∷ b'r' ∷ b'e' ∷ b'l' ∷ b'e' ∷ b'a' ∷ b's' ∷ b'e' ∷ [];
      key = mouse_release kc;
    }
    ∷ record {
      name = b'M' ∷ b'o' ∷ b'u' ∷ b's' ∷ b'e' ∷ b'w' ∷ b'h' ∷ b'e' ∷ b'e' ∷ b'l' ∷ b'U' ∷ b'p' ∷ [];
      key = mouse_wheel_up kc;
    }
    ∷ record {
      name =
          b'M' ∷ b'o' ∷ b'u' ∷ b's' ∷ b'e' ∷ b'w' ∷ b'h' ∷ b'e' ∷ b'e' ∷ b'l' ∷ b'D' ∷ b'o' ∷ b'w'
          ∷ b'n' ∷ [];
      key = mouse_wheel_down kc;
    }
    ∷ []
