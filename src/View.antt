-- ===== src/View.antt =====
-- view.go: the type `View`, its constructor and the methods that set its positions.
use Prim.Native.String.{String}
use gocui.Common.{
  ℕ, ◌-◌, List, [], Bool, true, false, ◌&&◌, ◌||◌, not, Option, none, some, Outcome, ok, panic,
  ◌>>=◌, ◌==◌, if◌then◌else◌,
}
use gocui.Common.Int.{ℤ, pos, negsuc, ◌+ℤ◌, ◌-ℤ◌, ltb_ℤ, leb_ℤ, eqb_ℤ}
use gocui.Slice.{len, index, of_list}
use gocui.Cell.{Lines, Runtime}
use gocui.Tcell.{Tcell}
use gocui.Attribute.{OutputMode}
use gocui.Escape.{EscapeInterpreter, new_escape_interpreter}

-- What a view uses of the Go runtime and of other packages: the room that `append` leaves, tcell,
-- and `runewidth.RuneWidth`.
pub record Host : Type 0 where
  pub runtime : Runtime
  pub tcell : Tcell
  pub rune_width : ℕ → ℕ

-- `cellCache`
pub record CellCache : Type 0 where
  pub chr : ℕ
  pub bg_color : ℕ
  pub fg_color : ℕ
  pub x : ℤ
  pub y : ℤ

-- `View`, without the lock, the editor and the back pointer. The Read() and Write() offsets are never
-- negative: their setters refuse such values, and nothing lowers them.
pub record View : Type 0 where
  pub name : String
  pub x0 : ℤ
  pub y0 : ℤ
  pub x1 : ℤ
  pub y1 : ℤ
  pub ox : ℤ
  pub oy : ℤ
  pub cx : ℤ
  pub cy : ℤ
  pub rx : ℕ
  pub ry : ℕ
  pub wx : ℕ
  pub wy : ℕ
  pub lines : Lines
  pub out_mode : OutputMode
  pub read_buffer : Option (List ℕ)
  pub tainted : Bool
  pub content_cache : Option (List CellCache)
  pub ei : EscapeInterpreter
  pub visible : Bool
  pub bg_color : ℕ
  pub fg_color : ℕ
  pub sel_bg_color : ℕ
  pub sel_fg_color : ℕ
  pub editable : Bool
  pub overwrite : Bool
  pub highlight : Bool
  pub frame : Bool
  pub frame_color : ℕ
  pub frame_runes : List ℕ
  pub padding_x : ℤ
  pub padding_y : ℤ
  pub wrap : Bool
  pub autoscroll : Bool
  pub title : List ℕ
  pub title_color : ℕ
  pub subtitle : List ℕ
  pub mask : ℕ
  pub overlaps : ℕ
  pub has_loader : Bool
  pub keybind_on_edit : Bool

-- ErrInvalidPoint, and the errors.New("invalid point") of edit.go.
pub data PointError : Type 0 where
  invalid_point : PointError

-- `newView`
unfoldable pub new_view : Tcell → String → ℤ → ℤ → ℤ → ℤ → OutputMode → View
new_view tc name x0 y0 x1 y1 mode = record {
  name = name;
  x0 = x0;
  y0 = y0;
  x1 = x1;
  y1 = y1;
  ox = pos 0;
  oy = pos 0;
  cx = pos 0;
  cy = pos 0;
  rx = 0;
  ry = 0;
  wx = 0;
  wy = 0;
  lines = of_list [];
  out_mode = mode;
  read_buffer = none;
  tainted = true;
  content_cache = none;
  ei = new_escape_interpreter tc mode;
  visible = true;
  bg_color = tc.color_default;
  fg_color = tc.color_default;
  sel_bg_color = tc.color_default;
  sel_fg_color = tc.color_default;
  editable = false;
  overwrite = false;
  highlight = false;
  frame = true;
  frame_color = tc.color_default;
  frame_runes = [];
  padding_x = pos 0;
  padding_y = pos 0;
  wrap = false;
  autoscroll = false;
  title = [];
  title_color = tc.color_default;
  subtitle = [];
  mask = 0;
  overlaps = 0;
  has_loader = false;
  keybind_on_edit = false;
}

-- `Size`, one direction each.
abbrev pub size_x : View → ℤ
size_x v = v.x1 -ℤ v.x0 -ℤ pos 1 -ℤ (v.padding_x +ℤ v.padding_x)

abbrev pub size_y : View → ℤ
size_y v = v.y1 -ℤ v.y0 -ℤ pos 1 -ℤ (v.padding_y +ℤ v.padding_y)

abbrev pub Reply : Type 0
Reply = View × Option PointError

-- `SetCursorUnrestricted`
unfoldable pub set_cursor_unrestricted : ℤ → ℤ → View → Reply
set_cursor_unrestricted x y v =
    if ltb_ℤ x (pos 0) || ltb_ℤ y (pos 0)
    then (v, some invalid_point)
    else (record v { cx = x; cy = y }, none)

-- An index of Go: a negative one panics too.
abbrev pub index_ℤ {ℓ} : {A : Type ℓ} → List A → ℤ → Outcome A
index_ℤ xs (pos i) = index xs i
index_ℤ xs (negsuc i) = panic

-- The line number that `SetCursor` goes on with.
abbrev pub near_line : Lines → ℤ → ℤ
near_line ls y =
    if len ls == 0
    then pos 0
    else if leb_ℤ (pos (len ls)) y && not (eqb_ℤ y (pos 0))
    then pos (len ls - 1)
    else y

-- The column that `SetCursor` goes on with.
unfoldable pub near_column : Lines → ℤ → ℤ → Outcome ℤ
near_column ls x y =
    if ltb_ℤ (pos 0) x
    then if len ls == 0
      then ok (pos 0)
      else (index_ℤ ls.items y >>= λ l. ok (if ltb_ℤ (pos (len l)) x then pos (len l) else x))
    else ok x

-- `SetCursor`
unfoldable pub set_cursor : ℤ → ℤ → View → Outcome Reply
unfolding near_column set_cursor_unrestricted
set_cursor x y v = do
  let y' = near_line v.lines y
  x' ← near_column v.lines x y'
  ok (set_cursor_unrestricted x' y' v)

-- `SetOrigin`
unfoldable pub set_origin : ℤ → ℤ → View → Reply
set_origin x y v =
    if ltb_ℤ x (pos 0) || ltb_ℤ y (pos 0)
    then (v, some invalid_point)
    else (record v { ox = x; oy = y }, none)

-- `SetWritePos`
unfoldable pub set_write_pos : ℤ → ℤ → View → Reply
set_write_pos (pos x) (pos y) v = (record v { wx = x; wy = y }, none)
set_write_pos _ _ v = (v, some invalid_point)

-- `SetReadPos`
unfoldable pub set_read_pos : ℤ → ℤ → View → Reply
set_read_pos (pos x) (pos y) v = (record v { read_buffer = none; rx = x; ry = y }, none)
set_read_pos _ _ v = (v, some invalid_point)
