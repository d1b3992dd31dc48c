-- ===== src/Write/Plain.antt =====
-- Writing text without escape sequences.
use native.Mathlib.Decide.{dec_le}
use gocui.Common.{
  ℕ, ◌+◌, ◌≤◌, ◌<◌, ◌≡◌, refl, sym, ap, ap₂, ◌∙◌, ◌≢◌, true, false, some, List, [], ◌∷◌, ◌++◌, map,
  arith, Outcome, ok, ◌>>=◌, ◌==◌, if◌then◌else◌, le→leb, lt→leb, Bool-cases, inl, inr, length,
  replicate, take, drop, length-append, length-take,
}
use gocui.Slice.{len, index}
use gocui.Slice.Laws.{items-append}
use gocui.Cell.{Cell, Line, Lines, nil_line}
use gocui.Buffer.Spec.{text, overlay}
use gocui.Buffer.Text.{index_lem, index-lt, cells_of, write_cells-overlay}
use gocui.Buffer.RoundTrip.{text-index, index-text, index-update_at, length-text}
use gocui.Buffer.Writeable.{make_writeable_lem}
use gocui.Buffer.{make_writeable}
use gocui.Escape.{EscapeInterpreter, state_none, plain, parse_one}
use gocui.View.{View, Host}
use gocui.Write.Spec.{Page, break_page, overlay_page, glyphs, type_one, type_all}
use gocui.Write.{
  cells_for, write_newline, parse_input, write_parsed, write_one, write_all, write_runes,
}

-- The interpreter is between sequences, with these colours.
pub record AtRest (paint : ℕ → Cell) (ei : EscapeInterpreter) : Type 0 where
  pub between : ei.state ≡ state_none
  pub no_params : ei.csi_param ≡ []
  pub paints :
      (ch : ℕ)
      → record { chr = ch; bg_color = ei.cur_bg_color; fg_color = ei.cur_fg_color } ≡ paint ch

-- The write position is at a cell or at the end of a line of the text.
abbrev pub Ready : View → Type 0
Ready v = (l : Line) × (index v.lines.items v.wy ≡ ok l) × (v.wx ≤ len l)

abbrev pub page_of : View → Page
page_of v = record { rows = text v.lines; x = v.wx; y = v.wy }

-- No rune starts an escape sequence.
abbrev pub NoEsc : List ℕ → Type 0
NoEsc [] = Unit
NoEsc (r ∷ rs) = (r ≢ 0x1b) × NoEsc rs

abbrev Written : (ℕ → Cell) → Page → Outcome View → Type 0
Written paint p o = (w : View) × (o ≡ ok w) × (page_of w ≡ p) × Ready w × AtRest paint w.ei

length-overlay :
    (x : ℕ) (cells l : List Cell) → x ≤ length l → x + length cells ≤ length (overlay x cells l)
length-overlay x cells l h = omega (
  arith,
  length-append (take x l) (cells ++ drop (x + length cells) l),
  length-append cells (drop (x + length cells) l),
  length-take x l,
)

module _ (host : Host) (paint : ℕ → Cell) where
  plain_rune :
      (ei : EscapeInterpreter) (ch : ℕ)
      → AtRest paint ei
      → ch ≢ 0x1b
      → parse_one host.tcell ei ch ≡ ok (record ei { curch = ch }, plain)
  unfolding parse_one
  plain_rune ei ch r ne = rw (r.no_params) (rw (r.between) (rw (not_esc ch ne) refl))
    where
      not_esc : (c : ℕ) → c ≢ 0x1b → (c == 0x1b) ≡ false
      not_esc c ne = ground arith

  cells_for-glyphs :
      (ei : EscapeInterpreter) (ch : ℕ) → AtRest paint ei → cells_for ei ch ≡ glyphs paint ch
  cells_for-glyphs ei ch r =
      ap₂ (λ (a b : Cell). if ch == 9 then replicate 4 a else replicate 1 b) (r.paints 32)
        (r.paints ch)

  newline_lines :
      (v : View)
      → v.wy < len v.lines
      → (text (write_newline host v).lines ≡ (break_page (page_of v)).rows)
        × (v.wy + 1 < len (write_newline host v).lines)
  newline_lines v h = elim (dec_le (len v.lines) (v.wy + 1)) [
    | yes last ↦
        let shown = items-append host.runtime.lines nil_line v.lines (nil_line ∷ []) in
        rw (length-text v.lines.items) (
          rw (le→leb (len v.lines) (v.wy + 1) last) (
            ap (map cells_of) shown ∙ map-append v.lines.items,
            rw shown (omega (arith, length-append v.lines.items (nil_line ∷ []))),
          ))
    | no more ↦
        rw (length-text v.lines.items)
          (rw (lt→leb (len v.lines) (v.wy + 1) (omega arith)) (refl, omega arith))
  ]
    where
      map-append :
          (xs : List Line) → map cells_of (xs ++ nil_line ∷ []) ≡ map cells_of xs ++ [] ∷ []
      map-append [] = refl
      map-append (x ∷ xs) = ap (x.items ∷◌) (map-append xs)

  newline-Written :
      (v : View)
      → Ready v
      → AtRest paint v.ei
      → Written paint (break_page (page_of v)) (ok (write_newline host v))
  newline-Written v (l, at, h) rest =
      let (shown, there) = newline_lines v (index-lt v.lines.items v.wy at) in
      let (m, at') = index_lem (write_newline host v).lines.items (v.wy + 1) there in
      (
        write_newline host v,
        refl,
        ap (λ rows. record { rows = rows; x = 0; y = v.wy + 1 }) shown,
        (m, at', omega arith),
        rest,
      )

  cells-Written :
      (cells : List Cell) (v : View)
      → Ready v
      → AtRest paint v.ei
      → Written paint (overlay_page cells (page_of v)) (write_parsed host (v, some cells))
  cells-Written cells v (l, at, h) rest =
      let (t, run, shown) = write_cells-overlay host.runtime v.wx v.wy cells v.lines l at h in
      let (m, at', is) = index-text t.items v.wy (overlay v.wx cells l.items) (
        ap (λ s. index s v.wy) shown
        ∙ index-update_at (overlay v.wx cells) [] (text v.lines) v.wy l.items
            (text-index v.lines.items v.wy l at)) in
      (
        record v { lines = t; wx = v.wx + length cells },
        rw run refl,
        ap (λ rows. record { rows = rows; x = v.wx + length cells; y = v.wy }) shown,
        (m, at', rw is (length-overlay v.wx cells l.items h)),
        rest,
      )

  rune-Written :
      (r : ℕ) (v : View)
      → r ≢ 0x1b
      → Ready v
      → AtRest paint v.ei
      → Written paint
          (overlay_page (glyphs paint r) (page_of v))
          (parse_input host r v >>= write_parsed host)
  unfolding parse_input
  rune-Written r v ne ready rest =
      let w : View = record v { ei = record v.ei { curch = r } } in
      rw (plain_rune v.ei r rest ne) (
        rw (sym (cells_for-glyphs v.ei r rest)) (
          cells-Written (cells_for v.ei r) w ready
            (record { between = rest.between; no_params = rest.no_params; paints = rest.paints })))

  start-Written :
      (v : View)
      → Ready v
      → AtRest paint v.ei
      → Written paint (record { rows = text v.lines; x = 0; y = v.wy }) (ok (record v { wx = 0 }))
  start-Written v (l, at, h) rest = (record v { wx = 0 }, refl, refl, (l, at, omega arith), rest)

  one-Written :
      (r : ℕ) (v : View)
      → r ≢ 0x1b
      → Ready v
      → AtRest paint v.ei
      → Written paint (type_one paint r (page_of v)) (write_one host r v)
  unfolding write_one
  one-Written r v ne ready rest = elim (Bool-cases (r == 10)) [
    | inl e ↦ rw e (newline-Written v ready rest)
    | inr e ↦ elim (Bool-cases (r == 13)) [
      | inl f ↦ rw e (rw f (start-Written v ready rest))
      | inr f ↦ rw e (rw f (rune-Written r v ne ready rest))
    ]
  ]

  all-Written :
      (rs : List ℕ) (v : View)
      → NoEsc rs
      → Ready v
      → AtRest paint v.ei
      → Written paint (type_all paint rs (page_of v)) (write_all host rs v)
  unfolding write_all
  all-Written [] v n ready rest = (v, refl, refl, ready, rest)
  all-Written (r ∷ rs) v n ready rest =
      let (w, run, shown, ready', rest') = one-Written r v n.0 ready rest in
      let (u, run', shown', ready'', rest'') = all-Written rs w n.1 ready' rest' in
      (u, rw run run', shown' ∙ ap (type_all paint rs) shown, ready'', rest'')

  -- Runes without escape sequences, written into a view whose interpreter is between sequences:
  -- WriteRunes returns; once the write position is made writeable, the text and the write position
  -- are those of typing the runes one after the other over the text, in the interpreter's colours;
  -- the position is at a cell or at the end of a line, and the interpreter is between sequences
  -- again.
  pub write_runes-type_all :
      (rs : List ℕ) (v : View)
      → NoEsc rs
      → AtRest paint v.ei
      → (t : Lines) × (w : View) × (make_writeable host.runtime v.wx v.wy v.lines ≡ ok t)
        × (write_runes host rs v ≡ ok w)
        × (page_of w ≡ type_all paint rs (record { rows = text t; x = v.wx; y = v.wy }))
        × Ready w
        × AtRest paint w.ei
  unfolding write_runes
  write_runes-type_all rs v n rest =
      let (t, _, run, _, _, ready) = make_writeable_lem host.runtime v.wx v.wy v.lines in
      let (w, run', shown, ready', rest') =
        all-Written rs (record v { tainted = true; lines = t }) n ready rest in
      (t, w, run, rw run run', shown, ready', rest')
