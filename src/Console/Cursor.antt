-- ===== src/Console/Cursor.antt =====
-- The cursor and its coordinates stay together, and the screen stays in the memory of the display.
use polaris_os.Console.{
  mem_base, mem_end, width, height, row_size, scr_size, Console, set_screen, command_bs,
  wrap_screen, scroll_up, command_lf, command_cr, command_del, put_char, write_char, write_loop,
}
use polaris_os.Prelude.{
  ltb, leb, ◌==◌, if◌then◌else◌, ltb→lt, Bool-cases, length, ℕ, ◌+◌, ◌-◌, ◌*◌, ◌≤◌, ◌<◌, ◌≡◌, refl,
  ◌∙◌, inl, inr, Bool, true, false, List, [], ◌∷◌, arith,
}

-- The screen begins at a row and ends in the display's memory; `x` may be one past the last column,
-- from where the next char goes to a new row.
pub record OnScreen (c : Console) : Type 0 where
  pub row : ℕ
  pub begins : c.screen ≡ mem_base + 160 * row
  pub rows : row ≤ 179
  pub columns : c.x ≤ 80
  pub lines : c.y < 25
  pub at_cell : c.cursor ≡ c.screen + 160 * c.y + 2 * c.x

pub scroll_up-OnScreen : (c : Console) → c.y ≡ 24 → OnScreen c → OnScreen (scroll_up c)
unfolding scroll_up set_screen wrap_screen
scroll_up-OnScreen c last v = elim (Bool-cases (leb mem_end (c.screen + scr_size + row_size))) [
  | inl ends ↦ rw ends (record {
    row = 1;
    begins = omega arith;
    rows = omega arith;
    columns = v.columns;
    lines = v.lines;
    at_cell = omega (arith, v.at_cell, v.begins);
  })
  | inr fits ↦
      let short : c.screen + scr_size + row_size < mem_end = ground arith in
      rw fits (record {
        row = v.row + 1;
        begins = omega (arith, v.begins);
        rows = omega (arith, v.begins, short);
        columns = v.columns;
        lines = v.lines;
        at_cell = omega (arith, v.at_cell);
      })
]

pub command_lf-OnScreen : (c : Console) → OnScreen c → OnScreen (command_lf c)
unfolding command_lf
command_lf-OnScreen c v = elim (Bool-cases (ltb (c.y + 1) height)) [
  | inl more ↦ rw more (record {
    row = v.row;
    begins = v.begins;
    rows = v.rows;
    columns = v.columns;
    lines = ltb→lt (c.y + 1) 25 more;
    at_cell = omega (arith, v.at_cell);
  })
  | inr last ↦
      let bottom : c.y ≡ 24 = ground (arith, v.lines) in rw last (scroll_up-OnScreen c bottom v)
]

-- The same screen with the cursor at another cell of the row.
pub in_row :
    (c c' : Console)
    → c'.screen ≡ c.screen
    → c'.y ≡ c.y
    → c'.x ≤ 80
    → c'.cursor + 2 * c.x ≡ c.cursor + 2 * c'.x
    → OnScreen c
    → OnScreen c'
in_row c c' s y x e v = record {
  row = v.row;
  begins = s ∙ v.begins;
  rows = v.rows;
  columns = x;
  lines = omega (arith, y, v.lines);
  at_cell = omega (arith, s, y, e, v.at_cell);
}

pub command_bs-OnScreen : (c : Console) → OnScreen c → OnScreen (command_bs c)
unfolding command_bs
command_bs-OnScreen c v = elim (Bool-cases (ltb 0 c.x)) [
  | inl there ↦
      let pos : 0 < c.x = ground arith in
      rw there (in_row c _ refl refl (omega (arith, v.columns)) (omega (arith, v.at_cell, pos)) v)
  | inr home ↦ rw home v
]

pub command_cr-OnScreen : (c : Console) → OnScreen c → OnScreen (command_cr c)
unfolding command_cr
command_cr-OnScreen c v = in_row c _ refl refl (omega arith) (omega (arith, v.at_cell)) v

command_lf_x : (c : Console) → (command_lf c).x ≡ c.x
unfolding command_lf scroll_up set_screen wrap_screen
command_lf_x c = ground arith

pub put_char-OnScreen : (ch : ℕ) (c : Console) → OnScreen c → OnScreen (put_char ch c)
unfolding put_char
put_char-OnScreen ch c v = elim (Bool-cases (leb width c.x)) [
  | inl past ↦
      let full : c.x ≡ 80 = ground (arith, v.columns) in
      let home = record c { x = c.x - width; cursor = c.cursor - row_size } in
      let w : OnScreen home =
        in_row c home refl refl (omega arith) (omega (arith, v.at_cell, full)) v in
      let d = command_lf-OnScreen home w in
      let first = command_lf_x home in
      rw past (
        in_row (command_lf home) _ refl refl (omega (arith, first, full)) (omega (arith, d.at_cell))
          d)
  | inr within ↦
      let small : c.x < 80 = ground arith in
      rw within (in_row c _ refl refl (omega (arith, small)) (omega (arith, v.at_cell)) v)
]

either_OnScreen :
    (b : Bool) (c d : Console) → OnScreen c → OnScreen d → OnScreen (if b then c else d)
either_OnScreen true c d v w = v
either_OnScreen false c d v w = w

pub write_char-OnScreen : (ch : ℕ) (c : Console) → OnScreen c → OnScreen (write_char ch c)
unfolding write_char command_del
write_char-OnScreen ch c v = either_OnScreen _ _ _ v (
    either_OnScreen (ch == 0x08) _ _ (command_bs-OnScreen c v) (
      either_OnScreen (ch == 0x0a) _ _
        (command_lf-OnScreen (command_cr c) (command_cr-OnScreen c v))
        (either_OnScreen (ch == 0x0d) _ _ (command_cr-OnScreen c v) (
          either_OnScreen (ch == 0x7f) _ _ (in_row c _ refl refl v.columns refl v)
            (put_char-OnScreen ch c v)))))

pub write_loop-OnScreen :
    (buf : List ℕ) (nr : ℕ) (c : Console) → OnScreen c → OnScreen (write_loop buf nr c).1
unfolding write_loop
write_loop-OnScreen [] nr c v = v
write_loop-OnScreen (ch ∷ buf) nr c v =
    write_loop-OnScreen buf (nr + 1) (write_char ch c) (write_char-OnScreen ch c v)

pub write_loop-length :
    (buf : List ℕ) (nr : ℕ) (c : Console) → (write_loop buf nr c).0 ≡ nr + length buf + 1
unfolding write_loop
write_loop-length [] nr c = omega arith
write_loop-length (ch ∷ buf) nr c = write_loop-length buf (nr + 1) (write_char ch c) ∙ (omega arith)
