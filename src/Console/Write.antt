-- ===== src/Console/Write.antt =====
-- `console_write` as a whole.
use polaris_os.Console.{
  width, row_size, Console, get_screen, set_screen, get_cursor, set_cursor, command_lf, command_cr,
  put_char, write_char, write_loop, console_write,
}
use polaris_os.Console.Cursor.{
  OnScreen, command_lf-OnScreen, in_row, command_cr-OnScreen, write_char-OnScreen,
  write_loop-OnScreen, write_loop-length,
}
use polaris_os.Console.Scroll.{
  Kept, command_lf-Kept, command_bs-Kept, command_del-Kept, stored-Kept,
}
use polaris_os.Prelude.{
  leb, ◌==◌, if◌then◌else◌, Bool-cases, length, ℕ, ◌+◌, ◌-◌, ◌<◌, ◌≡◌, refl, ◌∙◌, inl, inr, Bool,
  true, false, List, [], ◌∷◌, arith,
}

put_char-Kept : (ch : ℕ) (c : Console) → OnScreen c → Kept c (put_char ch c)
unfolding put_char
put_char-Kept ch c v = elim (Bool-cases (leb width c.x)) [
  | inl past ↦
      let full : c.x ≡ 80 = ground (arith, v.columns) in
      let home = record c { x = c.x - width; cursor = c.cursor - row_size } in
      let w : OnScreen home =
        in_row c home refl refl (omega arith) (omega (arith, v.at_cell, full)) v in
      rw past (λ a o.
        stored-Kept ch (command_lf home) (command_lf-OnScreen home w) a o
        ∙ command_lf-Kept home w a o)
  | inr within ↦ rw within (stored-Kept ch c v)
]

either_Kept : (b : Bool) (c d e : Console) → Kept c d → Kept c e → Kept c (if b then d else e)
either_Kept true c d e k l = k
either_Kept false c d e k l = l

write_char-Kept : (ch : ℕ) (c : Console) → OnScreen c → Kept c (write_char ch c)
unfolding write_char command_cr
write_char-Kept ch c v =
    either_Kept _ c _ _ (λ a o. refl)
      (either_Kept (ch == 0x08) c _ _ (command_bs-Kept c v) (
        either_Kept (ch == 0x0a) c _ _ (command_lf-Kept (command_cr c) (command_cr-OnScreen c v)) (
          either_Kept (ch == 0x0d) c _ _ (λ a o. refl)
            (either_Kept (ch == 0x7f) c _ _ (command_del-Kept c v) (put_char-Kept ch c v)))))

write_loop-Kept :
    (buf : List ℕ) (nr : ℕ) (c : Console) → OnScreen c → Kept c (write_loop buf nr c).1
unfolding write_loop
write_loop-Kept [] nr c v a o = refl
write_loop-Kept (ch ∷ buf) nr c v a o =
    write_loop-Kept buf (nr + 1) (write_char ch c) (write_char-OnScreen ch c v) a o
    ∙ write_char-Kept ch c v a o

-- The registers of the cursor name its cell.
abbrev pub CursorShown : Console → Type 0
CursorShown c = (get_cursor c).cursor ≡ c.cursor

set_cursor-CursorShown : (c : Console) → OnScreen c → CursorShown (set_cursor c)
unfolding set_cursor get_cursor get_screen
set_cursor-CursorShown c v = omega (arith, v.at_cell, v.begins, v.rows, v.lines, v.columns)

-- `console_write` of any bytes, from a cursor on the screen, ends with the cursor on the screen and
-- shown; it changes no byte below the display's memory or from 32 bytes behind it on; and it returns
-- one more than the number of bytes.
pub console_write-OnScreen :
    (buf : List ℕ) (c : Console)
    → OnScreen c
    → OnScreen (console_write buf c).1
      × CursorShown (console_write buf c).1
      × Kept c (console_write buf c).1
      × ((console_write buf c).0 ≡ length buf + 1)
unfolding console_write set_cursor
console_write-OnScreen buf c v =
    let w = write_loop-OnScreen buf 0 c v in
    (
      in_row (write_loop buf 0 c).1 _ refl refl w.columns refl w,
      set_cursor-CursorShown (write_loop buf 0 c).1 w,
      write_loop-Kept buf 0 c v,
      write_loop-length buf 0 c ∙ (omega arith),
    )

-- After `set_cursor` and `set_screen`, `get_cursor` restores the screen, the cursor and its
-- coordinates, where the cursor is on the screen and not past the last column.
pub get_cursor-set_cursor :
    (c : Console)
    → OnScreen c
    → c.x < 80
    → let d = get_cursor (set_cursor (set_screen c)) in
      (d.screen ≡ c.screen) × (d.cursor ≡ c.cursor) × (d.x ≡ c.x) × (d.y ≡ c.y)
unfolding get_cursor get_screen set_cursor set_screen
get_cursor-set_cursor c v h = (
  omega (arith, v.at_cell, v.begins, v.rows, v.lines),
  omega (arith, v.at_cell, v.begins, v.rows, v.lines),
  omega (arith, v.at_cell, v.begins, v.rows, v.lines),
  omega (arith, v.at_cell, v.begins, v.rows, v.lines),
)
