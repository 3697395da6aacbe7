-- ===== src/Console/Tests.antt =====
-- Runs of the console, and the theorems at a screen with the cursor in its last row.
use polaris_os.Console.{
  mem_base, mem_end, Console, set_screen, store_erase, erase_loop, wrap_screen, scroll_up,
  write_loop, console_write,
}
use polaris_os.Console.Cursor.{OnScreen}
use polaris_os.Console.Scroll.{Kept, Scrolled, scroll_up-Scrolled}
use polaris_os.Console.Write.{CursorShown, console_write-OnScreen}
use polaris_os.Prelude.{◌==◌, if◌then◌else◌, ◌+◌, ◌*◌, ◌≡◌, refl, [], ◌∷◌, arith}

-- The last row that the memory has room for; there is an `A` at the start of the second line.
abbrev full : Console
full = record {
  screen = mem_base + 160 * 178;
  cursor = mem_base + 160 * 178 + 160 * 24 + 2 * 80;
  x = 80;
  y = 24;
  mem = λ a. if a == mem_base + 160 * 179 then 65 else 1;
  start_addr_h = 0;
  start_addr_l = 0;
  cursor_h = 0;
  cursor_l = 0;
}

full-OnScreen : OnScreen full
full-OnScreen = record {
  row = 178;
  begins = refl;
  rows = omega arith;
  columns = omega arith;
  lines = omega arith;
  at_cell = refl;
}

-- The scroll clears 320 bytes, and the last 32 lie behind the display's memory.
past_the_end : (scroll_up full).mem (mem_end + 28) ≡ 0x20
unfolding scroll_up wrap_screen set_screen erase_loop store_erase
past_the_end = refl

-- Two chars are written, and 3 is returned.
writes : (console_write (72 ∷ 105 ∷ []) full).0 ≡ 3
unfolding console_write write_loop
writes = refl

console_write-OnScreen_example :
    OnScreen (console_write (72 ∷ 10 ∷ 8 ∷ []) full).1
    × CursorShown (console_write (72 ∷ 10 ∷ 8 ∷ []) full).1
    × Kept full (console_write (72 ∷ 10 ∷ 8 ∷ []) full).1
    × ((console_write (72 ∷ 10 ∷ 8 ∷ []) full).0 ≡ 4)
console_write-OnScreen_example = console_write-OnScreen (72 ∷ 10 ∷ 8 ∷ []) full full-OnScreen

scroll_up-Scrolled_example : Scrolled full (scroll_up full)
scroll_up-Scrolled_example = scroll_up-Scrolled full full-OnScreen
