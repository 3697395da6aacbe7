-- ===== src/Console.antt =====
-- src/kernel/console.c: the text screen. `mem` is the memory by byte; the registers of the display
-- controller that the code writes through ports are the four bytes at the end of the record. The
-- colour is the code's constant 7, and the bell leaves no trace.
pub mod Cursor
pub mod Scroll
pub mod Write
mod Tests
use polaris_os.Prelude.{
  ltb, leb, ◌==◌, if◌then◌else◌, ℕ, zero, suc, ◌+◌, ◌-◌, ◌*◌, ◌/◌, ◌%◌, ◌^◌, ◌&&◌, ◌||◌, List, [],
  ◌∷◌,
}

abbrev pub mem_base : ℕ
mem_base = 0xb8000

abbrev pub mem_end : ℕ
mem_end = 0xb8000 + 0x8000

abbrev pub width : ℕ
width = 80

abbrev pub height : ℕ
height = 25

abbrev pub row_size : ℕ
row_size = 160

abbrev pub scr_size : ℕ
scr_size = 160 * 25

pub record Console : Type 0 where
  pub screen : ℕ
  pub cursor : ℕ
  pub x : ℕ
  pub y : ℕ
  pub mem : ℕ → ℕ
  pub start_addr_h : ℕ
  pub start_addr_l : ℕ
  pub cursor_h : ℕ
  pub cursor_l : ℕ

unfoldable pub get_screen : Console → Console
get_screen c = record c { screen = (c.start_addr_h * 256 + c.start_addr_l) * 2 + mem_base }

unfoldable pub set_screen : Console → Console
set_screen c = record c {
  start_addr_h = (c.screen - mem_base) / 2 ^ 9 % 256;
  start_addr_l = (c.screen - mem_base) / 2 % 256;
}

-- `cursor - screen` is a `u32`.
unfoldable pub get_cursor : Console → Console
get_cursor c =
    let c' = get_screen c in
    let cursor = (c.cursor_h * 256 + c.cursor_l) * 2 + mem_base in
    let cell = (cursor + 2 ^ 32 - c'.screen) % 2 ^ 32 / 2 in
    record c' { cursor = cursor; x = cell % width; y = cell / width }

unfoldable pub set_cursor : Console → Console
set_cursor c = record c {
  cursor_h = (c.cursor - mem_base) / 2 ^ 9 % 256;
  cursor_l = (c.cursor - mem_base) / 2 % 256;
}

abbrev pub store : ℕ → ℕ → (ℕ → ℕ) → ℕ → ℕ
store addr v mem a = if addr == a then v else mem a

-- `*(u32 *)addr = erase`, where `erase` is 0x0720: four bytes, of which two belong to the next cell.
unfoldable pub store_erase : ℕ → (ℕ → ℕ) → ℕ → ℕ
store_erase addr mem =
    store (addr + 3) 0 (store (addr + 2) 0 (store (addr + 1) 0x07 (store addr 0x20 mem)))

unfoldable pub console_clear : Console → Console
console_clear c =
    let home = record c { screen = mem_base; cursor = mem_base; x = 0; y = 0 } in
    record (set_screen (set_cursor home)) {
      mem = λ a.
          if leb mem_base a && ltb a mem_end then (if a % 2 == 0 then 0x20 else 0x07) else c.mem a;
    }

unfoldable pub command_bs : Console → Console
command_bs c =
    if ltb 0 c.x
    then record c { x = c.x - 1; cursor = c.cursor - 2; mem = store_erase (c.cursor - 2) c.mem }
    else c

-- The loop of `scroll_up`, on the rounds left; `ptr` goes on by four bytes.
unfoldable pub erase_loop : (left ptr : ℕ) → (ℕ → ℕ) → ℕ → ℕ
erase_loop zero ptr mem = mem
erase_loop (suc left) ptr mem = erase_loop left (ptr + 4) (store_erase ptr mem)

-- The first half of `scroll_up`: back to the start of the memory, where it runs out.
unfoldable pub wrap_screen : Console → Console
wrap_screen c =
    if leb mem_end (c.screen + scr_size + row_size)
    then record c {
      mem = λ a.
          if leb mem_base a && ltb a (mem_base + scr_size)
          then c.mem (c.screen + (a - mem_base))
          else c.mem a;
      cursor = c.cursor - (c.screen - mem_base);
      screen = mem_base;
    }
    else c

unfoldable pub scroll_up : Console → Console
scroll_up c =
    let c' = wrap_screen c in
    set_screen (record c' {
      mem = erase_loop width (c'.screen + scr_size) c'.mem;
      screen = c'.screen + row_size;
      cursor = c'.cursor + row_size;
    })

unfoldable pub command_lf : Console → Console
command_lf c =
    if ltb (c.y + 1) height
    then record c { y = c.y + 1; cursor = c.cursor + row_size }
    else scroll_up c

unfoldable pub command_cr : Console → Console
command_cr c = record c { cursor = c.cursor - c.x * 2; x = 0 }

unfoldable pub command_del : Console → Console
command_del c = record c { mem = store_erase c.cursor c.mem }

unfoldable pub put_char : ℕ → Console → Console
put_char ch c =
    let c' =
      if leb width c.x
      then command_lf (record c { x = c.x - width; cursor = c.cursor - row_size })
      else c in
    record c' {
      mem = store (c'.cursor + 1) 7 (store c'.cursor ch c'.mem);
      cursor = c'.cursor + 2;
      x = c'.x + 1;
    }

-- The switch of `console_write`.
unfoldable pub write_char : ℕ → Console → Console
write_char ch c =
    if (ch == 0)
      || ((ch == 0x05) || ((ch == 0x07) || ((ch == 0x09) || ((ch == 0x0b) || (ch == 0x0c)))))
    then c
    else if ch == 0x08
    then command_bs c
    else if ch == 0x0a
    then command_lf (command_cr c)
    else if ch == 0x0d
    then command_cr c
    else if ch == 0x7f
    then command_del c
    else put_char ch c

-- The loop of `console_write`: `nr`, which the test itself counts up, is an `i32` in the source; the
-- buffer is shorter than 2^31 - 1 bytes.
unfoldable pub write_loop : List ℕ → (nr : ℕ) → Console → ℕ × Console
write_loop [] nr c = (nr + 1, c)
write_loop (ch ∷ buf) nr c = write_loop buf (nr + 1) (write_char ch c)

unfoldable pub console_write : List ℕ → Console → ℕ × Console
console_write buf c = let (nr, c') = write_loop buf 0 c in (nr, set_cursor c')
