-- ===== src/Console/Scroll.antt =====
-- What the console writes: which bytes it changes, and that a scroll moves the lines up.
use polaris_os.Console.{
  mem_base, mem_end, height, row_size, scr_size, Console, get_screen, set_screen, store,
  store_erase, command_bs, erase_loop, wrap_screen, scroll_up, command_lf, command_del,
}
use polaris_os.Console.Cursor.{OnScreen}
use polaris_os.Prelude.{
  ltb, leb, ◌==◌, if◌then◌else◌, Bool-cases, ℕ, zero, suc, ◌+◌, ◌-◌, ◌*◌, ◌%◌, ◌≤◌, ◌<◌, ◌≡◌, refl,
  ap, ◌∙◌, ◌⊎◌, inl, inr, true, false, ◌&&◌, arith, dec_lt,
}

-- Outside the display's memory and the 32 bytes behind it.
abbrev pub Outside : ℕ → Type 0
Outside a = (a < mem_base) ⊎ (mem_end + 32 ≤ a)

abbrev pub Kept : Console → Console → Type 0
Kept c c' = (a : ℕ) → Outside a → c'.mem a ≡ c.mem a

store_erase_far :
    (addr : ℕ) (mem : ℕ → ℕ) (a : ℕ)
    → ((a < addr) ⊎ (addr + 4 ≤ a))
    → store_erase addr mem a ≡ mem a
unfolding store_erase
store_erase_far addr mem a (inl below) = ground arith
store_erase_far addr mem a (inr above) = ground arith

erase_loop_far :
    (left ptr : ℕ) (mem : ℕ → ℕ) (a : ℕ)
    → ((a < ptr) ⊎ (ptr + 4 * left ≤ a))
    → erase_loop left ptr mem a ≡ mem a
unfolding erase_loop
erase_loop_far zero ptr mem a h = refl
erase_loop_far (suc left) ptr mem a (inl below) =
    erase_loop_far left (ptr + 4) (store_erase ptr mem) a (inl (omega arith))
    ∙ store_erase_far ptr mem a (inl below)
erase_loop_far (suc left) ptr mem a (inr above) =
    erase_loop_far left (ptr + 4) (store_erase ptr mem) a (inr (omega arith))
    ∙ store_erase_far ptr mem a (inr (omega arith))

-- The bytes of the word that erases a cell, `0x0720`: it has two for the cell behind it as well.
abbrev pub erase_byte : ℕ → ℕ
erase_byte k = if k == 0 then 0x20 else if k == 1 then 0x07 else 0

store_erase_near :
    (addr : ℕ) (mem : ℕ → ℕ) (j : ℕ) → j < 4 → store_erase addr mem (addr + j) ≡ erase_byte j
unfolding store_erase
store_erase_near addr mem j h = ground arith

erase_loop_near :
    (left ptr : ℕ) (mem : ℕ → ℕ) (j : ℕ)
    → j < 4 * left
    → erase_loop left ptr mem (ptr + j) ≡ erase_byte (j % 4)
unfolding erase_loop
erase_loop_near zero ptr mem j h = absurd (omega arith)
erase_loop_near (suc left) ptr mem j h = elim (dec_lt j 4) [
  | yes first ↦
      let same : j ≡ j % 4 = omega arith in
      erase_loop_far left (ptr + 4) (store_erase ptr mem) (ptr + j) (inl (omega arith))
      ∙ store_erase_near ptr mem j first
      ∙ ap erase_byte same
  | no later ↦
      let at : ptr + j ≡ ptr + 4 + (j - 4) = omega arith in
      let same : (j - 4) % 4 ≡ j % 4 = omega arith in
      ap (erase_loop left (ptr + 4) (store_erase ptr mem)) at
      ∙ erase_loop_near left (ptr + 4) (store_erase ptr mem) (j - 4) (omega arith)
      ∙ ap erase_byte same
]

-- What a scroll leaves: the lines from the second on one row higher, each byte of them, the erasing
-- words in the last row, and the registers of the display at the new screen.
pub record Scrolled (c c' : Console) : Type 0 where
  pub lines : (i : ℕ) → i < 160 * 24 → c'.mem (c'.screen + i) ≡ c.mem (c.screen + 160 + i)
  pub last : (i : ℕ) → i < 160 → c'.mem (c'.screen + 160 * 24 + i) ≡ erase_byte (i % 4)
  pub shown : (get_screen c').screen ≡ c'.screen

-- A scroll with the cursor on the screen, whether the code goes on in the memory or moves back to its
-- start: the display shows the lines from the second on one row higher, each byte of them, and in its
-- last row an erased cell and one of two zero bytes by turns.
pub scroll_up-Scrolled : (c : Console) → OnScreen c → Scrolled c (scroll_up c)
unfolding scroll_up set_screen wrap_screen get_screen
scroll_up-Scrolled c v = elim (Bool-cases (leb mem_end (c.screen + scr_size + row_size))) [
  | inl ends ↦ rw ends (record {
    lines = λ i h.
        (let a = mem_base + row_size + i in
          let copied : (leb mem_base a && ltb a (mem_base + scr_size)) ≡ true = ground arith in
          let from : c.screen + (a - mem_base) ≡ c.screen + 160 + i = omega arith in
          erase_loop_far 80 (mem_base + scr_size) _ a (inl (omega arith))
          ∙ ap (λ b. if b then c.mem (c.screen + (a - mem_base)) else c.mem a) copied
          ∙ ap c.mem from);
    last = λ i h. erase_loop_near 80 (mem_base + scr_size) _ i (omega arith);
    shown = omega arith;
  })
  | inr fits ↦
      let short : c.screen + scr_size + row_size < mem_end = ground arith in
      rw fits (record {
        lines = λ i h.
            erase_loop_far 80 (c.screen + scr_size) c.mem (c.screen + row_size + i)
              (inl (omega arith))
            ∙ ap c.mem (omega arith);
        last = λ i h.
            (let at : c.screen + row_size + 160 * 24 + i ≡ c.screen + scr_size + i = omega arith in
              ap (erase_loop 80 (c.screen + scr_size) c.mem) at
              ∙ erase_loop_near 80 (c.screen + scr_size) c.mem i (omega arith));
        shown = omega (arith, v.begins, v.rows, short);
      })
]

scroll_up-Kept : (c : Console) → OnScreen c → Kept c (scroll_up c)
unfolding scroll_up set_screen wrap_screen
scroll_up-Kept c v a o = elim (Bool-cases (leb mem_end (c.screen + scr_size + row_size))) [
  | inl ends ↦ rw ends (
      erase_loop_far 80 (mem_base + scr_size) _ a (far o)
      ∙ ap (λ b. if b then c.mem (c.screen + (a - mem_base)) else c.mem a) (not_copied o))
  | inr fits ↦
      let short : c.screen + scr_size + row_size < mem_end = ground arith in
      rw fits (erase_loop_far 80 (c.screen + scr_size) c.mem a (clear short o))
]
  where
    far : Outside a → (a < mem_base + scr_size) ⊎ (mem_base + scr_size + 320 ≤ a)
    far (inl below) = inl (omega arith)
    far (inr above) = inr (omega arith)

    not_copied : Outside a → (leb mem_base a && ltb a (mem_base + scr_size)) ≡ false
    not_copied (inl below) = ground arith
    not_copied (inr above) = ground arith

    clear :
        c.screen + scr_size + row_size < mem_end
        → Outside a
        → (a < c.screen + scr_size) ⊎ (c.screen + scr_size + 320 ≤ a)
    clear short (inl below) = inl (omega (arith, v.begins))
    clear short (inr above) = inr (omega (arith, v.begins, short))

pub command_lf-Kept : (c : Console) → OnScreen c → Kept c (command_lf c)
unfolding command_lf
command_lf-Kept c v = elim (Bool-cases (ltb (c.y + 1) height)) [
  | inl more ↦ rw more (λ a o. refl)
  | inr last ↦ rw last (scroll_up-Kept c v)
]

-- A cell that the cursor can be at, from two bytes before to four behind.
cell_apart :
    (c : Console) (addr a : ℕ)
    → OnScreen c
    → mem_base ≤ addr
    → addr ≤ c.cursor + 2
    → Outside a
    → (a < addr) ⊎ (addr + 4 ≤ a)
cell_apart c addr a v low high (inl below) = inl (omega arith)
cell_apart c addr a v low high (inr above) =
    inr (omega (arith, v.at_cell, v.begins, v.rows, v.lines, v.columns))

pub command_bs-Kept : (c : Console) → OnScreen c → Kept c (command_bs c)
unfolding command_bs
command_bs-Kept c v a o = elim (Bool-cases (ltb 0 c.x)) [
  | inl there ↦
      let pos : 0 < c.x = ground arith in
      rw there (
        store_erase_far (c.cursor - 2) c.mem a (
          cell_apart c (c.cursor - 2) a v (omega (arith, v.at_cell, v.begins, pos)) (omega arith)
            o))
  | inr home ↦ rw home refl
]

pub command_del-Kept : (c : Console) → OnScreen c → Kept c (command_del c)
unfolding command_del
command_del-Kept c v a o =
    store_erase_far c.cursor c.mem a
      (cell_apart c c.cursor a v (omega (arith, v.at_cell, v.begins)) (omega arith) o)

-- The two stores of `put_char`.
pub stored-Kept :
    (ch : ℕ) (c : Console)
    → OnScreen c
    → Kept c (record c {
      mem = store (c.cursor + 1) 7 (store c.cursor ch c.mem);
      cursor = c.cursor + 2;
      x = c.x + 1;
    })
stored-Kept ch c v a o =
    apart (cell_apart c c.cursor a v (omega (arith, v.at_cell, v.begins)) (omega arith) o)
  where
    apart :
        (a < c.cursor) ⊎ (c.cursor + 4 ≤ a)
        → store (c.cursor + 1) 7 (store c.cursor ch c.mem) a ≡ c.mem a
    apart (inl below) = ground arith
    apart (inr above) = ground arith
