-- ===== src/Memory/Paging.antt =====
-- src/kernel/memory.c: page table entries, mapping and unmapping of pages, `sys_brk`, and the page
-- fault handler with its copy on write. The contents of pages are not modelled, so the `memcpy` of
-- `copy_page` leaves no trace; neither does `flush_tlb`.
use polaris_os.Bitmap.{eof}
use polaris_os.Prelude.{
  ltb, leb, ◌==◌, if◌then◌else◌, get_elem?, set, ◌>>=◌, ◌>>◌, assert, ℕ, zero, suc, ◌+◌, ◌-◌, ◌%◌,
  ◌^◌, Bool, true, false, not, ◌&&◌, ◌||◌, Option, none, some,
}
use polaris_os.Memory.{
  Entry, Memory, page_size, page_index, dir_index, table_index, page, assert_page, get_page,
  put_page,
}

abbrev pub empty_entry : Entry
empty_entry = record {
  present = false;
  write = false;
  user = false;
  shared = false;
  privat = false;
  readonly = false;
  index = 0;
}

unfoldable pub entry_init : ℕ → Entry
entry_init index = record empty_entry {
  present = true;
  write = true;
  user = true;
  index = index % 2 ^ 20;
}

unfoldable pub set_pde : ℕ → Entry → Memory → Memory
set_pde d e m = record m { pde = λ d'. if d' == d then e else m.pde d' }

unfoldable pub set_pte : ℕ → ℕ → Entry → Memory → Memory
set_pte d t e m = record m {
  pte = λ d' t'. if d' == d then (if t' == t then e else m.pte d' t') else m.pte d' t';
}

-- `memset(table, 0, PAGE_SIZE)`
unfoldable pub clear_table : ℕ → Memory → Memory
clear_table d m = record m { pte = λ d' t'. if d' == d then empty_entry else m.pte d' t' }

-- Makes sure that the table of `vaddr` exists; the code returns its address, here it is the number of
-- the directory entry.
unfoldable pub get_pte : ℕ → Bool → Memory → Option Memory
get_pte vaddr create m = do
  let idx = dir_index vaddr
  assert (create || (not create && (m.pde idx).present))
  if (m.pde idx).present then some m else do
    (addr, m') ← get_page m
    some (clear_table idx (set_pde idx (entry_init (page_index addr)) m'))

unfoldable pub get_entry : ℕ → Bool → Memory → Option (Entry × Memory)
get_entry vaddr create m = do
  m' ← get_pte vaddr create m
  some (m'.pte (dir_index vaddr) (table_index vaddr), m')

unfoldable pub link_page : ℕ → Memory → Option Memory
link_page vaddr m = do
  assert_page vaddr
  (entry, m') ← get_entry vaddr true m
  if entry.present then some m' else do
    (paddr, m2) ← get_page m'
    some (set_pte (dir_index vaddr) (table_index vaddr) (entry_init (page_index paddr)) m2)

unfoldable pub unlink_page : ℕ → Memory → Option Memory
unlink_page vaddr m = do
  assert_page vaddr
  if not (m.pde (dir_index vaddr)).present then some m else do
    (entry, m') ← get_entry vaddr false m
    if not entry.present then some m' else do
      let gone = record entry { present = false }
      put_page (page entry.index) (set_pte (dir_index vaddr) (table_index vaddr) gone m')

-- The entry of address 0 is the window through which the new page is filled.
unfoldable pub copy_page : Memory → Option (ℕ × Memory)
copy_page m = do
  (paddr, m1) ← get_page m
  m2 ← get_pte 0 false m1
  some (paddr, set_pte 0 0 (record (entry_init (page_index paddr)) { present = false }) m2)

-- The fields of the running task that these functions read.
pub record Owner : Type 0 where
  pub uid : ℕ
  pub end_ : ℕ
  pub brk : ℕ

abbrev pub user_exec_addr : ℕ
user_exec_addr = 0x1000000

abbrev pub user_mmap_addr : ℕ
user_mmap_addr = 0x8000000

abbrev pub user_stack_top : ℕ
user_stack_top = 0x10000000

abbrev pub user_stack_bottom : ℕ
user_stack_bottom = 0x10000000 - 0x200000

-- `for (page = brk; page < old_brk; page += PAGE_SIZE) unlink_page(page);` on fuel.
unfoldable pub shrink_loop : ℕ → (at old_brk : ℕ) → Memory → Option Memory
shrink_loop zero at old_brk m = if ltb at old_brk then none else some m
shrink_loop (suc fuel) at old_brk m =
    if ltb at old_brk
    then (do m' ← unlink_page at m; shrink_loop fuel ((at + page_size) % 2 ^ 32) old_brk m')
    else some m

-- The result is 0, or -1 as a bit pattern, with the owner and the memory that it leaves.
unfoldable pub sys_brk : ℕ → Owner → Memory → Option (ℕ × Owner × Memory)
sys_brk brk o m = do
  assert_page brk
  assert (not (o.uid == 0))
  assert (leb o.end_ brk && leb brk user_mmap_addr)
  if ltb brk o.brk
      then (do m' ← shrink_loop (o.brk - brk) brk o.brk m; some (0, record o { brk = brk }, m'))
      else if ltb m.free_pages (page_index (brk - o.brk))
      then some (eof, o, m)
      else some (0, record o { brk = brk }, m)

-- How the fault handler leaves: it resumes the task, or kills it by `task_exit(-1)`.
pub data Fault : Type 0 where
  resume : Memory → Fault
  kill : Memory → Fault

-- A write to a page that is present.
unfoldable pub write_fault : ℕ → Memory → Option Memory
write_fault vaddr m = do
  (entry, m1) ← get_entry vaddr false m
  assert entry.present
  assert (not entry.shared)
  assert (not entry.readonly)
  count ← get_elem? m1.frames entry.index
  assert (ltb 0 count)
  if count == 1
      then some (set_pte (dir_index vaddr) (table_index vaddr) (record entry { write = true }) m1)
      else do
        (paddr, m2) ← copy_page m1
        old ← get_elem? m2.frames entry.index
        let m3 = record m2 { frames = set m2.frames entry.index ((old + 255) % 256) }
        some (set_pte (dir_index vaddr) (table_index vaddr) (entry_init (page_index paddr)) m3)

-- `vaddr` is cr2; `present` and `write` are bits of the error code.
unfoldable pub page_fault : (vaddr : ℕ) → (present write : Bool) → Owner → Memory → Option Fault
page_fault vaddr present write o m =
    if ltb vaddr user_exec_addr || leb user_stack_top vaddr
    then (do assert (not (o.uid == 0)); some (kill m))
    else if present
    then (do assert write; m' ← write_fault vaddr m; some (resume m'))
    else if ltb vaddr o.brk || leb user_stack_bottom vaddr
    then (do m' ← link_page (page (page_index vaddr)) m; some (resume m'))
    else none
