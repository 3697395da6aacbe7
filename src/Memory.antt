-- ===== src/Memory.antt =====
-- src/kernel/memory.c: reference counts of physical pages, the bitmap of kernel pages, and the page
-- tables of the running address space as the code sees them through the recursive mapping.
-- `none` is a failed assertion or a panic; words are `u32`.
pub mod Paging
pub mod Frames
pub mod Kernel
pub mod Space
pub mod Unmap
pub mod CopyOnWrite
pub mod Occupy
pub mod Boot
pub mod Zones
mod Tests
use polaris_os.Bitmap.{Bitmap, eof, bitmap_test, bitmap_set, bitmap_scan}
use polaris_os.Prelude.{
  ltb, leb, ◌==◌, if◌then◌else◌, get_elem?, set, ◌>>=◌, ◌>>◌, assert, ℕ, zero, suc, ◌+◌, ◌-◌, ◌*◌,
  ◌/◌, ◌%◌, ◌^◌, Bool, false, ◌&&◌, Option, none, some, List,
}

-- The bits of a page table entry that the kernel sets or reads.
pub record Entry : Type 0 where
  pub present : Bool
  pub write : Bool
  pub user : Bool
  pub shared : Bool
  pub privat : Bool
  pub readonly : Bool
  pub index : ℕ

-- `frames` is memory_map, the counts of the physical pages; `pte d t` is entry `t` of the page table
-- that entry `d` of the page directory names. Table 1023 is the directory itself, through which the code
-- reaches it; that is `pde` here, and what the functions write to it stands in `pde` only.
pub record Memory : Type 0 where
  pub frames : List ℕ
  pub start_page : ℕ
  pub total_pages : ℕ
  pub free_pages : ℕ
  pub kernel_map : Bitmap
  pub pde : ℕ → Entry
  pub pte : ℕ → ℕ → Entry

abbrev pub page_size : ℕ
page_size = 0x1000

-- IDX, DIDX, TIDX and PAGE.
abbrev pub page_index : ℕ → ℕ
page_index addr = addr / 2 ^ 12

abbrev pub dir_index : ℕ → ℕ
dir_index addr = addr / 2 ^ 22 % 1024

abbrev pub table_index : ℕ → ℕ
table_index addr = addr / 2 ^ 12 % 1024

abbrev pub page : ℕ → ℕ
page idx = idx * 2 ^ 12 % 2 ^ 32

abbrev pub assert_page : ℕ → Option (Unit {0})
assert_page addr = assert (addr % 0x1000 == 0)

-- The loop of `get_page`, on the pages left: the first one with no reference.
unfoldable pub find_page : (left : ℕ) → List ℕ → (i : ℕ) → Option ℕ
find_page zero frames i = none
find_page (suc left) frames i = do
  count ← get_elem? frames i
  let rest = find_page left frames (i + 1)
  if count == 0 then some i else rest

unfoldable pub get_page : Memory → Option (ℕ × Memory)
get_page m = do
  i ← find_page (m.total_pages - m.start_page) m.frames m.start_page
  some (
    page i,
    record m { frames = set m.frames i 1; free_pages = (m.free_pages + 2 ^ 32 - 1) % 2 ^ 32 },
  )

unfoldable pub put_page : ℕ → Memory → Option Memory
put_page addr m = do
  assert_page addr
  let idx = page_index addr
  assert (leb m.start_page idx && ltb idx m.total_pages)
  count ← get_elem? m.frames idx
  assert (leb 1 count)
  let free = if count - 1 == 0 then (m.free_pages + 1) % 2 ^ 32 else m.free_pages
  assert (ltb 0 free && ltb free m.total_pages)
  some (record m { frames = set m.frames idx (count - 1); free_pages = free })

-- Kernel pages: `scan_page` and `reset_page` work on any map of virtual pages.
unfoldable pub scan_page : Bitmap → ℕ → Option (ℕ × Bitmap)
scan_page vmap count = do
  assert (ltb 0 count)
  (index, vmap') ← bitmap_scan vmap count
  if index == eof then none else some (page index, vmap')

-- The loop of `reset_page`, on the pages left.
unfoldable pub reset_loop : ℕ → Bitmap → ℕ → Option Bitmap
reset_loop zero vmap index = some vmap
reset_loop (suc left) vmap index = do
  used ← bitmap_test vmap index
  assert used
  vmap' ← bitmap_set vmap index false
  reset_loop left vmap' ((index + 1) % 2 ^ 32)

unfoldable pub reset_page : Bitmap → ℕ → ℕ → Option Bitmap
reset_page vmap addr count = do
  assert_page addr
  assert (ltb 0 count)
  reset_loop count vmap (page_index addr)

unfoldable pub alloc_kpage : ℕ → Memory → Option (ℕ × Memory)
alloc_kpage count m = do
  assert (ltb 0 count)
  (vaddr, vmap) ← scan_page m.kernel_map count
  some (vaddr, record m { kernel_map = vmap })

unfoldable pub free_kpage : ℕ → ℕ → Memory → Option Memory
free_kpage vaddr count m = do
  assert_page vaddr
  assert (ltb 0 count)
  vmap ← reset_page m.kernel_map vaddr count
  some (record m { kernel_map = vmap })
