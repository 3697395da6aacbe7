-- ===== src/Memory/Boot.antt =====
-- src/kernel/memory.c at boot: the sizes that `memory_init` settles, `memory_map_init` and
-- `mapping_init`. The array of counts is cut to the pages that exist; its padding is never read.
use polaris_os.Bitmap.Bits.{bit}
use polaris_os.Bitmap.{Bitmap, bitmap_make, bitmap_init, bitmap_scan}
use polaris_os.Prelude.{
  ltb, leb, ◌==◌, if◌then◌else◌, replicate, ◌>>=◌, ◌>>◌, assert, ℕ, ◌+◌, ◌-◌, ◌*◌, ◌/◌, ◌%◌, ◌^◌,
  ◌≤◌, ◌<◌, ◌≡◌, false, not, ◌&&◌, Option, some, [], map,
}
use polaris_os.Memory.Occupy.{occupy}
use polaris_os.Memory.{Memory, page_size, page_index}
use polaris_os.Memory.Paging.{empty_entry, entry_init}
use polaris_os.Memory.Frames.{zeros, FramesValid}
use polaris_os.Bitmap.Scan.{Scan}

abbrev pub memory_base : ℕ
memory_base = 0x100000

abbrev pub kernel_memory_size : ℕ
kernel_memory_size = 0x1000000

-- div_round_up of src/lib/stdlib.c
unfoldable pub div_round_up : ℕ → ℕ → ℕ
div_round_up dividend divisor = (dividend + divisor + 2 ^ 32 - 1) % 2 ^ 32 / divisor

-- The end of `memory_init`, once the size of the usable memory is known, up to the first panic.
unfoldable pub memory_init : ℕ → Option Memory
memory_init size = do
  assert (size % 0x1000 == 0)
  assert (leb kernel_memory_size size)
  let total = page_index size + page_index memory_base
  some (record {
    frames = [];
    start_page = 0;
    total_pages = total;
    free_pages = page_index size;
    kernel_map = bitmap_make [] 0 0;
    pde = λ d. empty_entry;
    pte = λ d t. empty_entry;
  })

unfoldable pub memory_map_init : Memory → Option Memory
memory_map_init m = do
  let pages = div_round_up m.total_pages page_size
  let start = page_index memory_base + pages
  let len = (page_index kernel_memory_size - page_index memory_base) / 8
  map ← bitmap_init (replicate len 0) len (page_index memory_base)
  (index, map') ← bitmap_scan map pages
  some (record m {
    frames = occupy start (replicate m.total_pages 0) 0;
    start_page = start;
    free_pages = (m.free_pages + 2 ^ 32 - pages) % 2 ^ 32;
    kernel_map = map';
  })

-- Four kernel tables map the first 16 MB to themselves, but for page 0; the last entry of the
-- directory maps the directory, which is its own table 1023. The pages are marked as used, and not taken
-- off `free_pages`.
unfoldable pub mapping_init : Memory → Memory
mapping_init m =
    let kernel_entry = λ (index : ℕ). record (entry_init index) { user = false } in
    let directory = λ (d : ℕ).
      if ltb d 4 then kernel_entry (d + 2) else if d == 1023 then entry_init 1 else empty_entry in
    record m {
      frames = occupy 4095 m.frames 1;
      pde = directory;
      pte = λ d t.
          if ltb d 4 && not ((d == 0) && (t == 0))
          then kernel_entry (d * 1024 + t)
          else if d == 1023
          then directory t
          else empty_entry;
    }

unfoldable pub boot : ℕ → Option Memory
boot size = do m ← memory_init size; m' ← memory_map_init m; some (mapping_init m')

-- A map over `len` zero bytes.
abbrev fresh_map : ℕ → ℕ → Bitmap
fresh_map len offset = record { bits = replicate len 0; len = len; offset = offset }

-- A scan of a fresh map takes the first bits.
pub data FirstBits (len offset count : ℕ) : ℕ × Bitmap → Type 0 where
  first_bits :
      {r : ℕ} {map : Bitmap}
      → ((j : ℕ) → bit map j ≡ ltb j count)
      → map.offset ≡ offset
      → map.len ≡ len
      → FirstBits len offset count (r, map)

-- What a boot leaves: the invariant of the page counts with the first 4096 pages as the kernel's, and
-- a kernel bitmap of the pages from 256 up to 4096 in which those of the count array are taken, from
-- page 256 up to `start_page`, and no others.
pub record Booted (size : ℕ) (m : Memory) : Type 0 where
  pub valid : FramesValid 4096 m
  pub total : m.total_pages ≡ size / 2 ^ 12 + 256
  pub available : zeros m.frames + 4096 ≡ m.total_pages
  pub surplus : m.free_pages ≡ zeros m.frames + (4096 - m.start_page)
  pub kernel_pages : (j : ℕ) → bit m.kernel_map j ≡ ltb j (m.start_page - 256)
  pub kernel_size : (m.kernel_map.offset ≡ 256) × (m.kernel_map.len ≡ 480)

module _ (size : ℕ) (aligned : size % 0x1000 ≡ 0) (low : 0x1000000 ≤ size)
    (high : size < 2 ^ 32 - 2 ^ 20) where
  abbrev total : ℕ
  total = size / 2 ^ 12 + 256

  abbrev map_pages : ℕ
  map_pages = div_round_up total 0x1000

  booted : Bitmap → Memory
  booted map = mapping_init (record {
    frames = occupy (256 + map_pages) (replicate total 0) 0;
    start_page = 256 + map_pages;
    total_pages = total;
    free_pages = (size / 2 ^ 12 + 2 ^ 32 - map_pages) % 2 ^ 32;
    kernel_map = map;
    pde = λ d. empty_entry;
    pte = λ d t. empty_entry;
  })
