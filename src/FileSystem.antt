-- ===== src/FileSystem.antt =====
-- src/fs: the super block and its bitmaps (bmap.c) for one device, whose super block `get_super` has
-- found. A bitmap block is a buffer of 1024 bytes; a pointer to one that was not loaded is `none`.
pub mod Alloc
pub mod Free
pub mod Zones
pub mod ZoneWalk
mod Tests
use polaris_os.Bitmap.{eof, bitmap_make, bitmap_test, bitmap_set, bitmap_scan}
use polaris_os.Prelude.{
  ltb, ◌==◌, if◌then◌else◌, length, ◌>>=◌, ◌>>◌, assert, ℕ, ◌+◌, ◌-◌, ◌*◌, Bool, true, false,
  Option, none, some, List, [], ◌∷◌, map,
}

abbrev pub block_size : ℕ
block_size = 1024

abbrev pub block_bits : ℕ
block_bits = 8192

pub record Buffer : Type 0 where
  pub bytes : List ℕ
  pub dirty : Bool

pub record Super : Type 0 where
  pub inodes : ℕ
  pub zones : ℕ
  pub firstdatazone : ℕ
  pub imaps : List (Option Buffer)
  pub zmaps : List (Option Buffer)

-- `bwrite`: the device gets the bytes, and the buffer is clean.
unfoldable pub bwrite : Buffer → Buffer
bwrite b = record b { dirty = false }

-- The loops end on the last buffer when all are full, and that one is flushed.
unfoldable pub flush_last : Buffer → List (Option Buffer) → Buffer
flush_last b maps = if length maps == 0 then bwrite b else b

-- The loops of `balloc` and `ialloc` over the array of bitmap buffers: `len` is the length in bytes
-- that the code gives the bitmap, `offset` the index of its first bit, `limit` the bound that is
-- asserted of a bit that was found. The buffer that was written is then flushed.
unfoldable pub alloc_loop :
    (len limit : ℕ) → List (Option Buffer) → (offset : ℕ) → Option (ℕ × List (Option Buffer))
alloc_loop len limit [] offset = some (eof, [])
alloc_loop len limit (none ∷ maps) offset = none
alloc_loop len limit (some buf ∷ maps) offset = do
  (bit, found) ← bitmap_scan (bitmap_make buf.bytes len offset) 1
  let rest = alloc_loop len limit maps (offset + block_bits)
  if bit == eof then (do (r, maps') ← rest; some (r, some (flush_last buf maps) ∷ maps')) else do
    assert (ltb bit limit)
    some (bit, some (bwrite (record buf { bytes = found.bits; dirty = true })) ∷ maps)

-- `firstdatazone - 1` stops at 0, where the source wraps: data does not begin at block 0 of a disk.
unfoldable pub balloc : Super → Option (ℕ × Super)
balloc sb = do
  (bit, maps) ← alloc_loop block_size sb.zones sb.zmaps (sb.firstdatazone - 1)
  some (bit, record sb { zmaps = maps })

-- The length given here is `BLOCK_BITS`, eight times the bytes of the buffer.
unfoldable pub ialloc : Super → Option (ℕ × Super)
ialloc sb = do
  (bit, maps) ← alloc_loop block_bits sb.inodes sb.imaps 0
  some (bit, record sb { imaps = maps })

-- The loops of `bfree` and `ifree`: the first map `i` with `idx ≤ BLOCK_BITS * (i + 1)` is the one
-- whose bit is cleared. If there is none, the code goes on with an uninitialised pointer.
unfoldable pub free_loop :
    (len base idx : ℕ) → List (Option Buffer) → (i : ℕ) → Option (List (Option Buffer))
free_loop len base idx [] i = none
free_loop len base idx (buffer ∷ maps) i =
    let rest = free_loop len base idx maps (i + 1) in
    if ltb (block_bits * (i + 1)) idx then (do maps' ← rest; some (buffer ∷ maps')) else do
      buf ← buffer
      let map = bitmap_make buf.bytes len (block_bits * i + base)
      used ← bitmap_test map idx
      assert used
      map' ← bitmap_set map idx false
      some (some (bwrite (record buf { bytes = map'.bits; dirty = true })) ∷ maps)

unfoldable pub bfree : ℕ → Super → Option Super
bfree idx sb = do
  assert (ltb idx sb.zones)
  maps ← free_loop block_size (sb.firstdatazone - 1) idx sb.zmaps 0
  some (record sb { zmaps = maps })

unfoldable pub ifree : ℕ → Super → Option Super
ifree idx sb = do
  assert (ltb idx sb.inodes)
  maps ← free_loop block_bits 0 idx sb.imaps 0
  some (record sb { imaps = maps })
