-- ===== src/FileData.antt =====
-- src/fs/inode.c: reading the bytes of a file. The blocks of the file and their bytes are parameters:
-- `bmap k` is the zone of its block `k` (FileSystem/Zones has the function), `stored nr i` byte `i` of
-- zone `nr`, as the buffers hold it. `none` is a failed assertion, or lack of fuel.
pub mod Content
mod Tests
use polaris_os.Bitmap.{eof}
use polaris_os.Cache.{block_size}
use polaris_os.Prelude.{
  leb, ◌==◌, if◌then◌else◌, ◌>>=◌, ◌>>◌, assert, ℕ, zero, suc, ◌+◌, ◌-◌, ◌/◌, ◌%◌, min, Bool, not,
  Option, none, some, List, [], ◌∷◌, ◌++◌,
}

module _ (bmap : ℕ → ℕ) (stored : ℕ → ℕ → ℕ) where
  -- The `memcpy` of `count` bytes of a zone from byte `start` on.
  abbrev pub copy_bytes : (nr start count : ℕ) → List ℕ
  copy_bytes nr start zero = []
  copy_bytes nr start (suc count) = stored nr start ∷ copy_bytes nr (start + 1) count

  -- The loop of `inode_read`: the offset that it ends at, and what it has copied.
  unfoldable pub file_loop : ℕ → (left offset : ℕ) → Option (ℕ × List ℕ)
  file_loop zero left offset = none
  file_loop (suc fuel) left offset =
      let nr = bmap (offset / block_size) in
      let start = offset % block_size in
      let chars = min (block_size - start) left in
      let rest = file_loop fuel (left - chars) (offset + chars) in
      if left == 0 then some (offset, []) else do
        assert (not (nr == 0))
        (end, bytes) ← rest
        some (end, copy_bytes nr start chars ++ bytes)

  -- `size` is that of the file; a round copies one byte at least, so that `left + 1` rounds are enough.
  unfoldable pub inode_read : (is_file : Bool) (size len offset : ℕ) → Option (ℕ × List ℕ)
  inode_read is_file size len offset = do
    assert is_file
    if leb size offset then some (eof, []) else do
      let left = min len (size - offset)
      (end, bytes) ← file_loop (left + 1) left offset
      some (end - offset, bytes)
