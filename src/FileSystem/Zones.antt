-- ===== src/FileSystem/Zones.antt =====
-- `bmap` of src/fs/bmap.c: the zone of a block of a file, through direct and indirect zones. Blocks
-- are read as the buffer cache holds them: arrays of 512 words of 16 bits.
use polaris_os.FileSystem.{Super, balloc}
use polaris_os.Prelude.{
  ltb, ◌==◌, if◌then◌else◌, ◌>>=◌, ◌>>◌, assert, ℕ, zero, suc, ◌+◌, ◌-◌, ◌*◌, ◌/◌, ◌%◌, ◌^◌, Bool,
  ◌&&◌, Option, some,
}

pub data Array : Type 0 where
  in_inode : Array
  in_block : ℕ → Array

-- The zone array of the inode at hand, the words of every block, and the super block.
pub record Disk : Type 0 where
  pub zone : ℕ → ℕ
  pub words : ℕ → ℕ → ℕ
  pub super : Super

abbrev pub read : Array → ℕ → Disk → ℕ
read in_inode i d = d.zone i
read (in_block n) i d = d.words n i

unfoldable pub write : Array → ℕ → ℕ → Disk → Disk
write in_inode i v d = record d { zone = λ j. if i == j then v else d.zone j }
write (in_block n) i v d = record d {
  words = λ m j. if n == m then (if i == j then v else d.words m j) else d.words m j;
}

abbrev pub total_block : ℕ
total_block = 7 + 512 + 512 * 512

-- A block for a word that is 0, if one is asked for. The word takes the low 16 bits of the number.
unfoldable pub assign_zone : Array → ℕ → Bool → Disk → Option Disk
assign_zone array index create d =
    if (read array index d == 0) && create
    then (do
      (bit, sb) ← balloc d.super
      some (write array index (bit % 2 ^ 16) (record d { super = sb })))
    else some d

-- The loop of `bmap` from `level` down.
unfoldable pub reckon :
    (level : ℕ) → Array → (index block divider : ℕ) → Bool → Disk → Option (ℕ × Disk)
reckon zero array index block divider create d = do
  d' ← assign_zone array index create d
  some (read array index d', d')
reckon (suc level) array index block divider create d = do
  d' ← assign_zone array index create d
  let zone = read array index d'
  let index' = block / divider % 2 ^ 16
  let rest = reckon level (in_block zone) index' (block % divider) (divider / 512) create d'
  if zone == 0 then some (0, d') else rest

unfoldable pub bmap : ℕ → Bool → Disk → Option (ℕ × Disk)
bmap block create d = do
  assert (ltb block total_block)
  if ltb block 7
      then reckon 0 in_inode block block 1 create d
      else if ltb (block - 7) 512
      then reckon 1 in_inode 7 (block - 7) 1 create d
      else (do
        assert (ltb (block - 7 - 512) (512 * 512))
        reckon 2 in_inode 8 (block - 7 - 512) 512 create d)
