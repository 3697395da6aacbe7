-- ===== src/FileData/Tests.antt =====
-- A file of 2000 bytes in the zones 7 and 9, read across the end of its first block.
use polaris_os.FileData.Content.{content, HasZones, inode_read-content}
use polaris_os.Bitmap.{eof}
use polaris_os.Prelude.{
  ◌==◌, if◌then◌else◌, ℕ, ◌+◌, ◌-◌, ◌*◌, ◌%◌, min, ◌≡◌, refl, true, some, [], ◌∷◌, arith,
}
use polaris_os.FileData.{file_loop, inode_read}

abbrev zones : ℕ → ℕ
zones k = if k == 0 then 7 else 9

abbrev disk : ℕ → ℕ → ℕ
disk nr i = (nr * 10 + i) % 256

has_zones : HasZones zones disk 1022 (min 4 (2000 - 1022))
has_zones o low high = ground arith

inode_read-content_example :
    inode_read zones disk true 2000 4 1022
    ≡ some (min 4 (2000 - 1022), content zones disk 1022 (min 4 (2000 - 1022)))
inode_read-content_example = inode_read-content zones disk 2000 4 1022 (omega arith) has_zones

across : inode_read zones disk true 2000 4 1022 ≡ some (4, 68 ∷ 69 ∷ 90 ∷ 91 ∷ [])
unfolding inode_read file_loop
across = refl

-- At the end of the file there is nothing to read.
at_the_end : inode_read zones disk true 2000 4 2000 ≡ some (eof, [])
unfolding inode_read
at_the_end = refl
