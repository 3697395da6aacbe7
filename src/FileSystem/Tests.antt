-- ===== src/FileSystem/Tests.antt =====
-- The theorems on the zone bitmap at a small disk, whose data begins at zone 3.
use polaris_os.FileSystem.Free.{here, ClearIn, bfree-ClearIn, bfree_misses}
use polaris_os.FileSystem.Alloc.{IsBlock, Allocated, balloc-Allocated}
use polaris_os.Bitmap.{bitmap_make, bitmap_test, bitmap_set, scan_loop, mark_loop, bitmap_scan}
use polaris_os.FileSystem.Zones.{Disk, write, assign_zone, reckon, bmap}
use polaris_os.FileSystem.ZoneWalk.{Kept, bmap-Kept}
use polaris_os.Bitmap.Bits.{zero_bytes, bit_at}
use polaris_os.Prelude.Bytes.{test_bit, set_bit}
use polaris_os.FileSystem.{Buffer, Super, bwrite, alloc_loop, balloc, bfree}
use polaris_os.Prelude.{
  ◌==◌, if◌then◌else◌, replicate, length-replicate, ◌>>=◌, Returns, ℕ, suc, ◌≡◌, refl, ap, true,
  false, none, some, [], ◌∷◌, arith,
}

abbrev block : Buffer
block = record { bytes = 7 ∷ replicate 1023 0; dirty = false }

abbrev disk : Super
disk = record {
  inodes = 32;
  zones = 100;
  firstdatazone = 3;
  imaps = [];
  zmaps = some block ∷ none ∷ [];
}

block-IsBlock : IsBlock block
block-IsBlock = record {
  sized = ap suc (length-replicate {A = ℕ} 1023 0);
  bytes = (omega arith, zero_bytes 1023);
}

balloc-Allocated_example :
    Allocated 2 100 disk.zmaps (balloc disk >>= λ (r, sb'). some (r, sb'.zmaps))
balloc-Allocated_example = balloc-Allocated disk (block-IsBlock, tt) (omega arith)

bfree-ClearIn_example : Returns (λ sb'. ClearIn disk.zmaps 2 sb'.zmaps) (bfree 4 disk)
unfolding bit_at test_bit
bfree-ClearIn_example =
    bfree-ClearIn disk 2 4 (here 2 (omega arith) block-IsBlock refl) refl (omega arith)
      (omega arith) (omega arith) (omega arith)

-- With 16384 zones the last two bits of the first block belong to zones 8192 and 8193; `bfree` fails
-- on the second one only, as `firstdatazone` is 3.
bfree_misses_example : bfree 8193 (record disk { zones = 16384 }) ≡ none
bfree_misses_example =
    bfree_misses (record disk { zones = 16384 }) 8191 8193 refl (omega arith) (omega arith)
      (omega arith)

-- A file whose first word is not in use; word 7 names block 20, whose word 3 is 33.
abbrev file : Disk
file = record {
  zone = λ i. if i == 7 then 20 else 0;
  words = λ n i. if i == 3 then 33 else 0;
  super = disk;
}

abbrev file_grown : Disk
file_grown = record {
  zone = λ i. if 0 == i then 5 else file.zone i;
  words = file.words;
  super = record disk {
    zmaps = some (record { bytes = 15 ∷ replicate 1023 0; dirty = false }) ∷ none ∷ [];
  };
}

grow_runs : bmap 0 true file ≡ some (5, file_grown)
unfolding bmap reckon assign_zone write balloc alloc_loop bwrite bitmap_make bitmap_scan scan_loop
    mark_loop bitmap_test bitmap_set test_bit set_bit
grow_runs = refl

bmap-Kept_example : Kept file file_grown × (bmap 0 false file_grown ≡ some (5, file_grown))
bmap-Kept_example = bmap-Kept 0 file 5 file_grown grow_runs
