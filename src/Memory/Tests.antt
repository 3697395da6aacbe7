-- ===== src/Memory/Tests.antt =====
-- A memory of seven pages, runs of it, and the theorems there.
use polaris_os.Bitmap.{Bitmap, bitmap_test, bitmap_set, scan_loop, mark_loop, bitmap_scan}
use polaris_os.Prelude.{
  ◌==◌, ◌>>=◌, Returns, os_magic, ℕ, zero, suc, ◌*◌, ◌^◌, ◌<◌, ◌≡◌, refl, ◌≢◌, ◌⊎◌, ◌&&◌, ◌||◌,
  some, List, [], ◌∷◌, arith,
}
use polaris_os.Prelude.Bytes.{test_bit, set_bit}
use polaris_os.Memory.Zones.{Zone, zone_loop, memory_probe, AtMost, Among, zone_loop-AtMost}
use polaris_os.Memory.{Memory, get_page, scan_page, alloc_kpage, free_kpage}
use polaris_os.Memory.Paging.{empty_entry, link_page, unlink_page, write_fault}
use polaris_os.Memory.Frames.{count_at, FramesValid, GetPage, get_page-GetPage}
use polaris_os.Memory.Kernel.{PageMap, Alloc, alloc_kpage-Alloc, Restored, free_kpage-alloc_kpage}
use polaris_os.Memory.Space.{Linked, link_page-Linked}
use polaris_os.Memory.Unmap.{Undone, unlink_page-link_page}
use polaris_os.Memory.CopyOnWrite.{Copied, write_fault-Copied}

abbrev kernel_bits : Bitmap
kernel_bits = record { bits = 0x0f ∷ 0 ∷ []; len = 2; offset = 256 }

-- Page 3 is shared by two entries, one of which is that of address 0x1000000.
abbrev small : Memory
small = record {
  frames = 1 ∷ 1 ∷ 1 ∷ 2 ∷ 0 ∷ 0 ∷ 0 ∷ [];
  start_page = 2;
  total_pages = 7;
  free_pages = 4;
  kernel_map = kernel_bits;
  pde = λ d. record empty_entry { present = (d == 0) || (d == 4); index = 1 };
  pte = λ d t. record empty_entry { present = (d == 4) && (t == 0); index = 3 };
}

small_kept : (i : ℕ) → i < 3 → count_at small i ≢ 0
small_kept zero h = omega arith
small_kept (suc zero) h = omega arith
small_kept (suc (suc zero)) h = omega arith
small_kept (suc (suc (suc i))) h = absurd (omega arith)

small-FramesValid : FramesValid 3 small
small-FramesValid = record {
  sized = refl;
  small = omega arith;
  started = omega arith;
  start_base = omega arith;
  base_total = omega arith;
  kept = small_kept;
  free = refl;
}

kernel_bits-PageMap : PageMap kernel_bits
kernel_bits-PageMap = record { valid = omega arith; words = omega arith }

get_page-GetPage_example : GetPage 3 small (get_page small)
get_page-GetPage_example = get_page-GetPage 3 small small-FramesValid

alloc_kpage-Alloc_example : Alloc small 5 (alloc_kpage 5 small)
alloc_kpage-Alloc_example = alloc_kpage-Alloc small 5 kernel_bits-PageMap (omega arith)

abbrev after_alloc : Memory
after_alloc = record small { kernel_map = record kernel_bits { bits = 0xff ∷ 1 ∷ [] } }

alloc_five : alloc_kpage 5 small ≡ some (260 * 2 ^ 12, after_alloc)
unfolding alloc_kpage scan_page bitmap_scan scan_loop mark_loop bitmap_test bitmap_set test_bit
    set_bit
alloc_five = refl

free_kpage-alloc_kpage_example : Returns (Restored small) (free_kpage (260 * 2 ^ 12) 5 after_alloc)
free_kpage-alloc_kpage_example =
    free_kpage-alloc_kpage small 5 (260 * 2 ^ 12) after_alloc kernel_bits-PageMap (omega arith)
      alloc_five

link_page-Linked_example : Returns (Linked 3 0x1001000 small) (link_page 0x1001000 small)
link_page-Linked_example = link_page-Linked 3 small 0x1001000 small-FramesValid refl (omega arith)

unlink_page-link_page_example :
    Returns (Undone 0x1001000 small) (link_page 0x1001000 small >>= λ m'. unlink_page 0x1001000 m')
unlink_page-link_page_example =
    unlink_page-link_page 3 small 0x1001000 small-FramesValid refl refl refl (omega arith)
      (omega arith)

write_fault-Copied_example : Returns (Copied 3 small 0x1000000 3 1) (write_fault 0x1000000 small)
write_fault-Copied_example =
    write_fault-Copied 3 small 0x1000000 3 1 small-FramesValid refl refl refl refl refl
      (omega arith) (omega arith) (omega arith) refl refl (omega arith) (omega arith)

-- The usual map: low memory, the ROM, and what is above 1 MB.
abbrev zones : List Zone
zones =
    record { base = 0; size = 0x9fc00; kind = 1 }
    ∷ record { base = 0xf0000; size = 0x10000; kind = 2 }
    ∷ record { base = 0x100000; size = 0x1ef0000; kind = 1 }
    ∷ []

probes : memory_probe os_magic zones ≡ some 0x1ef0000
unfolding memory_probe zone_loop
probes = refl

zone_loop-AtMost_example :
    AtMost (zone_loop zones 0 0).1 zones
    × ((zone_loop zones 0 0 ≡ (0, 0)) ⊎ Among (zone_loop zones 0 0).0 (zone_loop zones 0 0).1 zones)
zone_loop-AtMost_example = zone_loop-AtMost zones (omega arith, (omega arith, (omega arith, tt)))
