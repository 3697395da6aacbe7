-- ===== src/Bitmap/Tests.antt =====
-- Runs of the bitmap functions, and the theorems at concrete maps.
use polaris_os.Prelude.{Returns, ◌≡◌, refl, none, some, [], ◌∷◌, arith}
use polaris_os.Prelude.Bytes.{test_bit, set_bit, clear_bit}
use polaris_os.Bitmap.{
  Bitmap, eof, bitmap_make, bitmap_init, bitmap_test, bitmap_set, scan_loop, mark_loop, bitmap_scan,
}
use polaris_os.Bitmap.Bits.{IsValid}
use polaris_os.Bitmap.Scan.{Scan, bitmap_scan-Scan}

-- Bits 0 to 2, 8 and 15 are set; the indices start at 256.
abbrev two_bytes : Bitmap
two_bytes = record { bits = 7 ∷ 0x81 ∷ []; len = 2; offset = 256 }

two_bytes-IsValid : IsValid two_bytes
two_bytes-IsValid = omega arith

scan_five : bitmap_scan two_bytes 5 ≡ some (259, record two_bytes { bits = 255 ∷ 0x81 ∷ [] })
unfolding bitmap_scan scan_loop mark_loop bitmap_test bitmap_set test_bit set_bit clear_bit
scan_five = refl

scan_seven : bitmap_scan two_bytes 7 ≡ some (eof, two_bytes)
unfolding bitmap_scan scan_loop mark_loop bitmap_test bitmap_set test_bit set_bit clear_bit
scan_seven = refl

test_outside : bitmap_test two_bytes 272 ≡ none
unfolding bitmap_test
test_outside = refl

init_clears :
    bitmap_init (7 ∷ 8 ∷ 9 ∷ []) 2 1 ≡ some (record { bits = 0 ∷ 0 ∷ 9 ∷ []; len = 2; offset = 1 })
unfolding bitmap_init bitmap_make
init_clears = refl

bitmap_scan-Scan_example : Returns (Scan two_bytes 5) (bitmap_scan two_bytes 5)
bitmap_scan-Scan_example = bitmap_scan-Scan two_bytes 5 two_bytes-IsValid (omega arith)
