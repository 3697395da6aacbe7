-- ===== src/Bitmap.antt =====
-- src/lib/bitmap.c: a map of bits over a caller's bytes. The array behind `bits` is held in the
-- record; the words are `u32`, so what the code adds is taken modulo 2^32, and EOF (-1) is 2^32 - 1.
pub mod Bits
pub mod Loops
pub mod Scan
mod Tests
use polaris_os.Prelude.{
  ltb, leb, ◌==◌, if◌then◌else◌, length, get_elem?, set, drop, replicate, ◌>>=◌, ◌>>◌, assert, ℕ,
  zero, suc, ◌+◌, ◌-◌, ◌*◌, ◌/◌, ◌%◌, ◌^◌, Bool, true, Option, none, some, List, ◌++◌,
}
use polaris_os.Prelude.Bytes.{test_bit, set_bit, clear_bit}

pub record Bitmap : Type 0 where
  pub bits : List ℕ
  pub len : ℕ
  pub offset : ℕ

abbrev pub eof : ℕ
eof = 2 ^ 32 - 1

abbrev pub u32 : ℕ → ℕ
u32 n = n % 2 ^ 32

unfoldable pub bitmap_make : List ℕ → ℕ → ℕ → Bitmap
bitmap_make bits len offset = record { bits = bits; len = len; offset = offset }

-- `memset(bits, 0, length)` on a buffer that is at least so long.
unfoldable pub bitmap_init : List ℕ → ℕ → ℕ → Option Bitmap
bitmap_init bits len start =
    if leb len (length bits)
    then some (bitmap_make (replicate len 0 ++ drop len bits) len start)
    else none

unfoldable pub bitmap_test : Bitmap → ℕ → Option Bool
bitmap_test m index = do
  assert (leb m.offset index)
  let idx = index - m.offset
  assert (ltb (idx / 8) m.len)
  byte ← get_elem? m.bits (idx / 8)
  some (test_bit byte (idx % 8))

-- Unlike `bitmap_test` this does not compare the byte's index with `length`: a write outside the
-- buffer is the `none` of `get_elem?`.
unfoldable pub bitmap_set : Bitmap → ℕ → Bool → Option Bitmap
bitmap_set m index value = do
  assert (leb m.offset index)
  let idx = index - m.offset
  byte ← get_elem? m.bits (idx / 8)
  let new = if value then set_bit byte (idx % 8) else clear_bit byte (idx % 8)
  some (record m { bits = set m.bits (idx / 8) new })

-- The first loop of `bitmap_scan`, on `bits_left`: the start of the first run of `count` free bits.
unfoldable pub scan_loop : Bitmap → ℕ → (bits_left next_bit counter : ℕ) → Option ℕ
scan_loop m count zero next_bit counter = some eof
scan_loop m count (suc bits_left) next_bit counter = do
  used ← bitmap_test m (u32 (m.offset + next_bit))
  let counter' = if used then 0 else u32 (counter + 1)
  let rest = scan_loop m count bits_left (u32 (next_bit + 1)) counter'
  if counter' == count then some (u32 (next_bit + 1 + 2 ^ 32 - count)) else rest

-- The second loop, on `bits_left`.
unfoldable pub mark_loop : Bitmap → (bits_left next_bit : ℕ) → Option Bitmap
mark_loop m zero next_bit = some m
mark_loop m (suc bits_left) next_bit = do
  m' ← bitmap_set m (u32 (m.offset + next_bit)) true
  mark_loop m' bits_left (u32 (next_bit + 1))

unfoldable pub bitmap_scan : Bitmap → ℕ → Option (ℕ × Bitmap)
unfolding scan_loop mark_loop
bitmap_scan m count = do
  start ← scan_loop m count (u32 (m.len * 8)) 0 0
  if start == eof
      then some (eof, m)
      else do m' ← mark_loop m count start; some (u32 (start + m.offset), m')
