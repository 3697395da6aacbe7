-- ===== src/FileSystem/Free.antt =====
-- `bfree` clears the bit of a zone, if it looks for it in the right bitmap block.
use mathlib.Core.Path.{subst, sym}
use polaris_os.Bitmap.{bitmap_make, bitmap_test}
use polaris_os.Bitmap.Bits.{IsValid, bit_at, bitmap_test-bit, bitmap_set-put, bit-put}
use polaris_os.Prelude.{
  ltb, leb, ◌==◌, if◌then◌else◌, length, set, ◌>>=◌, none_after, assert, Returns, returns,
  Returns-bind, ℕ, ◌+◌, ◌-◌, ◌*◌, ◌%◌, ◌^◌, ◌≤◌, ◌<◌, ◌≡◌, refl, true, false, Option, none, some,
  List, [], ◌∷◌, arith, dec_lt,
}
use polaris_os.FileSystem.{Buffer, Super, bwrite, free_loop, bfree}
use polaris_os.FileSystem.Alloc.{IsBlock, zone_bit}

-- Bit `k` lies in a block that is loaded, and is set.
pub data Used : List (Option Buffer) → ℕ → Type 0 where
  here :
      {b : Buffer} {maps : List (Option Buffer)} (k : ℕ)
      → k < 8192
      → IsBlock b
      → bit_at b.bytes k ≡ true
      → Used (some b ∷ maps) k
  there :
      {o : Option Buffer} {maps : List (Option Buffer)} {k k' : ℕ}
      → Used maps k
      → k' ≡ k + 8192
      → Used (o ∷ maps) k'

-- `maps'` is `maps` with bit `k` clear.
abbrev pub ClearIn : List (Option Buffer) → ℕ → List (Option Buffer) → Type 0
ClearIn maps k maps' = (j : ℕ) → zone_bit maps' j ≡ (if k == j then false else zone_bit maps j)

module _ (base : ℕ) where
  free_here :
      (b : Buffer) (maps : List (Option Buffer)) (i k : ℕ)
      → k < 8192
      → IsBlock b
      → bit_at b.bytes k ≡ true
      → k + base ≤ 8192
      → 8192 * (i + 1) + base < 2 ^ 31
      → Returns
          (ClearIn (some b ∷ maps) k)
          (free_loop 1024 base (8192 * i + base + k) (some b ∷ maps) i)
  unfolding free_loop bitmap_make bwrite
  free_here b maps i k h blk set fits small =
      let m = bitmap_make b.bytes 1024 (8192 * i + base) in
      let v : IsValid m = record { sized = blk.sized; bytes = blk.bytes; small = omega arith } in
      let chosen : ltb (8192 * (i + 1)) (8192 * i + base + k) ≡ false = ground arith in
      rw
        (chosen, bitmap_test-bit m k v (omega arith), set, bitmap_set-put m k v (omega arith) false)
        (returns (λ j. ground (arith, bit-put m k false j v (omega arith))))

  free_skip :
      (o : Option Buffer) (maps : List (Option Buffer)) (k : ℕ) {r : Option (List (Option Buffer))}
      → Returns (ClearIn maps k) r
      → Returns (ClearIn (o ∷ maps) (k + 8192)) (r >>= λ maps'. some (o ∷ maps'))
  free_skip none maps k (returns c) = returns (λ j. ground (arith, c (j - 8192)))
  free_skip (some b) maps k (returns c) = returns (λ j. ground (arith, c (j - 8192)))

  pass_block :
      (o : Option Buffer) (maps : List (Option Buffer)) (i idx : ℕ)
      → 8192 * (i + 1) < idx
      → free_loop 1024 base idx (o ∷ maps) i
        ≡ (free_loop 1024 base idx maps (i + 1) >>= λ maps'. some (o ∷ maps'))
  unfolding free_loop
  pass_block o maps i idx h =
      let skips : ltb (8192 * (i + 1)) idx ≡ true = ground arith in rw skips refl

  stop_early :
      (o : Option Buffer) (maps : List (Option Buffer)) (i idx : ℕ)
      → idx < 8192 * i + base
      → idx ≤ 8192 * (i + 1)
      → free_loop 1024 base idx (o ∷ maps) i ≡ none
  unfolding free_loop bitmap_make bitmap_test
  stop_early none maps i idx h le =
      let stops : ltb (8192 * (i + 1)) idx ≡ false = ground arith in rw stops refl
  stop_early (some b) maps i idx h le =
      let stops : ltb (8192 * (i + 1)) idx ≡ false = ground arith in
      let below : leb (8192 * i + base) idx ≡ false = ground arith in rw (stops, below) refl

  -- Where the code looks for bit `k` in the block that holds it, the bit is cleared.
  pub free_loop-ClearIn :
      {maps : List (Option Buffer)} {k : ℕ} (i idx : ℕ)
      → Used maps k
      → idx ≡ 8192 * i + base + k
      → 0 < base
      → k % 8192 + base ≤ 8192
      → 8192 * (i + length maps) + base < 2 ^ 31
      → Returns (ClearIn maps k) (free_loop 1024 base idx maps i)
  free_loop-ClearIn i idx (here {b} {maps} k h blk on) e pos fits small =
      subst (λ x. Returns (ClearIn (some b ∷ maps) k) (free_loop 1024 base x (some b ∷ maps) i))
        (sym e) (free_here b maps i k h blk on (omega arith) (omega arith))
  free_loop-ClearIn i idx (there {o} {maps} {k} {k'} u e') e pos fits small =
      let r = free_loop-ClearIn (i + 1) idx u (omega arith) pos (omega arith) (omega arith) in
      subst (λ x. Returns (ClearIn (o ∷ maps) x) (free_loop 1024 base idx (o ∷ maps) i)) (sym e')
        (rw (pass_block o maps i idx (omega arith)) (free_skip o maps k r))

  pass_none : (i idx : ℕ) → free_loop 1024 base idx [] i ≡ none
  unfolding free_loop
  pass_none i idx = refl

  pass_only :
      (maps : List (Option Buffer)) (i idx : ℕ)
      → idx < 8192 * i + base
      → idx ≤ 8192 * (i + 1)
      → free_loop 1024 base idx maps i ≡ none
  unfolding free_loop
  pass_only [] i idx h le = refl
  pass_only (o ∷ maps) i idx h le = stop_early o maps i idx h le

  -- For the last bits of a block the code looks in the block behind it, and fails.
  pub free_loop_misses :
      (maps : List (Option Buffer)) (i k idx : ℕ)
      → idx ≡ 8192 * i + base + k
      → 0 < base
      → base ≤ 8192
      → 8192 < k % 8192 + base
      → free_loop 1024 base idx maps i ≡ none
  free_loop_misses [] i k idx e pos le wide = pass_none i idx
  free_loop_misses (o ∷ maps) i k idx e pos le wide = elim (dec_lt k 8192) [
    | yes near ↦
        rw
          (
            pass_block o maps i idx (omega arith),
            pass_only maps (i + 1) idx (omega arith) (omega arith),
          )
          refl
    | no far ↦
        rw
          (
            pass_block o maps i idx (omega arith),
            free_loop_misses maps (i + 1) (k - 8192) idx (omega arith) pos le (omega arith),
          )
          refl
  ]

module _ (sb : Super) (k idx : ℕ) where
  -- `bfree` of the zone that `balloc` gives for bit `k` of the zone bitmap: the bit is cleared and
  -- no other, where the bit is set in a block that is loaded and that block is the one in which the
  -- code looks, `k % 8192 + firstdatazone - 1 ≤ 8192`.
  pub bfree-ClearIn :
      Used sb.zmaps k
      → idx ≡ sb.firstdatazone - 1 + k
      → idx < sb.zones
      → 1 < sb.firstdatazone
      → k % 8192 + (sb.firstdatazone - 1) ≤ 8192
      → 8192 * length sb.zmaps + sb.firstdatazone < 2 ^ 31
      → Returns (λ sb'. ClearIn sb.zmaps k sb'.zmaps) (bfree idx sb)
  unfolding bfree
  bfree-ClearIn u e lt pos fits small =
      let inside : ltb idx sb.zones ≡ true = ground arith in
      rw inside (
        Returns-bind
          (free_loop-ClearIn (sb.firstdatazone - 1) 0 idx u (omega arith) (omega arith) fits
            (omega arith))
          (λ maps c. returns c))

  -- `bfree` of the zone that `balloc` gives for bit `k` fails an assertion, whatever the zone
  -- bitmap holds, where `k % 8192 + firstdatazone - 1` is more than 8192: the loop takes the bitmap
  -- block behind the one of the bit, which starts past it. The super block has
  -- `2 ≤ firstdatazone ≤ 8193`.
  pub bfree_misses :
      idx ≡ sb.firstdatazone - 1 + k
      → 1 < sb.firstdatazone
      → sb.firstdatazone ≤ 8193
      → 8192 < k % 8192 + (sb.firstdatazone - 1)
      → bfree idx sb ≡ none
  unfolding bfree
  bfree_misses e pos le wide =
      rw
        (free_loop_misses (sb.firstdatazone - 1) sb.zmaps 0 k idx (omega arith) (omega arith)
          (omega arith) wide)
        (none_after (assert (ltb idx sb.zones)))
