-- ===== src/FileSystem/Alloc.antt =====
-- `balloc` hands out the first clear bit of the bitmap blocks that are loaded.
use mathlib.Core.Path.{subst}
use polaris_os.Bitmap.{Bitmap, eof, bitmap_make}
use polaris_os.Bitmap.Bits.{AllBytes, IsValid, bit_at, bit}
use polaris_os.Bitmap.Loops.{Free}
use polaris_os.Prelude.{
  ltb, ◌==◌, if◌then◌else◌, ltb→lt, Bool-cases, length, set, ◌>>=◌, ◌>>◌, assert, Returns, returns,
  ℕ, ◌+◌, ◌-◌, ◌*◌, ◌^◌, ◌≤◌, ◌<◌, ◌≡◌, refl, ◌∙◌, inl, inr, Bool, true, false, Option, none, some,
  List, [], ◌∷◌, arith,
}
use polaris_os.FileSystem.{Buffer, Super, bwrite, flush_last, alloc_loop, balloc}
use polaris_os.Bitmap.Scan.{Marked, Scan, exhausted, took, bitmap_scan-Scan}

-- A block of 1024 bytes.
pub record IsBlock (b : Buffer) : Type 0 where
  pub sized : length b.bytes ≡ 1024
  pub bytes : AllBytes b.bytes

abbrev pub Blocks : List (Option Buffer) → Type 0
Blocks [] = Unit
Blocks (none ∷ maps) = Blocks maps
Blocks (some b ∷ maps) = IsBlock b × Blocks maps

-- Bit `k` of the blocks taken together; what is not there counts as taken.
abbrev pub zone_bit : List (Option Buffer) → ℕ → Bool
zone_bit [] k = true
zone_bit (none ∷ maps) k = if ltb k 8192 then true else zone_bit maps (k - 8192)
zone_bit (some b ∷ maps) k = if ltb k 8192 then bit_at b.bytes k else zone_bit maps (k - 8192)

-- Bit `k` is the first clear one, and the blocks up to it are loaded.
pub data FirstClear : List (Option Buffer) → ℕ → Type 0 where
  here :
      {b : Buffer} {maps : List (Option Buffer)} (k : ℕ)
      → k < 8192
      → bit_at b.bytes k ≡ false
      → ((j : ℕ) → j < k → bit_at b.bytes j ≡ true)
      → FirstClear (some b ∷ maps) k
  there :
      {b : Buffer} {maps : List (Option Buffer)} {k k' : ℕ}
      → ((j : ℕ) → j < 8192 → bit_at b.bytes j ≡ true)
      → FirstClear maps k
      → k' ≡ k + 8192
      → FirstClear (some b ∷ maps) k'

-- Every bit is set and every block is loaded; and: a block is missing behind blocks that are full.
pub data AllSet : List (Option Buffer) → Type 0 where
  nil : AllSet []
  cons :
      {b : Buffer} {maps : List (Option Buffer)}
      → ((j : ℕ) → j < 8192 → bit_at b.bytes j ≡ true)
      → AllSet maps
      → AllSet (some b ∷ maps)

pub data Missing : List (Option Buffer) → Type 0 where
  at : {maps : List (Option Buffer)} → Missing (none ∷ maps)
  after :
      {b : Buffer} {maps : List (Option Buffer)}
      → ((j : ℕ) → j < 8192 → bit_at b.bytes j ≡ true)
      → Missing maps
      → Missing (some b ∷ maps)

-- `maps'` is `maps` with bit `k` set.
pub record SetIn (maps : List (Option Buffer)) (k : ℕ) (maps' : List (Option Buffer)) : Type 0 where
  pub bits : (j : ℕ) → zone_bit maps' j ≡ (if k == j then true else zone_bit maps j)
  pub blocks : Blocks maps'

-- The four ends of the loop, at a bitmap whose first bit has index `off`: the first clear bit is
-- handed out and set; it lies at or past the limit, and the assertion fails; all is full; or a block
-- that is needed is not loaded, and the assertion fails.
pub data Allocated (off limit : ℕ) (maps : List (Option Buffer))
    : Option (ℕ × List (Option Buffer)) → Type 0 where
  got :
      {r : ℕ} {maps' : List (Option Buffer)} (k : ℕ)
      → FirstClear maps k
      → r ≡ off + k
      → r < limit
      → SetIn maps k maps'
      → Allocated off limit maps (some (r, maps'))
  beyond : (k : ℕ) → FirstClear maps k → limit ≤ off + k → Allocated off limit maps none
  full :
      {maps' : List (Option Buffer)}
      → AllSet maps
      → ((j : ℕ) → zone_bit maps' j ≡ zone_bit maps j)
      → Allocated off limit maps (some (eof, maps'))
  missing : Missing maps → Allocated off limit maps none

taken_bit : (m : Bitmap) (t : ℕ) → ¬ Free m t 1 → bit m t ≡ true
taken_bit m t h = elim (Bool-cases (bit m t)) [
  | inl set ↦ set
  | inr clear ↦
      absurd (h (λ j a b. let e : t ≡ j = omega arith in subst (λ x. bit m x ≡ false) e clear))
]

abbrev map_of : Buffer → ℕ → Bitmap
map_of b off = bitmap_make b.bytes 1024 off

map_of-IsValid : (b : Buffer) (off : ℕ) → IsBlock b → off + 8192 < 2 ^ 31 → IsValid (map_of b off)
unfolding bitmap_make
map_of-IsValid b off k h = record { sized = k.sized; bytes = k.bytes; small = h }

-- What the loop does with the result of a scan.
abbrev after_scan :
    (limit : ℕ)
    → Buffer
    → List (Option Buffer)
    → Option (ℕ × List (Option Buffer))
    → ℕ × Bitmap
    → Option (ℕ × List (Option Buffer))
after_scan limit buf maps rest (b, found) =
    if b == eof
    then rest >>= (λ (r, maps'). some (r, some (flush_last buf maps) ∷ maps'))
    else assert (ltb b limit)
      >> some (b, some (bwrite (record buf { bytes = found.bits; dirty = true })) ∷ maps)

module _ (limit off : ℕ) (b : Buffer) (maps : List (Option Buffer)) where
  past_full :
      {rest : Option (ℕ × List (Option Buffer))}
      → IsBlock b
      → ((j : ℕ) → j < 8192 → bit_at b.bytes j ≡ true)
      → Allocated (off + 8192) limit maps rest
      → Allocated off limit
          (some b ∷ maps)
          (rest >>= λ (r, maps'). some (r, some (flush_last b maps) ∷ maps'))
  unfolding flush_last bwrite
  past_full blk all (got k first e lt s) =
      got (k + 8192) (there all first refl) (omega arith) lt (record {
        bits = λ j. ground (arith, s.bits (j - 8192));
        blocks = (
          record { sized = ground (arith, blk.sized); bytes = ground (arith, blk.bytes) },
          s.blocks,
        );
      })
  past_full blk all (beyond k first le) = beyond (k + 8192) (there all first refl) (omega arith)
  past_full blk all (full set same) = full (cons all set) (λ j. ground (arith, same (j - 8192)))
  past_full blk all (missing m) = missing (after all m)

  set_here :
      (s : ℕ) (found : Bitmap)
      → IsBlock b
      → Blocks maps
      → s < 8192
      → Marked (map_of b off) s 1 found
      → SetIn
          (some b ∷ maps)
          s
          (some (bwrite (record b { bytes = found.bits; dirty = true })) ∷ maps)
  unfolding bwrite bitmap_make
  set_here s found blk blks h m = record {
    bits = λ j. ground (arith, m.bits j);
    blocks = (record { sized = m.valid.sized ∙ m.len; bytes = m.valid.bytes }, blks);
  }

  after_scan-Allocated :
      {rest : Option (ℕ × List (Option Buffer))} {p : ℕ × Bitmap}
      → IsBlock b
      → Blocks maps
      → off + 8192 < 2 ^ 31
      → Allocated (off + 8192) limit maps rest
      → Scan (map_of b off) 1 p
      → Allocated off limit (some b ∷ maps) (after_scan limit b maps rest p)
  unfolding bitmap_make
  after_scan-Allocated blk blks small ih (exhausted nf) =
      past_full blk (λ j h. taken_bit (map_of b off) j (nf j (omega arith))) ih
  after_scan-Allocated blk blks small ih (took {r} {m' = found} s e inside free first m) =
      let ne : (r == eof) ≡ false = ground arith in
      let clear : bit_at b.bytes s ≡ false = free s (omega arith) (omega arith) in
      let fc : FirstClear (some b ∷ maps) s =
        here s (omega arith) clear (λ j h. taken_bit (map_of b off) j (first j h)) in
      rw ne (elim (Bool-cases (ltb r limit)) [
        | inl lt ↦
            rw lt (got s fc e (ltb→lt r limit lt) (set_here s found blk blks (omega arith) m))
        | inr ge ↦ rw ge (beyond s fc (ground arith))
      ])

map_step :
    (limit off : ℕ) (b : Buffer) (maps : List (Option Buffer))
    {rest : Option (ℕ × List (Option Buffer))} {o : Option (ℕ × Bitmap)}
    → IsBlock b
    → Blocks maps
    → off + 8192 < 2 ^ 31
    → Allocated (off + 8192) limit maps rest
    → Returns (Scan (map_of b off) 1) o
    → Allocated off limit (some b ∷ maps) (o >>= after_scan limit b maps rest)
map_step limit off b maps blk blks small ih (returns s) =
    after_scan-Allocated limit off b maps blk blks small ih s

-- On bitmap blocks whose length is right the loop ends in one of those four ways.
pub alloc_loop-Allocated :
    (limit : ℕ) (maps : List (Option Buffer)) (off : ℕ)
    → Blocks maps
    → off + 8192 * length maps < 2 ^ 31
    → Allocated off limit maps (alloc_loop 1024 limit maps off)
unfolding alloc_loop
alloc_loop-Allocated limit [] off blks small = full nil (λ j. refl)
alloc_loop-Allocated limit (none ∷ maps) off blks small = missing at
alloc_loop-Allocated limit (some b ∷ maps) off blks small =
    map_step limit off b maps blks.0 blks.1 (omega arith)
      (alloc_loop-Allocated limit maps (off + 8192) blks.1 (omega arith))
      (bitmap_scan-Scan (map_of b off) 1 (map_of-IsValid b off blks.0 (omega arith)) (omega arith))

forget :
    (sb : Super) (o : Option (ℕ × List (Option Buffer)))
    → (o >>= (λ (r, maps). some (r, record sb { zmaps = maps })) >>= λ (r, sb').
        some (r, sb'.zmaps))
      ≡ o
forget sb none = refl
forget sb (some p) = refl

-- `balloc` on bitmap blocks of the right length: it hands out the zone of the first clear bit and
-- sets that bit only, or returns EOF with the bitmap unchanged if all bits are set; it fails exactly
-- if that zone is past the disk or a block that the scan needs is not loaded.
pub balloc-Allocated :
    (sb : Super)
    → Blocks sb.zmaps
    → sb.firstdatazone + 8192 * length sb.zmaps < 2 ^ 31
    → Allocated
        (sb.firstdatazone - 1)
        sb.zones
        sb.zmaps
        (balloc sb >>= λ (r, sb'). some (r, sb'.zmaps))
unfolding balloc
balloc-Allocated sb blks small =
    rw (forget sb (alloc_loop 1024 sb.zones sb.zmaps (sb.firstdatazone - 1)))
      (alloc_loop-Allocated sb.zones sb.zmaps (sb.firstdatazone - 1) blks (omega arith))
