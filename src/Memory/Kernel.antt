-- ===== src/Memory/Kernel.antt =====
-- Kernel pages: what `alloc_kpage` takes from the bitmap, `free_kpage` gives back.
use polaris_os.Bitmap.Bits.{
  IsValid, bit, put, bitmap_test-bit, bitmap_set-put, len-put, offset-put, bit-put, put-IsValid,
}
use polaris_os.Bitmap.Loops.{Free}
use polaris_os.Bitmap.Scan.{Marked, Scan, exhausted, took, bitmap_scan-Scan}
use polaris_os.Bitmap.{Bitmap, eof}
use mathlib.Core.Path.{subst}
use polaris_os.Prelude.{
  ltb, leb, ◌==◌, if◌then◌else◌, lt→ltb, ◌>>=◌, Returns, returns, Returns-bind, Returns-mono, ℕ,
  zero, suc, ◌+◌, ◌*◌, ◌/◌, ◌%◌, ◌^◌, ◌≤◌, ◌<◌, ◌≡◌, refl, ◌∙◌, true, false, ◌&&◌, Option, none,
  some, map, arith, dec_lt, dec_le,
}
use polaris_os.Memory.{Memory, page, scan_page, reset_loop, reset_page, alloc_kpage, free_kpage}

-- `m'` is `m` with the `n` bits from `s` on clear.
pub record Cleared (m : Bitmap) (s n : ℕ) (m' : Bitmap) : Type 0 where
  pub bits : (j : ℕ) → bit m' j ≡ (if leb s j && ltb j (s + n) then false else bit m j)
  pub len : m'.len ≡ m.len
  pub offset : m'.offset ≡ m.offset
  pub valid : IsValid m'

-- The `n` bits from `s` on are set.
abbrev pub Taken : Bitmap → ℕ → ℕ → Type 0
Taken m s n = (j : ℕ) → s ≤ j → j < s + n → bit m j ≡ true

Cleared-put :
    (m m' : Bitmap) (s n : ℕ)
    → IsValid m
    → s < m.len * 8
    → Cleared (put m s false) (suc s) n m'
    → Cleared m s (suc n) m'
Cleared-put m m' s n v h k = record {
  bits = λ j. ground (arith, k.bits j, bit-put m s false j v h);
  len = k.len ∙ len-put m s false;
  offset = k.offset ∙ offset-put m s false;
  valid = k.valid;
}

Taken-put :
    (m : Bitmap) (s n : ℕ)
    → IsValid m
    → s < m.len * 8
    → Taken m s (suc n)
    → Taken (put m s false) (suc s) n
Taken-put m s n v h t j a b =
    ground (arith, bit-put m s false j v h, t j (omega arith) (omega arith))

reset_loop-Cleared :
    (n : ℕ) (m : Bitmap) (s : ℕ)
    → IsValid m
    → s + n ≤ m.len * 8
    → Taken m s n
    → Returns (Cleared m s n) (reset_loop n m (m.offset + s))
unfolding reset_loop
reset_loop-Cleared zero m s v h t =
    returns (record { bits = λ j. ground arith; len = refl; offset = refl; valid = v })
reset_loop-Cleared (suc n) m s v h t =
    let inside : s < m.len * 8 = omega arith in
    let here : bit m s ≡ true = t s (omega arith) (omega arith) in
    let up : (m.offset + s + 1) % 2 ^ 32 ≡ (put m s false).offset + suc s =
      omega (arith, v.small, offset-put m s false) in
    rw (bitmap_test-bit m s v inside, here, bitmap_set-put m s v inside false, up)
      (Returns-mono
        (reset_loop-Cleared n (put m s false) (suc s) (put-IsValid m s false v)
          (omega (arith, len-put m s false)) (Taken-put m s n v inside t))
        (λ m' k. Cleared-put m m' s n v inside k))

-- A map of pages whose addresses fit a 32-bit word.
pub record PageMap (m : Bitmap) : Type 0 where
  pub valid : IsValid m
  pub words : m.offset + m.len * 8 ≤ 2 ^ 20

-- Freeing pages that are all taken clears exactly their bits.
pub reset_page-Cleared :
    (m : Bitmap) (s count : ℕ)
    → PageMap m
    → 0 < count
    → s + count ≤ m.len * 8
    → Taken m s count
    → Returns (Cleared m s count) (reset_page m ((m.offset + s) * 2 ^ 12) count)
unfolding reset_page
reset_page-Cleared m s count p pos h t =
    let aligned : ((m.offset + s) * 2 ^ 12 % 0x1000 == 0) ≡ true = ground arith in
    let idx : (m.offset + s) * 2 ^ 12 / 2 ^ 12 ≡ m.offset + s = omega arith in
    rw (aligned, lt→ltb 0 count pos, idx) (reset_loop-Cleared count m s p.valid h t)

-- `alloc_kpage` takes the first run of `count` free pages and changes nothing else, or panics because
-- there is no such run.
pub data Alloc (m : Memory) (count : ℕ) : Option (ℕ × Memory) → Type 0 where
  given :
      {map : Bitmap} (s : ℕ)
      → s + count ≤ m.kernel_map.len * 8
      → Free m.kernel_map s count
      → ((t : ℕ) → t < s → ¬ Free m.kernel_map t count)
      → Marked m.kernel_map s count map
      → Alloc m count (some ((m.kernel_map.offset + s) * 2 ^ 12, record m { kernel_map = map }))
  no_run :
      ((t : ℕ) → t + count ≤ m.kernel_map.len * 8 → ¬ Free m.kernel_map t count)
      → Alloc m count none

pages_given :
    (m : Memory) (count : ℕ) {r : Option (ℕ × Bitmap)}
    → PageMap m.kernel_map
    → 0 < count
    → Returns (Scan m.kernel_map count) r
    → Alloc m count (
        r
        >>= (λ (index, map). if index == eof then none else some (page index, map))
        >>= λ (vaddr, map). some (vaddr, record m { kernel_map = map }))
pages_given m count p pos (returns (exhausted none_free)) = no_run none_free
pages_given m count p pos (returns (took s e inside free first marked)) =
    let index : (m.kernel_map.offset + s == eof) ≡ false = ground (arith, p.words) in
    let addr : page (m.kernel_map.offset + s) ≡ (m.kernel_map.offset + s) * 2 ^ 12 =
      omega (arith, p.words) in
    rw (e, index, addr) (given s inside free first marked)

-- `alloc_kpage` of a positive count, on a well-formed map of virtual pages, gives the address of the
-- first run of that many free pages and marks the run, or fails if there is none.
pub alloc_kpage-Alloc :
    (m : Memory) (count : ℕ)
    → PageMap m.kernel_map
    → 0 < count
    → Alloc m count (alloc_kpage count m)
unfolding alloc_kpage scan_page
alloc_kpage-Alloc m count p pos =
    let positive = lt→ltb 0 count pos in
    rw positive (pages_given m count p pos (bitmap_scan-Scan m.kernel_map count p.valid pos))

Free-restored :
    (m map map' : Bitmap) (s count : ℕ)
    → Free m s count
    → Marked m s count map
    → Cleared map s count map'
    → (j : ℕ) → bit map' j ≡ bit m j
Free-restored m map map' s count free marked cleared j = elim (dec_le s j) [
  | yes low ↦ elim (dec_lt j (s + count)) [
    | yes high ↦ ground (arith, marked.bits j, cleared.bits j, free j low high)
    | no out ↦ ground (arith, marked.bits j, cleared.bits j)
  ]
  | no out ↦ ground (arith, marked.bits j, cleared.bits j)
]

-- What freeing leaves: only the bitmap of kernel pages is written, and every bit of it is as in `m`.
pub record Restored (m m' : Memory) : Type 0 where
  pub bits : (j : ℕ) → bit m'.kernel_map j ≡ bit m.kernel_map j
  pub kernel_len : m'.kernel_map.len ≡ m.kernel_map.len
  pub kernel_offset : m'.kernel_map.offset ≡ m.kernel_map.offset
  pub frames : m'.frames ≡ m.frames
  pub free_pages : m'.free_pages ≡ m.free_pages

release_taken :
    (m : Memory) (map : Bitmap) (s count : ℕ)
    → PageMap m.kernel_map
    → 0 < count
    → s + count ≤ m.kernel_map.len * 8
    → Free m.kernel_map s count
    → Marked m.kernel_map s count map
    → Returns
        (Restored m)
        (free_kpage ((m.kernel_map.offset + s) * 2 ^ 12) count (record m { kernel_map = map }))
unfolding free_kpage
release_taken m map s count p pos inside free marked =
    let aligned : ((m.kernel_map.offset + s) * 2 ^ 12 % 0x1000 == 0) ≡ true = ground arith in
    let pages : PageMap map = record {
      valid = marked.valid;
      words = omega (arith, p.words, marked.len, marked.offset);
    } in
    rw (aligned, lt→ltb 0 count pos)
      (Returns-bind
        (subst (λ o. Returns (Cleared map s count) (reset_page map ((o + s) * 2 ^ 12) count))
          marked.offset
          (reset_page-Cleared map s count pages pos (omega (arith, marked.len))
            (λ j a b. ground (arith, marked.bits j))))
        λ map' cleared. returns (record {
          bits = Free-restored m.kernel_map map map' s count free marked cleared;
          kernel_len = cleared.len ∙ marked.len;
          kernel_offset = cleared.offset ∙ marked.offset;
          frames = refl;
          free_pages = refl;
        }))

free_of :
    (m : Memory) (count : ℕ) {o : Option (ℕ × Memory)} {vaddr : ℕ} {m1 : Memory}
    → PageMap m.kernel_map
    → 0 < count
    → Alloc m count o
    → o ≡ some (vaddr, m1)
    → Returns (Restored m) (free_kpage vaddr count m1)
free_of m count p pos (no_run k) e = cc
free_of m count {vaddr} {m1} p pos (given {map} s inside free first marked) e =
    let addr : vaddr ≡ (m.kernel_map.offset + s) * 2 ^ 12 = cc in
    let state : m1 ≡ record m { kernel_map = map } = cc in
    rw (addr, state) (release_taken m map s count p pos inside free marked)

-- `free_kpage` of the pages that `alloc_kpage` has just returned succeeds, and the map of pages is
-- then as it was before both.
pub free_kpage-alloc_kpage :
    (m : Memory) (count vaddr : ℕ) (m1 : Memory)
    → PageMap m.kernel_map
    → 0 < count
    → alloc_kpage count m ≡ some (vaddr, m1)
    → Returns (Restored m) (free_kpage vaddr count m1)
free_kpage-alloc_kpage m count vaddr m1 p pos e =
    free_of m count p pos (alloc_kpage-Alloc m count p pos) e
