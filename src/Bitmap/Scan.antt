-- ===== src/Bitmap/Scan.antt =====
-- What `bitmap_scan` promises: the first run of clear bits, which it then sets, and nothing else.
use polaris_os.Prelude.{
  ltb, leb, ◌==◌, if◌then◌else◌, ◌>>=◌, Returns, returns, Returns-bind, Returns-mono, ℕ, zero, suc,
  ◌+◌, ◌*◌, ◌≤◌, ◌<◌, ◌≡◌, refl, ◌∙◌, true, false, ◌&&◌, some, arith,
}
use polaris_os.Bitmap.{Bitmap, eof, u32, mark_loop, bitmap_scan}
use polaris_os.Bitmap.Bits.{
  IsValid, bit, put, bitmap_set-put, len-put, offset-put, bit-put, put-IsValid,
}
use polaris_os.Bitmap.Loops.{Free, Scanned, Found, run, full, scan_loop-Found}

-- `m'` is `m` with the `n` bits from `s` on set.
pub record Marked (m : Bitmap) (s n : ℕ) (m' : Bitmap) : Type 0 where
  pub bits : (j : ℕ) → bit m' j ≡ (if leb s j && ltb j (s + n) then true else bit m j)
  pub len : m'.len ≡ m.len
  pub offset : m'.offset ≡ m.offset
  pub valid : IsValid m'

Marked-put :
    (m m' : Bitmap) (s n : ℕ)
    → IsValid m
    → s < m.len * 8
    → Marked (put m s true) (suc s) n m'
    → Marked m s (suc n) m'
Marked-put m m' s n v h k = record {
  bits = λ j. ground (arith, k.bits j, bit-put m s true j v h);
  len = k.len ∙ len-put m s true;
  offset = k.offset ∙ offset-put m s true;
  valid = k.valid;
}

mark_loop-Marked :
    (m : Bitmap) (n s : ℕ)
    → IsValid m
    → s + n ≤ m.len * 8
    → Returns (Marked m s n) (mark_loop m n s)
unfolding mark_loop
mark_loop-Marked m zero s v h =
    returns (record { bits = λ j. ground arith; len = refl; offset = refl; valid = v })
mark_loop-Marked m (suc n) s v h =
    let at : u32 (m.offset + s) ≡ m.offset + s = omega (arith, v.small) in
    let up : u32 (s + 1) ≡ suc s = omega (arith, v.small) in
    let inside : s < m.len * 8 = omega arith in
    rw (at, bitmap_set-put m s v inside true, up)
      (Returns-mono
        (mark_loop-Marked (put m s true) n (suc s) (put-IsValid m s true v)
          (omega (arith, len-put m s true)))
        (λ m' k. Marked-put m m' s n v inside k))

-- A scan either fails and changes nothing, and then no run of `count` clear bits exists, or it
-- returns the index of the first such run and sets exactly its bits.
pub data Scan (m : Bitmap) (count : ℕ) : ℕ × Bitmap → Type 0 where
  exhausted : ((t : ℕ) → t + count ≤ m.len * 8 → ¬ Free m t count) → Scan m count (eof, m)
  took :
      {r : ℕ} {m' : Bitmap} (s : ℕ)
      → r ≡ m.offset + s
      → s + count ≤ m.len * 8
      → Free m s count
      → ((t : ℕ) → t < s → ¬ Free m t count)
      → Marked m s count m'
      → Scan m count (r, m')

-- The state at the first bit: nothing has been scanned.
start_Scanned : (m : Bitmap) (count : ℕ) → 0 < count → Scanned m count 0 0
start_Scanned m count h = record {
  short = h;
  within = omega arith;
  clear = λ j a b. absurd (omega arith);
  stopped = λ b. absurd (omega arith);
  absent = λ t b free. absurd (omega arith);
}

after_loop :
    (m : Bitmap) (count : ℕ) {r : ℕ}
    → IsValid m
    → Found m count r
    → Returns (Scan m count) (
        if r == eof
        then some (eof, m)
        else mark_loop m count r >>= λ m'. some (u32 (r + m.offset), m'))
after_loop m count v (run {s} inside free first) =
    let ne : (s == eof) ≡ false = ground (arith, v.small) in
    rw ne (
      Returns-bind (mark_loop-Marked m count s v inside)
        λ m' k. returns (took s (omega (arith, v.small)) inside free first k))
after_loop m count v (full none_free) = returns (exhausted none_free)

-- `bitmap_scan` on a well-formed map and a positive count always returns, and returns the first
-- run of `count` clear bits (now set, all other bits as before) or EOF exactly if there is none.
pub bitmap_scan-Scan :
    (m : Bitmap) (count : ℕ) → IsValid m → 0 < count → Returns (Scan m count) (bitmap_scan m count)
unfolding bitmap_scan
bitmap_scan-Scan m count v h =
    let all : u32 (m.len * 8) ≡ m.len * 8 = omega (arith, v.small) in
    rw all (
      Returns-bind
        (scan_loop-Found m count v (m.len * 8) 0 0 (omega arith) (start_Scanned m count h))
        λ r f. after_loop m count v f)
