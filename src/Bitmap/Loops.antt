-- ===== src/Bitmap/Loops.antt =====
-- The two loops of `bitmap_scan`, over the bits that the bytes stand for.
use polaris_os.Prelude.{
  ◌==◌, Bool-cases, Returns, returns, ℕ, zero, suc, ◌+◌, ◌-◌, ◌*◌, ◌^◌, ◌≤◌, ◌<◌, ◌≡◌, ◌≢◌, inl,
  inr, Bool, true, false, arith, dec_lt, dec_le,
}
use polaris_os.Bitmap.{Bitmap, eof, u32, scan_loop}
use polaris_os.Bitmap.Bits.{IsValid, bit, bitmap_test-bit}

-- The `n` bits from `s` on are clear.
abbrev pub Free : Bitmap → ℕ → ℕ → Type 0
Free m s n = (j : ℕ) → s ≤ j → j < s + n → bit m j ≡ false

-- A fact about a bit, at an index written another way.
bit_moved : (m : Bitmap) (i j : ℕ) {x : Bool} → bit m i ≡ x → i ≡ j → bit m j ≡ x
bit_moved m i j h e = rw e at h

-- The bits before `next_bit` hold no run of `count` clear bits, and exactly `counter` clear ones
-- stand right before it.
pub record Scanned (m : Bitmap) (count next_bit counter : ℕ) : Type 0 where
  pub short : counter < count
  pub within : counter ≤ next_bit
  pub clear : (j : ℕ) → next_bit - counter ≤ j → j < next_bit → bit m j ≡ false
  pub stopped : counter < next_bit → bit m (next_bit - counter - 1) ≡ true
  pub absent : (t : ℕ) → t + count ≤ next_bit → ¬ Free m t count

-- What the first loop returns: the first run, or `eof` if there is none.
pub data Found (m : Bitmap) (count : ℕ) : ℕ → Type 0 where
  run :
      {s : ℕ}
      → s + count ≤ m.len * 8
      → Free m s count
      → ((t : ℕ) → t < s → ¬ Free m t count)
      → Found m count s
  full : ((t : ℕ) → t + count ≤ m.len * 8 → ¬ Free m t count) → Found m count eof

module _ (m : Bitmap) (count next counter : ℕ) (sc : Scanned m count next counter) where
  Scanned-used : bit m next ≡ true → Scanned m count (suc next) 0
  Scanned-used e = record {
    short = omega (arith, sc.short);
    within = omega arith;
    clear = λ j a b. absurd (omega arith);
    stopped = λ h. bit_moved m next _ e (omega arith);
    absent = λ t h free. elim (dec_le (t + count) next) [
      | yes le ↦ sc.absent t le free
      | no gt ↦ cc (free next (omega arith) (omega (arith, sc.short)), e)
    ];
  }

  clear_suc : bit m next ≡ false → (j : ℕ) → next - counter ≤ j → j < suc next → bit m j ≡ false
  clear_suc e j a b = elim (dec_lt j next) [
    | yes lt ↦ sc.clear j a lt
    | no ge ↦ bit_moved m next j e (omega arith)
  ]

  Scanned-clear :
      bit m next ≡ false → counter + 1 ≢ count → Scanned m count (suc next) (suc counter)
  Scanned-clear e ne = record {
    short = omega (arith, sc.short);
    within = omega (arith, sc.within);
    clear = λ j a b. clear_suc e j (omega (arith, sc.within)) b;
    stopped = λ h. bit_moved m _ _ (sc.stopped (omega arith)) (omega arith);
    absent = λ t h free. elim (dec_le (t + count) next) [
      | yes le ↦ sc.absent t le free
      | no gt ↦ cc (
        free (next - counter - 1) (omega (arith, sc.short)) (omega (arith, sc.short, sc.within)),
        sc.stopped (omega (arith, sc.short)),
      )
    ];
  }

module _ (m : Bitmap) (count : ℕ) (v : IsValid m) where
  found_here :
      (next counter : ℕ)
      → next < m.len * 8
      → Scanned m count next counter
      → bit m next ≡ false
      → counter + 1 ≡ count
      → Found m count (suc next - count)
  found_here next counter h sc e q =
      run (omega (arith, sc.within))
        (λ j a b. clear_suc m count next counter sc e j (omega arith) (omega (arith, sc.within)))
        (λ t a. sc.absent t (omega arith))

  -- The first loop finds the first run of clear bits, or reports that there is none.
  pub scan_loop-Found :
      (left next counter : ℕ)
      → next + left ≡ m.len * 8
      → Scanned m count next counter
      → Returns (Found m count) (scan_loop m count left next counter)
  unfolding scan_loop
  scan_loop-Found zero next counter e sc = returns (full (λ t h. sc.absent t (omega arith)))
  scan_loop-Found (suc left) next counter e sc =
      let at : u32 (m.offset + next) ≡ m.offset + next = omega (arith, v.small) in
      let up : u32 (next + 1) ≡ suc next = omega (arith, v.small) in
      let more : u32 (counter + 1) ≡ suc counter = omega (arith, v.small, sc.within) in
      let inside : next < m.len * 8 = omega arith in
      rw (at, bitmap_test-bit m next v inside)
        (elim (Bool-cases (bit m next)) [
          | inl used ↦
              let short = sc.short in
              let ne : (0 == count) ≡ false = ground arith in
              rw (used, ne, up)
                (scan_loop-Found left (suc next) 0 (omega arith)
                  (Scanned-used m count next counter sc used))
          | inr clear ↦
              rw (clear, more, up)
                (elim (Bool-cases (suc counter == count)) [
                  | inl hit ↦
                      let q : suc counter ≡ count = ground arith in
                      let start : u32 (next + 1 + 2 ^ 32 - count) ≡ suc next - count =
                        omega (arith, v.small, sc.within) in
                      rw (hit, start)
                        (returns (found_here next counter inside sc clear (omega arith)))
                  | inr miss ↦ rw miss (
                      scan_loop-Found left (suc next) (suc counter) (omega arith)
                        (Scanned-clear m count next counter sc clear (ground arith)))
                ])
        ])
