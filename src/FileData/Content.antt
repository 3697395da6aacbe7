-- ===== src/FileData/Content.antt =====
-- What `inode_read` hands over, against the bytes of the file one by one.
use polaris_os.Prelude.{
  leb, ◌==◌, ℕ, zero, suc, ◌+◌, ◌-◌, ◌/◌, ◌%◌, ◌≤◌, ◌<◌, min, ◌≡◌, refl, sym, ap, ◌∙◌, ◌≢◌, true,
  false, some, List, [], ◌∷◌, ◌++◌, arith,
}
use polaris_os.FileData.{copy_bytes, file_loop, inode_read}

module _ (bmap : ℕ → ℕ) (stored : ℕ → ℕ → ℕ) where
  -- The byte of the file at an offset.
  abbrev pub byte_at : ℕ → ℕ
  byte_at offset = stored (bmap (offset / 1024)) (offset % 1024)

  abbrev pub content : (offset count : ℕ) → List ℕ
  content offset zero = []
  content offset (suc count) = byte_at offset ∷ content (offset + 1) count

  content-append :
      (a b offset : ℕ) → content offset a ++ content (offset + a) b ≡ content offset (a + b)
  content-append zero b offset =
      ap (λ o. content o b) (omega arith) ∙ ap (content offset) (omega arith)
  content-append (suc a) b offset =
      let more : suc (a + b) ≡ suc a + b = omega arith in
      let on : offset + suc a ≡ offset + 1 + a = omega arith in
      ap (λ o. byte_at offset ∷ (content (offset + 1) a ++ content o b)) on
      ∙ ap (λ l. byte_at offset ∷ l) (content-append a b (offset + 1))
      ∙ ap (content offset) more

  -- Within a block.
  copy_bytes-content :
      (count offset : ℕ)
      → offset % 1024 + count ≤ 1024
      → copy_bytes bmap stored (bmap (offset / 1024)) (offset % 1024) count ≡ content offset count
  copy_bytes-content zero offset fits = refl
  copy_bytes-content (suc zero) offset fits = refl
  copy_bytes-content (suc (suc count)) offset fits =
      let same_block : (offset + 1) / 1024 ≡ offset / 1024 = omega (arith, fits) in
      let next_byte : (offset + 1) % 1024 ≡ offset % 1024 + 1 = omega (arith, fits) in
      ap (λ l. byte_at offset ∷ l)
        (ap (λ k. copy_bytes bmap stored (bmap k) (offset % 1024 + 1) (suc count)) (sym same_block)
          ∙ ap (λ m. copy_bytes bmap stored (bmap ((offset + 1) / 1024)) m (suc count))
              (sym next_byte)
          ∙ copy_bytes-content (suc count) (offset + 1) (omega (arith, next_byte, fits)))

  -- Each byte of the stretch is in a block that has a zone.
  abbrev pub HasZones : (offset count : ℕ) → Type 0
  HasZones offset count = (o : ℕ) → offset ≤ o → o < offset + count → bmap (o / 1024) ≢ 0

  file_loop-content :
      (fuel left offset : ℕ)
      → left < fuel
      → HasZones offset left
      → file_loop bmap stored fuel left offset ≡ some (offset + left, content offset left)
  unfolding file_loop
  file_loop-content zero left offset enough zones = absurd (omega (arith, enough))
  file_loop-content (suc fuel) zero offset enough zones = ap (λ o. some (o, [])) (omega arith)
  file_loop-content (suc fuel) (suc left) offset enough zones =
      let chars = min (1024 - offset % 1024) (suc left) in
      let pos : 0 < chars = omega arith in
      let small : chars ≤ suc left = omega arith in
      let within : offset % 1024 + chars ≤ 1024 = omega arith in
      let there : (bmap (offset / 1024) == 0) ≡ false =
        ground (arith, zones offset (omega arith) (omega arith)) in
      let later =
        file_loop-content fuel (suc left - chars) (offset + chars) (omega (arith, enough, pos))
          (λ o low high. zones o (omega (arith, low)) (omega (arith, high, small))) in
      let copied = copy_bytes-content chars offset within in
      let total : chars + (suc left - chars) ≡ suc left = omega (arith, small) in
      let busy : (suc left == 0) ≡ false = ground arith in
      let ends : offset + chars + (suc left - chars) ≡ offset + suc left = omega (arith, small) in
      let rest = content (offset + chars) (suc left - chars) in
      rw (busy, there, later)
        (ap
            (λ o.
              some (o, copy_bytes bmap stored (bmap (offset / 1024)) (offset % 1024) chars ++ rest))
            ends
          ∙ ap (λ l. some (offset + suc left, l ++ rest)) copied
          ∙ ap (λ l. some (offset + suc left, l))
              (content-append chars (suc left - chars) offset ∙ ap (content offset) total))

  -- `inode_read` from an offset in the file, all of whose blocks there have zones, returns the number of
  -- bytes asked for or left in the file, whichever is less, and has copied those bytes, across blocks.
  pub inode_read-content :
      (size len offset : ℕ)
      → offset < size
      → HasZones offset (min len (size - offset))
      → inode_read bmap stored true size len offset
        ≡ some (min len (size - offset), content offset (min len (size - offset)))
  unfolding inode_read
  inode_read-content size len offset inside zones =
      let left = min len (size - offset) in
      let in_file : leb size offset ≡ false = ground (arith, inside) in
      let loop = file_loop-content (left + 1) left offset (omega arith) zones in
      let count : offset + left - offset ≡ left = omega arith in
      rw (in_file, loop) (ap (λ n. some (n, content offset left)) count)
