-- ===== src/Cache/Reuse.antt =====
-- A free buffer leaves the chain of its old block, and a buffer enters the chain of its new one.
use polaris_os.LinkedList.Linked.{has, Distinct}
use polaris_os.LinkedList.Without.{without, has-without}
use polaris_os.Cache.Coherence.{Coherent, Cached, IsAbsent}
use polaris_os.Cache.Claim.{Loose}
use polaris_os.Prelude.{
  ltb, ◌==◌, ℕ, ◌≡◌, refl, sym, ap, ◌∙◌, true, false, not, ◌&&◌, ◌||◌, List, arith, ℕ_discrete,
}
use polaris_os.Cache.{Cache, put, hash, set_chain}

-- No other buffer than `i` is of the block.
unfoldable pub IsOnly : (dev block i : ℕ) → Cache → Type 0
IsOnly dev block i c = (j : ℕ) → (i == j) ≡ false → Cached dev block c j → ⊥

module _ (c : Cache) (h : Coherent c) (i : ℕ) (front : List ℕ)
    (same : (j : ℕ) → has j c.free_list ≡ (has j front || (j == i))) (once : Distinct front)
    (out : has i front ≡ false) where
  abbrev pub old_chain : ℕ
  old_chain = hash (c.buffers i).dev (c.buffers i).block

  abbrev pub reused : Cache
  reused = record c {
    free_list = front;
    table = set_chain old_chain (without i (c.table old_chain)) c.table;
    buffers = put i (record (c.buffers i) { valid = false }) c.buffers;
  }

  listed : has i c.free_list ≡ true
  listed = ground (arith, same i)

  in_use : ltb i c.used ≡ true
  in_use = ground (arith, h.free i, listed)

  pub free_count : (c.buffers i).count ≡ 0
  free_count = ground (arith, h.free i, listed)

  pub chained : has i (c.table old_chain) ≡ true
  chained = ground (arith, h.member old_chain i, in_use)

  -- Only `valid` has changed.
  unchanged :
      (j : ℕ)
      → ((reused.buffers j).dev ≡ (c.buffers j).dev)
        × ((reused.buffers j).block ≡ (c.buffers j).block)
        × ((reused.buffers j).count ≡ (c.buffers j).count)
        × ((reused.buffers j).dirty ≡ (c.buffers j).dirty)
  unchanged j = elim (ℕ_discrete i j) [
    | yes here ↦
        let hit : (i == j) ≡ true = ground (arith, here) in
        rw hit (
          ap (λ k. (c.buffers k).dev) here,
          ap (λ k. (c.buffers k).block) here,
          ap (λ k. (c.buffers k).count) here,
          ap (λ k. (c.buffers k).dirty) here,
        )
    | no away ↦
        let miss : (i == j) ≡ false = ground (arith, away) in rw miss (refl, refl, refl, refl)
  ]

  chains :
      (k j : ℕ)
      → has j (reused.table k)
        ≡ (not (i == j) && (ltb j c.used && (hash (c.buffers j).dev (c.buffers j).block == k)))
  chains k j = elim (ℕ_discrete old_chain k) [
    | yes here ↦
        let hit : (old_chain == k) ≡ true = ground (arith, here) in
        rw hit (ground (arith, has-without j i (c.table old_chain), h.member old_chain j, here))
    | no away ↦
        let miss : (old_chain == k) ≡ false = ground (arith, away) in
        rw miss (
          h.member k j ∙ (elim (ℕ_discrete i j) [
            | yes it ↦
                let elsewhere : (hash (c.buffers j).dev (c.buffers j).block == k) ≡ false =
                  ap (λ l. hash (c.buffers l).dev (c.buffers l).block == k) (sym it) ∙ miss in
                rw elsewhere (ground arith)
            | no other ↦ ground (arith, other)
          ]))
  ]

  pub reused-Loose : Loose i reused
  reused-Loose = record {
    member = λ k j.
        let (d, b, n, m) = unchanged j in
        chains k j
        ∙ ap (λ l. not (i == j) && (ltb j c.used && (l == k)))
            (ap (λ x. hash x (c.buffers j).block) (sym d)
              ∙ ap (hash (reused.buffers j).dev) (sym b));
    free = λ j. let (d, b, n, m) = unchanged j in ground (arith, same j, h.free j, n, out);
    once = once;
    clean = λ j away l z. let (d, b, n, m) = unchanged j in m ∙ h.clean j l (sym n ∙ z);
    single = λ j l aj al lj ll ed eb.
        let (dj, bj, nj, mj) = unchanged j in
        let (dl, bl, nl, ml) = unchanged l in
        h.single j l lj ll (sym dj ∙ ed ∙ dl) (sym bj ∙ eb ∙ bl);
    below = ground (arith, in_use);
    unused = (let (d, b, n, m) = unchanged i in n ∙ free_count);
    tidy = (let (d, b, n, m) = unchanged i in m ∙ h.clean i (ground (arith, in_use)) free_count);
  }

  pub reused-IsOnly : (dev block : ℕ) → IsAbsent dev block c → IsOnly dev block i reused
  unfolding IsAbsent IsOnly
  reused-IsOnly dev block none_there j away k =
      let (d, b, n, m) = unchanged j in
      none_there j (record {
        below = k.below;
        same_dev = sym d ∙ k.same_dev;
        same_block = sym b ∙ k.same_block;
      })
