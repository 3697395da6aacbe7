-- ===== src/Cache/Count.antt =====
-- A change of the references of a buffer, and with it of the list of free ones.
use polaris_os.LinkedList.Linked.{has, Distinct}
use polaris_os.LinkedList.Without.{without, has-without, Distinct-without}
use polaris_os.Cache.Coherence.{Coherent}
use polaris_os.Cache.Claim.{put_other}
use polaris_os.Prelude.{
  ltb, ◌==◌, Bool-cases, ℕ, ◌+◌, ◌≡◌, refl, sym, ap, ◌∙◌, inl, inr, true, false, ◌&&◌, List, arith,
  ℕ_discrete,
}
use polaris_os.Cache.{Block, Cache, put, hash}

-- A buffer of the same block with other marks, and a list of free ones that fits.
module _ (c : Cache) (h : Coherent c) (i : ℕ) (b : Block) (free : List ℕ)
    (same_dev : b.dev ≡ (c.buffers i).dev) (same_block : b.block ≡ (c.buffers i).block) where
  abbrev pub counted : Cache
  counted = record c { buffers = put i b c.buffers; free_list = free }

  same_place :
      (j : ℕ)
      → ((counted.buffers j).dev ≡ (c.buffers j).dev)
        × ((counted.buffers j).block ≡ (c.buffers j).block)
  same_place j = elim (ℕ_discrete i j) [
    | yes here ↦
        let hit : (i == j) ≡ true = ground (arith, here) in
        rw hit (
          same_dev ∙ ap (λ k. (c.buffers k).dev) here,
          same_block ∙ ap (λ k. (c.buffers k).block) here,
        )
    | no away ↦ let miss : (i == j) ≡ false = ground (arith, away) in rw miss (refl, refl)
  ]

  pub counted-Coherent :
      ((j : ℕ) → has j free ≡ (ltb j c.used && ((counted.buffers j).count == 0)))
      → Distinct free
      → (b.count ≡ 0 → b.dirty ≡ false)
      → Coherent counted
  counted-Coherent fits once tidy = record {
    member = λ k j.
        let (d, e) = same_place j in
        h.member k j
        ∙ ap (λ l. ltb j c.used && (l == k))
            (ap (λ x. hash x (c.buffers j).block) (sym d)
              ∙ ap (hash (counted.buffers j).dev) (sym e));
    free = fits;
    once = once;
    clean = λ j l z. elim (Bool-cases (i == j)) [
      | inl here ↦
          let hit : put i b c.buffers j ≡ b = rw here refl in
          ap (λ x. x.dirty) hit ∙ tidy (ap (λ x. x.count) (sym hit) ∙ z)
      | inr away ↦
          let miss = put_other i j b c.buffers away in
          ap (λ x. x.dirty) miss ∙ h.clean j l (ap (λ x. x.count) (sym miss) ∙ z)
    ];
    single = λ j n lj ln ed eb.
        let (dj, bj) = same_place j in
        let (dn, bn) = same_place n in h.single j n lj ln (sym dj ∙ ed ∙ dn) (sym bj ∙ eb ∙ bn);
  }

-- One reference more: the buffer is not free.
module _ (c : Cache) (h : Coherent c) (i : ℕ) where
  abbrev pub one_more : Block
  one_more = record (c.buffers i) { count = (c.buffers i).count + 1 }

  pub referenced : Coherent (counted c h i one_more (without i c.free_list) refl refl)
  referenced =
      counted-Coherent c h i one_more (without i c.free_list) refl refl
        (λ j. elim (Bool-cases (i == j)) [
          | inl here ↦ rw here (ground (arith, has-without j i c.free_list, here))
          | inr away ↦ rw away (ground (arith, has-without j i c.free_list, away, h.free j))
        ])
        (Distinct-without i c.free_list h.once) (λ z. absurd (omega (arith, z)))
