-- ===== src/Cache/Get.antt =====
-- `getblk` as a whole.
use polaris_os.LinkedList.Linked.{has}
use polaris_os.Cache.Coherence.{Coherent}
use polaris_os.Cache.Claim.{Loose, put_other, put_same}
use polaris_os.Cache.Reuse.{IsOnly}
use polaris_os.Prelude.{
  ltb, ◌==◌, Bool-cases, ℕ, ◌<◌, ◌≡◌, refl, sym, ap, ◌∙◌, ◌⊎◌, inl, inr, true, false, ◌&&◌, ◌∷◌,
  arith,
}
use polaris_os.Cache.{Block, Cache, put, hash, set_chain}

-- A loose buffer becomes the one of a block that no other buffer is of.
module _ (dev block i : ℕ) (c : Cache) (l : Loose i c) (only : IsOnly dev block i c) where
  abbrev pub mine : Block
  mine = record (c.buffers i) { count = 1; dev = dev; block = block }

  abbrev pub located : ℕ → Cache
  located k = record c {
    buffers = put i mine c.buffers;
    table = set_chain k (i ∷ c.table k) c.table;
  }

  module _ (k : ℕ) (ek : k ≡ hash dev block) where
    located-member :
        (m j : ℕ)
        → has j ((located k).table m)
          ≡ (ltb j c.used && (hash ((located k).buffers j).dev ((located k).buffers j).block == m))
    located-member m j = elim (Bool-cases (k == m)) [
      | inl chain ↦ elim (Bool-cases (i == j)) [
        | inl here ↦ rw (chain, here) (ground (arith, chain, here, l.below, ek))
        | inr away ↦ rw (chain, away) (ground (arith, chain, away, l.member k j))
      ]
      | inr other ↦ elim (Bool-cases (i == j)) [
        | inl here ↦ rw (other, here) (ground (arith, l.member m j, here, other, ek))
        | inr away ↦ rw (other, away) (ground (arith, away, l.member m j))
      ]
    ]

    located-single :
        (j n : ℕ)
        → j < c.used
        → n < c.used
        → ((located k).buffers j).dev ≡ ((located k).buffers n).dev
        → ((located k).buffers j).block ≡ ((located k).buffers n).block
        → j ≡ n
    unfolding IsOnly
    located-single j n lj ln ed eb = by_places (Bool-cases (i == j)) (Bool-cases (i == n))
      where
        hit_at : (p : ℕ) → (i == p) ≡ true → put i mine c.buffers p ≡ mine
        hit_at p e = rw e refl

        by_places :
            ((i == j) ≡ true) ⊎ ((i == j) ≡ false) → ((i == n) ≡ true) ⊎ ((i == n) ≡ false) → j ≡ n
        by_places (inl a) (inl b) = ground (arith, a, b)
        by_places (inl a) (inr b) =
            let sn = put_other i n mine c.buffers b in
            absurd (
              only n b (record {
                below = ln;
                same_dev = ap (λ x. x.dev) (sym sn) ∙ sym ed ∙ ap (λ x. x.dev) (hit_at j a);
                same_block = ap (λ x. x.block) (sym sn) ∙ sym eb ∙ ap (λ x. x.block) (hit_at j a);
              }))
        by_places (inr a) (inl b) =
            let sj = put_other i j mine c.buffers a in
            absurd (
              only j a (record {
                below = lj;
                same_dev = ap (λ x. x.dev) (sym sj) ∙ ed ∙ ap (λ x. x.dev) (hit_at n b);
                same_block = ap (λ x. x.block) (sym sj) ∙ eb ∙ ap (λ x. x.block) (hit_at n b);
              }))
        by_places (inr a) (inr b) =
            let sj = put_other i j mine c.buffers a in
            let sn = put_other i n mine c.buffers b in
            l.single j n a b lj ln (ap (λ x. x.dev) (sym sj) ∙ ed ∙ ap (λ x. x.dev) sn)
              (ap (λ x. x.block) (sym sj) ∙ eb ∙ ap (λ x. x.block) sn)

    pub located-Coherent : Coherent (located k)
    located-Coherent = record {
      member = located-member;
      free = λ j. elim (Bool-cases (i == j)) [
        | inl here ↦ rw here (ground (arith, l.free j, here))
        | inr away ↦ rw away (ground (arith, l.free j, away))
      ];
      once = l.once;
      clean = λ j lj z. elim (Bool-cases (i == j)) [
        | inl here ↦ absurd (
            let f : 1 ≡ 0 =
              ap (λ x. x.count)
                (sym (put_same i mine c.buffers) ∙ ap (put i mine c.buffers) (ground (arith, here)))
              ∙ z in
            omega (arith, f))
        | inr away ↦
            let sj = put_other i j mine c.buffers away in
            ap (λ x. x.dirty) sj ∙ l.clean j away lj (ap (λ x. x.count) (sym sj) ∙ z)
      ];
      single = located-single;
    }
