-- ===== src/Cache/Coherence.antt =====
-- What holds of the cache between the calls.
use polaris_os.LinkedList.Linked.{has, Distinct}
use polaris_os.Prelude.{
  ltb, ◌==◌, Bool-cases, ℕ, ◌<◌, ◌≡◌, refl, ap, ◌∙◌, ◌⊎◌, inl, inr, true, false, ◌&&◌, Option, none,
  some, List, [], ◌∷◌, arith, ℕ_discrete,
}
use polaris_os.Cache.{Block, Cache, hash, is_block, chain_loop}

-- The buffers below `used` are in the chain of their block and in no other, those without a reference
-- are clean and in the list of free ones, and no two are of one block.
pub record Coherent (c : Cache) : Type 0 where
  pub member :
      (k i : ℕ)
      → has i (c.table k) ≡ (ltb i c.used && (hash (c.buffers i).dev (c.buffers i).block == k))
  pub free : (i : ℕ) → has i c.free_list ≡ (ltb i c.used && ((c.buffers i).count == 0))
  pub once : Distinct c.free_list
  pub clean : (i : ℕ) → i < c.used → (c.buffers i).count ≡ 0 → (c.buffers i).dirty ≡ false
  pub single :
      (i j : ℕ)
      → i < c.used
      → j < c.used
      → (c.buffers i).dev ≡ (c.buffers j).dev
      → (c.buffers i).block ≡ (c.buffers j).block
      → i ≡ j

-- Some buffer is of the block.
pub record Cached (dev block : ℕ) (c : Cache) (i : ℕ) : Type 0 where
  pub below : i < c.used
  pub same_dev : (c.buffers i).dev ≡ dev
  pub same_block : (c.buffers i).block ≡ block

unfoldable pub IsAbsent : (dev block : ℕ) → Cache → Type 0
IsAbsent dev block c = (i : ℕ) → Cached dev block c i → ⊥

module _ (dev block : ℕ) (buffers : ℕ → Block) where
  pub data Search (is : List ℕ) : Option ℕ → Type 0 where
    hits :
        (i : ℕ)
        → has i is ≡ true
        → (buffers i).dev ≡ dev
        → (buffers i).block ≡ block
        → Search is (some i)
    misses : ((i : ℕ) → has i is ≡ true → is_block dev block (buffers i) ≡ false) → Search is none

  pub chain_loop-Search : (is : List ℕ) → Search is (chain_loop dev block buffers is)
  unfolding chain_loop
  chain_loop-Search [] = misses (λ i e. cc)
  chain_loop-Search (i ∷ is) = elim (Bool-cases (is_block dev block (buffers i))) [
    | inl hit ↦ rw hit (hits i (ground arith) (ground (arith, hit)) (ground (arith, hit)))
    | inr miss ↦ rw miss (past miss (chain_loop-Search is))
  ]
    where
      past :
          {o : Option ℕ} → is_block dev block (buffers i) ≡ false → Search is o → Search (i ∷ is) o
      past miss (hits j e d b) = hits j (ground (arith, e)) d b
      past miss (misses all) = misses (λ j e. elim (ℕ_discrete j i) [
        | yes same ↦ ap (λ k. is_block dev block (buffers k)) same ∙ miss
        | no ne ↦ all j (ground (arith, e, ne))
      ])

-- The hash table finds the buffer of a block, or says that there is none.
pub lookup :
    (dev block : ℕ) (c : Cache)
    → Coherent c
    → ((i : ℕ) × (chain_loop dev block c.buffers (c.table (hash dev block)) ≡ some i)
        × Cached dev block c i)
      ⊎ ((chain_loop dev block c.buffers (c.table (hash dev block)) ≡ none) × IsAbsent dev block c)
unfolding IsAbsent
lookup dev block c h = by_search (chain_loop-Search dev block c.buffers (c.table (hash dev block)))
  where
    by_search :
        {o : Option ℕ}
        → Search dev block c.buffers (c.table (hash dev block)) o
        → ((i : ℕ) × (o ≡ some i) × Cached dev block c i)
          ⊎ ((o ≡ none) × ((i : ℕ) → Cached dev block c i → ⊥))
    by_search (hits i e d b) = inl (
      i,
      refl,
      record {
        below = ground (arith, h.member (hash dev block) i, e);
        same_dev = d;
        same_block = b;
      },
    )
    by_search (misses all) = inr (
      refl,
      λ i k.
          (let there : has i (c.table (hash dev block)) ≡ true =
              ground (arith, h.member (hash dev block) i, k.below, k.same_dev, k.same_block) in
            let no_block = all i there in ground (arith, no_block, k.same_dev, k.same_block)),
    )
