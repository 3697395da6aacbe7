-- ===== src/Cache/Claim.antt =====
-- `get_free_buffer` takes a buffer out of the table, and `getblk` puts it back for its block.
use polaris_os.LinkedList.Linked.{has, Distinct}
use polaris_os.Cache.Coherence.{Coherent}
use polaris_os.Prelude.{
  ltb, ◌==◌, Bool-cases, ℕ, ◌+◌, ◌<◌, ◌≡◌, refl, sym, ap, ◌∙◌, inl, inr, false, not, ◌&&◌, arith,
}
use polaris_os.Cache.{Block, Cache, put, hash}

-- A coherent cache but for buffer `i`, which is in no list, has no reference and is clean.
pub record Loose (i : ℕ) (c : Cache) : Type 0 where
  pub member :
      (k j : ℕ)
      → has j (c.table k)
        ≡ (not (i == j) && (ltb j c.used && (hash (c.buffers j).dev (c.buffers j).block == k)))
  pub free :
      (j : ℕ) → has j c.free_list ≡ (not (i == j) && (ltb j c.used && ((c.buffers j).count == 0)))
  pub once : Distinct c.free_list
  pub clean :
      (j : ℕ)
      → (i == j) ≡ false
      → j < c.used
      → (c.buffers j).count ≡ 0
      → (c.buffers j).dirty ≡ false
  pub single :
      (j l : ℕ)
      → (i == j) ≡ false
      → (i == l) ≡ false
      → j < c.used
      → l < c.used
      → (c.buffers j).dev ≡ (c.buffers l).dev
      → (c.buffers j).block ≡ (c.buffers l).block
      → j ≡ l
  pub below : i < c.used
  pub unused : (c.buffers i).count ≡ 0
  pub tidy : (c.buffers i).dirty ≡ false

pub put_other :
    (i j : ℕ) (b : Block) (buffers : ℕ → Block) → (i == j) ≡ false → put i b buffers j ≡ buffers j
put_other i j b buffers e = rw e refl

pub put_same : (i : ℕ) (b : Block) (buffers : ℕ → Block) → put i b buffers i ≡ b
put_same i b buffers = ground arith

-- A fresh buffer behind the used ones.
module _ (c : Cache) (h : Coherent c) (b : Block) (unused : b.count ≡ 0) (tidy : b.dirty ≡ false)
    (d : ℕ) where
  abbrev pub grown : Cache
  grown = record c { buffers = put c.used b c.buffers; used = c.used + 1; buffer_data = d }

  kept_hash :
      (j k : ℕ)
      → (c.used == j) ≡ false
      → (hash (grown.buffers j).dev (grown.buffers j).block == k)
        ≡ (hash (c.buffers j).dev (c.buffers j).block == k)
  kept_hash j k e = ap (λ x. hash x.dev x.block == k) (put_other c.used j b c.buffers e)

  kept_count :
      (j : ℕ) → (c.used == j) ≡ false → ((grown.buffers j).count == 0) ≡ ((c.buffers j).count == 0)
  kept_count j e = ap (λ x. x.count == 0) (put_other c.used j b c.buffers e)

  pub grown-Loose : Loose c.used grown
  grown-Loose = record {
    member = λ k j. elim (Bool-cases (c.used == j)) [
      | inl here ↦ rw here (ground (arith, h.member k j, here))
      | inr away ↦ rw (kept_hash j k away) (ground (arith, h.member k j, away))
    ];
    free = λ j. elim (Bool-cases (c.used == j)) [
      | inl here ↦ rw here (ground (arith, h.free j, here))
      | inr away ↦ rw (kept_count j away) (ground (arith, h.free j, away))
    ];
    once = h.once;
    clean = λ j away l z.
        let same = put_other c.used j b c.buffers away in
        ap (λ x. x.dirty) same
        ∙ h.clean j (ground (arith, away, l)) (sym (ap (λ x. x.count) same) ∙ z);
    single = λ j l aj al lj ll ed eb.
        let sj = put_other c.used j b c.buffers aj in
        let sl = put_other c.used l b c.buffers al in
        h.single j l (ground (arith, aj, lj)) (ground (arith, al, ll))
          (sym (ap (λ x. x.dev) sj) ∙ ed ∙ ap (λ x. x.dev) sl)
          (sym (ap (λ x. x.block) sj) ∙ eb ∙ ap (λ x. x.block) sl);
    below = omega arith;
    unused = ap (λ x. x.count) (put_same c.used b c.buffers) ∙ unused;
    tidy = ap (λ x. x.dirty) (put_same c.used b c.buffers) ∙ tidy;
  }
