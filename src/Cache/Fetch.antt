-- ===== src/Cache/Fetch.antt =====
-- What `getblk` comes to.
use mathlib.Core.Path.{subst}
use polaris_os.Bitmap.{eof}
use polaris_os.LinkedList.Linked.{has, Distinct}
use polaris_os.Cache.Coherence.{Coherent, Cached, IsAbsent}
use polaris_os.Cache.Claim.{Loose, put_other, put_same, grown, grown-Loose}
use polaris_os.Cache.Reuse.{IsOnly, old_chain, reused, chained, reused-Loose, reused-IsOnly}
use polaris_os.Cache.Get.{mine, located, located-Coherent}
use polaris_os.Prelude.{
  ltb, ◌==◌, if◌then◌else◌, Bool-cases, ◌>>=◌, ◌>>◌, assert, Returns, returns, ℕ, ◌+◌, ◌-◌, ◌*◌,
  ◌≡◌, refl, sym, ap, ◌∙◌, inl, inr, true, false, not, ◌||◌, Option, none, some, List, [], ◌∷◌,
  arith,
}
use polaris_os.Cache.{
  Block, Cache, put, hash, set_chain, hash_locate, hash_remove, get_new_buffer, from_list, or_free,
  get_free_buffer, Got, got, waits, take_over, claim,
}
use polaris_os.LinkedList.Without.{without, split_last, has-split_last, Distinct-split_last}

-- `getblk` for task `t`: the cached buffer with one more reference; or a buffer that was free or fresh,
-- with one; or a wait, where there is neither a free buffer nor memory for a new one.
pub data GetBlock (size dev block t : ℕ) (c : Cache) : Got → Type 0 where
  cached :
      (i : ℕ) (c' : Cache)
      → Cached dev block c i
      → Coherent c'
      → (c'.buffers i).count ≡ (c.buffers i).count + 1
      → Cached dev block c' i
      → GetBlock size dev block t c (got i c')
  obtained :
      (i : ℕ) (c' : Cache)
      → IsAbsent dev block c
      → Coherent c'
      → (c'.buffers i).count ≡ 1
      → Cached dev block c' i
      → GetBlock size dev block t c (got i c')
  must_wait :
      IsAbsent dev block c
      → c.free_list ≡ []
      → ltb (c.start + c.used * size + size) c.buffer_data ≡ false
      → GetBlock size dev block t c (waits (record c { wait_list = t ∷ c.wait_list }))

-- `getblk` behind `get_free_buffer`.
module _ (size dev block t i : ℕ) (c0 c : Cache) (l : Loose i c) (only : IsOnly dev block i c)
    (none_there : IsAbsent dev block c0) where
  abbrev moved : Cache
  moved = record c { buffers = put i (mine dev block i c l only) c.buffers }

  abbrev chain : ℕ
  chain = hash (moved.buffers i).dev (moved.buffers i).block

  chain-hash : chain ≡ hash dev block
  chain-hash = ap (λ x. hash x.dev x.block) (put_same i (mine dev block i c l only) c.buffers)

  found_place : hash_locate i moved ≡ some (located dev block i c l only chain)
  unfolding hash_locate
  found_place =
      let out : has i (c.table chain) ≡ false = ground (arith, l.member chain i) in
      ap (λ b. do assert (not b); some (located dev block i c l only chain)) out

  settled : Returns (GetBlock size dev block t c0) (take_over dev block t (some i, c))
  unfolding take_over
  settled =
      let here = put_same i (mine dev block i c l only) c.buffers in
      let zero_count : ((c.buffers i).count == 0) ≡ true = ground (arith, l.unused) in
      subst (Returns (GetBlock size dev block t c0))
        (sym (
          ap
            (λ b. do
              assert b
              assert (not (c.buffers i).dirty)
              c2 ← hash_locate i moved
              some (got i c2))
            zero_count
          ∙ ap (λ b. do assert (not b); c2 ← hash_locate i moved; some (got i c2)) l.tidy
          ∙ ap (λ (o : Option Cache). do c2 ← o; some (got i c2)) found_place))
        (returns (
          obtained i (located dev block i c l only chain) none_there
            (located-Coherent dev block i c l only chain chain-hash) (ap (λ x. x.count) here)
            (record {
              below = l.below;
              same_dev = ap (λ x. x.dev) here;
              same_block = ap (λ x. x.block) here;
            })))

module _ (size dev block t : ℕ) (c : Cache) (h : Coherent c)
    (none_there : IsAbsent dev block c) where
  abbrev fresh : Block
  fresh = record { dev = eof; block = 0; count = 0; dirty = false; valid = false }

  fresh-IsOnly : IsOnly dev block c.used (grown c h fresh refl refl (c.buffer_data - 1024))
  unfolding IsOnly IsAbsent
  fresh-IsOnly j away k =
      let sj = put_other c.used j fresh c.buffers away in
      none_there j (record {
        below = ground (arith, away, k.below);
        same_dev = ap (λ x. x.dev) (sym sj) ∙ k.same_dev;
        same_block = ap (λ x. x.block) (sym sj) ∙ k.same_block;
      })

  new_one :
      ltb (c.start + c.used * size + size) c.buffer_data ≡ true
      → get_new_buffer size c ≡ (some c.used, grown c h fresh refl refl (c.buffer_data - 1024))
  unfolding get_new_buffer
  new_one room =
      ap
        (λ b.
          if b then (some c.used, grown c h fresh refl refl (c.buffer_data - 1024)) else (none, c))
        room

  no_new :
      ltb (c.start + c.used * size + size) c.buffer_data ≡ false → get_new_buffer size c ≡ (none, c)
  unfolding get_new_buffer
  no_new full =
      ap
        (λ b.
          if b then (some c.used, grown c h fresh refl refl (c.buffer_data - 1024)) else (none, c))
        full

  from_free :
      ltb (c.start + c.used * size + size) c.buffer_data ≡ false
      → (free : List ℕ) → c.free_list ≡ free
      → Returns (GetBlock size dev block t c) (from_list free c >>= take_over dev block t)
  unfolding from_list hash_remove take_over
  from_free full [] e = waits_for e full
    where
      waits_for :
          c.free_list ≡ []
          → ltb (c.start + c.used * size + size) c.buffer_data ≡ false
          → Returns (GetBlock size dev block t c) (take_over dev block t (none, c))
      waits_for e full = returns (must_wait none_there e full)
  from_free full (i ∷ is) e =
      let (front, last) = split_last i is in
      let (once, out) = Distinct-split_last i is (subst Distinct e h.once) in
      let same : (j : ℕ) → has j c.free_list ≡ (has j front || (j == last)) =
        λ j. ap (has j) e ∙ has-split_last j i is in
      subst
        (λ b. Returns (GetBlock size dev block t c) (
          (do
            c1 ← (do
              assert b
              some (record c {
                free_list = front;
                table =
                    set_chain (old_chain c h last front same once out)
                      (without last (c.table (old_chain c h last front same once out))) c.table;
              }))
            some (
              some last,
              record c1 {
                buffers = put last (record (c1.buffers last) { valid = false }) c1.buffers;
              },
            ))
          >>= take_over dev block t))
        (sym (chained c h last front same once out))
        (settled size dev block t last c (reused c h last front same once out)
          (reused-Loose c h last front same once out)
          (reused-IsOnly c h last front same once out dev block none_there) none_there)

  pub claim-GetBlock : Returns (GetBlock size dev block t c) (claim size dev block t c)
  unfolding claim get_free_buffer or_free
  claim-GetBlock = elim (Bool-cases (ltb (c.start + c.used * size + size) c.buffer_data)) [
    | inl room ↦
        subst (λ r. Returns (GetBlock size dev block t c) (or_free r >>= take_over dev block t))
          (sym (new_one room))
          (settled size dev block t c.used c (grown c h fresh refl refl (c.buffer_data - 1024))
            (grown-Loose c h fresh refl refl (c.buffer_data - 1024)) fresh-IsOnly none_there)
    | inr full ↦
        subst (λ r. Returns (GetBlock size dev block t c) (or_free r >>= take_over dev block t))
          (sym (no_new full)) (from_free full c.free_list refl)
  ]
