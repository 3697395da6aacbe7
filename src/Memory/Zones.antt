-- ===== src/Memory/Zones.antt =====
-- The first half of `memory_init`: the map of physical memory, from the loader or from multiboot. The
-- entries are a list; how they lie in memory, and the search for their tag, is not modelled.
use polaris_os.Memory.Boot.{memory_base}
use polaris_os.Prelude.{
  ltb, ◌==◌, if◌then◌else◌, Bool-cases, ◌>>◌, assert, os_magic, ℕ, ◌%◌, ◌^◌, ◌≤◌, ◌<◌, ◌≡◌, refl,
  sym, ap, ◌∙◌, ◌⊎◌, inl, inr, ◌&&◌, ◌||◌, Option, some, List, [], ◌∷◌, arith,
}

-- `ards_t` and `multi_mmap_entry_t`.
pub record Zone : Type 0 where
  pub base : ℕ
  pub size : ℕ
  pub kind : ℕ

abbrev pub zone_valid : ℕ
zone_valid = 1

-- The loops over the entries. The sizes are `u64` and compared before they are cut to 32 bits.
unfoldable pub zone_loop : List Zone → (memory_base memory_size : ℕ) → ℕ × ℕ
zone_loop [] base size = (base, size)
zone_loop (z ∷ zones) base size =
    if (z.kind == zone_valid) && ltb size z.size
    then zone_loop zones (z.base % 2 ^ 32) (z.size % 2 ^ 32)
    else zone_loop zones base size

abbrev pub multiboot2_magic : ℕ
multiboot2_magic = 0x36d76289

-- The usable size, for the two magic numbers; another one is a panic.
unfoldable pub memory_probe : (magic : ℕ) → List Zone → Option ℕ
memory_probe magic zones = do
  assert ((magic == os_magic) || (magic == multiboot2_magic))
  let (base, size) = zone_loop zones 0 0
  assert (base == memory_base)
  some size

-- The zones that can be used all have at most the size `n` and fit into 32 bits.
abbrev pub AtMost : ℕ → List Zone → Type 0
AtMost n [] = Unit
AtMost n (z ∷ zones) = (z.kind ≡ 1 → z.size ≤ n) × AtMost n zones

abbrev pub Words : List Zone → Type 0
Words [] = Unit
Words (z ∷ zones) = (z.size < 2 ^ 32) × Words zones

pub data Among (base size : ℕ) : List Zone → Type 0 where
  this :
      {z : Zone} {zones : List Zone}
      → z.kind ≡ 1
      → z.base % 2 ^ 32 ≡ base
      → z.size ≡ size
      → Among base size (z ∷ zones)
  further : {z : Zone} {zones : List Zone} → Among base size zones → Among base size (z ∷ zones)

-- What the loop returns from a start of `base` and `size`.
pub record Largest (zones : List Zone) (base size : ℕ) (r : ℕ × ℕ) : Type 0 where
  pub bound : AtMost r.1 zones
  pub grown : size ≤ r.1
  pub one_of : (r ≡ (base, size)) ⊎ Among r.0 r.1 zones

zone_loop-Largest :
    (zones : List Zone) (base size : ℕ)
    → Words zones
    → Largest zones base size (zone_loop zones base size)
unfolding zone_loop
zone_loop-Largest [] base size w = record { bound = tt; grown = omega arith; one_of = inl refl }
zone_loop-Largest (z ∷ zones) base size (small, w) =
    elim (Bool-cases ((z.kind == zone_valid) && ltb size z.size)) [
      | inl taken ↦
          let cut : z.size % 2 ^ 32 ≡ z.size = omega arith in
          let r = zone_loop-Largest zones (z.base % 2 ^ 32) (z.size % 2 ^ 32) w in
          let kind : z.kind ≡ 1 = ground arith in
          let larger : size < z.size = ground arith in
          rw taken (record {
            bound = ((λ k. omega (arith, r.grown, cut)), r.bound);
            grown = omega (arith, r.grown, cut, larger);
            one_of = elim r.one_of [
              | inl e ↦ inr (this kind (sym (ap (λ p. p.0) e)) (sym cut ∙ sym (ap (λ p. p.1) e)))
              | inr a ↦ inr (further a)
            ];
          })
      | inr left ↦
          let r = zone_loop-Largest zones base size w in
          let not_larger : z.kind ≡ 1 → z.size ≤ size = λ k. ground (arith, k) in
          rw left (record {
            bound = ((λ k. omega (arith, r.grown, not_larger k)), r.bound);
            grown = r.grown;
            one_of = elim r.one_of [ inl e ↦ inl e | inr a ↦ inr (further a) ];
          })
    ]

-- Over a map of zones whose sizes fit into 32 bits, the loops of `memory_init` return the base and
-- the size of a usable zone such that no usable zone is larger, or 0 and 0.
pub zone_loop-AtMost :
    (zones : List Zone)
    → Words zones
    → AtMost (zone_loop zones 0 0).1 zones
      × ((zone_loop zones 0 0 ≡ (0, 0))
          ⊎ Among (zone_loop zones 0 0).0 (zone_loop zones 0 0).1 zones)
zone_loop-AtMost zones w = let r = zone_loop-Largest zones 0 0 w in (r.bound, r.one_of)
