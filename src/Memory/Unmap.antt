-- ===== src/Memory/Unmap.antt =====
-- `unlink_page` takes back what `link_page` gave.
use polaris_os.Prelude.{
  ◌==◌, Bool-cases, set, get_or, get_or-set, ◌>>=◌, Returns, returns, ℕ, zero, suc, ◌+◌, ◌-◌, ◌*◌,
  ◌%◌, ◌^◌, ◌≤◌, ◌<◌, ◌≡◌, refl, sym, ap, ◌∙◌, ◌≢◌, inl, inr, true, false, ◌&&◌, some, List, [],
  ◌∷◌, arith,
}
use polaris_os.Memory.{Entry, Memory, dir_index, table_index, page, get_page}
use polaris_os.Memory.Paging.{entry_init, set_pte, get_pte, get_entry, link_page, unlink_page}
use polaris_os.Memory.Frames.{
  zeros, count_at, FramesValid, recount, recount-FramesValid, put_page-recount, Gotten,
  get_page-Gotten,
}
use polaris_os.Memory.Space.{dir_of, entry_of, same_counts, OthersKept, mapped_to, at_entry}

-- The entry of `vaddr` marked as not present; all else, its frame number included, stays.
unfoldable pub dropped : ℕ → Memory → Memory
dropped vaddr m =
    set_pte (dir_index vaddr) (table_index vaddr) (record (entry_of m vaddr) { present = false }) m

dropped-FramesValid :
    (base : ℕ) (m : Memory) (vaddr : ℕ) → FramesValid base m → FramesValid base (dropped vaddr m)
unfolding dropped set_pte
dropped-FramesValid base m vaddr v = same_counts base m (dropped vaddr m) refl refl refl refl v

-- A page whose entry is present and names a frame above the kernel's: the entry is dropped, and the
-- frame loses one reference.
pub unlink_page-recount :
    (base : ℕ) (m : Memory) (vaddr r c : ℕ)
    → FramesValid base m
    → vaddr % 0x1000 ≡ 0
    → (dir_of m vaddr).present ≡ true
    → (entry_of m vaddr).present ≡ true
    → (entry_of m vaddr).index ≡ r
    → base ≤ r
    → r < m.total_pages
    → count_at m r ≡ suc c
    → base ≢ m.start_page
    → unlink_page vaddr m ≡ some (recount base (dropped vaddr m) r c)
unfolding unlink_page get_entry get_pte dropped set_pte
unlink_page-recount base m vaddr r c v aligned table present named above below used slack =
    let a : (vaddr % 0x1000 == 0) ≡ true = ground arith in
    let addr : page (entry_of m vaddr).index ≡ r * 2 ^ 12 = omega (arith, v.small) in
    let less : count_at m r - 1 ≡ c = omega arith in
    rw (a, table, present, addr)
      (put_page-recount base (dropped vaddr m) (dropped-FramesValid base m vaddr v) r above below
          (omega arith) slack
        ∙ ap (λ x. some (recount base (dropped vaddr m) r x)) less)

-- A page with no table, or with no entry in it, is left alone.
pub unlink_page_absent :
    (m : Memory) (vaddr : ℕ)
    → vaddr % 0x1000 ≡ 0
    → ((dir_of m vaddr).present && (entry_of m vaddr).present) ≡ false
    → unlink_page vaddr m ≡ some m
unfolding unlink_page get_entry get_pte
unlink_page_absent m vaddr aligned e =
    let a : (vaddr % 0x1000 == 0) ≡ true = ground arith in
    rw a (elim (Bool-cases (dir_of m vaddr).present) [
      | inl table ↦
          let absent : (entry_of m vaddr).present ≡ false = ground arith in rw (table, absent)
      | inr none_yet ↦ rw none_yet
    ])

set-set_back : (cs : List ℕ) (i x y : ℕ) → get_or cs i 0 ≡ y → set (set cs i x) i y ≡ cs
set-set_back [] i x y e = refl
set-set_back (c ∷ cs) zero x y e = ap (λ z. z ∷ cs) (sym e)
set-set_back (c ∷ cs) (suc i) x y e = ap (λ r. c ∷ r) (set-set_back cs i x y e)

-- The counts are as in `m`, and only the entry of `vaddr` differs, which is not present.
pub record Undone (vaddr : ℕ) (m m' : Memory) : Type 0 where
  pub frames : m'.frames ≡ m.frames
  pub free_pages : m'.free_pages ≡ m.free_pages
  pub unmapped : (entry_of m' vaddr).present ≡ false
  pub others : OthersKept vaddr m m'

module _ (base : ℕ) (m : Memory) (vaddr : ℕ) (v : FramesValid base m) (aligned : vaddr % 0x1000 ≡ 0)
    (table : (dir_of m vaddr).present ≡ true) (absent : (entry_of m vaddr).present ≡ false) where
  link_page-mapped_to :
      (r : ℕ)
      → get_page m ≡ some (r * 2 ^ 12, recount base m r 1)
      → link_page vaddr m ≡ some (mapped_to base m vaddr m r)
  unfolding link_page get_entry get_pte mapped_to
  link_page-mapped_to r runs =
      let a : (vaddr % 0x1000 == 0) ≡ true = ground arith in rw (a, table, absent, runs)

  mapped_to-FramesValid : (r : ℕ) → Gotten base m r → FramesValid base (mapped_to base m vaddr m r)
  unfolding mapped_to set_pte
  mapped_to-FramesValid r g =
      same_counts base (recount base m r 1) (mapped_to base m vaddr m r) refl refl refl refl
        (recount-FramesValid base m v r 1 g.above g.below)

  count_mapped : (r : ℕ) → Gotten base m r → count_at (mapped_to base m vaddr m r) r ≡ 1
  unfolding mapped_to set_pte recount entry_init
  count_mapped r g = ground (arith, get_or-set m.frames r r 1 0 (omega (arith, g.below, v.sized)))

  index_mapped : (r : ℕ) → Gotten base m r → (entry_of (mapped_to base m vaddr m r) vaddr).index ≡ r
  unfolding entry_init
  index_mapped r g = rw (at_entry base m vaddr m r) (omega (arith, g.below, v.small))

  rolled_back :
      (r : ℕ)
      → Gotten base m r
      → Undone vaddr m (recount base (dropped vaddr (mapped_to base m vaddr m r)) r 0)
  unfolding recount dropped mapped_to set_pte
  rolled_back r g =
      let back = set-set_back m.frames r 1 0 g.unused in
      record {
        frames = back;
        free_pages = ap (λ cs. zeros cs + (base - m.start_page)) back ∙ sym v.free;
        unmapped = ground arith;
        others = λ d t other present. ground (arith, other);
      }

  unlinked :
      (r : ℕ)
      → Gotten base m r
      → base ≢ m.start_page
      → unlink_page vaddr (mapped_to base m vaddr m r)
        ≡ some (recount base (dropped vaddr (mapped_to base m vaddr m r)) r 0)
  unfolding mapped_to set_pte recount entry_init
  unlinked r g slack =
      unlink_page-recount base (mapped_to base m vaddr m r) vaddr r 0 (mapped_to-FramesValid r g)
        aligned table (ap Entry.present (at_entry base m vaddr m r)) (index_mapped r g) g.above
        g.below (count_mapped r g) slack

  -- `link_page` of an aligned address that is not mapped but has a table, while a page is free, and
  -- then `unlink_page` of it: both return, the counts of all pages are what they were, and the
  -- address is not mapped. The counts are right and some pages are counted free twice, as after boot.
  pub unlink_page-link_page :
      0 < zeros m.frames
      → base ≢ m.start_page
      → Returns (Undone vaddr m) (link_page vaddr m >>= λ m'. unlink_page vaddr m')
  unlink_page-link_page pos slack =
      let (r, g, runs) = get_page-Gotten base m v pos in
      rw (link_page-mapped_to r runs, unlinked r g slack) (returns (rolled_back r g))
