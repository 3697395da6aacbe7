-- ===== src/Memory/Space.antt =====
-- Mapping and unmapping a page: one entry changes, and the counts of the pages stay right.
use polaris_os.Prelude.{
  ◌==◌, if◌then◌else◌, Bool-cases, length, get_or, get_or-set, ◌>>=◌, Returns, returns,
  Returns-bind_map, ℕ, ◌+◌, ◌*◌, ◌%◌, ◌^◌, ◌≤◌, ◌<◌, ◌≡◌, refl, sym, ap, ◌∙◌, inl, inr, true, false,
  ◌&&◌, some, arith,
}
use polaris_os.Memory.{Entry, Memory, page_index, dir_index, table_index, get_page}
use polaris_os.Memory.Paging.{
  empty_entry, entry_init, set_pde, set_pte, clear_table, get_pte, get_entry, link_page,
}
use polaris_os.Memory.Frames.{
  zeros, count_at, FramesValid, recount, recount-FramesValid, Gotten, get_page-Gotten,
}

-- The entries that the code finds for a virtual address.
abbrev pub dir_of : Memory → ℕ → Entry
dir_of m vaddr = m.pde (dir_index vaddr)

abbrev pub entry_of : Memory → ℕ → Entry
entry_of m vaddr = m.pte (dir_index vaddr) (table_index vaddr)

-- Changes to the page tables do not matter for the counts of the pages.
pub same_counts :
    (base : ℕ) (m m' : Memory)
    → m'.frames ≡ m.frames
    → m'.start_page ≡ m.start_page
    → m'.total_pages ≡ m.total_pages
    → m'.free_pages ≡ m.free_pages
    → FramesValid base m
    → FramesValid base m'
same_counts base m m' f s t e v = record {
  sized = ap length f ∙ v.sized ∙ sym t;
  small = omega (arith, v.small);
  started = omega (arith, v.started);
  start_base = omega (arith, v.start_base);
  base_total = omega (arith, v.base_total);
  kept = λ i h z. v.kept i h (ap (λ cs. get_or cs i 0) (sym f) ∙ z);
  free = e ∙ v.free ∙ (omega (arith, s, ap zeros f));
}

-- Tables that exist keep their other entries.
abbrev pub OthersKept : ℕ → Memory → Memory → Type 0
OthersKept vaddr m m' =
    (d t : ℕ)
    → ((d == dir_index vaddr) && (t == table_index vaddr)) ≡ false
    → (m.pde d).present ≡ true
    → m'.pte d t ≡ m.pte d t

-- After `get_pte` with `create` the table exists; if it had to be made, it is empty and took a page.
pub record Table (base : ℕ) (vaddr : ℕ) (m m' : Memory) : Type 0 where
  pub valid : FramesValid base m'
  pub exists : (dir_of m' vaddr).present ≡ true
  pub kept : (d t : ℕ) → (m.pde d).present ≡ true → m'.pte d t ≡ m.pte d t
  pub kept_dir : (d : ℕ) → (m.pde d).present ≡ true → m'.pde d ≡ m.pde d
  pub was_free : (r : ℕ) → count_at m' r ≡ 0 → count_at m r ≡ 0
  pub total : m'.total_pages ≡ m.total_pages
  pub cost : zeros m.frames ≤ zeros m'.frames + 1
  pub fresh : (dir_of m vaddr).present ≡ false → entry_of m' vaddr ≡ empty_entry
  pub untouched : (dir_of m vaddr).present ≡ true → m' ≡ m

module _ (base : ℕ) (m : Memory) (v : FramesValid base m) (pos : 0 < zeros m.frames)
    (vaddr : ℕ) where
  made : ℕ → Memory
  made r =
      clear_table (dir_index vaddr)
        (set_pde (dir_index vaddr) (entry_init (page_index (r * 2 ^ 12))) (recount base m r 1))

  made-Table :
      (r : ℕ) → Gotten base m r → (dir_of m vaddr).present ≡ false → Table base vaddr m (made r)
  unfolding made clear_table set_pde entry_init recount
  made-Table r g no_table = record {
    valid =
        same_counts base (recount base m r 1) (made r) refl refl refl refl
          (recount-FramesValid base m v r 1 g.above g.below);
    exists = ground arith;
    kept = λ d t present. ground (arith, present, no_table);
    kept_dir = λ d present. ground (arith, present, no_table);
    was_free =
        λ x e. ground (arith, e, get_or-set m.frames r x 1 0 (omega (arith, g.below, v.sized)));
    total = refl;
    cost = omega (arith, g.counted);
    fresh = λ e. ground arith;
    untouched = λ present. cc;
  }

  pub get_pte-Table : Returns (Table base vaddr m) (get_pte vaddr true m)
  unfolding get_pte made clear_table
  get_pte-Table = elim (Bool-cases (dir_of m vaddr).present) [
    | inl present ↦ rw present (
        returns (record {
          valid = v;
          exists = present;
          kept = λ d t e. refl;
          kept_dir = λ d e. refl;
          was_free = λ r e. e;
          total = refl;
          cost = omega arith;
          fresh = λ e. cc;
          untouched = λ e. refl;
        }))
    | inr no_table ↦
        let (r, g, runs) = get_page-Gotten base m v pos in
        rw (no_table, runs) (returns (made-Table r g no_table))
  ]

-- Frame `r` was free in `m` and has one reference in `m'`.
pub record NewFrame (base : ℕ) (m m' : Memory) (r : ℕ) : Type 0 where
  pub above : base ≤ r
  pub below : r < m.total_pages
  pub was_free : count_at m r ≡ 0
  pub one : count_at m' r ≡ 1

-- After `link_page` the page is mapped. If it was mapped before nothing has changed; if not, it is
-- mapped to a frame of its own, writable for the user. The other entries are as before.
pub record Linked (base vaddr : ℕ) (m m' : Memory) : Type 0 where
  pub valid : FramesValid base m'
  pub table : (dir_of m' vaddr).present ≡ true
  pub mapped : (entry_of m' vaddr).present ≡ true
  pub others : OthersKept vaddr m m'
  pub same : (dir_of m vaddr).present ≡ true → (entry_of m vaddr).present ≡ true → m' ≡ m
  pub new :
      ((dir_of m vaddr).present && (entry_of m vaddr).present) ≡ false
      → (r : ℕ) × NewFrame base m m' r × (entry_of m' vaddr ≡ entry_init r)

module _ (base : ℕ) (m : Memory) (vaddr : ℕ) where
  unfoldable pub mapped_to : Memory → ℕ → Memory
  mapped_to m' r =
      set_pte (dir_index vaddr) (table_index vaddr) (entry_init (page_index (r * 2 ^ 12)))
        (recount base m' r 1)

  pub at_entry : (m' : Memory) (r : ℕ) → entry_of (mapped_to m' r) vaddr ≡ entry_init r
  unfolding mapped_to set_pte recount
  at_entry m' r =
      let d : (dir_index vaddr == dir_index vaddr) ≡ true = ground arith in
      let t : (table_index vaddr == table_index vaddr) ≡ true = ground arith in
      let i : page_index (r * 2 ^ 12) ≡ r = omega arith in rw (d, t, i)

  mapped_before :
      (m' : Memory)
      → Table base vaddr m m'
      → (entry_of m' vaddr).present ≡ true
      → ((dir_of m vaddr).present && (entry_of m vaddr).present) ≡ false
      → ⊥
  mapped_before m' t present e = elim (Bool-cases (dir_of m vaddr).present) [
    | inl exists ↦
        let same = ap Entry.present (t.kept (dir_index vaddr) (table_index vaddr) exists) in
        ground (arith, same)
    | inr none_yet ↦ ground (arith, t.fresh none_yet)
  ]

  mapped_to-Linked :
      (m' : Memory) (r : ℕ)
      → Table base vaddr m m'
      → (entry_of m' vaddr).present ≡ false
      → Gotten base m' r
      → Linked base vaddr m (mapped_to m' r)
  unfolding mapped_to set_pte entry_init recount
  mapped_to-Linked m' r t absent g = record {
    valid =
        same_counts base (recount base m' r 1) (mapped_to m' r) refl refl refl refl
          (recount-FramesValid base m' t.valid r 1 g.above g.below);
    table = t.exists;
    mapped = ground arith;
    others = λ d u other present. ground (arith, other, t.kept d u present);
    same = λ present was_mapped. absurd (
        let e = t.kept (dir_index vaddr) (table_index vaddr) present in cc (e, absent, was_mapped));
    new = λ e. (
      r,
      record {
        above = g.above;
        below = omega (arith, g.below, t.total);
        was_free = t.was_free r g.unused;
        one = ground (arith, get_or-set m'.frames r r 1 0 (omega (arith, g.below, t.valid.sized)));
      },
      at_entry m' r,
    );
  }

  map_finish :
      (m' : Memory)
      → Table base vaddr m m'
      → 1 < zeros m.frames
      → Returns (Linked base vaddr m) (
          if (entry_of m' vaddr).present
          then some m'
          else get_page m' >>= λ (paddr, m2).
              some
                (set_pte (dir_index vaddr) (table_index vaddr) (entry_init (page_index paddr)) m2))
  unfolding mapped_to set_pte
  map_finish m' t pos = elim (Bool-cases (entry_of m' vaddr).present) [
    | inl present ↦ rw present (
        returns (record {
          valid = t.valid;
          table = t.exists;
          mapped = present;
          others = λ d u other exists. t.kept d u exists;
          same = λ exists was_mapped. t.untouched exists;
          new = λ e. absurd (mapped_before m' t present e);
        }))
    | inr absent ↦
        let (r, g, runs) = get_page-Gotten base m' t.valid (omega (arith, t.cost)) in
        rw (absent, runs) (returns (mapped_to-Linked m' r t absent g))
  ]

-- While two pages are free and the counts are right, `link_page` on an aligned address returns: the
-- address is mapped, other entries are as before, and the counts stay right.
pub link_page-Linked :
    (base : ℕ) (m : Memory) (vaddr : ℕ)
    → FramesValid base m
    → vaddr % 0x1000 ≡ 0
    → 1 < zeros m.frames
    → Returns (Linked base vaddr m) (link_page vaddr m)
unfolding link_page get_entry
link_page-Linked base m vaddr v aligned pos =
    let a : (vaddr % 0x1000 == 0) ≡ true = ground arith in
    rw a (
      Returns-bind_map _ _ (get_pte-Table base m v (omega arith) vaddr)
        (λ m' t. map_finish base m vaddr m' t pos))
