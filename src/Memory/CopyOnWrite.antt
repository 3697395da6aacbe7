-- ===== src/Memory/CopyOnWrite.antt =====
-- The write fault: a page with one reference becomes writable in place, a shared one is copied.
use polaris_os.Prelude.{
  ltb, ◌==◌, if◌then◌else◌, get_elem?, set, length-set, get_elem?-set_ne, get_or, get_or-set,
  get_elem?-eq-get_or, Returns, returns, ℕ, suc, ◌+◌, ◌*◌, ◌%◌, ◌^◌, ◌≤◌, ◌<◌, ◌≡◌, ap, ◌∙◌, ◌≢◌,
  true, false, ◌&&◌, some, arith,
}
use polaris_os.Memory.{Memory, page_index, dir_index, table_index, get_page}
use polaris_os.Memory.Paging.{entry_init, set_pte, get_pte, get_entry, copy_page, write_fault}
use polaris_os.Memory.Frames.{
  zeros, count_at, FramesValid, zeros-set, recount, Gotten, get_page-Gotten,
}
use polaris_os.Memory.Space.{dir_of, entry_of, NewFrame}

-- What the copy promises: the page is mapped to a frame of its own, writable; the shared frame has
-- one reference less; all other counts, and the entries but that of the window, are as before.
pub record Copied (base : ℕ) (m : Memory) (vaddr i c : ℕ) (m' : Memory) : Type 0 where
  pub frame : ℕ
  pub new : NewFrame base m m' frame
  pub mapped : entry_of m' vaddr ≡ entry_init frame
  pub shared : count_at m' i ≡ c
  pub others : (j : ℕ) → j ≢ frame → j ≢ i → count_at m' j ≡ count_at m j
  pub entries :
      (d t : ℕ)
      → ((d == dir_index vaddr) && (t == table_index vaddr)) ≡ false
      → ((d == 0) && (t == 0)) ≡ false
      → m'.pte d t ≡ m.pte d t
  pub valid : FramesValid base m'

module _ (base : ℕ) (m : Memory) (vaddr i c : ℕ) (v : FramesValid base m)
    (table : (dir_of m vaddr).present ≡ true) (present : (entry_of m vaddr).present ≡ true)
    (not_shared : (entry_of m vaddr).shared ≡ false)
    (not_readonly : (entry_of m vaddr).readonly ≡ false) (named : (entry_of m vaddr).index ≡ i)
    (above : base ≤ i) (below : i < m.total_pages) where
  read_count : get_elem? m.frames i ≡ some (count_at m i)
  read_count = get_elem?-eq-get_or m.frames i 0 (omega (arith, v.sized))

  -- With a single reference only the write bit of the entry changes.
  pub write_fault_single :
      count_at m i ≡ 1
      → write_fault vaddr m
        ≡ some (
            set_pte
              (dir_index vaddr)
              (table_index vaddr)
              (record (entry_of m vaddr) { write = true })
              m)
  unfolding write_fault get_entry get_pte
  write_fault_single one = rw (table, present, not_shared, not_readonly, named, read_count, one)

  -- The memory that the copy leaves: frame `r` is taken, frame `i` has one reference less.
  copied : ℕ → Memory
  copied r = set_pte (dir_index vaddr) (table_index vaddr) (entry_init (page_index (r * 2 ^ 12))) (
      let m1 = recount base m r 1 in
      let m2 = set_pte 0 0 (record (entry_init (page_index (r * 2 ^ 12))) { present = false }) m1 in
      record m2 { frames = set m2.frames i c })

  write_fault_runs :
      (r : ℕ)
      → Gotten base m r
      → get_page m ≡ some (r * 2 ^ 12, recount base m r 1)
      → (m.pde 0).present ≡ true
      → count_at m i ≡ suc c
      → 0 < c
      → c < 255
      → write_fault vaddr m ≡ some (copied r)
  unfolding write_fault get_entry get_pte copy_page copied recount set_pte
  write_fault_runs r g runs window count more byte =
      let pos : ltb 0 (suc c) ≡ true = ground arith in
      let several : (suc c == 1) ≡ false = ground (arith, more) in
      let apart : r ≢ i = λ e. ground (arith, g.unused, ap (λ j. count_at m j) e) in
      let old : get_elem? (set m.frames r 1) i ≡ some (suc c) =
        get_elem?-set_ne m.frames 1 apart ∙ read_count ∙ ap some count in
      let less : (suc c + 255) % 256 ≡ c = omega arith in
      rw (table, present, not_shared, not_readonly, named, read_count, count)
        (rw (pos, several, runs, window, old, less))

  module _ (r : ℕ) (g : Gotten base m r) (count : count_at m i ≡ suc c) (more : 0 < c) where
    new_apart : r ≢ i
    new_apart e = ground (arith, g.unused, ap (λ j. count_at m j) e)

    counts :
        (j : ℕ)
        → get_or (set (set m.frames r 1) i c) j 0
          ≡ (if i == j then c else if r == j then 1 else count_at m j)
    counts j =
        get_or-set (set m.frames r 1) i j c 0 (omega (arith, length-set m.frames r 1, v.sized))
        ∙ ap (λ x. if i == j then c else x)
            (get_or-set m.frames r j 1 0 (omega (arith, g.below, v.sized)))

    free_same : zeros (set (set m.frames r 1) i c) ≡ zeros (set m.frames r 1)
    free_same = ground (
      arith,
      zeros-set (set m.frames r 1) i c (omega (arith, length-set m.frames r 1, v.sized)),
      get_or-set m.frames r i 1 0 (omega (arith, g.below, v.sized)),
      new_apart,
      count,
      more,
    )

    copied-FramesValid : FramesValid base (copied r)
    unfolding copied recount set_pte
    copied-FramesValid = record {
      sized = omega (arith, length-set (set m.frames r 1) i c, length-set m.frames r 1, v.sized);
      small = v.small;
      started = v.started;
      start_base = v.start_base;
      base_total = v.base_total;
      kept = λ j h. ground (arith, counts j, v.kept j h, g.above, more);
      free = omega (arith, free_same);
    }

    copied_entry : entry_of (copied r) vaddr ≡ entry_init r
    unfolding copied recount set_pte
    copied_entry =
        let d : (dir_index vaddr == dir_index vaddr) ≡ true = ground arith in
        let t : (table_index vaddr == table_index vaddr) ≡ true = ground arith in
        let n : page_index (r * 2 ^ 12) ≡ r = omega arith in rw (d, t, n)

    copied-Copied : Copied base m vaddr i c (copied r)
    unfolding copied recount set_pte
    copied-Copied = record {
      frame = r;
      new = record {
        above = g.above;
        below = g.below;
        was_free = g.unused;
        one = ground (arith, counts r, new_apart);
      };
      mapped = copied_entry;
      shared = ground (arith, counts i);
      others = λ j a b. ground (arith, counts j, a, b);
      entries = λ d t other window. ground (arith, other, window);
      valid = copied-FramesValid;
    }

  -- A write fault on a page with more than one reference, neither MAP_SHARED nor read-only, returns
  -- while a page is free, the window of address 0 has a table and the counts are right: the entry
  -- names a page of its own that can be written, and the old page has one reference fewer.
  pub write_fault-Copied :
      0 < zeros m.frames
      → (m.pde 0).present ≡ true
      → count_at m i ≡ suc c
      → 0 < c
      → c < 255
      → Returns (Copied base m vaddr i c) (write_fault vaddr m)
  write_fault-Copied pos window count more byte =
      let (r, g, runs) = get_page-Gotten base m v pos in
      rw (write_fault_runs r g runs window count more byte) (returns (copied-Copied r g count more))
