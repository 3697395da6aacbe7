-- ===== src/Memory/Frames.antt =====
-- `get_page` and `put_page` keep the count of free pages right.
use polaris_os.Prelude.{
  ltb, leb, ◌==◌, if◌then◌else◌, lt→ltb, Bool-cases, length, set, length-set, get_or, get_or-set,
  get_elem?-eq-get_or, ◌>>=◌, ℕ, zero, suc, ◌+◌, ◌-◌, ◌*◌, ◌/◌, ◌%◌, ◌^◌, ◌≤◌, ◌<◌, ◌≡◌, refl, ◌≢◌,
  inl, inr, true, Option, none, some, List, [], ◌∷◌, arith, dec_lt, ℕ_discrete,
}
use polaris_os.Memory.{Memory, page, find_page, get_page, put_page}

-- How many pages have no reference.
abbrev pub zeros : List ℕ → ℕ
zeros [] = 0
zeros (c ∷ cs) = if c == 0 then suc (zeros cs) else zeros cs

abbrev pub count_at : Memory → ℕ → ℕ
count_at m i = get_or m.frames i 0

-- The first `base` pages are the kernel's and always counted; `free_pages` exceeds the number of
-- unreferenced pages by the kernel pages from `start_page` on, which `mapping_init` marks as used
-- without taking them off.
pub record FramesValid (base : ℕ) (m : Memory) : Type 0 where
  pub sized : length m.frames ≡ m.total_pages
  pub small : m.total_pages < 2 ^ 20
  pub started : 0 < m.start_page
  pub start_base : m.start_page ≤ base
  pub base_total : base ≤ m.total_pages
  pub kept : (i : ℕ) → i < base → count_at m i ≢ 0
  pub free : m.free_pages ≡ zeros m.frames + (base - m.start_page)

pub zeros-set :
    (cs : List ℕ) (i v : ℕ)
    → i < length cs
    → zeros (set cs i v) + (if get_or cs i 0 == 0 then 1 else 0)
      ≡ zeros cs + (if v == 0 then 1 else 0)
zeros-set [] i v h = elim h [ ]
zeros-set (c ∷ cs) zero v h = ground arith
zeros-set (c ∷ cs) (suc i) v h = ground (arith, zeros-set cs i v (omega arith))

-- Pages that are kept are not free.
zeros-le :
    (cs : List ℕ) (base : ℕ)
    → base ≤ length cs
    → ((i : ℕ) → i < base → get_or cs i 0 ≢ 0)
    → zeros cs + base ≤ length cs
zeros-le [] base h k = omega arith
zeros-le (c ∷ cs) zero h k = ground (arith, zeros-le cs 0 (omega arith) (λ i b. elim b [ ]))
zeros-le (c ∷ cs) (suc base) h k =
    ground (arith, k 0, zeros-le cs base (omega arith) (λ i b. k (suc i) (omega arith)))

-- The page that `find_page` returns: the first one in its range with no reference.
pub record FirstFree (cs : List ℕ) (i left r : ℕ) : Type 0 where
  pub from : i ≤ r
  pub below : r < i + left
  pub unused : get_or cs r 0 ≡ 0
  pub first : (j : ℕ) → i ≤ j → j < r → get_or cs j 0 ≢ 0

pub data Search (cs : List ℕ) (i left : ℕ) : Option ℕ → Type 0 where
  found : {r : ℕ} → FirstFree cs i left r → Search cs i left (some r)
  nothing : ((j : ℕ) → i ≤ j → j < i + left → get_or cs j 0 ≢ 0) → Search cs i left none

Search-suc :
    (cs : List ℕ) (i left : ℕ) {o : Option ℕ}
    → get_or cs i 0 ≢ 0
    → Search cs (i + 1) left o
    → Search cs i (suc left) o
Search-suc cs i left ne (found f) = found (record {
  from = omega (arith, f.from);
  below = omega (arith, f.below);
  unused = f.unused;
  first = λ j a b. elim (ℕ_discrete i j) [ yes e ↦ rw e at ne | no d ↦ f.first j (omega arith) b ];
})
Search-suc cs i left ne (nothing k) =
    nothing (λ j a b. elim (ℕ_discrete i j) [
      | yes e ↦ rw e at ne
      | no d ↦ k j (omega arith) (omega arith)
    ])

find_page-Search :
    (left : ℕ) (cs : List ℕ) (i : ℕ) → i + left ≤ length cs → Search cs i left (find_page left cs i)
unfolding find_page
find_page-Search zero cs i h = nothing (λ j a b. absurd (omega arith))
find_page-Search (suc left) cs i h =
    rw (get_elem?-eq-get_or cs i 0 (omega arith)) (elim (Bool-cases (get_or cs i 0 == 0)) [
      | inl free ↦ rw free (
          found (record {
            from = omega arith;
            below = omega arith;
            unused = ground arith;
            first = λ j a b. absurd (omega arith);
          }))
      | inr used ↦
          rw used
            (Search-suc cs i left (ground arith) (find_page-Search left cs (i + 1) (omega arith)))
    ])

-- A page whose count changes, with the number of free pages that then results.
unfoldable pub recount : (base : ℕ) → Memory → (r x : ℕ) → Memory
recount base m r x = record m {
  frames = set m.frames r x;
  free_pages = zeros (set m.frames r x) + (base - m.start_page);
}

module _ (base : ℕ) (m : Memory) (v : FramesValid base m) where
  -- A free page is no kernel page.
  above : (r : ℕ) → get_or m.frames r 0 ≡ 0 → base ≤ r
  above r e = elim (dec_lt r base) [ yes lt ↦ absurd (v.kept r lt e) | no ge ↦ omega arith ]

  kept-set :
      (r x : ℕ)
      → base ≤ r
      → r < m.total_pages
      → (i : ℕ) → i < base
      → get_or (set m.frames r x) i 0 ≢ 0
  kept-set r x b h i lt =
      ground (arith, get_or-set m.frames r i x 0 (omega (arith, v.sized)), v.kept i lt)

  pub recount-FramesValid :
      (r x : ℕ) → base ≤ r → r < m.total_pages → FramesValid base (recount base m r x)
  unfolding recount
  recount-FramesValid r x b h = record {
    sized = omega (arith, length-set m.frames r x, v.sized);
    small = v.small;
    started = v.started;
    start_base = v.start_base;
    base_total = v.base_total;
    kept = kept-set r x b h;
    free = refl;
  }

  pub zeros_bound : zeros m.frames + base ≤ m.total_pages
  zeros_bound =
      omega (arith, zeros-le m.frames base (omega (arith, v.sized, v.base_total)) v.kept, v.sized)

-- `get_page` either takes the first page of its range with no reference, which is none of the
-- kernel's, gives it one reference and counts it off the free pages, or it panics, and then every
-- page of the range is in use.
pub data GetPage (base : ℕ) (m : Memory) : Option (ℕ × Memory) → Type 0 where
  got :
      {r : ℕ}
      → FirstFree m.frames m.start_page (m.total_pages - m.start_page) r
      → base ≤ r
      → zeros (set m.frames r 1) + 1 ≡ zeros m.frames
      → GetPage base m (some (r * 2 ^ 12, recount base m r 1))
  out_of_memory :
      ((j : ℕ) → m.start_page ≤ j → j < m.total_pages → get_or m.frames j 0 ≢ 0)
      → GetPage base m none

frame_given :
    (base : ℕ) (m : Memory) (v : FramesValid base m) {o : Option ℕ}
    → Search m.frames m.start_page (m.total_pages - m.start_page) o
    → GetPage base m (
        o >>= λ i. some (
          page i,
          record m { frames = set m.frames i 1; free_pages = (m.free_pages + 2 ^ 32 - 1) % 2 ^ 32 },
        ))
unfolding recount
frame_given base m v (nothing k) = out_of_memory (λ j a b. k j a (omega arith))
frame_given base m v (found {r} f) =
    let below : r < m.total_pages = omega (arith, f.below, v.start_base, v.base_total) in
    let counted : zeros (set m.frames r 1) + 1 ≡ zeros m.frames =
      ground (arith, zeros-set m.frames r 1 (omega (arith, v.sized)), f.unused) in
    let addr : r * 2 ^ 12 % 2 ^ 32 ≡ r * 2 ^ 12 = omega (arith, v.small) in
    let free : (m.free_pages + 2 ^ 32 - 1) % 2 ^ 32
        ≡ zeros (set m.frames r 1) + (base - m.start_page) =
      omega (arith, v.free, v.small, v.start_base, v.started, zeros_bound base m v) in
    rw (addr, free) (got f (above base m v r f.unused) counted)

-- `get_page`, where the counts are right, hands out the first page without a reference, which then
-- has one; the counts stay right, and it fails exactly if every page is referenced.
pub get_page-GetPage :
    (base : ℕ) (m : Memory) (v : FramesValid base m) → GetPage base m (get_page m)
unfolding get_page
get_page-GetPage base m v = frame_given base m v (
    find_page-Search (m.total_pages - m.start_page) m.frames m.start_page
      (omega (arith, v.sized, v.start_base, v.base_total)))

-- `put_page` on a page above the kernel's that has a reference returns, where the counts are right
-- and some pages are counted free twice, as after boot: it takes one reference away, and counts the
-- page as free exactly if that was the last.
pub put_page-recount :
    (base : ℕ) (m : Memory) (v : FramesValid base m) (r : ℕ)
    → base ≤ r
    → r < m.total_pages
    → count_at m r ≢ 0
    → base ≢ m.start_page
    → put_page (r * 2 ^ 12) m ≡ some (recount base m r (count_at m r - 1))
unfolding put_page recount
put_page-recount base m v r b h used slack =
    let z = zeros-set m.frames r (count_at m r - 1) (omega (arith, v.sized)) in
    let bound = zeros_bound base m v in
    let after =
      zeros_bound base (recount base m r (count_at m r - 1))
        (recount-FramesValid base m v r (count_at m r - 1) b h) in
    let idx : r * 2 ^ 12 / 2 ^ 12 ≡ r = omega arith in
    let aligned : (r * 2 ^ 12 % 0x1000 == 0) ≡ true = ground arith in
    let free' = zeros (set m.frames r (count_at m r - 1)) + (base - m.start_page) in
    let free : (if count_at m r - 1 == 0 then (m.free_pages + 1) % 2 ^ 32 else m.free_pages)
        ≡ free' =
      ground (arith, z, bound, v.free, v.small, v.start_base, v.started) in
    let low : leb m.start_page r ≡ true = ground (arith, v.start_base) in
    let one : leb 1 (count_at m r) ≡ true = ground (arith, used) in
    let pos : ltb 0 free' ≡ true = ground (arith, v.start_base, slack) in
    let less : ltb free' m.total_pages ≡ true =
      ground (arith, z, bound, v.start_base, v.started, used) in
    rw
      (
        aligned,
        idx,
        low,
        lt→ltb r m.total_pages h,
        get_elem?-eq-get_or m.frames r 0 (omega (arith, v.sized)),
      )
      (rw (one, free, pos, less))

-- Where every page has a reference there is no free one.
zeros_none : (cs : List ℕ) → ((i : ℕ) → i < length cs → get_or cs i 0 ≢ 0) → zeros cs ≡ 0
zeros_none [] k = refl
zeros_none (c ∷ cs) k =
    ground (arith, k 0 (omega arith), zeros_none cs (λ i h. k (suc i) (omega arith)))

-- The page that a successful `get_page` hands out.
pub record Gotten (base : ℕ) (m : Memory) (r : ℕ) : Type 0 where
  pub above : base ≤ r
  pub below : r < m.total_pages
  pub unused : count_at m r ≡ 0
  pub counted : zeros (set m.frames r 1) + 1 ≡ zeros m.frames

frame_of :
    (base : ℕ) (m : Memory) {o : Option (ℕ × Memory)}
    → FramesValid base m
    → 0 < zeros m.frames
    → GetPage base m o
    → (r : ℕ) × Gotten base m r × (o ≡ some (r * 2 ^ 12, recount base m r 1))
frame_of base m v pos (got {r} f b c) = (
  r,
  record {
    above = b;
    below = omega (arith, f.below, v.start_base, v.base_total);
    unused = f.unused;
    counted = c;
  },
  refl,
)
frame_of base m v pos (out_of_memory k) = absurd (
    omega (
      arith,
      pos,
      zeros_none m.frames (λ i h. elim (dec_lt i base) [
        | yes low ↦ v.kept i low
        | no high ↦ k i (omega (arith, v.start_base)) (omega (arith, v.sized))
      ]),
    ))

-- While a page is free `get_page` does not panic.
pub get_page-Gotten :
    (base : ℕ) (m : Memory)
    → FramesValid base m
    → 0 < zeros m.frames
    → (r : ℕ) × Gotten base m r × (get_page m ≡ some (r * 2 ^ 12, recount base m r 1))
get_page-Gotten base m v pos = frame_of base m v pos (get_page-GetPage base m v)
