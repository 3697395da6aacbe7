-- ===== src/Files/Refs.antt =====
-- Reference counts of open files: how many descriptors name a file, and the invariant of the counts.
use polaris_os.Prelude.{
  ◌==◌, if◌then◌else◌, Option-cases, length, set, length-set, get_or, get_or-set,
  get_elem?-eq-get_or, get_or_past, Returns, returns, Returns-mono, ℕ, zero, suc, ◌+◌, ◌^◌, ◌≤◌,
  ◌<◌, ◌≡◌, sym, ap, ◌∙◌, ◌≢◌, inl, inr, Bool, true, false, Option, none, some, List, [], ◌∷◌,
  arith, dec_lt, ℕ_discrete,
}
use polaris_os.Files.{File, Files, find_fd}

abbrev pub no_file : File
no_file = record { inode = none; count = 0; offset = 0; flags = 0; mode = 0 }

abbrev pub file_at : List File → ℕ → File
file_at table i = get_or table i no_file

abbrev pub slot : List (Option ℕ) → ℕ → Option ℕ
slot files fd = get_or files fd none

-- Whether a descriptor names file `i`, as a number.
abbrev pub hits : Option ℕ → ℕ → ℕ
hits none i = 0
hits (some k) i = if k == i then 1 else 0

abbrev pub refs : List (Option ℕ) → ℕ → ℕ
refs [] i = 0
refs (o ∷ files) i = hits o i + refs files i

abbrev pub has_inode : File → Bool
has_inode f = elim f.inode [ none ↦ false | some nr ↦ true ]

-- The count of each file is the number of the task's descriptors that name it and of the `other`
-- references, those of other tasks; a file that is in use has an inode.
pub record RefsValid (other : ℕ → ℕ) (w : Files) : Type 0 where
  pub sized : length w.table ≡ 128
  pub slots : length w.files ≡ 16
  pub few : (i : ℕ) → other i < 2 ^ 31
  pub counted : (i : ℕ) → (file_at w.table i).count ≡ refs w.files i + other i
  pub named : (i : ℕ) → (file_at w.table i).count ≢ 0 → has_inode (file_at w.table i) ≡ true

pub hits_bound : (o : Option ℕ) (i : ℕ) → hits o i ≤ 1
hits_bound none i = omega arith
hits_bound (some k) i = ground arith

pub refs_bound : (files : List (Option ℕ)) (i : ℕ) → refs files i ≤ length files
refs_bound [] i = omega arith
refs_bound (o ∷ files) i = omega (arith, hits_bound o i, refs_bound files i)

pub refs-set :
    (files : List (Option ℕ)) (fd i : ℕ) (v : Option ℕ)
    → fd < length files
    → refs (set files fd v) i + hits (slot files fd) i ≡ refs files i + hits v i
refs-set [] fd i v h = absurd (omega arith)
refs-set (o ∷ files) zero i v h = omega arith
refs-set (o ∷ files) (suc fd) i v h = omega (arith, refs-set files fd i v (omega arith))

pub hits_self : (i : ℕ) → hits (some i) i ≡ 1
hits_self i = ground arith

pub refs_used : (files : List (Option ℕ)) (fd i : ℕ) → slot files fd ≡ some i → 0 < refs files i
refs_used [] fd i h = cc
refs_used (o ∷ files) zero i h =
    let e : hits o i ≡ 1 = ap (λ o. hits o i) h ∙ hits_self i in omega (arith, e)
refs_used (o ∷ files) (suc fd) i h = omega (arith, refs_used files fd i h)

-- The first free descriptor of `left` from `fd` on, or their end.
pub record First (files : List (Option ℕ)) (fd left : ℕ) (r : ℕ) : Type 0 where
  pub low : fd ≤ r
  pub high : r ≤ fd + left
  pub free : r < fd + left → slot files r ≡ none
  pub used : (j : ℕ) → fd ≤ j → j < r → slot files j ≢ none

pub find_fd-First :
    (left : ℕ) (files : List (Option ℕ)) (fd : ℕ)
    → fd + left ≤ length files
    → Returns (First files fd left) (find_fd left files fd)
unfolding find_fd
find_fd-First zero files fd h = returns (record {
  low = omega arith;
  high = omega arith;
  free = λ lt. absurd (omega arith);
  used = λ j a b. absurd (omega arith);
})
find_fd-First (suc left) files fd h =
    rw (get_elem?-eq-get_or files fd none (omega arith)) (elim (Option-cases (slot files fd)) [
      | inl e ↦ rw e (returns (first_here e))
      | inr (k, e) ↦ rw e (
          Returns-mono (find_fd-First left files (fd + 1) (omega arith))
            (λ r f. first_later k e r f))
    ])
  where
    first_here : slot files fd ≡ none → First files fd (suc left) fd
    first_here e = record {
      low = omega arith;
      high = omega arith;
      free = λ lt. e;
      used = λ j a b. absurd (omega arith);
    }

    first_later :
        (k : ℕ)
        → slot files fd ≡ some k
        → (r : ℕ) → First files (fd + 1) left r
        → First files fd (suc left) r
    first_later k e r f = record {
      low = omega (arith, f.low);
      high = omega (arith, f.high);
      free = λ lt. f.free (omega arith);
      used = λ j a b. elim (ℕ_discrete fd j) [
        | yes same ↦ rw (sym same, e) (λ c. cc)
        | no other ↦ f.used j (omega arith) b
      ];
    }

module _ (other : ℕ → ℕ) (w : Files) (v : RefsValid other w) where
  -- A file that a descriptor names is in the table.
  pub in_table : (fd i : ℕ) → slot w.files fd ≡ some i → (0 < (file_at w.table i).count) × (i < 128)
  in_table fd i h =
      let pos : 0 < (file_at w.table i).count =
        omega (arith, v.counted i, refs_used w.files fd i h) in
      (
        pos,
        elim (dec_lt i 128) [
          | yes inside ↦ inside
          | no past ↦
              let e : (file_at w.table i).count ≡ 0 =
                ap File.count (get_or_past w.table i no_file (omega (arith, v.sized))) in
              absurd (omega (arith, pos, e))
        ],
      )

  pub counts_small : (i : ℕ) → (file_at w.table i).count < 2 ^ 31 + 16
  counts_small i = omega (arith, v.counted i, refs_bound w.files i, v.slots, v.few i)

  -- Changing one descriptor and the count of one file together.
  pub relink :
      (other' : ℕ → ℕ) (fd i : ℕ) (o : Option ℕ) (f : File) (rel : List (Option ℕ))
      → fd < 16
      → i < 128
      → ((j : ℕ) → other' j < 2 ^ 31)
      → f.count ≡ refs (set w.files fd o) i + other' i
      → (f.count ≢ 0 → has_inode f ≡ true)
      → ((j : ℕ) → i ≢ j → refs w.files j + other j ≡ refs (set w.files fd o) j + other' j)
      → RefsValid other'
          (record w { table = set w.table i f; files = set w.files fd o; released = rel })
  relink other' fd i o f rel a b few same inode rest =
      let at = λ (j : ℕ). get_or-set w.table i j f no_file (omega (arith, v.sized)) in
      record {
        sized = length-set w.table i f ∙ v.sized;
        slots = length-set w.files fd o ∙ v.slots;
        few = few;
        counted = λ j. elim (ℕ_discrete i j) [
          | yes e ↦ ground (arith, at j, same, e)
          | no ne ↦ ground (arith, at j, v.counted j, rest j ne)
        ];
        named = λ j. elim (ℕ_discrete i j) [
          | yes e ↦ ground (arith, at j, inode, e)
          | no ne ↦ ground (arith, at j, v.named j)
        ];
      }
