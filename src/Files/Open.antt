-- ===== src/Files/Open.antt =====
-- `sys_open` of an inode that `inode_open` has found, and the close after it.
use mathlib.Core.Path.{subst}
use polaris_os.Files.Refs.{
  no_file, file_at, slot, hits, refs, RefsValid, refs-set, hits_self, First, find_fd-First, relink,
}
use polaris_os.Prelude.Bytes.{test_bit}
use polaris_os.Prelude.{
  ◌==◌, if◌then◌else◌, Bool-cases, length, get_elem?, set, get_or-set, get_elem?-eq-get_or, ◌>>=◌,
  ◌>>◌, assert, Returns, returns, Returns-mono, ℕ, zero, suc, ◌+◌, ◌≤◌, ◌<◌, ◌≡◌, refl, sym, ap,
  ◌∙◌, ◌≢◌, inl, inr, true, false, Option, none, some, List, [], ◌∷◌, arith, ℕ_discrete,
}
use polaris_os.Files.{
  File, Files, count_up, find_file, get_file, task_get_fd, Inode, opened_file, sys_open, sys_close,
}
use polaris_os.Files.Close.{Closed, sys_close-Closed}

abbrev pub used_at : List File → ℕ → ℕ
used_at table j = (file_at table j).count

-- The first file of `left` from `i` on with no reference; or all of them have one.
pub data FileSearch (table : List File) (i left : ℕ) : Option ℕ → Type 0 where
  spare :
      {r : ℕ}
      → i ≤ r
      → r < i + left
      → used_at table r ≡ 0
      → ((j : ℕ) → i ≤ j → j < r → used_at table j ≢ 0)
      → FileSearch table i left (some r)
  no_spare : ((j : ℕ) → i ≤ j → j < i + left → used_at table j ≢ 0) → FileSearch table i left none

search_past :
    {table : List File} {i left : ℕ} {o : Option ℕ}
    → used_at table i ≢ 0
    → FileSearch table (i + 1) left o
    → FileSearch table i (suc left) o
search_past {table} {i} u (spare {r} low high free used) =
    spare (omega arith) (omega arith) free (λ j a b. elim (ℕ_discrete i j) [
      | yes e ↦ subst (λ x. used_at table x ≢ 0) e u
      | no ne ↦ used j (omega (arith, ne)) b
    ])
search_past {table} {i} u (no_spare used) = no_spare (λ j a b. elim (ℕ_discrete i j) [
  | yes e ↦ subst (λ x. used_at table x ≢ 0) e u
  | no ne ↦ used j (omega (arith, ne)) (omega arith)
])

find_file-FileSearch :
    (left : ℕ) (table : List File) (i : ℕ)
    → i + left ≤ length table
    → FileSearch table i left (find_file left table i)
unfolding find_file
find_file-FileSearch zero table i h = no_spare (λ j a b. absurd (omega arith))
find_file-FileSearch (suc left) table i h =
    rw (get_elem?-eq-get_or table i no_file (omega arith))
      (elim (Bool-cases (used_at table i == 0)) [
        | inl e ↦
            rw e (spare (omega arith) (omega arith) (ground arith) (λ j a b. absurd (omega arith)))
        | inr e ↦
            rw e
              (search_past (ground arith) (find_file-FileSearch left table (i + 1) (omega arith)))
      ])

set_twice : {A : Type 0} (xs : List A) (i : ℕ) (a b : A) → set (set xs i a) i b ≡ set xs i b
set_twice [] i a b = refl
set_twice (x ∷ xs) zero a b = refl
set_twice (x ∷ xs) (suc i) a b = ap (λ ys. x ∷ ys) (set_twice xs i a b)

-- How `sys_open` ends: the first free descriptor from 3 on names the first unused file from 3 on,
-- which is set up with one reference; or a panic, as there is no descriptor or no file left.
pub data Opened (other : ℕ → ℕ) (inode : Inode) (flags : ℕ) (w : Files)
    : Option (ℕ × Files) → Type 0 where
  opened :
      {fd i : ℕ} {w' : Files}
      → First w.files 3 13 fd
      → fd < 16
      → FileSearch w.table 3 125 (some i)
      → w' ≡ record w {
        table =
            set w.table i
              (opened_file inode (if test_bit flags 10 then w.sizes inode.nr else 0) flags);
        files = set w.files fd (some i);
      }
      → RefsValid other w'
      → Opened other inode flags w (some (fd, w'))
  no_fd : ((j : ℕ) → 3 ≤ j → j < 16 → slot w.files j ≢ none) → Opened other inode flags w none
  no_file_left : FileSearch w.table 3 125 none → Opened other inode flags w none

module _ (other : ℕ → ℕ) (w : Files) (v : RefsValid other w) (inode : Inode) (flags : ℕ) where
  abbrev start : ℕ
  start = if test_bit flags 10 then w.sizes inode.nr else 0

  opened-RefsValid :
      (fd i : ℕ)
      → fd < 16
      → slot w.files fd ≡ none
      → i < 128
      → used_at w.table i ≡ 0
      → RefsValid other (record w {
        table = set w.table i (opened_file inode start flags);
        files = set w.files fd (some i);
      })
  opened-RefsValid fd i a free b unused =
      let z = λ (j : ℕ). ap (λ o. hits o j) free in
      let e = λ (j : ℕ). refs-set w.files fd j (some i) (omega (arith, v.slots)) in
      relink other w v other fd i (some i) _ w.released a b v.few
        (omega (arith, e i, z i, hits_self i, v.counted i, unused)) (λ h. refl)
        (λ j ne. let y : hits (some i) j ≡ 0 = ground (arith, ne) in omega (arith, e j, z j, y))

  after_fd :
      (fd : ℕ)
      → First w.files 3 13 fd
      → fd < 16
      → {o : Option ℕ} → FileSearch w.table 3 125 o
      → Opened other inode flags w (
          (o >>= λ i.
          get_elem? w.table i >>= λ f. some (i, record w { table = set w.table i (count_up f) }))
          >>= λ (i, w'). get_elem? w'.files fd >>= λ used.
              assert (elim used [ none ↦ true | some j ↦ false ])
              >> some (
                fd,
                record w' {
                  table = set w'.table i (
                      opened_file inode (if test_bit flags 10 then w'.sizes inode.nr else 0) flags);
                  files = set w'.files fd (some i);
                },
              ))
  after_fd fd f inside (no_spare used) = no_file_left (no_spare used)
  after_fd fd f inside (spare {r} low high free used) =
      let e = f.free (omega arith) in
      rw
        (
          get_elem?-eq-get_or w.table r no_file (omega (arith, v.sized)),
          get_elem?-eq-get_or w.files fd none (omega (arith, v.slots)),
          e,
          set_twice w.table r _ _,
        )
        (opened f inside (spare low high free used) refl
          (opened-RefsValid fd r inside e (omega arith) free))

  after_search :
      (next : ℕ → Option (ℕ × Files)) {o : Option ℕ}
      → ((fd : ℕ) → First w.files 3 13 fd → fd < 16 → Opened other inode flags w (next fd))
      → Returns (First w.files 3 13) o
      → Opened other inode flags w ((o >>= λ fd. if fd == 16 then none else some fd) >>= next)
  after_search next h (returns {a = fd} f) = elim (Bool-cases (fd == 16)) [
    | inl full ↦ rw full (no_fd (λ j a b. f.used j a (ground arith)))
    | inr room ↦ rw room (h fd f (ground (arith, f.high)))
  ]

  -- `sys_open` of an inode that was found, where the counts are right, takes the first free
  -- descriptor and the first unused file from 3 on, with the offset at the end for O_APPEND and at 0
  -- otherwise, and the counts stay right; it panics exactly if there is no descriptor or no file.
  pub sys_open-Opened : Opened other inode flags w (sys_open (some inode) flags w)
  unfolding sys_open task_get_fd get_file
  sys_open-Opened =
      after_search _
        (λ fd f inside.
          after_fd fd f inside (find_file-FileSearch 125 w.table 3 (omega (arith, v.sized))))
        (find_fd-First 13 w.files 3 (omega (arith, v.slots)))

freed_again : (files : List (Option ℕ)) (fd : ℕ) → slot files fd ≡ none → set files fd none ≡ files
freed_again [] fd e = refl
freed_again (o ∷ files) zero e = ap (λ x. x ∷ files) (sym e)
freed_again (o ∷ files) (suc fd) e = ap (λ r. o ∷ r) (freed_again files fd e)

-- What a close right after the open leaves: the descriptors and the counts from before the open, and
-- the inode given to `iput`.
pub record Reclosed (other : ℕ → ℕ) (inode : Inode) (w w' : Files) : Type 0 where
  pub valid : RefsValid other w'
  pub files : w'.files ≡ w.files
  pub counts : (j : ℕ) → used_at w'.table j ≡ used_at w.table j
  pub released : w'.released ≡ some inode.nr ∷ w.released

module _ (other : ℕ → ℕ) (w : Files) (v : RefsValid other w) (inode : Inode) (flags : ℕ) where
  after_close :
      (fd i : ℕ) (w1 w2 : Files)
      → slot w.files fd ≡ none
      → used_at w.table i ≡ 0
      → i < 128
      → w1 ≡ record w {
        table =
            set w.table i
              (opened_file inode (if test_bit flags 10 then w.sizes inode.nr else 0) flags);
        files = set w.files fd (some i);
      }
      → Closed other fd i w1 w2
      → Reclosed other inode w w2
  after_close fd i w1 w2 free unused inside e c =
      let start = if test_bit flags 10 then w.sizes inode.nr else 0 in
      let at =
        get_or-set w.table i i (opened_file inode start flags) no_file (omega (arith, v.sized)) in
      let mine : file_at (set w.table i (opened_file inode start flags)) i
          ≡ opened_file inode start flags =
        ground (arith, at) in
      let files : w2.files ≡ w.files =
        c.files
        ∙ ap (λ x. set x.files fd none) e
        ∙ set_twice w.files fd (some i) none
        ∙ freed_again w.files fd free in
      record {
        valid = c.valid;
        files = files;
        counts = λ j. c.valid.counted j ∙ ap (λ x. refs x j + other j) files ∙ sym (v.counted j);
        released =
            c.released
            ∙ ap
                (λ x.
                  if (file_at x.table i).count == 1
                  then (file_at x.table i).inode ∷ x.released
                  else x.released)
                e
            ∙ ap (λ f. if f.count == 1 then f.inode ∷ w.released else w.released) mine;
      }

  reclose :
      {o : Option (ℕ × Files)} (fd : ℕ) (w1 : Files)
      → Opened other inode flags w o
      → o ≡ some (fd, w1)
      → Returns (Reclosed other inode w) (sys_close fd w1)
  reclose fd w1 (no_fd h) e = absurd cc
  reclose fd w1 (no_file_left h) e = absurd cc
  reclose fd w1 (opened {fd = fd'} {i} {w' = w1'} f inside (spare low high free used) e' v') e =
      let same_fd : fd' ≡ fd = cc in
      let same_w : w1' ≡ w1 = cc in
      let slot_now : slot w1'.files fd' ≡ some i =
        ap (λ x. slot x.files fd') e'
        ∙ ground (arith, get_or-set w.files fd' fd' (some i) none (omega (arith, v.slots))) in
      let runs : Returns (Reclosed other inode w) (sys_close fd' w1') =
        Returns-mono (sys_close-Closed other w1' v' fd' i inside slot_now)
          (λ w2 c. after_close fd' i w1' w2 (f.free (omega arith)) free (omega arith) e' c) in
      subst (λ x. Returns (Reclosed other inode w) (sys_close fd x)) same_w
        (subst (λ x. Returns (Reclosed other inode w) (sys_close x w1')) same_fd runs)

  -- `sys_close` of the descriptor that `sys_open` has just returned, where the counts were right,
  -- returns: the descriptors and the counts are those from before the open, and the inode has been
  -- given to `iput` once.
  pub sys_close-sys_open :
      (fd : ℕ) (w1 : Files)
      → sys_open (some inode) flags w ≡ some (fd, w1)
      → Returns (Reclosed other inode w) (sys_close fd w1)
  sys_close-sys_open fd w1 e = reclose fd w1 (sys_open-Opened other w v inode flags) e
