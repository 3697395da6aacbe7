-- ===== src/Files/Close.antt =====
-- `sys_close` gives up one reference, and the inode with the last one.
use polaris_os.Files.Refs.{
  no_file, file_at, slot, hits, refs, RefsValid, refs-set, hits_self, in_table, relink,
}
use polaris_os.Prelude.{
  ltb, ◌==◌, if◌then◌else◌, Bool-cases, length, set, get_or-set, get_elem?-eq-get_or, Returns,
  returns, ℕ, ◌+◌, ◌-◌, ◌<◌, ◌≡◌, refl, ap, ◌≢◌, inl, inr, true, Option, none, some, List, ◌∷◌,
  arith,
}
use polaris_os.Files.{Files, lt_int, put_file, task_put_fd, sys_close}

-- What a close of descriptor `fd` leaves, whose file is `i`.
pub record Closed (other : ℕ → ℕ) (fd i : ℕ) (w w' : Files) : Type 0 where
  pub valid : RefsValid other w'
  pub files : w'.files ≡ set w.files fd none
  pub released : w'.released ≡ (
      if (file_at w.table i).count == 1 then (file_at w.table i).inode ∷ w.released else w.released)
  pub others : (j : ℕ) → i ≢ j → file_at w'.table j ≡ file_at w.table j

module _ (other : ℕ → ℕ) (w : Files) (v : RefsValid other w) (fd i : ℕ) (inside : fd < 16)
    (open_fd : slot w.files fd ≡ some i) where
  -- The state after the close, with `rel` as the inodes that were released.
  abbrev left : List (Option ℕ) → Files
  left rel = record w {
    table = set w.table i (record (file_at w.table i) { count = (file_at w.table i).count - 1 });
    files = set w.files fd none;
    released = rel;
  }

  hit : (j : ℕ) → hits (slot w.files fd) j ≡ hits (some i) j
  hit j = ap (λ o. hits o j) open_fd

  one_less : (j : ℕ) → refs (set w.files fd none) j + hits (some i) j ≡ refs w.files j
  one_less j = omega (arith, refs-set w.files fd j none (omega (arith, v.slots)), hit j)

  left-RefsValid : (rel : List (Option ℕ)) → RefsValid other (left rel)
  left-RefsValid rel =
      relink other w v other fd i none _ rel inside (in_table other w v fd i open_fd).1 v.few
        (omega (arith, one_less i, hits_self i, v.counted i)) (λ h. v.named i (omega arith))
        (λ j ne. let z : hits (some i) j ≡ 0 = ground (arith, ne) in omega (arith, one_less j, z))

  left-Closed :
      (rel : List (Option ℕ))
      → rel ≡ (
          if (file_at w.table i).count == 1
          then (file_at w.table i).inode ∷ w.released
          else w.released)
      → Closed other fd i w (left rel)
  left-Closed rel e = record {
    valid = left-RefsValid rel;
    files = refl;
    released = e;
    others = λ j ne. ground (
      arith,
      get_or-set w.table i j (record (file_at w.table i) { count = (file_at w.table i).count - 1 })
          no_file (omega (arith, v.sized, (in_table other w v fd i open_fd).1)),
    );
  }

  -- `sys_close` of a descriptor that is open returns, where the counts are right: the descriptor is
  -- free, the counts stay right, other files are as before, and `iput` is called with the file's
  -- inode exactly if this was the last reference.
  pub sys_close-Closed : Returns (Closed other fd i w) (sys_close fd w)
  unfolding sys_close put_file task_put_fd
  sys_close-Closed =
      let (pos, below) = in_table other w v fd i open_fd in
      let used = get_elem?-eq-get_or w.files fd none (omega (arith, v.slots)) in
      let at = get_elem?-eq-get_or w.table i no_file (omega (arith, v.sized)) in
      let low : lt_int fd 16 ≡ true = ground arith in
      let counted : ltb 0 (file_at w.table i).count ≡ true = ground arith in
      rw (low, used, open_fd, at, v.named i (omega arith), counted)
        (elim (Bool-cases ((file_at w.table i).count - 1 == 0)) [
          | inl last ↦ rw (last, low, used) (returns (left-Closed _ (ground arith)))
          | inr more ↦ rw (more, low, used) (returns (left-Closed _ (ground arith)))
        ])

-- A descriptor that is free stays so.
pub sys_close_free :
    (w : Files) (fd : ℕ)
    → slot w.files fd ≡ none
    → length w.files ≡ 16
    → fd < 16
    → sys_close fd w ≡ some w
unfolding sys_close
sys_close_free w fd free slots inside =
    let low : lt_int fd 16 ≡ true = ground arith in
    rw (low, get_elem?-eq-get_or w.files fd none (omega (arith, slots)), free) refl
