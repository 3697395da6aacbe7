-- ===== src/Files/Dup.antt =====
-- `dupfd`, and what `sys_dup2` makes of two descriptors.
use polaris_os.Files.Refs.{
  no_file, file_at, slot, hits, refs, RefsValid, refs-set, hits_self, First, find_fd-First,
  in_table, counts_small, relink,
}
use polaris_os.Prelude.{
  leb, ◌==◌, if◌then◌else◌, leb→le, Bool-cases, Option-cases, get_elem?, set, get_or-set,
  get_elem?-eq-get_or, ◌>>=◌, Returns, returns, Returns-bind, Returns-mono, ℕ, ◌+◌, ◌-◌, ◌^◌, ◌≤◌,
  ◌<◌, ◌≡◌, refl, ap, ◌∙◌, ◌≢◌, inl, inr, true, false, Option, none, some, List, arith, dec_lt,
  dec_le, ℕ_discrete,
}
use polaris_os.Files.{task_file_nr, Files, lt_int, count_up, find_fd, dupfd, sys_dup2}
use polaris_os.Bitmap.{eof}
use polaris_os.Files.Close.{sys_close-Closed, sys_close_free}

-- What `dupfd` of descriptor `fd` from `arg` on ends with: EOF with nothing changed if `fd` is past
-- the array, closed, or no descriptor from `arg` on is free; else the first free one, which then
-- names the same file.
pub data Dupped (other : ℕ → ℕ) (fd arg : ℕ) (w : Files) : ℕ × Files → Type 0 where
  past : 16 ≤ fd → Dupped other fd arg w (eof, w)
  closed : slot w.files fd ≡ none → Dupped other fd arg w (eof, w)
  all_used : ((j : ℕ) → arg ≤ j → j < 16 → slot w.files j ≢ none) → Dupped other fd arg w (eof, w)
  dupped :
      {new i : ℕ} {w' : Files}
      → slot w.files fd ≡ some i
      → arg ≤ new
      → new < 16
      → slot w.files new ≡ none
      → ((j : ℕ) → arg ≤ j → j < new → slot w.files j ≢ none)
      → w'.files ≡ set w.files new (some i)
      → w'.released ≡ w.released
      → RefsValid other w'
      → Dupped other fd arg w (new, w')

nothing_left : (files : List (Option ℕ)) (fd : ℕ) → find_fd 0 files fd ≡ some fd
unfolding find_fd
nothing_left files fd = refl

module _ (other : ℕ → ℕ) (w : Files) (v : RefsValid other w) (fd arg : ℕ) where
  module _ (i : ℕ) (open_fd : slot w.files fd ≡ some i) (new : ℕ) (inside : new < 16)
      (free : slot w.files new ≡ none) where
    one_more : (j : ℕ) → refs (set w.files new (some i)) j ≡ refs w.files j + hits (some i) j
    one_more j =
        let z : hits (slot w.files new) j ≡ 0 = ap (λ o. hits o j) free in
        omega (arith, refs-set w.files new j (some i) (omega (arith, v.slots)), z)

    linked-RefsValid : RefsValid other (record w {
      files = set w.files new (some i);
      table = set w.table i (count_up (file_at w.table i));
    })
    unfolding count_up
    linked-RefsValid =
        let (pos, below) = in_table other w v fd i open_fd in
        relink other w v other new i (some i) _ w.released inside below v.few
          (omega (arith, one_more i, hits_self i, v.counted i, counts_small other w v i))
          (λ h. v.named i (omega arith))
          (λ j ne. let z : hits (some i) j ≡ 0 = ground (arith, ne) in omega (arith, one_more j, z))

  found :
      (i : ℕ)
      → slot w.files fd ≡ some i
      → arg ≤ 16
      → (new : ℕ) → First w.files arg (16 - arg) new
      → Returns (Dupped other fd arg w) (
          if leb task_file_nr new
          then some (eof, w)
          else (get_elem? w.table i >>= λ f. some (
            new,
            record w { files = set w.files new (some i); table = set w.table i (count_up f) },
          )))
  found i open_fd le new f = elim (Bool-cases (leb 16 new)) [
    | inl full ↦
        let e = leb→le 16 new full in
        rw full (returns (all_used (λ j a b. f.used j a (omega arith))))
    | inr room ↦
        let (pos, below) = in_table other w v fd i open_fd in
        let inside : new < 16 = ground arith in
        let free = f.free (omega arith) in
        rw (room, get_elem?-eq-get_or w.table i no_file (omega (arith, v.sized)))
          (returns (
            dupped open_fd f.low inside free f.used refl refl
              (linked-RefsValid i open_fd new inside free)))
  ]

  -- `dupfd`, where the counts are right, of a number and from a number that are not negative, always
  -- returns: EOF with nothing changed if the descriptor is past the array or closed or no other is
  -- free from `arg` on; else the first free one, which then names the same file, and the counts stay
  -- right.
  pub dupfd-Dupped : fd < 2 ^ 31 → arg < 2 ^ 31 → Returns (Dupped other fd arg w) (dupfd fd arg w)
  unfolding dupfd
  dupfd-Dupped small low = elim (dec_lt fd 16) [
    | no out ↦ let e : lt_int fd 16 ≡ false = ground arith in rw e (returns (past (omega arith)))
    | yes inside ↦
        let e : lt_int fd 16 ≡ true = ground arith in
        let n : lt_int arg 0 ≡ false = ground arith in
        rw (e, get_elem?-eq-get_or w.files fd none (omega (arith, v.slots)))
          (elim (Option-cases (slot w.files fd)) [
            | inl none_there ↦ rw none_there (returns (closed none_there))
            | inr (i, there) ↦ rw (there, n) (search_from i there)
          ])
  ]
    where
      search_from :
          (i : ℕ)
          → slot w.files fd ≡ some i
          → Returns (Dupped other fd arg w) (
              find_fd (task_file_nr - arg) w.files arg >>= λ new.
              if leb task_file_nr new
              then some (eof, w)
              else (get_elem? w.table i >>= λ f. some (
                new,
                record w { files = set w.files new (some i); table = set w.table i (count_up f) },
              )))
      search_from i there = elim (dec_le arg 16) [
        | yes le ↦
            Returns-bind (find_fd-First (16 - arg) w.files arg (omega (arith, v.slots)))
              (found i there le)
        | no beyond ↦
            let z : 16 - arg ≡ 0 = omega arith in
            let full : leb 16 arg ≡ true = ground arith in
            rw (z, nothing_left w.files arg, full)
              (returns (all_used (λ j a b. absurd (omega arith))))
      ]

-- What `sys_dup2` promises: the two descriptors name the same file, and the counts are right.
abbrev pub SameFile : (ℕ → ℕ) → (oldfd newfd i : ℕ) → ℕ × Files → Type 0
SameFile other oldfd newfd i (r, w) =
    (r ≡ newfd) × (slot w.files oldfd ≡ some i) × (slot w.files newfd ≡ some i) × RefsValid other w

module _ (other : ℕ → ℕ) (oldfd newfd i : ℕ) (old_in : oldfd < 16) (new_in : newfd < 16)
    (apart : oldfd ≢ newfd) where
  same_file :
      (w : Files) {p : ℕ × Files}
      → RefsValid other w
      → slot w.files oldfd ≡ some i
      → slot w.files newfd ≡ none
      → Dupped other oldfd newfd w p
      → SameFile other oldfd newfd i p
  same_file w v open_fd free (past h) = absurd (omega arith)
  same_file w v open_fd free (closed h) = absurd cc
  same_file w v open_fd free (all_used h) = absurd (h newfd (omega arith) new_in free)
  same_file w v open_fd free (dupped {new} {i = k} {w'} there le inside empty used fds rel v') =
      let at_new : new ≡ newfd = elim (ℕ_discrete new newfd) [
        | yes e ↦ e
        | no ne ↦ absurd (used newfd (omega arith) (omega (arith, ne)) free)
      ] in
      let file : k ≡ i = cc in
      let at = λ (j : ℕ).
        ap (λ fs. slot fs j) fds
        ∙ get_or-set w.files new j (some k) none (omega (arith, v.slots)) in
      (
        at_new,
        ground (arith, at oldfd, at_new, apart, open_fd),
        ground (arith, at newfd, at_new, file),
        v',
      )

  dup_freed :
      (w : Files)
      → RefsValid other w
      → slot w.files oldfd ≡ some i
      → slot w.files newfd ≡ none
      → Returns (SameFile other oldfd newfd i) (dupfd oldfd newfd w)
  dup_freed w v open_fd free =
      Returns-mono (dupfd-Dupped other w v oldfd newfd (omega arith) (omega arith))
        (λ p d. same_file w v open_fd free d)

  -- `sys_dup2` of an open descriptor onto another one, where the counts are right, returns the new
  -- descriptor, whether it was open (and is closed first) or not; both then name the file, and the
  -- counts stay right.
  pub sys_dup2-SameFile :
      (w : Files)
      → RefsValid other w
      → slot w.files oldfd ≡ some i
      → Returns (SameFile other oldfd newfd i) (sys_dup2 oldfd newfd w)
  unfolding sys_dup2
  sys_dup2-SameFile w v open_fd =
      let ne : (oldfd == newfd) ≡ false = ground (arith, apart) in
      rw ne (elim (Option-cases (slot w.files newfd)) [
        | inl free ↦ rw (sys_close_free w newfd free v.slots new_in) (dup_freed w v open_fd free)
        | inr (k, used) ↦
            let at = λ (j : ℕ). get_or-set w.files newfd j none none (omega (arith, v.slots)) in
            Returns-bind (sys_close-Closed other w v newfd k new_in used) (λ w1 c.
              dup_freed w1 c.valid
                (ap (λ fs. slot fs oldfd) c.files ∙ ground (arith, at oldfd, apart, open_fd))
                (ap (λ fs. slot fs newfd) c.files ∙ ground (arith, at newfd)))
      ])
