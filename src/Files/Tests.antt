-- ===== src/Files/Tests.antt =====
-- Runs of the functions on open files, and the theorems at a small table. File 3 is open twice, as
-- descriptors 0 and 4; another task holds file 5.
use polaris_os.Files.Refs.{no_file, file_at, refs, has_inode, RefsValid}
use polaris_os.Files.Dup.{SameFile, sys_dup2-SameFile}
use polaris_os.Files.Open.{Opened, sys_open-Opened, Reclosed, sys_close-sys_open}
use polaris_os.Prelude.{
  ◌==◌, if◌then◌else◌, set, replicate, length-replicate, ◌>>=◌, Returns, ℕ, zero, suc, ◌+◌, ◌-◌,
  ◌*◌, ◌^◌, ◌≡◌, refl, ap, ◌≢◌, true, none, some, [], ◌∷◌, arith,
}
use polaris_os.Prelude.Bytes.{test_bit}
use polaris_os.Files.{
  File, Files, count_up, find_file, get_file, find_fd, task_get_fd, Inode, opened_file, sys_open,
  sys_close, new_offset, sys_lseek, sys_dup2,
}

abbrev file_with : (nr count : ℕ) → File
file_with nr count = record { inode = some nr; count = count; offset = 0; flags = 0; mode = 0 }

abbrev small : Files
small = record {
  table =
      no_file ∷ no_file ∷ no_file ∷ file_with 9 2 ∷ no_file ∷ file_with 8 1 ∷ replicate 122 no_file;
  files = some 3 ∷ none ∷ none ∷ none ∷ some 3 ∷ replicate 11 none;
  sizes = λ nr. 100 * nr;
  released = [];
}

abbrev other : ℕ → ℕ
other i = if i == 5 then 1 else 0

no_count : (n i : ℕ) → (file_at (replicate n no_file) i).count ≡ 0
no_count zero i = refl
no_count (suc n) zero = refl
no_count (suc n) (suc i) = no_count n i

no_refs : (n i : ℕ) → refs (replicate n none) i ≡ 0
no_refs zero i = refl
no_refs (suc n) i = omega (arith, no_refs n i)

small_counts : (i : ℕ) → (file_at small.table i).count ≡ refs small.files i + other i
small_counts zero = refl
small_counts (suc zero) = refl
small_counts (suc (suc zero)) = refl
small_counts (suc (suc (suc zero))) = refl
small_counts (suc (suc (suc (suc zero)))) = refl
small_counts (suc (suc (suc (suc (suc zero))))) = refl
small_counts (suc (suc (suc (suc (suc (suc i)))))) =
    ground (arith, no_count 122 i, no_refs 11 (6 + i))

small_inodes :
    (i : ℕ) → (file_at small.table i).count ≢ 0 → has_inode (file_at small.table i) ≡ true
small_inodes zero h = absurd (h refl)
small_inodes (suc zero) h = absurd (h refl)
small_inodes (suc (suc zero)) h = absurd (h refl)
small_inodes (suc (suc (suc zero))) h = refl
small_inodes (suc (suc (suc (suc zero)))) h = absurd (h refl)
small_inodes (suc (suc (suc (suc (suc zero))))) h = refl
small_inodes (suc (suc (suc (suc (suc (suc i)))))) h = absurd (h (no_count 122 i))

small-RefsValid : RefsValid other small
small-RefsValid = record {
  sized = ap (λ n. 6 + n) (length-replicate 122 no_file);
  slots = refl;
  few = λ i. ground arith;
  counted = small_counts;
  named = small_inodes;
}

seek_before_start : (sys_lseek 0 (2 ^ 32 - 901) 3 small >>= λ (at, w). some at) ≡ some (2 ^ 32 - 1)
unfolding sys_lseek new_offset
seek_before_start = refl

sys_dup2-SameFile_example : Returns (SameFile other 0 7 3) (sys_dup2 0 7 small)
sys_dup2-SameFile_example =
    sys_dup2-SameFile other 0 7 3 (omega arith) (omega arith) (omega arith) small small-RefsValid
      refl

abbrev inode : Inode
inode = record { nr = 7; mode = 0 }

sys_open-Opened_example : Opened other inode 1024 small (sys_open (some inode) 1024 small)
sys_open-Opened_example = sys_open-Opened other small small-RefsValid inode 1024

opened_now :
    sys_open (some inode) 1024 small
    ≡ some (
      3,
      record small {
        table = set small.table 4 (opened_file inode 700 1024);
        files = set small.files 3 (some 4);
      },
    )
unfolding sys_open task_get_fd find_fd get_file find_file count_up test_bit
opened_now = refl

sys_close-sys_open_example : Returns (Reclosed other inode small) (
    sys_close 3 (record small {
      table = set small.table 4 (opened_file inode 700 1024);
      files = set small.files 3 (some 4);
    }))
sys_close-sys_open_example =
    sys_close-sys_open other small small-RefsValid inode 1024 3 _ opened_now
