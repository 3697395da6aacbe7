-- ===== src/Files.antt =====
-- src/fs/file.c: the table of open files and the descriptors of the running task, with the two
-- functions of src/kernel/task.c on descriptors. Descriptors and offsets are `i32`, held as the
-- bit patterns; `iput` of src/fs/inode.c leaves a trace, the inodes that it was called with.
pub mod Refs
pub mod Close
pub mod Dup
pub mod Open
mod Tests
use polaris_os.Prelude.Bytes.{test_bit}
use polaris_os.Bitmap.{eof}
use polaris_os.Prelude.{
  ltb, leb, ◌==◌, if◌then◌else◌, get_elem?, set, ◌>>=◌, ◌>>◌, assert, ℕ, zero, suc, ◌+◌, ◌-◌, ◌%◌,
  ◌^◌, Bool, true, false, not, Option, none, some, List, ◌∷◌,
}

abbrev pub file_nr : ℕ
file_nr = 128

abbrev pub task_file_nr : ℕ
task_file_nr = 16

pub record File : Type 0 where
  pub inode : Option ℕ
  pub count : ℕ
  pub offset : ℕ
  pub flags : ℕ
  pub mode : ℕ

-- `files` holds for each descriptor the index of its file in the table; `sizes` the size of an inode.
pub record Files : Type 0 where
  pub table : List File
  pub files : List (Option ℕ)
  pub sizes : ℕ → ℕ
  pub released : List (Option ℕ)

-- `a < b` on `i32`.
abbrev pub lt_int : ℕ → ℕ → Bool
lt_int a b = ltb ((a + 2 ^ 31) % 2 ^ 32) ((b + 2 ^ 31) % 2 ^ 32)

-- An access through the pointer of a descriptor; a null pointer is a failure.
abbrev pub file_of : ℕ → Files → Option (Option ℕ)
file_of fd w = get_elem? w.files fd

unfoldable pub count_up : File → File
count_up f = record f { count = (f.count + 1) % 2 ^ 32 }

-- The loop of `get_file`, on the entries left.
unfoldable pub find_file : (left : ℕ) → List File → (i : ℕ) → Option ℕ
find_file zero table i = none
find_file (suc left) table i = do
  f ← get_elem? table i
  let rest = find_file left table (i + 1)
  if f.count == 0 then some i else rest

unfoldable pub get_file : Files → Option (ℕ × Files)
get_file w = do
  i ← find_file (file_nr - 3) w.table 3
  f ← get_elem? w.table i
  some (i, record w { table = set w.table i (count_up f) })

unfoldable pub put_file : ℕ → Files → Option Files
put_file i w = do
  f ← get_elem? w.table i
  assert (ltb 0 f.count)
  let table' = set w.table i (record f { count = f.count - 1 })
  if f.count - 1 == 0
      then some (record w { table = table'; released = f.inode ∷ w.released })
      else some (record w { table = table' })

-- The loop of `file_init`, on the entries left.
unfoldable pub init_loop : (left : ℕ) → List File → (i : ℕ) → List File
init_loop zero table i = table
init_loop (suc left) table i =
    init_loop left
      (set table i (record { inode = none; count = 0; offset = 0; flags = 0; mode = 0 })) (i + 1)

unfoldable pub file_init : Files → Files
file_init w = record w { table = init_loop (file_nr - 3) w.table 3 }

-- The loop of `task_get_fd` and of `dupfd`, on the descriptors left: the first one that is free, or
-- the end.
unfoldable pub find_fd : (left : ℕ) → List (Option ℕ) → (fd : ℕ) → Option ℕ
find_fd zero files fd = some fd
find_fd (suc left) files fd = do
  used ← get_elem? files fd
  let rest = find_fd left files (fd + 1)
  elim used [ none ↦ some fd | some i ↦ rest ]

unfoldable pub task_get_fd : Files → Option ℕ
task_get_fd w = do
  fd ← find_fd (task_file_nr - 3) w.files 3
  if fd == task_file_nr then none else some fd

unfoldable pub task_put_fd : ℕ → Files → Option Files
task_put_fd fd w = do
  assert (lt_int fd task_file_nr)
  used ← get_elem? w.files fd
  some (record w { files = set w.files fd none })

-- What `inode_open` of src/fs/namei.c returns: null, or an inode with its mode.
pub record Inode : Type 0 where
  pub nr : ℕ
  pub mode : ℕ

abbrev pub opened_file : Inode → (offset flags : ℕ) → File
opened_file inode offset flags = record {
  inode = some inode.nr;
  count = 1;
  offset = offset;
  flags = flags;
  mode = inode.mode;
}

unfoldable pub sys_open : Option Inode → (flags : ℕ) → Files → Option (ℕ × Files)
sys_open none flags w = some (eof, w)
sys_open (some inode) flags w = do
  fd ← task_get_fd w
  (i, w') ← get_file w
  used ← get_elem? w'.files fd
  assert (elim used [ none ↦ true | some j ↦ false ])
  let start = if test_bit flags 10 then w'.sizes inode.nr else 0
  some (
    fd,
    record w' {
      table = set w'.table i (opened_file inode start flags);
      files = set w'.files fd (some i);
    },
  )

unfoldable pub sys_close : ℕ → Files → Option Files
sys_close fd w = do
  assert (lt_int fd task_file_nr)
  used ← file_of fd w
  elim used [
    | none ↦ some w
    | some i ↦ do
      f ← get_elem? w.table i
      assert (elim f.inode [ none ↦ false | some nr ↦ true ])
      w' ← put_file i w
      task_put_fd fd w'
  ]

-- SEEK_SET, SEEK_CUR and SEEK_END; any other number is a panic.
unfoldable pub new_offset : (old size offset whence : ℕ) → Option ℕ
new_offset old size offset whence =
    if whence == 1
    then (do assert (not (lt_int offset 0)); some offset)
    else if whence == 2
    then (do assert (not (lt_int ((old + offset) % 2 ^ 32) 0)); some ((old + offset) % 2 ^ 32))
    else if whence == 3
    then (do assert (leb 0 ((size + offset) % 2 ^ 32)); some ((size + offset) % 2 ^ 32))
    else none

-- `size` is a `u32`, so for SEEK_END the sum that is compared with 0 is unsigned.
unfoldable pub sys_lseek : (fd offset whence : ℕ) → Files → Option (ℕ × Files)
sys_lseek fd offset whence w = do
  assert (lt_int fd task_file_nr)
  used ← file_of fd w
  i ← used
  f ← get_elem? w.table i
  nr ← f.inode
  at ← new_offset f.offset (w.sizes nr) offset whence
  some (at, record w { table = set w.table i (record f { offset = at }) })

-- A negative number of a descriptor is an access before the array.
unfoldable pub dupfd : (fd arg : ℕ) → Files → Option (ℕ × Files)
dupfd fd arg w = if not (lt_int fd task_file_nr) then some (eof, w) else (do
  used ← file_of fd w
  elim used [
    | none ↦ some (eof, w)
    | some i ↦ do
      assert (not (lt_int arg 0))
      new ← find_fd (task_file_nr - arg) w.files arg
      if leb task_file_nr new then some (eof, w) else do
        f ← get_elem? w.table i
        some
            (new, record w { files = set w.files new (some i); table = set w.table i (count_up f) })
  ])

unfoldable pub sys_dup : ℕ → Files → Option (ℕ × Files)
sys_dup oldfd w = dupfd oldfd 0 w

unfoldable pub sys_dup2 : (oldfd newfd : ℕ) → Files → Option (ℕ × Files)
sys_dup2 oldfd newfd w =
    if oldfd == newfd then some (newfd, w) else do w' ← sys_close newfd w; dupfd oldfd newfd w'
