-- ===== src/Tasks/Family.antt =====
-- src/kernel/task.c: fork, exit and waitpid, as far as the table of tasks goes.
pub mod Reap
pub mod Fork
pub mod Exit
pub mod Wake
use polaris_os.Bitmap.{eof}
use polaris_os.Prelude.{
  ◌==◌, if◌then◌else◌, ◌>>=◌, ◌>>◌, assert, ℕ, zero, suc, ◌+◌, ◌-◌, Bool, false, not, ◌&&◌, ◌||◌,
  Option, none, some,
}
use polaris_os.Tasks.{
  nr_tasks, running, ready, waiting, died, eq_state, Task, System, put_task, with_task,
  get_free_task, schedule, linked, task_block, task_unblock,
}

-- The child is a copy with a number, a parent and fresh ticks of its own. `page` says whether there is
-- a page for it, and `copies` whether `kmalloc`, `copy_pde` and the two calls of `alloc_kpage` behind
-- `get_free_task` return; a panic stops the kernel wherever it happens.
unfoldable pub task_fork : (page copies : Bool) → System → Option (ℕ × System)
task_fork page copies s = do
  t ← s.table s.current
  assert (not (linked s.current s) && eq_state t.state running)
  (pid, s1) ← get_free_task page s
  assert copies
  let child : Task = record t { pid = pid; ppid = t.pid; ticks = t.priority; state = ready }
  some (pid, record s1 { table = put_task pid child s1.table })

-- The loop of `task_exit` that gives the children to their grandparent.
abbrev pub adopt : (i pid ppid : ℕ) → Option Task → (ℕ → Option Task) → ℕ → Option Task
adopt i pid ppid none table = table
adopt i pid ppid (some child) table =
    if child.ppid == pid then put_task i (record child { ppid = ppid }) table else table

unfoldable pub adopt_loop : (left i pid ppid : ℕ) → (ℕ → Option Task) → ℕ → Option Task
adopt_loop zero i pid ppid table = table
adopt_loop (suc left) i pid ppid table =
    adopt_loop left (i + 1) pid ppid (adopt i pid ppid (table i) table)

-- The writes of `task_exit` to the task.
abbrev pub gone_task : (status : ℕ) → Task → Task
gone_task status t = record t { state = died; status = status }

-- `task_exit` from where the resources are released on, with the writes before it.
unfoldable pub task_exit : (status : ℕ) → System → Option System
task_exit status s = do
  t ← s.table s.current
  assert (not (linked s.current s) && eq_state t.state running)
  let gone = put_task s.current (gone_task status t) s.table
  let s1 : System = record s { table = adopt_loop (nr_tasks - 2) 2 t.pid t.ppid gone }
  parent ← s1.table t.ppid
  s2 ←
      if eq_state parent.state waiting && ((parent.waitpid == eof) || (parent.waitpid == t.pid))
      then task_unblock t.ppid s1
      else some s1
  schedule s2

-- What the loop over the table of `task_waitpid` ends with: a child that has died, or whether there is
-- a child at all.
pub data Scan : Type 0 where
  dead : ℕ → Scan
  seen : Bool → Scan

-- A child of `me` that `pid` asks for; -1 asks for any.
abbrev pub is_child : (pid me : ℕ) → Task → Bool
is_child pid me t = (t.ppid == me) && ((pid == t.pid) || (pid == eof))

unfoldable pub child_loop : (left i pid me : ℕ) → (ℕ → Option Task) → (has_child : Bool) → Scan
child_loop zero i pid me table has_child = seen has_child
child_loop (suc left) i pid me table has_child = elim (table i) [
  | none ↦ child_loop left (i + 1) pid me table has_child
  | some t ↦
      let rest = child_loop left (i + 1) pid me table (has_child || is_child pid me t) in
      if is_child pid me t && eq_state t.state died then dead i else rest
]

-- A round of the loop of `task_waitpid`: it returns the number and the status of a child, or -1; or the
-- task is blocked, and goes round again once it runs.
pub data Round : Type 0 where
  returned : (pid status : ℕ) → System → Round
  no_child : System → Round
  waits : System → Round

unfoldable pub task_waitpid : (pid : ℕ) → System → Option Round
task_waitpid pid s = do
  t ← s.table s.current
  elim (child_loop (nr_tasks - 2) 2 pid t.pid s.table false) [
    | dead i ↦ do
      child ← s.table i
      let table : ℕ → Option Task = λ j. if i == j then none else s.table j
      some (returned child.pid child.status (record s { table = table }))
    | seen has_child ↦
        if has_child
        then (do
          s1 ← with_task s.current (λ t. record t { waitpid = pid }) s
          s2 ← task_block s.current waiting s1
          some (waits s2))
        else some (no_child s)
  ]
