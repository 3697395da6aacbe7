-- ===== src/Tasks.antt =====
-- src/kernel/task.c: the table of tasks, the scheduler, sleeping, and the end of a task. A task is
-- named by its index in the table, which is its `pid`. `none` is a failed assertion or a panic. The
-- links of a task are the lists that it stands in, as sequences; the switch of stacks is the change of
-- `current`. The assertions on the magic number of a task and on the state of interrupts are left out,
-- and every call runs with interrupts off. Memory, directories and open files of a task are left to their own modules.
pub mod Search
pub mod Running
pub mod Sleep
pub mod Family
mod Tests
use polaris_os.LinkedList.Without.{without}
use polaris_os.Prelude.{
  ltb, ◌==◌, if◌then◌else◌, ◌>>=◌, ◌>>◌, assert, ℕ, zero, suc, ◌+◌, ◌/◌, ◌%◌, ◌^◌, Bool, true, not,
  ◌&&◌, ◌||◌, Option, none, some, List, [], ◌∷◌,
}
use polaris_os.LinkedList.Linked.{has}
use polaris_os.LinkedList.Sort.{insort}
use polaris_os.LinkedList.{gt_int}

abbrev pub nr_tasks : ℕ
nr_tasks = 64

pub data State : Type 0 where
  initial : State
  running : State
  ready : State
  blocked : State
  sleeping : State
  waiting : State
  died : State

abbrev pub code : State → ℕ
code initial = 0
code running = 1
code ready = 2
code blocked = 3
code sleeping = 4
code waiting = 5
code died = 6

abbrev pub eq_state : State → State → Bool
eq_state a b = code a == code b

pub record Task : Type 0 where
  pub pid : ℕ
  pub ppid : ℕ
  pub state : State
  pub ticks : ℕ
  pub priority : ℕ
  pub jiffies : ℕ
  pub status : ℕ
  pub waitpid : ℕ

-- The lists of blocked tasks: `block_list`, `sleep_list`, and those of locks and devices.
pub record System : Type 0 where
  pub table : ℕ → Option Task
  pub current : ℕ
  pub idle_task : ℕ
  pub jiffies : ℕ
  pub block_list : List ℕ
  pub sleep_list : List ℕ
  pub other_lists : List ℕ

abbrev pub put_task : ℕ → Task → (ℕ → Option Task) → ℕ → Option Task
put_task i t table j = if i == j then some t else table j

abbrev pub with_task : ℕ → (Task → Task) → System → Option System
with_task i f s = do t ← s.table i; some (record s { table = put_task i (f t) s.table })

-- The loop of `get_free_task`.
unfoldable pub find_free : (left i : ℕ) → (ℕ → Option Task) → Option ℕ
find_free zero i table = none
find_free (suc left) i table =
    let rest = find_free left (i + 1) table in elim (table i) [ none ↦ some i | some t ↦ rest ]

-- A page of zeros, with its number. `page` says whether `alloc_kpage` finds one; it panics if not.
unfoldable pub get_free_task : (page : Bool) → System → Option (ℕ × System)
get_free_task page s = do
  i ← find_free nr_tasks 0 s.table
  assert page
  let t : Task = record {
    pid = i;
    ppid = 0;
    state = initial;
    ticks = 0;
    priority = 0;
    jiffies = 0;
    status = 0;
    waitpid = 0;
  }
  some (i, record s { table = put_task i t s.table })

-- What `task_search` prefers: more ticks, an `i32`, or run longer ago.
abbrev pub better : Task → Option Task → Bool
better t none = true
better t (some best) = gt_int t.ticks best.ticks || ltb t.jiffies best.jiffies

-- The loop of `task_search`, from entry `i` on.
unfoldable pub search_loop :
    (left i : ℕ) → State → (current : ℕ) → (ℕ → Option Task) → Option Task → Option Task
search_loop zero i state current table best = best
search_loop (suc left) i state current table best =
    search_loop left (i + 1) state current table (elim (table i) [
      | none ↦ best
      | some t ↦
          if not (eq_state t.state state) || ((current == i) || not (better t best))
          then best
          else some t
    ])

unfoldable pub task_search : State → System → Option ℕ
task_search state s = elim (search_loop nr_tasks 0 state s.current s.table none) [
  | some t ↦ some t.pid
  | none ↦ if eq_state state ready then some s.idle_task else none
]

-- The writes of `schedule` to the task that ran.
abbrev pub stopped : Task → Task
stopped t = record t {
  state = if eq_state t.state running then ready else t.state;
  ticks = if t.ticks == 0 then t.priority else t.ticks;
}

unfoldable pub schedule : System → Option System
schedule s = do
  next ← task_search ready s
  s1 ← with_task s.current stopped s
  s2 ← with_task next (λ t. record t { state = running }) s1
  some (record s2 { current = next })

abbrev pub linked : ℕ → System → Bool
linked i s = has i s.block_list || (has i s.sleep_list || has i s.other_lists)

-- `task_block` with NULL for the list.
unfoldable pub task_block : ℕ → State → System → Option System
task_block i state s = do
  assert (not (linked i s))
  assert (not (eq_state state ready) && not (eq_state state running))
  s1 ← with_task i (λ t. record t { state = state }) (record s { block_list = i ∷ s.block_list })
  if s.current == i then schedule s1 else some s1

-- `list_remove` goes through the links of the task, and stops at NULL.
unfoldable pub task_unblock : ℕ → System → Option System
task_unblock i s = do
  assert (linked i s)
  with_task i (λ t. record t { state = ready })
      (record s {
        block_list = without i s.block_list;
        sleep_list = without i s.sleep_list;
        other_lists = without i s.other_lists;
      })

abbrev pub ticks_of : (ℕ → Option Task) → ℕ → ℕ
ticks_of table i = elim (table i) [ none ↦ 0 | some t ↦ t.ticks ]

-- `jiffy` is the length of a tick in milliseconds; `list_insert_sort` asserts that the task is in no list.
unfoldable pub task_sleep : (jiffy ms : ℕ) → System → Option System
task_sleep jiffy ms s = do
  let wait = if ltb 0 (ms / jiffy) then ms / jiffy else 1
  s1 ← with_task s.current (λ t. record t { ticks = (s.jiffies + wait) % 2 ^ 32 }) s
  assert (not (linked s.current s1))
  s2 ←
      with_task s.current (λ t. record t { state = sleeping })
        (record s1 { sleep_list = insort (ticks_of s1.table) s.current s1.sleep_list })
  schedule s2

-- The loop of `task_wakeup`, on the list from `ptr` on.
unfoldable pub wakeup_loop : List ℕ → System → Option System
wakeup_loop [] s = some s
wakeup_loop (i ∷ ptr) s = if ltb s.jiffies (ticks_of s.table i) then some s else (do
  s1 ← with_task i (λ t. record t { ticks = 0 }) s
  s2 ← task_unblock i s1
  wakeup_loop ptr s2)

unfoldable pub task_wakeup : System → Option System
task_wakeup s = wakeup_loop s.sleep_list s
