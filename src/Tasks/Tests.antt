-- ===== src/Tasks/Tests.antt =====
-- Three tasks: the idle one, a parent that waits for any child, and its child, which runs.
use mathlib.Core.Path.{subst}
use polaris_os.LinkedList.Linked.{has}
use polaris_os.Tasks.Running.{
  Stopping, Settled, Switched, TaskAt, written, stood, put_task-TaskAt, schedule-Switched,
}
use polaris_os.Tasks.Sleep.{Woken, task_wakeup-Woken}
use polaris_os.Tasks.Family.{
  task_fork, adopt_loop, task_exit, child_loop, Round, returned, no_child, waits, task_waitpid,
}
use polaris_os.Tasks.Family.Fork.{Forked, task_fork-Forked}
use polaris_os.Tasks.Family.Wake.{Leaving, Freed, task_exit-Freed}
use polaris_os.Bitmap.{eof}
use polaris_os.Prelude.{
  ◌>>=◌, Returns, ℕ, ◌+◌, ◌≡◌, refl, sym, ap, ◌∙◌, ◌⊎◌, inl, inr, true, false, Option, none, some,
  [], ◌∷◌, arith, ℕ_discrete,
}
use polaris_os.Tasks.{
  State, running, ready, sleeping, waiting, eq_state, Task, System, put_task, search_loop,
  task_search, schedule, task_unblock, task_wakeup,
}

abbrev a_task : (pid ppid : ℕ) → State → Task
a_task pid ppid state = record {
  pid = pid;
  ppid = ppid;
  state = state;
  ticks = 3;
  priority = 5;
  jiffies = 0;
  status = 0;
  waitpid = eof;
}

abbrev family : System
family = record {
  table =
      put_task 0 (a_task 0 0 ready)
        (put_task 1 (a_task 1 0 waiting) (put_task 2 (a_task 2 1 running) (λ i. none)));
  current = 2;
  idle_task = 0;
  jiffies = 100;
  block_list = 1 ∷ [];
  sleep_list = [];
  other_lists = [];
}

one_of :
    (i : ℕ) (t : Task)
    → family.table i ≡ some t
    → ((0 ≡ i) × (t ≡ a_task 0 0 ready))
      ⊎ (((1 ≡ i) × (t ≡ a_task 1 0 waiting)) ⊎ ((2 ≡ i) × (t ≡ a_task 2 1 running)))
one_of i t e = first_entry (put_task-TaskAt 0 _ _ i t e)
  where
    third : TaskAt 2 (a_task 2 1 running) (λ i. none) i t → (2 ≡ i) × (t ≡ a_task 2 1 running)
    third (written here same) = (here, same)
    third (stood away f) = cc

    second :
        TaskAt 1 (a_task 1 0 waiting) (put_task 2 (a_task 2 1 running) (λ i. none)) i t
        → ((1 ≡ i) × (t ≡ a_task 1 0 waiting)) ⊎ ((2 ≡ i) × (t ≡ a_task 2 1 running))
    second (written here same) = inl (here, same)
    second (stood away f) = inr (third (put_task-TaskAt 2 _ _ i t f))

    first_entry :
        TaskAt 0
          (a_task 0 0 ready)
          (put_task 1 (a_task 1 0 waiting) (put_task 2 (a_task 2 1 running) (λ i. none)))
          i
          t
        → ((0 ≡ i) × (t ≡ a_task 0 0 ready))
          ⊎ (((1 ≡ i) × (t ≡ a_task 1 0 waiting)) ⊎ ((2 ≡ i) × (t ≡ a_task 2 1 running)))
    first_entry (written here same) = inl (here, same)
    first_entry (stood away f) = inr (second (put_task-TaskAt 1 _ _ i t f))

family-Stopping : Stopping family
family-Stopping = record {
  own = λ i t e. own_by i t (one_of i t e);
  now = (a_task 2 1 running, refl);
  only = λ i t e r. only_by i t r (one_of i t e);
  idle = (a_task 0 0 ready, refl, refl);
}
  where
    own_by :
        (i : ℕ) (t : Task)
        → ((0 ≡ i) × (t ≡ a_task 0 0 ready))
          ⊎ (((1 ≡ i) × (t ≡ a_task 1 0 waiting)) ⊎ ((2 ≡ i) × (t ≡ a_task 2 1 running)))
        → t.pid ≡ i
    own_by i t (inl (e, f)) = ap Task.pid f ∙ e
    own_by i t (inr (inl (e, f))) = ap Task.pid f ∙ e
    own_by i t (inr (inr (e, f))) = ap Task.pid f ∙ e

    only_by :
        (i : ℕ) (t : Task)
        → eq_state t.state running ≡ true
        → ((0 ≡ i) × (t ≡ a_task 0 0 ready))
          ⊎ (((1 ≡ i) × (t ≡ a_task 1 0 waiting)) ⊎ ((2 ≡ i) × (t ≡ a_task 2 1 running)))
        → i ≡ 2
    only_by i t r (inl (e, f)) =
        absurd
          (let g : eq_state t.state running ≡ false = ap (λ v. eq_state v.state running) f in cc)
    only_by i t r (inr (inl (e, f))) =
        absurd
          (let g : eq_state t.state running ≡ false = ap (λ v. eq_state v.state running) f in cc)
    only_by i t r (inr (inr (e, f))) = sym e

family-Settled : Settled family
family-Settled = record { stopping = family-Stopping; runs = (a_task 2 1 running, refl, refl) }

schedule-Switched_example : Returns (Switched family) (schedule family)
schedule-Switched_example = schedule-Switched family family-Stopping

task_fork-Forked_example : Forked true true family (a_task 2 1 running) (task_fork true true family)
task_fork-Forked_example =
    task_fork-Forked true true family (a_task 2 1 running) family-Settled refl refl refl

child-Leaving : Leaving family (a_task 2 1 running) (a_task 1 0 waiting)
child-Leaving = record {
  settled = family-Settled;
  self = refl;
  runs = refl;
  no_list = refl;
  not_idle = refl;
  other = refl;
  above = omega arith;
  below = omega arith;
  theirs = refl;
  in_wait = refl;
  in_list = refl;
  for_it = refl;
}

task_exit-Freed_example :
    Returns (Freed (a_task 2 1 running) (a_task 1 0 waiting)) (task_exit 7 family)
task_exit-Freed_example =
    task_exit-Freed 7 family (a_task 2 1 running) (a_task 1 0 waiting) child-Leaving

-- The parent is then handed the number and the status of its child.
abbrev after_exit : Option Round → Option (ℕ × ℕ)
after_exit none = none
after_exit (some (returned pid status s)) = some (pid, status)
after_exit (some (no_child s)) = none
after_exit (some (waits s)) = none

status_passed :
    after_exit (do s ← task_exit 7 family; task_waitpid eof (record s { current = 1 }))
    ≡ some (2, 7)
unfolding task_exit task_unblock schedule task_search search_loop adopt_loop task_waitpid child_loop
status_passed = refl

-- Two sleepers, of which the first is due.
abbrev sleepers : System
sleepers = record family {
  table = put_task 0 (a_task 0 0 ready) (
      put_task 1 (record (a_task 1 0 sleeping) { ticks = 100 })
        (put_task 2 (record (a_task 2 1 sleeping) { ticks = 101 }) (λ i. none)));
  current = 0;
  block_list = [];
  sleep_list = 1 ∷ 2 ∷ [];
}

abbrev due_at : ℕ → ℕ
due_at i = i + 99

task_wakeup-Woken_example : Returns (Woken due_at (1 ∷ 2 ∷ []) sleepers) (task_wakeup sleepers)
task_wakeup-Woken_example =
    task_wakeup-Woken due_at sleepers (refl, (refl, tt))
      (record {
        entry = λ i h. entry_by i (ℕ_discrete i 1) h;
        small = λ i h. ground (arith, h);
        alone = λ i h. (ground (arith, h), ground (arith, h));
      })
      ((refl, tt), (tt, tt))
  where
    entry_by :
        (i : ℕ)
        → Dec (i ≡ 1)
        → has i (1 ∷ 2 ∷ []) ≡ true
        → (t : Task) × (sleepers.table i ≡ some t) × (t.ticks ≡ due_at i)
    entry_by i (yes e) h =
        subst (λ k. (t : Task) × (sleepers.table k ≡ some t) × (t.ticks ≡ due_at k)) (sym e)
          (record (a_task 1 0 sleeping) { ticks = 100 }, refl, refl)
    entry_by i (no ne) h =
        let e : i ≡ 2 = ground (arith, ne, h) in
        subst (λ k. (t : Task) × (sleepers.table k ≡ some t) × (t.ticks ≡ due_at k)) (sym e)
          (record (a_task 2 1 sleeping) { ticks = 101 }, refl, refl)
