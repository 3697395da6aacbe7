-- ===== src/Tasks/Family/Wake.antt =====
-- A task that exits wakes the parent that waits for it, which can then reap it.
use polaris_os.LinkedList.Without.{without, has-without}
use polaris_os.Tasks.Running.{
  may_run, Stopping, Settled, Switched, put_task_same, put_task_other, schedule-Switched,
}
use polaris_os.Tasks.Family.Reap.{Reapable, child_loop-Reapable}
use polaris_os.Tasks.Family.Exit.{put-Stopping, lists-Stopping, adopt_loop-Stopping, adopt_loop-Kin}
use polaris_os.Bitmap.{eof}
use polaris_os.Prelude.{
  ◌==◌, Returns, Returns-mono, ℕ, ◌≤◌, ◌<◌, ◌≡◌, refl, sym, ap, ◌∙◌, true, false, ◌&&◌, ◌||◌, some,
  arith, ℕ_discrete,
}
use polaris_os.Tasks.{
  running, ready, waiting, died, code, eq_state, Task, System, put_task, stopped, linked,
  task_unblock,
}
use polaris_os.Tasks.Family.{adopt_loop, task_exit, dead, child_loop}

-- What a task that exits finds: it runs and is in no list, its parent is another task that waits for it,
-- and it is neither the idle task nor one of the first two.
pub record Leaving (s : System) (t parent : Task) : Type 0 where
  pub settled : Settled s
  pub self : s.table s.current ≡ some t
  pub runs : eq_state t.state running ≡ true
  pub no_list : linked s.current s ≡ false
  pub not_idle : (s.idle_task == s.current) ≡ false
  pub other : (t.ppid == t.pid) ≡ false
  pub above : 2 ≤ s.current
  pub below : s.current < 64
  pub theirs : s.table t.ppid ≡ some parent
  pub in_wait : eq_state parent.state waiting ≡ true
  pub in_list : linked t.ppid s ≡ true
  pub for_it : ((parent.waitpid == eof) || (parent.waitpid == t.pid)) ≡ true

-- The parent can run, is in no list that it was in, and a round of `task_waitpid` would find a child.
pub record Freed (t parent : Task) (s : System) : Type 0 where
  pub settled : Settled s
  pub off_lists : linked t.ppid s ≡ false
  pub ready_again : (u : Task) × (s.table t.ppid ≡ some u) × (may_run u ≡ true)
  pub reaps :
      (k : ℕ) × (child_loop 62 2 parent.waitpid t.ppid s.table false ≡ dead k)
      × Reapable parent.waitpid t.ppid s.table k

module _ (status : ℕ) (s : System) (t parent : Task) (l : Leaving s t parent) where
  abbrev corpse : Task
  corpse = record t { state = died; status = status }

  abbrev buried : System
  buried = record s { table = put_task s.current corpse s.table }

  own_pid : t.pid ≡ s.current
  own_pid = l.settled.stopping.own s.current t l.self

  buried-Stopping : Stopping buried
  buried-Stopping =
      put-Stopping s s.current t corpse l.settled.stopping l.self refl (λ r. refl)
        (λ same. absurd (
          let f : (s.idle_task == s.current) ≡ true = ground (arith, same) in
          let g = l.not_idle in cc))

  abbrev adopted : System
  adopted = record s { table = adopt_loop 62 2 t.pid t.ppid buried.table }

  adopted-Stopping : Stopping adopted
  adopted-Stopping = adopt_loop-Stopping t.pid t.ppid 62 2 buried buried-Stopping

  corpse_there : adopted.table s.current ≡ some corpse
  corpse_there =
      let (u, e, k, same) =
        adopt_loop-Kin t.pid t.ppid 62 2 buried.table s.current corpse
          (put_task_same s.current corpse s.table) in
      e ∙ ap some (same l.other)

  apart : (s.current == t.ppid) ≡ false
  apart = ground (arith, own_pid, l.other)

  parent_there :
      (u : Task) × (adopted.table t.ppid ≡ some u)
      × (u.pid ≡ parent.pid)
      × (u.state ≡ parent.state)
      × (u.waitpid ≡ parent.waitpid)
  parent_there =
      let (u, e, k, same) =
        adopt_loop-Kin t.pid t.ppid 62 2 buried.table t.ppid parent
          (put_task_other s.current corpse s.table t.ppid apart ∙ l.theirs) in
      (u, e, k.same_pid, k.same_state, k.same_wait)

  module _ (u : Task) (eu : adopted.table t.ppid ≡ some u)
      (waits : u.waitpid ≡ parent.waitpid) where
    -- The system as `schedule` finds it.
    abbrev woke : System
    woke = record adopted {
      table = put_task t.ppid (record u { state = ready }) adopted.table;
      block_list = without t.ppid s.block_list;
      sleep_list = without t.ppid s.sleep_list;
      other_lists = without t.ppid s.other_lists;
    }

    woke-Stopping : Stopping woke
    woke-Stopping =
        put-Stopping
          (record adopted {
            block_list = without t.ppid s.block_list;
            sleep_list = without t.ppid s.sleep_list;
            other_lists = without t.ppid s.other_lists;
          })
          t.ppid u (record u { state = ready }) (lists-Stopping adopted _ _ _ adopted-Stopping) eu
          refl (λ r. cc) (λ same. refl)

    apart' : (t.ppid == s.current) ≡ false
    apart' = ground (arith, apart)

    corpse_still : woke.table s.current ≡ some corpse
    corpse_still =
        put_task_other t.ppid (record u { state = ready }) adopted.table s.current apart'
        ∙ corpse_there

    woke-Freed : (s' : System) → Switched woke s' → Freed t parent s'
    woke-Freed s' w = record {
      settled = w.settled;
      off_lists =
          rw (w.lists.0, w.lists.1, w.lists.2)
            (ground (
              arith,
              has-without t.ppid t.ppid s.block_list,
              has-without t.ppid t.ppid s.sleep_list,
              has-without t.ppid t.ppid s.other_lists,
            ));
      ready_again = by_next (ℕ_discrete s'.current t.ppid);
      reaps =
          child_loop-Reapable 62 2 parent.waitpid t.ppid s'.table false s.current l.above
            (omega (arith, l.below)) dead_child;
    }
      where
        -- The task that goes on is not the one that died.
        other_task : (s'.current == s.current) ≡ false
        other_task = elim (ℕ_discrete s'.current s.current) [
          | yes same ↦
              let (v, ev, can) = w.could in
              let f : some v ≡ some corpse = sym ev ∙ ap woke.table same ∙ corpse_still in
              let g : v ≡ corpse = cc in let h : may_run v ≡ false = ap may_run g in absurd cc
          | no ne ↦ ground (arith, ne)
        ]

        by_next :
            Dec (s'.current ≡ t.ppid) → (v : Task) × (s'.table t.ppid ≡ some v) × (may_run v ≡ true)
        by_next (yes same) =
            let (v, ev, run) = w.settled.runs in
            (v, ap s'.table (sym same) ∙ ev, ground (arith, run))
        by_next (no ne) = (
          record u { state = ready },
          w.kept t.ppid apart (ground (arith, ne))
              ∙ put_task_same t.ppid (record u { state = ready }) adopted.table,
          refl,
        )

        dead_child : Reapable parent.waitpid t.ppid s'.table s.current
        dead_child =
            let (v, ev, left) = w.before in
            let f : some v ≡ some corpse = sym ev ∙ corpse_still in
            let g : v ≡ corpse = cc in
            record {
              child = stopped corpse;
              entry = left other_task ∙ ap (λ x. some (stopped x)) g;
              asked = ground (arith, l.for_it);
              gone = refl;
            }

-- Where a task exits whose parent waits in `task_waitpid` for it or for any child, `task_exit` switches
-- to a task that may run; the parent is then ready or running and in no list, and the scan of the table
-- that it goes on with finds a child that has died.
pub task_exit-Freed :
    (status : ℕ) (s : System) (t parent : Task)
    → Leaving s t parent
    → Returns (Freed t parent) (task_exit status s)
unfolding task_exit task_unblock
task_exit-Freed status s t parent l =
    let (u, eu, id, state, asked_pid) = parent_there status s t parent l in
    let asks : (eq_state u.state waiting && ((u.waitpid == eof) || (u.waitpid == t.pid))) ≡ true =
      ground (arith, ap code state, asked_pid, l.in_wait, l.for_it) in
    rw (l.self, l.no_list, l.runs, eu, asks, l.in_list)
      (Returns-mono
        (schedule-Switched (woke status s t parent l u eu asked_pid)
          (woke-Stopping status s t parent l u eu asked_pid))
        (λ s' w. woke-Freed status s t parent l u eu asked_pid s' w))
