-- ===== src/Tasks/Family/Fork.antt =====
-- `task_fork` puts a copy of the running task into the first free entry of the table.
use polaris_os.Tasks.Running.{
  Settled, TaskAt, written, stood, put_task-TaskAt, put_task_same, put_task_other,
}
use polaris_os.Prelude.{
  ◌==◌, ◌>>=◌, ◌>>◌, assert, ℕ, zero, suc, ◌+◌, ◌≤◌, ◌<◌, ◌≡◌, refl, sym, ap, ◌∙◌, ◌≢◌, ◌⊎◌, inl,
  inr, Bool, true, false, ◌&&◌, Option, none, some, arith, ℕ_discrete,
}
use polaris_os.Tasks.{
  initial, running, ready, eq_state, Task, System, put_task, find_free, get_free_task, linked,
}
use polaris_os.Tasks.Family.{task_fork}

-- The first free entry from `i` on, among `left`.
pub data FreeSlot (i left : ℕ) (table : ℕ → Option Task) : Option ℕ → Type 0 where
  free_at :
      (k : ℕ)
      → k < i + left
      → table k ≡ none
      → ((j : ℕ) → i ≤ j → j < k → table j ≢ none)
      → FreeSlot i left table (some k)
  none_free : ((j : ℕ) → i ≤ j → j < i + left → table j ≢ none) → FreeSlot i left table none

find_free-FreeSlot :
    (left i : ℕ) (table : ℕ → Option Task) → FreeSlot i left table (find_free left i table)
unfolding find_free
find_free-FreeSlot zero i table = none_free (λ j low high. absurd (omega (arith, low, high)))
find_free-FreeSlot (suc left) i table =
    by_entry (table i) refl (find_free-FreeSlot left (i + 1) table)
  where
    by_entry :
        (o : Option Task) {r : Option ℕ}
        → table i ≡ o
        → FreeSlot (i + 1) left table r
        → FreeSlot i (suc left) table (elim o [ none ↦ some i | some t ↦ r ])
    by_entry none e rest = free_at i (omega arith) e (λ j l h. absurd (omega (arith, l, h)))
    by_entry (some t) e (free_at k high f before) = free_at k (omega (arith, high)) f (λ j l h.
        elim (ℕ_discrete i j) [
          | yes same ↦ (λ g. (let x : some t ≡ none = sym e ∙ ap table same ∙ g in cc))
          | no ne ↦ before j (omega (arith, l, ne)) h
        ])
    by_entry (some t) e (none_free all) = none_free (λ j l h. elim (ℕ_discrete i j) [
      | yes same ↦ (λ g. (let x : some t ≡ none = sym e ∙ ap table same ∙ g in cc))
      | no ne ↦ all j (omega (arith, l, ne)) (omega (arith, h))
    ])

abbrev pub child_of : ℕ → Task → Task
child_of pid t = record t { pid = pid; ppid = t.pid; ticks = t.priority; state = ready }

-- How `task_fork` ends.
pub data Forked (page copies : Bool) (s : System) (t : Task) : Option (ℕ × System) → Type 0 where
  no_room : ((j : ℕ) → j < 64 → s.table j ≢ none) → Forked page copies s t none
  no_memory : (page && copies) ≡ false → Forked page copies s t none
  forked :
      (pid : ℕ) {s' : System}
      → page ≡ true
      → copies ≡ true
      → pid < 64
      → s.table pid ≡ none
      → ((j : ℕ) → j < pid → s.table j ≢ none)
      → s'.table pid ≡ some (child_of pid t)
      → ((j : ℕ) → (pid == j) ≡ false → s'.table j ≡ s.table j)
      → Settled s'
      → Forked page copies s t (some (pid, s'))

module _ (s : System) (t blank : Task) (pid : ℕ) (v : Settled s) (free : s.table pid ≡ none) where
  abbrev grown : System
  grown = record s { table = put_task pid (child_of pid t) (put_task pid blank s.table) }

  kept_entry : (j : ℕ) → (pid == j) ≡ false → grown.table j ≡ s.table j
  kept_entry j e = rw e refl

  used_elsewhere : (j : ℕ) (u : Task) → s.table j ≡ some u → (pid == j) ≡ false
  used_elsewhere j u e = elim (ℕ_discrete pid j) [
    | yes same ↦ absurd (let x : some u ≡ none = sym e ∙ ap s.table (sym same) ∙ free in cc)
    | no ne ↦ ground (arith, ne)
  ]

  old_or_new :
      (j : ℕ) (u : Task)
      → grown.table j ≡ some u
      → ((pid ≡ j) × (u ≡ child_of pid t)) ⊎ (s.table j ≡ some u)
  old_or_new j u e =
      by_entry (put_task-TaskAt pid (child_of pid t) (put_task pid blank s.table) j u e)
    where
      by_entry :
          TaskAt pid (child_of pid t) (put_task pid blank s.table) j u
          → ((pid ≡ j) × (u ≡ child_of pid t)) ⊎ (s.table j ≡ some u)
      by_entry (written here same) = inl (here, same)
      by_entry (stood away f) = inr (sym (put_task_other pid blank s.table j away) ∙ f)

  grown-Settled : Settled grown
  grown-Settled =
      let (u, e, runs) = v.runs in
      record {
        stopping = record {
          own = λ j u e. own_by j u (old_or_new j u e);
          now = (u, kept_entry s.current (used_elsewhere s.current u e) ∙ e);
          only = λ j u e r. only_by j u r (old_or_new j u e);
          idle = (
            v.stopping.idle.0,
            kept_entry s.idle_task (used_elsewhere s.idle_task v.stopping.idle.0 v.stopping.idle.1)
                ∙ v.stopping.idle.1,
            v.stopping.idle.2,
          );
        };
        runs = (u, kept_entry s.current (used_elsewhere s.current u e) ∙ e, runs);
      }
    where
      own_by :
          (j : ℕ) (u : Task) → ((pid ≡ j) × (u ≡ child_of pid t)) ⊎ (s.table j ≡ some u) → u.pid ≡ j
      own_by j u (inl (here, same)) = ap Task.pid same ∙ here
      own_by j u (inr e) = v.stopping.own j u e

      only_by :
          (j : ℕ) (u : Task)
          → eq_state u.state running ≡ true
          → ((pid ≡ j) × (u ≡ child_of pid t)) ⊎ (s.table j ≡ some u)
          → j ≡ s.current
      only_by j u r (inl (here, same)) =
          absurd (
            let f : eq_state u.state running ≡ false = ap (λ w. eq_state w.state running) same in
            cc)
      only_by j u r (inr e) = v.stopping.only j u e r

-- `task_fork` of a running task that is in no list puts the child into the first free entry: a ready
-- copy of the task with a number of its own and the task as its parent; no other entry changes, and
-- the task goes on as the only one that runs. It panics exactly if all 64 entries are taken or one of
-- its allocations of memory panics.
pub task_fork-Forked :
    (page copies : Bool) (s : System) (t : Task)
    → Settled s
    → s.table s.current ≡ some t
    → eq_state t.state running ≡ true
    → linked s.current s ≡ false
    → Forked page copies s t (task_fork page copies s)
unfolding task_fork get_free_task
task_fork-Forked page copies s t v e runs alone =
    rw (e, alone, runs) (by_slot page copies (find_free-FreeSlot 64 0 s.table))
  where
    blank : ℕ → Task
    blank i = record {
      pid = i;
      ppid = 0;
      state = initial;
      ticks = 0;
      priority = 0;
      jiffies = 0;
      status = 0;
      waitpid = 0;
    }

    by_slot :
        (page copies : Bool) {o : Option ℕ}
        → FreeSlot 0 64 s.table o
        → Forked page copies s t (do
          (pid, s1) ← (do
            i ← o
            assert page
            some (i, record s { table = put_task i (blank i) s.table }))
          assert copies
          some (pid, record s1 { table = put_task pid (child_of pid t) s1.table }))
    by_slot page copies (none_free all) = no_room (λ j h. all j (omega arith) h)
    by_slot false copies (free_at k high f before) = no_memory refl
    by_slot true false (free_at k high f before) = no_memory refl
    by_slot true true (free_at k high f before) =
        forked k refl refl high f (λ j h. before j (omega arith) h)
          (put_task_same k (child_of k t) (put_task k (blank k) s.table))
          (kept_entry s t (blank k) k v f) (grown-Settled s t (blank k) k v f)
