-- ===== src/Tasks/Running.antt =====
-- `schedule` hands the processor on: one task runs, and it is one that may.
use polaris_os.Tasks.Search.{BestOf, nothing, found, search_loop-BestOf}
use polaris_os.Prelude.{
  ◌==◌, if◌then◌else◌, Bool-cases, Returns, returns, ℕ, ◌≡◌, refl, sym, ap, ◌∙◌, inl, inr, Bool,
  true, false, ◌||◌, Option, none, some, arith, ℕ_discrete,
}
use polaris_os.Tasks.{
  running, ready, eq_state, Task, System, put_task, task_search, stopped, schedule,
}

abbrev pub may_run : Task → Bool
may_run t = eq_state t.state running || eq_state t.state ready

-- Each task stands at its number, no task but the current one is running, and the idle task is never
-- blocked. The current task can be in any state: it may have blocked itself.
pub record Stopping (s : System) : Type 0 where
  pub own : (i : ℕ) (t : Task) → s.table i ≡ some t → t.pid ≡ i
  pub now : (t : Task) × (s.table s.current ≡ some t)
  pub only :
      (i : ℕ) (t : Task) → s.table i ≡ some t → eq_state t.state running ≡ true → i ≡ s.current
  pub idle : (t : Task) × (s.table s.idle_task ≡ some t) × (may_run t ≡ true)

-- The same, and the current task is running.
pub record Settled (s : System) : Type 0 where
  pub stopping : Stopping s
  pub runs : (t : Task) × (s.table s.current ≡ some t) × (eq_state t.state running ≡ true)

-- What `schedule` leaves: the task that it picks could run, and nothing else but the one before changes.
pub record Switched (s s' : System) : Type 0 where
  pub settled : Settled s'
  pub could : (t : Task) × (s.table s'.current ≡ some t) × (may_run t ≡ true)
  pub before :
      (t : Task) × (s.table s.current ≡ some t)
      × ((s'.current == s.current) ≡ false → s'.table s.current ≡ some (stopped t))
  pub kept : (i : ℕ) → (s.current == i) ≡ false → (s'.current == i) ≡ false → s'.table i ≡ s.table i
  pub lists :
      (s'.block_list ≡ s.block_list)
      × (s'.sleep_list ≡ s.sleep_list)
      × (s'.other_lists ≡ s.other_lists)

-- `task_search` finds a task that may run.
ready_task :
    (s : System)
    → Stopping s
    → (n : ℕ) × (task_search ready s ≡ some n)
      × ((t : Task) × (s.table n ≡ some t) × (may_run t ≡ true))
unfolding task_search
ready_task s p = by_best (search_loop-BestOf ready s.current s.table 64 0 none nothing)
  where
    by_best :
        {o : Option Task}
        → BestOf ready s.current s.table o
        → (n : ℕ) × ((elim o [ some t ↦ some t.pid | none ↦ some s.idle_task ]) ≡ some n)
          × ((t : Task) × (s.table n ≡ some t) × (may_run t ≡ true))
    by_best nothing = (s.idle_task, refl, p.idle)
    by_best (found {t = t} c) =
        let e = p.own c.at_pid t c.entry in
        (c.at_pid, ap some e, (t, c.entry, ground (arith, c.in_state)))

-- An entry behind a write is the one written, or it stood there.
pub data TaskAt (i : ℕ) (w : Task) (table : ℕ → Option Task) (j : ℕ) (t : Task) : Type 0 where
  written : i ≡ j → t ≡ w → TaskAt i w table j t
  stood : (i == j) ≡ false → table j ≡ some t → TaskAt i w table j t

pub put_task-TaskAt :
    (i : ℕ) (w : Task) (table : ℕ → Option Task) (j : ℕ) (t : Task)
    → put_task i w table j ≡ some t
    → TaskAt i w table j t
put_task-TaskAt i w table j t e = by_index (i == j) refl e
  where
    by_index :
        (b : Bool) → (i == j) ≡ b → (if b then some w else table j) ≡ some t → TaskAt i w table j t
    by_index true same e = written (ground (arith, same)) (let f : w ≡ t = cc in sym f)
    by_index false ne e = stood ne e

pub put_task_same : (i : ℕ) (w : Task) (table : ℕ → Option Task) → put_task i w table i ≡ some w
put_task_same i w table = ground arith

pub put_task_other :
    (i : ℕ) (w : Task) (table : ℕ → Option Task) (j : ℕ)
    → (i == j) ≡ false
    → put_task i w table j ≡ table j
put_task_other i w table j e = rw e refl

stopped_rests : (t : Task) → eq_state (stopped t).state running ≡ false
stopped_rests t = elim (Bool-cases (eq_state t.state running)) [
  | inl runs ↦ rw runs refl
  | inr rests ↦ rw rests rests
]

stopped_may : (t : Task) → may_run t ≡ true → may_run (stopped t) ≡ true
stopped_may t e = elim (Bool-cases (eq_state t.state running)) [
  | inl runs ↦ rw runs refl
  | inr rests ↦ rw rests e
]

module _ (s : System) (p : Stopping s) (n : ℕ) (tc tn : Task) (ec : s.table s.current ≡ some tc)
    (en : s.table n ≡ some tn) (can : may_run tn ≡ true) where
  abbrev between : ℕ → Option Task
  between = put_task s.current (stopped tc) s.table

  -- The system behind `schedule`, where the task `n` was `u` after the first write.
  abbrev result : Task → System
  result u = record s { table = put_task n (record u { state = running }) between; current = n }

  between-own : (i : ℕ) (t : Task) → between i ≡ some t → t.pid ≡ i
  between-own i t e = by_entry (put_task-TaskAt s.current (stopped tc) s.table i t e)
    where
      by_entry : TaskAt s.current (stopped tc) s.table i t → t.pid ≡ i
      by_entry (written here same) = ap Task.pid same ∙ p.own s.current tc ec ∙ here
      by_entry (stood away at_i) = p.own i t at_i

  between_rest : (i : ℕ) (t : Task) → between i ≡ some t → eq_state t.state running ≡ false
  between_rest i t e = by_entry (put_task-TaskAt s.current (stopped tc) s.table i t e)
    where
      by_entry : TaskAt s.current (stopped tc) s.table i t → eq_state t.state running ≡ false
      by_entry (written here same) = ap (λ v. eq_state v.state running) same ∙ stopped_rests tc
      by_entry (stood away at_i) = elim (Bool-cases (eq_state t.state running)) [
        | inl runs ↦ absurd (
            let f : i ≡ s.current = p.only i t at_i runs in
            let g : (i == s.current) ≡ true = ground (arith, f) in
            let h : (s.current == i) ≡ true = ground (arith, f) in cc)
        | inr rests ↦ rests
      ]

  may_between :
      (i : ℕ) (t : Task)
      → s.table i ≡ some t
      → may_run t ≡ true
      → (u : Task) × (between i ≡ some u) × (may_run u ≡ true)
  may_between i t e m = elim (ℕ_discrete s.current i) [
    | yes here ↦
        let same : t ≡ tc = (let f : some t ≡ some tc = sym e ∙ ap s.table (sym here) ∙ ec in cc) in
        let hit : (s.current == i) ≡ true = ground (arith, here) in
        (stopped tc, rw hit refl, stopped_may tc (ap may_run (sym same) ∙ m))
    | no away ↦ let miss : (s.current == i) ≡ false = ground (arith, away) in (t, rw miss e, m)
  ]

  module _ (u : Task) (at_n : between n ≡ some u) where
    result-Stopping : Stopping (result u)
    result-Stopping = record {
      own = λ i t e. own_by i t (put_task-TaskAt n (record u { state = running }) between i t e);
      now = (record u { state = running }, put_task_same n _ between);
      only = λ i t e runs.
          only_by i t (put_task-TaskAt n (record u { state = running }) between i t e) runs;
      idle = idle_by (may_between s.idle_task p.idle.0 p.idle.1 p.idle.2);
    }
      where
        own_by :
            (i : ℕ) (t : Task) → TaskAt n (record u { state = running }) between i t → t.pid ≡ i
        own_by i t (written here same) = ap Task.pid same ∙ between-own n u at_n ∙ here
        own_by i t (stood away at_i) = between-own i t at_i

        only_by :
            (i : ℕ) (t : Task)
            → TaskAt n (record u { state = running }) between i t
            → eq_state t.state running ≡ true
            → i ≡ n
        only_by i t (written here same) runs = sym here
        only_by i t (stood away at_i) runs =
            absurd (let f : eq_state t.state running ≡ false = between_rest i t at_i in cc)

        idle_by :
            (v : Task) × (between s.idle_task ≡ some v) × (may_run v ≡ true)
            → (v : Task) × ((result u).table s.idle_task ≡ some v) × (may_run v ≡ true)
        idle_by (v, e, m) = elim (ℕ_discrete n s.idle_task) [
          | yes here ↦
              let hit : (n == s.idle_task) ≡ true = ground (arith, here) in
              (record u { state = running }, rw hit refl, refl)
          | no away ↦
              let miss : (n == s.idle_task) ≡ false = ground (arith, away) in (v, rw miss e, m)
        ]

    result-Switched : Switched s (result u)
    result-Switched = record {
      settled = record {
        stopping = result-Stopping;
        runs = (record u { state = running }, put_task_same n _ between, refl);
      };
      could = (tn, en, can);
      before = (
        tc,
        ec,
        λ a. put_task_other n _ between s.current a ∙ put_task_same s.current (stopped tc) s.table,
      );
      kept = λ i a b.
          put_task_other n _ between i b ∙ put_task_other s.current (stopped tc) s.table i a;
      lists = (refl, refl, refl);
    }

-- `schedule` always finds a task: afterwards exactly one task is running, it is the current one, and
-- it was ready or running before; no task but it and the one that stopped has changed, and no list.
pub schedule-Switched : (s : System) → Stopping s → Returns (Switched s) (schedule s)
unfolding schedule
schedule-Switched s p =
    let (tc, ec) = p.now in
    let (n, picks, (tn, en, can)) = ready_task s p in
    let (u, eu, mu) = may_between s p n tc tn ec en can n tn en can in
    rw (picks, ec, eu) (returns (result-Switched s p n tc tn ec en can u eu))
