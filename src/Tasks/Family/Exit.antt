-- ===== src/Tasks/Family/Exit.antt =====
-- `task_exit` from the death of the task to the switch to the next one.
use mathlib.Core.Path.{subst}
use polaris_os.Tasks.Running.{
  may_run, Stopping, TaskAt, written, stood, put_task-TaskAt, put_task_same, put_task_other,
}
use polaris_os.Prelude.{
  ◌==◌, Bool-cases, ℕ, zero, suc, ◌+◌, ◌≡◌, refl, sym, ap, ◌∙◌, inl, inr, true, false, Option, none,
  some, List, arith, ℕ_discrete,
}
use polaris_os.Tasks.{running, eq_state, Task, System, put_task}
use polaris_os.Tasks.Family.{adopt, adopt_loop}

-- A write to an entry that keeps its number, starts nobody, and leaves the idle task able to run.
pub put-Stopping :
    (s : System) (i : ℕ) (t w : Task)
    → Stopping s
    → s.table i ≡ some t
    → w.pid ≡ t.pid
    → (eq_state w.state running ≡ true → i ≡ s.current)
    → (i ≡ s.idle_task → may_run w ≡ true)
    → Stopping (record s { table = put_task i w s.table })
put-Stopping s i t w p e named starts idles = record {
  own = λ j u f. own_by j u (put_task-TaskAt i w s.table j u f);
  now = now_by (ℕ_discrete i s.current);
  only = λ j u f r. only_by j u r (put_task-TaskAt i w s.table j u f);
  idle = idle_by (ℕ_discrete i s.idle_task);
}
  where
    own_by : (j : ℕ) (u : Task) → TaskAt i w s.table j u → u.pid ≡ j
    own_by j u (written here same) = ap Task.pid same ∙ named ∙ p.own i t e ∙ here
    own_by j u (stood away f) = p.own j u f

    now_by : Dec (i ≡ s.current) → (u : Task) × (put_task i w s.table s.current ≡ some u)
    now_by (yes here) =
        (w, subst (λ k. put_task i w s.table k ≡ some w) here (put_task_same i w s.table))
    now_by (no away) =
        (p.now.0, put_task_other i w s.table s.current (ground (arith, away)) ∙ p.now.1)

    only_by :
        (j : ℕ) (u : Task)
        → eq_state u.state running ≡ true
        → TaskAt i w s.table j u
        → j ≡ s.current
    only_by j u r (written here same) =
        sym here ∙ starts (ap (λ v. eq_state v.state running) (sym same) ∙ r)
    only_by j u r (stood away f) = p.only j u f r

    idle_by :
        Dec (i ≡ s.idle_task)
        → (u : Task) × (put_task i w s.table s.idle_task ≡ some u) × (may_run u ≡ true)
    idle_by (yes here) = (
      w,
      subst (λ k. put_task i w s.table k ≡ some w) here (put_task_same i w s.table),
      idles here,
    )
    idle_by (no away) = (
      p.idle.0,
      put_task_other i w s.table s.idle_task (ground (arith, away)) ∙ p.idle.1,
      p.idle.2,
    )

-- Lists do not matter.
pub lists-Stopping :
    (s : System) (a b c : List ℕ)
    → Stopping s
    → Stopping (record s { block_list = a; sleep_list = b; other_lists = c })
lists-Stopping s a b c p = record { own = p.own; now = p.now; only = p.only; idle = p.idle }

-- A new parent is all that can change.
pub record Kin (t u : Task) : Type 0 where
  pub same_pid : u.pid ≡ t.pid
  pub same_state : u.state ≡ t.state
  pub same_wait : u.waitpid ≡ t.waitpid

module _ (pid ppid : ℕ) where
  adopt-Stopping :
      (s : System) (i : ℕ) (o : Option Task)
      → s.table i ≡ o
      → Stopping s
      → Stopping (record s { table = adopt i pid ppid o s.table })
  adopt-Stopping s i none e p = p
  adopt-Stopping s i (some t) e p = elim (Bool-cases (t.ppid == pid)) [
    | inl theirs ↦ rw theirs (
        put-Stopping s i t (record t { ppid = ppid }) p e refl (λ r. p.only i t e r)
          (λ at_idle.
            let f : some t ≡ some p.idle.0 = sym e ∙ ap s.table at_idle ∙ p.idle.1 in
            let g : t ≡ p.idle.0 = cc in ap may_run g ∙ p.idle.2))
    | inr others ↦ rw others p
  ]

  pub adopt_loop-Stopping :
      (left i : ℕ) (s : System)
      → Stopping s
      → Stopping (record s { table = adopt_loop left i pid ppid s.table })
  unfolding adopt_loop
  adopt_loop-Stopping zero i s p = p
  adopt_loop-Stopping (suc left) i s p =
      adopt_loop-Stopping left (i + 1) (record s { table = adopt i pid ppid (s.table i) s.table })
        (adopt-Stopping s i (s.table i) refl p)

  adopt_one :
      (i : ℕ) (o : Option Task) (table : ℕ → Option Task) (j : ℕ) (t : Task)
      → table i ≡ o
      → table j ≡ some t
      → (u : Task) × (adopt i pid ppid o table j ≡ some u)
        × Kin t u
        × ((t.ppid == pid) ≡ false → u ≡ t)
  adopt_one i none table j t e f =
      (t, f, record { same_pid = refl; same_state = refl; same_wait = refl }, λ n. refl)
  adopt_one i (some c) table j t e f = elim (Bool-cases (c.ppid == pid)) [
    | inr others ↦
        (t, rw others f, record { same_pid = refl; same_state = refl; same_wait = refl }, λ n. refl)
    | inl theirs ↦ elim (ℕ_discrete i j) [
      | no away ↦ (
        t,
        rw theirs (put_task_other i _ table j (ground (arith, away)) ∙ f),
        record { same_pid = refl; same_state = refl; same_wait = refl },
        λ n. refl,
      )
      | yes here ↦
          let g : some c ≡ some t = sym e ∙ ap table here ∙ f in
          let same : c ≡ t = cc in
          (
            record c { ppid = ppid },
            rw theirs (
                subst
                  (λ k.
                    put_task i (record c { ppid = ppid }) table k ≡ some (record c { ppid = ppid }))
                  here (put_task_same i _ table)),
            record {
              same_pid = ap Task.pid same;
              same_state = ap Task.state same;
              same_wait = ap Task.waitpid same;
            },
            λ n. absurd (let h : (c.ppid == pid) ≡ false = ap (λ v. v.ppid == pid) same ∙ n in cc),
          )
    ]
  ]

  pub adopt_loop-Kin :
      (left i : ℕ) (table : ℕ → Option Task) (j : ℕ) (t : Task)
      → table j ≡ some t
      → (u : Task) × (adopt_loop left i pid ppid table j ≡ some u)
        × Kin t u
        × ((t.ppid == pid) ≡ false → u ≡ t)
  unfolding adopt_loop
  adopt_loop-Kin zero i table j t e =
      (t, e, record { same_pid = refl; same_state = refl; same_wait = refl }, λ n. refl)
  adopt_loop-Kin (suc left) i table j t e =
      let (u, f, k, stays) = adopt_one i (table i) table j t refl e in
      let (v, g, l, stays') =
        adopt_loop-Kin left (i + 1) (adopt i pid ppid (table i) table) j u f in
      (
        v,
        g,
        record {
          same_pid = l.same_pid ∙ k.same_pid;
          same_state = l.same_state ∙ k.same_state;
          same_wait = l.same_wait ∙ k.same_wait;
        },
        λ n. stays' (ap (λ w. w.ppid == pid) (stays n) ∙ n) ∙ stays n,
      )
