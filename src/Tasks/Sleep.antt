-- ===== src/Tasks/Sleep.antt =====
-- The list of sleepers: `task_wakeup` wakes those whose time has come.
use mathlib.Core.Path.{subst}
use polaris_os.LinkedList.Without.{without, has-without, without_absent}
use polaris_os.LinkedList.Linked.{has, Distinct}
use polaris_os.LinkedList.Sort.{AtLeast, Sorted}
use polaris_os.Prelude.{
  ltb, leb, ◌==◌, if◌then◌else◌, Bool-cases, Returns, returns, Returns-mono, ℕ, ◌^◌, ◌≤◌, ◌<◌, ◌≡◌,
  refl, sym, ap, ◌∙◌, ◌⊎◌, inl, inr, true, false, ◌&&◌, ◌||◌, Option, none, some, List, [], ◌∷◌,
  arith, ℕ_discrete,
}
use polaris_os.Tasks.{
  ready, Task, System, put_task, linked, task_unblock, ticks_of, wakeup_loop, task_wakeup,
}

-- The sleepers whose time is after `now`.
abbrev pub late : (key : ℕ → ℕ) (now : ℕ) → List ℕ → List ℕ
late key now [] = []
late key now (i ∷ is) = if ltb now (key i) then i ∷ late key now is else late key now is

abbrev pub awake : Task → Task
awake t = record t { ticks = 0; state = ready }

-- What waking the sleepers `xs` leaves: in the list those whose time is still to come, and the others
-- are ready and in no list; no other task and no other list has changed.
pub record Woken (key : ℕ → ℕ) (xs : List ℕ) (s s' : System) : Type 0 where
  pub asleep : s'.sleep_list ≡ late key s.jiffies xs
  pub due :
      (i : ℕ) (t : Task)
      → has i xs ≡ true
      → s.table i ≡ some t
      → key i ≤ s.jiffies
      → s'.table i ≡ some (awake t)
  pub kept : (i : ℕ) → (has i xs && leb (key i) s.jiffies) ≡ false → s'.table i ≡ s.table i
  pub out : (i : ℕ) → has i xs ≡ true → key i ≤ s.jiffies → linked i s' ≡ false
  pub block_list : s'.block_list ≡ s.block_list
  pub other_lists : s'.other_lists ≡ s.other_lists
  pub current : s'.current ≡ s.current

-- Each sleeper of `xs` is a task of the table, in no other list, whose ticks are its key and below 2^31.
pub record Sleepers (key : ℕ → ℕ) (xs : List ℕ) (s : System) : Type 0 where
  pub entry : (i : ℕ) → has i xs ≡ true → (t : Task) × (s.table i ≡ some t) × (t.ticks ≡ key i)
  pub small : (i : ℕ) → has i xs ≡ true → key i < 2 ^ 31
  pub alone :
      (i : ℕ) → has i xs ≡ true → (has i s.block_list ≡ false) × (has i s.other_lists ≡ false)

module _ (key : ℕ → ℕ) (now : ℕ) where
  -- Behind one whose time is to come there are only such.
  late_all :
      (k : ℕ) (xs : List ℕ)
      → now < k
      → k < 2 ^ 31
      → ((i : ℕ) → has i xs ≡ true → key i < 2 ^ 31)
      → AtLeast key k xs
      → late key now xs ≡ xs
  late_all k [] l b small a = refl
  late_all k (x ∷ xs) l b small a =
      let bound = small x (ground arith) in
      let later : ltb now (key x) ≡ true = ground (arith, a.0, l, b, bound) in
      rw later (ap (λ r. x ∷ r) (late_all k xs l b (λ i e. small i (ground (arith, e))) a.1))

  late_absent : (i : ℕ) (xs : List ℕ) → has i xs ≡ false → has i (late key now xs) ≡ false
  late_absent i [] e = refl
  late_absent i (x ∷ xs) e = ground (arith, e, late_absent i xs)

  late_each :
      (k : ℕ) (xs : List ℕ)
      → now < k
      → k < 2 ^ 31
      → ((i : ℕ) → has i xs ≡ true → key i < 2 ^ 31)
      → AtLeast key k xs
      → (i : ℕ) → has i xs ≡ true
      → now < key i
  late_each k [] l b small a i e = cc
  late_each k (x ∷ xs) l b small a i e = elim (ℕ_discrete i x) [
    | yes here ↦
        let bound = small x (ground arith) in
        let later : now < key x = ground (arith, a.0, l, b, bound) in
        subst (λ j. now < key j) (sym here) later
    | no away ↦
        late_each k xs l b (λ j h. small j (ground (arith, h))) a.1 i (ground (arith, e, away))
  ]

without_head : (i : ℕ) (xs : List ℕ) → has i xs ≡ false → without i (i ∷ xs) ≡ xs
without_head i xs e = ground (arith, without_absent i xs e)

-- One sleeper is woken.
module _ (key : ℕ → ℕ) (s : System) (i : ℕ) (ptr : List ℕ) (t : Task) (e : s.table i ≡ some t) where
  abbrev woken_one : System
  woken_one = record s {
    table = put_task i (awake t) (put_task i (record t { ticks = 0 }) s.table);
    block_list = without i s.block_list;
    sleep_list = without i s.sleep_list;
    other_lists = without i s.other_lists;
  }

  woken_other : (j : ℕ) → (i == j) ≡ false → woken_one.table j ≡ s.table j
  woken_other j ne = rw ne refl

  still_Sleepers : has i ptr ≡ false → Sleepers key (i ∷ ptr) s → Sleepers key ptr woken_one
  still_Sleepers out z = record {
    entry = λ j h.
        (let ne = apart j h in
          let (u, eu, k) = z.entry j (ground (arith, h)) in (u, woken_other j ne ∙ eu, k));
    small = λ j h. z.small j (ground (arith, h));
    alone = λ j h.
        (let (b, o) = z.alone j (ground (arith, h)) in
          (
            ground (arith, has-without j i s.block_list, b),
            ground (arith, has-without j i s.other_lists, o),
          ));
  }
    where
      apart : (j : ℕ) → has j ptr ≡ true → (i == j) ≡ false
      apart j h = elim (ℕ_discrete i j) [
        | yes same ↦ absurd (let f : has j ptr ≡ false = ap (λ k. has k ptr) (sym same) ∙ out in cc)
        | no ne ↦ ground (arith, ne)
      ]

  and_rest :
      (s' : System)
      → has i ptr ≡ false
      → key i ≤ s.jiffies
      → (has i s.block_list ≡ false) × (has i s.other_lists ≡ false)
      → Woken key ptr woken_one s'
      → Woken key (i ∷ ptr) s s'
  and_rest s' out time (not_b, not_o) w =
      let now_due : ltb s.jiffies (key i) ≡ false = ground (arith, time) in
      record {
        asleep = rw now_due w.asleep;
        due = due_by;
        kept = λ j c. kept_by j c (ℕ_discrete i j);
        out = out_by;
        block_list = same_block;
        other_lists = same_other;
        current = w.current;
      }
    where
      same_block : s'.block_list ≡ s.block_list
      same_block = w.block_list ∙ without_absent i s.block_list not_b

      same_other : s'.other_lists ≡ s.other_lists
      same_other = w.other_lists ∙ without_absent i s.other_lists not_o

      out_by : (j : ℕ) → has j (i ∷ ptr) ≡ true → key j ≤ s.jiffies → linked j s' ≡ false
      out_by j h k = elim (ℕ_discrete i j) [
        | yes same ↦
            let b : has i s'.block_list ≡ false = ap (has i) same_block ∙ not_b in
            let l : has i s'.sleep_list ≡ false =
              ap (has i) w.asleep ∙ late_absent key s.jiffies i ptr out in
            let o : has i s'.other_lists ≡ false = ap (has i) same_other ∙ not_o in
            subst (λ x. linked x s' ≡ false) same (ground (arith, b, l, o))
        | no ne ↦ w.out j (ground (arith, h, ne)) k
      ]

      at_i : woken_one.table i ≡ some (awake t)
      at_i = ground arith

      due_by :
          (j : ℕ) (u : Task)
          → has j (i ∷ ptr) ≡ true
          → s.table j ≡ some u
          → key j ≤ s.jiffies
          → s'.table j ≡ some (awake u)
      due_by j u h eu k = elim (ℕ_discrete i j) [
        | yes same ↦
            let t_u : t ≡ u = (let f : some t ≡ some u = sym e ∙ ap s.table same ∙ eu in cc) in
            ap s'.table (sym same)
            ∙ w.kept i (ground (arith, out))
            ∙ at_i
            ∙ ap (λ v. some (awake v)) t_u
        | no ne ↦
            let away : (i == j) ≡ false = ground (arith, ne) in
            w.due j u (ground (arith, h, ne)) (woken_other j away ∙ eu) k
      ]

      kept_by :
          (j : ℕ)
          → (has j (i ∷ ptr) && leb (key j) s.jiffies) ≡ false
          → Dec (i ≡ j)
          → s'.table j ≡ s.table j
      kept_by j c (yes same) = absurd (
          let f : (has i (i ∷ ptr) && leb (key i) s.jiffies) ≡ false =
            subst (λ k. (has k (i ∷ ptr) && leb (key k) s.jiffies) ≡ false) (sym same) c in
          let g : (has i (i ∷ ptr) && leb (key i) s.jiffies) ≡ true = ground (arith, time) in cc)
      kept_by j c (no ne) =
          let away : (i == j) ≡ false = ground (arith, ne) in
          w.kept j (ground (arith, c)) ∙ woken_other j away

pub ticks_of-entry :
    (table : ℕ → Option Task) (i : ℕ) (t : Task) → table i ≡ some t → ticks_of table i ≡ t.ticks
ticks_of-entry table i t e = ap (λ o. elim o [ none ↦ 0 | some t ↦ t.ticks ]) e

wakeup_loop-Woken :
    (key : ℕ → ℕ) (xs : List ℕ) (s : System)
    → s.sleep_list ≡ xs
    → Distinct xs
    → Sleepers key xs s
    → Sorted key xs
    → Returns (Woken key xs s) (wakeup_loop xs s)
unfolding wakeup_loop task_unblock
wakeup_loop-Woken key [] s e d z o = returns (record {
  asleep = e;
  due = λ i t h eu k. cc;
  kept = λ i c. refl;
  out = λ i h k. cc;
  block_list = refl;
  other_lists = refl;
  current = refl;
})
wakeup_loop-Woken key (i ∷ ptr) s e d z o =
    let (t, et, ticks) = z.entry i (ground arith) in
    by_time t et ticks (Bool-cases (ltb s.jiffies (key i)))
      (λ s' f. wakeup_loop-Woken key ptr s' f d.1)
  where
    by_time :
        (t : Task)
        → s.table i ≡ some t
        → t.ticks ≡ key i
        → (ltb s.jiffies (key i) ≡ true) ⊎ (ltb s.jiffies (key i) ≡ false)
        → ((s' : System)
            → s'.sleep_list ≡ ptr
            → Sleepers key ptr s'
            → Sorted key ptr
            → Returns (Woken key ptr s') (wakeup_loop ptr s'))
        → Returns (Woken key (i ∷ ptr) s) (wakeup_loop (i ∷ ptr) s)
    by_time t et ticks (inl later) ih =
        let small = z.small i (ground arith) in
        let now_less : s.jiffies < key i = ground (arith, later) in
        let keep = λ (j : ℕ) (h : has j ptr ≡ true). z.small j (ground (arith, h)) in
        rw (ticks_of-entry s.table i t et ∙ ticks, later)
          (returns (record {
            asleep =
                e
                ∙ sym (
                    rw later (
                      ap (λ r. i ∷ r)
                        (late_all key s.jiffies (key i) ptr now_less small keep o.0)));
            due = λ j u h eu k. absurd (soon now_less keep small j h k);
            kept = λ j c. refl;
            out = λ j h k. absurd (soon now_less keep small j h k);
            block_list = refl;
            other_lists = refl;
            current = refl;
          }))
      where
        soon :
            s.jiffies < key i
            → ((j : ℕ) → has j ptr ≡ true → key j < 2 ^ 31)
            → key i < 2 ^ 31
            → (j : ℕ) → has j (i ∷ ptr) ≡ true
            → key j ≤ s.jiffies
            → ⊥
        soon less keep small j h k = elim (ℕ_discrete j i) [
          | yes same ↦ (let f : key j ≡ key i = ap key same in omega (arith, f, k, less))
          | no away ↦ omega (
            arith,
            late_each key s.jiffies (key i) ptr less small keep o.0 j (ground (arith, h, away)),
            k,
          )
        ]
    by_time t et ticks (inr time) ih =
        let tail_left : without i s.sleep_list ≡ ptr = ap (without i) e ∙ without_head i ptr d.0 in
        let in_list : (has i s.block_list || (has i s.sleep_list || has i s.other_lists)) ≡ true =
          ground (arith, ap (has i) e) in
        let itself : (i == i) ≡ true = ground arith in
        rw (ticks_of-entry s.table i t et ∙ ticks, time, et, in_list, itself)
          (Returns-mono
            (ih (woken_one key s i ptr t et) tail_left (still_Sleepers key s i ptr t et d.0 z) o.1)
            (λ s' w.
              and_rest key s i ptr t et s' d.0 (ground (arith, time)) (z.alone i (ground arith)) w))

-- `task_wakeup` on a list of sleepers in the order that `task_sleep` keeps, each in no other list and
-- with a time below 2^31, returns with the sleepers in the list whose time is after `jiffies`, in their
-- order, and every other sleeper is ready and in no list; no other task and no other list has changed.
pub task_wakeup-Woken :
    (key : ℕ → ℕ) (s : System)
    → Distinct s.sleep_list
    → Sleepers key s.sleep_list s
    → Sorted key s.sleep_list
    → Returns (Woken key s.sleep_list s) (task_wakeup s)
unfolding task_wakeup
task_wakeup-Woken key s d z o = wakeup_loop-Woken key s.sleep_list s refl d z o
