-- ===== src/Tasks/Search.antt =====
-- Which task `task_search` finds.
use mathlib.Core.Path.{subst}
use polaris_os.Prelude.{
  ◌==◌, if◌then◌else◌, Bool-cases, take, ℕ, zero, suc, ◌+◌, ◌≤◌, ◌<◌, ◌≡◌, refl, sym, ap, ◌∙◌, inl,
  inr, true, false, not, ◌||◌, Option, none, some, arith, ℕ_discrete,
}
use polaris_os.Tasks.{State, eq_state, Task, better, search_loop}

-- A task of the state `state` among the entries from `i` on that is not the current one.
pub record Candidate (state : State) (current : ℕ) (table : ℕ → Option Task) (t : Task)
    : Type 0 where
  pub at_pid : ℕ
  pub entry : table at_pid ≡ some t
  pub in_state : eq_state t.state state ≡ true
  pub other : (current == at_pid) ≡ false

-- What the search has found so far.
pub data BestOf (state : State) (current : ℕ) (table : ℕ → Option Task) : Option Task → Type 0 where
  nothing : BestOf state current table none
  found : {t : Task} → Candidate state current table t → BestOf state current table (some t)

module _ (state : State) (current : ℕ) (table : ℕ → Option Task) where
  search_step :
      (i : ℕ) (o best : Option Task)
      → table i ≡ o
      → BestOf state current table best
      → BestOf state current table (elim o [
        | none ↦ best
        | some t ↦
            if not (eq_state t.state state) || ((current == i) || not (better t best))
            then best
            else some t
      ])
  search_step i none best e b = b
  search_step i (some t) best e b =
      elim (Bool-cases (not (eq_state t.state state) || ((current == i) || not (better t best)))) [
        | inl skip ↦ rw skip b
        | inr take ↦ rw take (
            found (record {
              at_pid = i;
              entry = e;
              in_state = ground (arith, take);
              other = ground (arith, take);
            }))
      ]

  pub search_loop-BestOf :
      (left i : ℕ) (best : Option Task)
      → BestOf state current table best
      → BestOf state current table (search_loop left i state current table best)
  unfolding search_loop
  search_loop-BestOf zero i best b = b
  search_loop-BestOf (suc left) i best b =
      search_loop-BestOf left (i + 1) _ (search_step i (table i) best refl b)

  -- A search that has a task keeps one.
  search_keeps :
      (left i : ℕ) (best : Option Task)
      → search_loop left i state current table best ≡ none
      → best ≡ none
  unfolding search_loop
  search_keeps zero i best e = e
  search_keeps (suc left) i best e = kept (table i) best (search_keeps left (i + 1) _ e)
    where
      kept :
          (o best : Option Task)
          → (elim o [
            | none ↦ best
            | some t ↦
                if not (eq_state t.state state) || ((current == i) || not (better t best))
                then best
                else some t
          ])
            ≡ none
          → best ≡ none
      kept none best e = e
      kept (some t) none e = refl
      kept (some t) (some b) e =
          elim (Bool-cases
            (not (eq_state t.state state) || ((current == i) || not (better t (some b))))) [
              | inl skip ↦ (let f = rw skip at e in cc)
              | inr take ↦ (let f = rw take at e in cc)
            ]

  -- Where the search ends with nothing, no entry that it has passed is a candidate.
  pub search_all :
      (left i : ℕ) (best : Option Task)
      → search_loop left i state current table best ≡ none
      → (j : ℕ) (t : Task) → i ≤ j
      → j < i + left
      → table j ≡ some t
      → eq_state t.state state ≡ true
      → j ≡ current
  unfolding search_loop
  search_all zero i best e j t low high at_j s = absurd (omega (arith, low, high))
  search_all (suc left) i best e j t low high at_j s = elim (ℕ_discrete i j) [
    | yes here ↦
        first_one here (table i) (ap table here ∙ at_j) (search_keeps left (i + 1) _ e)
          (search_keeps (suc left) i best e)
    | no later ↦
        search_all left (i + 1) _ e j t (omega (arith, low, later)) (omega (arith, high)) at_j s
  ]
    where
      first_one :
          i ≡ j
          → (o : Option Task) → o ≡ some t
          → (elim o [
            | none ↦ best
            | some t ↦
                if not (eq_state t.state state) || ((current == i) || not (better t best))
                then best
                else some t
          ])
            ≡ none
          → best ≡ none
          → j ≡ current
      first_one here none o e b = cc
      first_one here (some u) o e b = elim (ℕ_discrete current i) [
        | yes c ↦ sym (c ∙ here)
        | no ne ↦
            let same : u ≡ t = cc in
            let fits : eq_state u.state state ≡ true = ap (λ v. eq_state v.state state) same ∙ s in
            let away : (current == i) ≡ false = ground (arith, ne) in
            let taken =
              subst
                (λ b.
                  (if not (eq_state u.state state) || ((current == i) || not (better u b))
                    then b
                    else some u)
                  ≡ none)
                b e in
            let f = rw (fits, away) at taken in cc
      ]
