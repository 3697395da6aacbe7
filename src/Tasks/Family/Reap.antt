-- ===== src/Tasks/Family/Reap.antt =====
-- A task that exits wakes the parent that waits for it, which then finds a child that has died.
use polaris_os.Prelude.{
  if◌then◌else◌, Bool-cases, ℕ, zero, suc, ◌+◌, ◌≤◌, ◌<◌, ◌≡◌, refl, sym, ap, ◌∙◌, ◌≢◌, inl, inr,
  Bool, true, false, ◌&&◌, ◌||◌, Option, none, some, arith,
}
use polaris_os.Tasks.{died, eq_state, Task}
use polaris_os.Tasks.Family.{dead, is_child, child_loop}

-- A child that has died and that `pid` asks for.
pub record Reapable (pid me : ℕ) (table : ℕ → Option Task) (i : ℕ) : Type 0 where
  pub child : Task
  pub entry : table i ≡ some child
  pub asked : is_child pid me child ≡ true
  pub gone : eq_state child.state died ≡ true

-- If there is one among the entries the scan finds one.
pub child_loop-Reapable :
    (left i pid me : ℕ) (table : ℕ → Option Task) (h : Bool) (j : ℕ)
    → i ≤ j
    → j < i + left
    → Reapable pid me table j
    → (k : ℕ) × (child_loop left i pid me table h ≡ dead k) × Reapable pid me table k
unfolding child_loop
child_loop-Reapable zero i pid me table h j low high r = absurd (omega (arith, low, high))
child_loop-Reapable (suc left) i pid me table h j low high r = by_entry (table i) refl (λ g ne.
    child_loop-Reapable left (i + 1) pid me table g j (omega (arith, low, ne)) (omega (arith, high))
      r)
  where
    by_entry :
        (o : Option Task)
        → table i ≡ o
        → ((g : Bool)
            → i ≢ j
            → (k : ℕ) × (child_loop left (i + 1) pid me table g ≡ dead k) × Reapable pid me table k)
        → (k : ℕ) × ((elim o [
          | none ↦ child_loop left (i + 1) pid me table h
          | some t ↦
              let rest = child_loop left (i + 1) pid me table (h || is_child pid me t) in
              if is_child pid me t && eq_state t.state died then dead i else rest
        ])
            ≡ dead k)
          × Reapable pid me table k
    by_entry none e ih =
        ih h (λ same. (let f : table j ≡ none = ap table (sym same) ∙ e in let g = r.entry in cc))
    by_entry (some t) e ih = elim (Bool-cases (is_child pid me t && eq_state t.state died)) [
      | inl hit ↦ (
        i,
        rw hit refl,
        record { child = t; entry = e; asked = ground (arith, hit); gone = ground (arith, hit) },
      )
      | inr miss ↦
          let (k, f, w) = ih (h || is_child pid me t) (λ same. not_here same miss) in
          (k, rw miss f, w)
    ]
      where
        not_here : i ≡ j → (is_child pid me t && eq_state t.state died) ≡ false → ⊥
        not_here same miss =
            let f : some t ≡ some r.child = sym e ∙ ap table same ∙ r.entry in
            let g : t ≡ r.child = cc in
            let a : is_child pid me t ≡ true = ap (is_child pid me) g ∙ r.asked in
            let b : eq_state t.state died ≡ true = ap (λ v. eq_state v.state died) g ∙ r.gone in
            let c = rw (a, b) at miss in cc
