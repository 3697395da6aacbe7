-- ===== src/Lock/Exclusion.antt =====
-- The lock is held by one task at a time, and its assertions hold.
use mathlib.Core.Path.{subst}
use polaris_os.Lock.{Point, outside, testing, blocked, granted, inside, leaving, Lock, move}
use polaris_os.Prelude.{
  ℕ, ◌^◌, ◌<◌, ◌≡◌, sym, ap, ◌∙◌, ◌≢◌, Bool, true, false, none, some, arith, ℕ_discrete,
}

-- The points from the end of `mutex_lock` to `mutex_unlock`.
abbrev pub critical : Point → Bool
critical outside = false
critical testing = false
critical blocked = false
critical granted = true
critical inside = true
critical leaving = true

-- The owner of the mutex: it alone is at a critical point, and it is the holder behind `lock_acquire`.
pub record Owns (l : Lock) (t : ℕ) : Type 0 where
  pub value : l.value ≡ true
  pub within : l.at_point t ≡ inside → (l.holder ≡ some t) × (0 < l.repeat) × (l.repeat < 2 ^ 32)
  pub around : l.at_point t ≢ inside → (l.holder ≡ none) × (l.repeat ≡ 0)
  pub here : critical (l.at_point t) ≡ true
  pub others : (u : ℕ) → t ≢ u → critical (l.at_point u) ≡ false

pub data Owned (l : Lock) : Type 0 where
  unowned :
      l.value ≡ false
      → l.holder ≡ none
      → l.repeat ≡ 0
      → ((u : ℕ) → critical (l.at_point u) ≡ false)
      → Owned l
  owned : (t : ℕ) → Owns l t → Owned l

pub owner : (l : Lock) (t : ℕ) → Owned l → critical (l.at_point t) ≡ true → Owns l t
owner l t (unowned v h r all) c = absurd (let e : true ≡ false = sym c ∙ all t in cc)
owner l t (owned o k) c = elim (ℕ_discrete o t) [
  | yes e ↦ subst (Owns l) e k
  | no ne ↦ absurd (let e : true ≡ false = sym c ∙ k.others t ne in cc)
]

pub at_critical :
    (l : Lock) (t : ℕ) (p : Point)
    → l.at_point t ≡ p
    → critical p ≡ true
    → critical (l.at_point t) ≡ true
at_critical l t p e c = ap critical e ∙ c

module _ (l l' : Lock) (t : ℕ) where
  -- A task away from the critical points that stays away.
  pub stay_away :
      l'.value ≡ l.value
      → l'.holder ≡ l.holder
      → l'.repeat ≡ l.repeat
      → critical (l.at_point t) ≡ false
      → critical (l'.at_point t) ≡ false
      → ((u : ℕ) → t ≢ u → l'.at_point u ≡ l.at_point u)
      → Owned l
      → Owned l'
  stay_away v h r from to rest (unowned v0 h0 r0 all) = unowned (v ∙ v0) (h ∙ h0) (r ∙ r0) (λ u.
      elim (ℕ_discrete t u) [
        | yes e ↦ subst (λ x. critical (l'.at_point x) ≡ false) e to
        | no ne ↦ ap critical (rest u ne) ∙ all u
      ])
  stay_away v h r from to rest (owned o k) = elim (ℕ_discrete t o) [
    | yes e ↦
        absurd (
          let x : true ≡ false = sym k.here ∙ ap (λ u. critical (l.at_point u)) (sym e) ∙ from in
          cc)
    | no ne ↦
        let same = rest o ne in
        owned o (record {
          value = v ∙ k.value;
          within = λ i. rw (h, r) (k.within (sym same ∙ i));
          around = λ n. rw (h, r) (k.around (λ i. n (same ∙ i)));
          here = ap critical same ∙ k.here;
          others = λ u apart. elim (ℕ_discrete t u) [
            | yes eq ↦ subst (λ x. critical (l'.at_point x) ≡ false) eq to
            | no neq ↦ ap critical (rest u neq) ∙ k.others u apart
          ];
        })
  ]

  -- The owner that goes on to another critical point.
  pub go_on :
      critical (l'.at_point t) ≡ true
      → ((u : ℕ) → t ≢ u → l'.at_point u ≡ l.at_point u)
      → l'.value ≡ true
      → (l'.at_point t ≡ inside → (l'.holder ≡ some t) × (0 < l'.repeat) × (l'.repeat < 2 ^ 32))
      → (l'.at_point t ≢ inside → (l'.holder ≡ none) × (l'.repeat ≡ 0))
      → ((u : ℕ) → t ≢ u → critical (l.at_point u) ≡ false)
      → Owned l'
  go_on here rest v within around others = owned t (record {
    value = v;
    within = within;
    around = around;
    here = here;
    others = λ u ne. ap critical (rest u ne) ∙ others u ne;
  })

pub moved : (t : ℕ) (p : Point) (l : Lock) → (move t p l).at_point t ≡ p
unfolding move
moved t p l = ground arith

pub unmoved :
    (t : ℕ) (p : Point) (l : Lock) (u : ℕ) → t ≢ u → (move t p l).at_point u ≡ l.at_point u
unfolding move
unmoved t p l u ne = ground (arith, ne)
