-- ===== src/Lock/Runs.antt =====
-- Every run of the lock's tasks: mutual exclusion, and no failed assertion.
use mathlib.Core.Path.{subst}
use polaris_os.Lock.{
  outside, testing, granted, inside, leaving, Lock, move, lock_init, lock_take, lock_release,
  take_last, wake_last, mutex_unlock, Step, enter, again, test, grant, release, leave, Reachable,
  fresh, after,
}
use polaris_os.Lock.Exclusion.{
  critical, Owned, unowned, owned, owner, at_critical, stay_away, moved, unmoved,
}
use polaris_os.Lock.Steps.{enter-Owned, again-Owned, test-Owned, grant-Owned, release-Owned}
use polaris_os.Prelude.{
  ◌==◌, Bool-cases, Returns, returns, os_magic, ℕ, ◌≡◌, refl, sym, ap, ◌∙◌, inl, inr, true, false,
  Option, some, List, [], ◌∷◌, arith, ℕ_discrete,
}

module _ (l : Lock) (t : ℕ) (o : Owned l) where
  freed-Owned : l.at_point t ≡ leaving → Owned (move t outside (record l { value = false }))
  unfolding move
  freed-Owned e =
      let k = owner l t o (at_critical l t leaving e refl) in
      let (h, r) = k.around (λ i. cc) in
      let l1 = record l { value = false } in
      unowned refl h r (λ u. elim (ℕ_discrete t u) [
        | yes same ↦
            subst (λ x. critical ((move t outside l1).at_point x) ≡ false) same
              (ap critical (moved t outside l1))
        | no ne ↦ ap critical (unmoved t outside l1 u ne) ∙ k.others u ne
      ])

  woken-Owned :
      (f : Lock) (last : ℕ) (front : List ℕ)
      → f.value ≡ false
      → Owned f
      → Owned (move last testing (record f { waiters = front }))
  unfolding move
  woken-Owned f last front free (owned u k) =
      absurd (let x : true ≡ false = sym k.value ∙ free in cc)
  woken-Owned f last front free (unowned v h r all) =
      let f1 = record f { waiters = front } in
      stay_away f (move last testing f1) last refl refl refl (all last)
        (ap critical (moved last testing f1)) (unmoved last testing f1) (unowned v h r all)

  freed_value : (move t outside (record l { value = false })).value ≡ false
  unfolding move
  freed_value = refl

  freed_magic : (u : ℕ) → (move t outside (record l { value = false })).magic u ≡ l.magic u
  unfolding move
  freed_magic u = refl

  waiters_left :
      (ws : List ℕ) (f : Lock)
      → f.value ≡ false
      → Owned f
      → ((u : ℕ) → f.magic u ≡ l.magic u)
      → ((l' : Lock) → wake_last ws f ≡ some l' → Owned l')
        × (((u : ℕ) → l.magic u ≡ os_magic) → Returns Owned (wake_last ws f))
  unfolding wake_last
  waiters_left [] f free w same =
      (λ l' e. (let x : f ≡ l' = cc in subst Owned x w), λ all. returns w)
  waiters_left (u ∷ ws) f free w same =
      let front = (take_last u ws).0 in
      let last = (take_last u ws).1 in
      let woken = woken-Owned f last front free w in
      (
        λ l' e. elim (Bool-cases (f.magic last == os_magic)) [
          | inl marked ↦
              let g = rw marked at e in
              let x : move last testing (record f { waiters = front }) ≡ l' = cc in
              subst Owned x woken
          | inr other ↦ (let g = rw other at e in cc)
        ],
        λ all.
            let marked : (f.magic last == os_magic) ≡ true = ground (arith, same last, all last) in
            rw marked (returns woken),
      )

  -- What `mutex_unlock` leaves, if it returns; it does where the tasks have their mark.
  leaves-Owned :
      l.at_point t ≡ leaving
      → ((l' : Lock) → mutex_unlock t l ≡ some l' → Owned l')
        × (((u : ℕ) → l.magic u ≡ os_magic) → Returns Owned (mutex_unlock t l))
  unfolding mutex_unlock
  leaves-Owned e =
      let k = owner l t o (at_critical l t leaving e refl) in rw (k.value) (by_waiters l.waiters)
    where
      freed : Lock
      freed = move t outside (record l { value = false })

      by_waiters :
          (ws : List ℕ)
          → ((l' : Lock) → wake_last ws freed ≡ some l' → Owned l')
            × (((u : ℕ) → l.magic u ≡ os_magic) → Returns Owned (wake_last ws freed))
      by_waiters ws = waiters_left ws freed freed_value (freed-Owned e) freed_magic

from_returns : {P : Lock → Type 0} {o : Option Lock} (l' : Lock) → Returns P o → o ≡ some l' → P l'
from_returns {P} l' (returns {a} p) e = let same : a ≡ l' = cc in subst P same p

Step-Owned : (l l' : Lock) → Owned l → Step l l' → Owned l'
Step-Owned l l' o (enter t e r) = from_returns l' (enter-Owned l t o e) r
Step-Owned l l' o (again t e small r) = from_returns l' (again-Owned l t o e small) r
Step-Owned l l' o (test t e r) = from_returns l' (test-Owned l t o e) r
Step-Owned l l' o (grant t e r) = from_returns l' (grant-Owned l t o e) r
Step-Owned l l' o (release t e r) = from_returns l' (release-Owned l t o e) r
Step-Owned l l' o (leave t e r) = (leaves-Owned l t o e).0 l' r

Reachable-Owned : (l : Lock) → Reachable l → Owned l
unfolding lock_init
Reachable-Owned l (fresh magic) = unowned refl refl refl (λ u. refl)
Reachable-Owned l (after {l = l0} reach s) = Step-Owned l0 l (Reachable-Owned l0 reach) s

-- Whatever steps the tasks have taken since `lock_init`, in whatever order: two tasks that are behind
-- `lock_acquire` are the same one, and it is the holder of the lock and has the mutex.
pub Reachable-exclusive :
    (l : Lock) (t u : ℕ)
    → Reachable l
    → l.at_point t ≡ inside
    → l.at_point u ≡ inside
    → (t ≡ u) × (l.holder ≡ some t) × (l.value ≡ true)
Reachable-exclusive l t u reach a b =
    let o = Reachable-Owned l reach in
    let k = owner l t o (at_critical l t inside a refl) in
    let m = owner l u o (at_critical l u inside b refl) in
    let same : some t ≡ some u = sym ((k.within a).0) ∙ (m.within b).0 in
    (cc, (k.within a).0, k.value)

-- Whatever steps the tasks have taken since `lock_init`, where every task has its mark: no assertion of
-- `lock_acquire`, `lock_release` or `mutex_unlock` itself fails where a task comes to it.
pub Reachable-Returns :
    (l : Lock) (t : ℕ)
    → Reachable l
    → ((u : ℕ) → l.magic u ≡ os_magic)
    → (l.at_point t ≡ granted → Returns Owned (lock_take t l))
      × (l.at_point t ≡ inside → Returns Owned (lock_release t l))
      × (l.at_point t ≡ leaving → Returns Owned (mutex_unlock t l))
Reachable-Returns l t reach marked =
    let o = Reachable-Owned l reach in
    (grant-Owned l t o, release-Owned l t o, λ e. (leaves-Owned l t o e).1 marked)
