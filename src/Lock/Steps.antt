-- ===== src/Lock/Steps.antt =====
-- Every step keeps one owner, and no assertion fails.
use polaris_os.Lock.{
  Point, outside, testing, blocked, granted, inside, leaving, Lock, move, holds, lock_enter,
  mutex_lock, lock_take, lock_release,
}
use polaris_os.Lock.Exclusion.{
  critical, Owned, unowned, owned, owner, at_critical, stay_away, go_on, moved, unmoved,
}
use polaris_os.Prelude.{
  ltb, ◌==◌, if◌then◌else◌, Bool-cases, Returns, returns, ℕ, ◌+◌, ◌-◌, ◌%◌, ◌^◌, ◌<◌, ◌≡◌, refl,
  sym, ap, ◌∙◌, ◌≢◌, inl, inr, Bool, true, false, none, some, ◌∷◌, arith,
}

-- A task outside is not the holder.
not_holder : (l : Lock) (t : ℕ) → Owned l → l.at_point t ≡ outside → holds t l.holder ≡ false
not_holder l t (unowned v h r all) e = rw h refl
not_holder l t (owned o k) e = by_place (l.at_point o) refl
  where
    by_place : (p : Point) → l.at_point o ≡ p → holds t l.holder ≡ false
    by_place inside q =
        let apart : t ≢ o =
          λ s. (let x : l.at_point o ≡ outside = ap l.at_point (sym s) ∙ e in cc) in
        rw ((k.within q).0) (ground (arith, apart))
    by_place outside q = rw ((k.around (λ i. cc)).0) refl
    by_place testing q = rw ((k.around (λ i. cc)).0) refl
    by_place blocked q = rw ((k.around (λ i. cc)).0) refl
    by_place granted q = rw ((k.around (λ i. cc)).0) refl
    by_place leaving q = rw ((k.around (λ i. cc)).0) refl

module _ (l : Lock) (t : ℕ) (o : Owned l) where
  pub enter-Owned : l.at_point t ≡ outside → Returns Owned (lock_enter t l)
  unfolding lock_enter move
  enter-Owned e = rw (not_holder l t o e) (
      returns (
        stay_away l (move t testing l) t refl refl refl (ap critical e)
          (ap critical (moved t testing l)) (unmoved t testing l) o))

  pub again-Owned : l.at_point t ≡ inside → l.repeat + 1 < 2 ^ 32 → Returns Owned (lock_enter t l)
  unfolding lock_enter
  again-Owned e small =
      let k = owner l t o (at_critical l t inside e refl) in
      let (holder, pos, _) = k.within e in
      let mine : holds t l.holder ≡ true = ap (holds t) holder ∙ (ground arith) in
      rw mine (
        returns (
          go_on l (record l { repeat = (l.repeat + 1) % 2 ^ 32 }) t k.here (λ u ne. refl) k.value
            (λ i. (holder, omega arith, omega arith)) (λ n. absurd (n e)) k.others))

  unowned_grant : Owned l → l.value ≡ false → Owned (move t granted (record l { value = true }))
  unfolding move
  unowned_grant (owned u k) free = absurd (let x : true ≡ false = sym k.value ∙ free in cc)
  unowned_grant (unowned v h r all) free =
      let l' = move t granted (record l { value = true }) in
      go_on l l' t (ap critical (moved t granted (record l { value = true })))
        (unmoved t granted (record l { value = true })) refl
        (λ i.
          absurd (
            let x : granted ≡ inside = sym (moved t granted (record l { value = true })) ∙ i in cc))
        (λ n. (h, r)) (λ u ne. all u)

  pub test-Owned : l.at_point t ≡ testing → Returns Owned (mutex_lock t l)
  unfolding mutex_lock move
  test-Owned e = by_value l.value refl
    where
      by_value :
          (b : Bool)
          → l.value ≡ b
          → Returns Owned (
              if b
              then some (move t blocked (record l { waiters = t ∷ l.waiters }))
              else some (move t granted (record l { value = true })))
      by_value true taken = returns (
          stay_away l (move t blocked (record l { waiters = t ∷ l.waiters })) t refl refl refl
            (ap critical e) (ap critical (moved t blocked (record l { waiters = t ∷ l.waiters })))
            (unmoved t blocked (record l { waiters = t ∷ l.waiters })) o)
      by_value false free = returns (unowned_grant o free)

  pub grant-Owned : l.at_point t ≡ granted → Returns Owned (lock_take t l)
  unfolding lock_take move
  grant-Owned e =
      let k = owner l t o (at_critical l t granted e refl) in
      let (_, none_left) = k.around (λ i. cc) in
      let zero_now : (l.repeat == 0) ≡ true = ground (arith, none_left) in
      let l1 = record l { holder = some t; repeat = 1 } in
      rw zero_now (
        returns (
          go_on l (move t inside l1) t (ap critical (moved t inside l1)) (unmoved t inside l1)
            k.value (λ i. (refl, omega arith, omega arith)) (λ n. absurd (n (moved t inside l1)))
            k.others))

  pub release-Owned : l.at_point t ≡ inside → Returns Owned (lock_release t l)
  unfolding lock_release move
  release-Owned e =
      let k = owner l t o (at_critical l t inside e refl) in
      let (holder, pos, small) = k.within e in
      let mine : holds t l.holder ≡ true = ap (holds t) holder ∙ (ground arith) in
      rw mine (elim (Bool-cases (ltb 1 l.repeat)) [
        | inl nested ↦ rw nested (
            returns (
              go_on l (record l { repeat = l.repeat - 1 }) t k.here (λ u ne. refl) k.value
                (λ i. (holder, ground arith, omega arith)) (λ n. absurd (n e)) k.others))
        | inr last ↦
            let one : (l.repeat == 1) ≡ true = ground arith in
            let l1 = record l { holder = none; repeat = 0 } in
            rw (last, one)
              (returns (
                go_on l (move t leaving l1) t (ap critical (moved t leaving l1))
                  (unmoved t leaving l1) k.value
                  (λ i. absurd (let x : leaving ≡ inside = sym (moved t leaving l1) ∙ i in cc))
                  (λ n. (refl, refl)) k.others))
      ])
