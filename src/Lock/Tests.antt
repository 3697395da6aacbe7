-- ===== src/Lock/Tests.antt =====
-- A run of two tasks: task 1 takes the lock, task 2 waits for it.
use polaris_os.Lock.{
  outside, testing, blocked, granted, inside, leaving, Lock, move, lock_init, lock_enter,
  mutex_lock, lock_take, lock_release, mutex_unlock, enter, test, grant, Reachable, fresh, after,
}
use polaris_os.Lock.Exclusion.{Owned}
use polaris_os.Lock.Runs.{Reachable-exclusive, Reachable-Returns}
use polaris_os.Prelude.{
  ◌==◌, if◌then◌else◌, Returns, os_magic, ℕ, ◌≡◌, refl, true, false, none, some, [], ◌∷◌,
}

abbrev one_testing : Lock
one_testing = record {
  value = false;
  waiters = [];
  holder = none;
  repeat = 0;
  at_point = λ u. if 1 == u then testing else outside;
  magic = λ u. os_magic;
}

abbrev one_granted : Lock
one_granted = record one_testing {
  value = true;
  at_point = λ u. if 1 == u then granted else one_testing.at_point u;
}

abbrev one_inside : Lock
one_inside = record one_granted {
  holder = some 1;
  repeat = 1;
  at_point = λ u. if 1 == u then inside else one_granted.at_point u;
}

abbrev two_testing : Lock
two_testing = record one_inside {
  at_point = λ u. if 2 == u then testing else one_inside.at_point u;
}

abbrev two_blocked : Lock
two_blocked = record two_testing {
  waiters = 2 ∷ [];
  at_point = λ u. if 2 == u then blocked else two_testing.at_point u;
}

two_blocked-Reachable : Reachable two_blocked
unfolding lock_init lock_enter mutex_lock lock_take move
two_blocked-Reachable =
    after {l = two_testing}
      (after {l = one_inside}
        (after {l = one_granted}
          (after {l = one_testing}
            (after {l = lock_init (λ u. os_magic)} (fresh (λ u. os_magic)) (enter 1 refl refl))
            (test 1 refl refl))
          (grant 1 refl refl))
        (enter 2 refl refl))
      (test 2 refl refl)

Reachable-exclusive_example :
    (◌≡◌ {A = ℕ} 1 1) × (two_blocked.holder ≡ some 1) × (two_blocked.value ≡ true)
Reachable-exclusive_example = Reachable-exclusive two_blocked 1 1 two_blocked-Reachable refl refl

Reachable-Returns_example :
    (two_blocked.at_point 1 ≡ granted → Returns Owned (lock_take 1 two_blocked))
    × (two_blocked.at_point 1 ≡ inside → Returns Owned (lock_release 1 two_blocked))
    × (two_blocked.at_point 1 ≡ leaving → Returns Owned (mutex_unlock 1 two_blocked))
Reachable-Returns_example = Reachable-Returns two_blocked 1 two_blocked-Reachable (λ u. refl)
