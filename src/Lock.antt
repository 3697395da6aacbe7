-- ===== src/Lock.antt =====
-- src/kernel/mutex.c: one lock, as its tasks reach it. A task runs from one point to the next without
-- another one in between: interrupts are off in mutex_lock and mutex_unlock, and the other writes are
-- to fields that only the task that has the mutex changes. `none` is a failed assertion.
pub mod Exclusion
pub mod Steps
pub mod Runs
mod Tests
use polaris_os.Prelude.{
  ltb, ◌==◌, if◌then◌else◌, ◌>>=◌, ◌>>◌, assert, os_magic, ℕ, ◌+◌, ◌-◌, ◌%◌, ◌^◌, ◌<◌, ◌≡◌, Bool,
  true, false, Option, none, some, List, [], ◌∷◌,
}

-- Where a task stands: outside; at the test of the loop of `mutex_lock`; blocked by it; behind
-- `mutex_lock` with the mutex; behind `lock_acquire`; or in `lock_release` at `mutex_unlock`.
pub data Point : Type 0 where
  outside : Point
  testing : Point
  blocked : Point
  granted : Point
  inside : Point
  leaving : Point

-- `waiters` begins at the head of the list; a wait adds there, a wake takes from the other end.
-- `magic` is the field of the tasks, which nothing here writes.
pub record Lock : Type 0 where
  pub value : Bool
  pub waiters : List ℕ
  pub holder : Option ℕ
  pub repeat : ℕ
  pub at_point : ℕ → Point
  pub magic : ℕ → ℕ

unfoldable pub move : ℕ → Point → Lock → Lock
move t p l = record l { at_point = λ u. if t == u then p else l.at_point u }

abbrev pub holds : ℕ → Option ℕ → Bool
holds t none = false
holds t (some u) = t == u

unfoldable pub lock_init : (magic : ℕ → ℕ) → Lock
lock_init magic = record {
  value = false;
  waiters = [];
  holder = none;
  repeat = 0;
  at_point = λ t. outside;
  magic = magic;
}

-- `lock_acquire` up to `mutex_lock`, or all of it for the holder.
unfoldable pub lock_enter : ℕ → Lock → Option Lock
lock_enter t l =
    if holds t l.holder
    then some (record l { repeat = (l.repeat + 1) % 2 ^ 32 })
    else some (move t testing l)

-- A round of the loop of `mutex_lock`, with what follows the loop.
unfoldable pub mutex_lock : ℕ → Lock → Option Lock
mutex_lock t l =
    if l.value
    then some (move t blocked (record l { waiters = t ∷ l.waiters }))
    else some (move t granted (record l { value = true }))

-- `lock_acquire` behind `mutex_lock`.
unfoldable pub lock_take : ℕ → Lock → Option Lock
lock_take t l = do
  assert (l.repeat == 0)
  some (move t inside (record l { holder = some t; repeat = 1 }))

-- `lock_release` up to `mutex_unlock`.
unfoldable pub lock_release : ℕ → Lock → Option Lock
lock_release t l = do
  assert (holds t l.holder)
  if ltb 1 l.repeat
      then some (record l { repeat = l.repeat - 1 })
      else do assert (l.repeat == 1); some (move t leaving (record l { holder = none; repeat = 0 }))

-- The last waiter and those before it.
unfoldable pub take_last : ℕ → List ℕ → List ℕ × ℕ
take_last t [] = ([], t)
take_last t (u ∷ waiters) = let (front, last) = take_last u waiters in (t ∷ front, last)

-- The last waiter goes on at its test.
unfoldable pub wake_last : List ℕ → Lock → Option Lock
wake_last [] l = some l
wake_last (u ∷ waiters) l = do
  let (front, last) = take_last u waiters
  assert (l.magic last == os_magic)
  some (move last testing (record l { waiters = front }))

unfoldable pub mutex_unlock : ℕ → Lock → Option Lock
mutex_unlock t l = do
  assert l.value
  wake_last l.waiters (move t outside (record l { value = false }))

-- A step of one task from where it stands. The holder acquires again fewer than 2^32 times.
pub data Step (l : Lock) : Lock → Type 0 where
  enter : {l' : Lock} (t : ℕ) → l.at_point t ≡ outside → lock_enter t l ≡ some l' → Step l l'
  again :
      {l' : Lock} (t : ℕ)
      → l.at_point t ≡ inside
      → l.repeat + 1 < 2 ^ 32
      → lock_enter t l ≡ some l'
      → Step l l'
  test : {l' : Lock} (t : ℕ) → l.at_point t ≡ testing → mutex_lock t l ≡ some l' → Step l l'
  grant : {l' : Lock} (t : ℕ) → l.at_point t ≡ granted → lock_take t l ≡ some l' → Step l l'
  release : {l' : Lock} (t : ℕ) → l.at_point t ≡ inside → lock_release t l ≡ some l' → Step l l'
  leave : {l' : Lock} (t : ℕ) → l.at_point t ≡ leaving → mutex_unlock t l ≡ some l' → Step l l'

-- What any number of steps from a fresh lock reaches.
pub data Reachable : Lock → Type 0 where
  fresh : (magic : ℕ → ℕ) → Reachable (lock_init magic)
  after : {l l' : Lock} → Reachable l → Step l l' → Reachable l'
