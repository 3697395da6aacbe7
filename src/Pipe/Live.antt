-- ===== src/Pipe/Live.antt =====
-- Any order of the steps of the two tasks: the bytes arrive in order, and nobody waits in vain.
use mathlib.Core.Path.{subst}
use polaris_os.Prelude.{
  length, length-append, take, Returns, returns, ℕ, zero, suc, ◌+◌, ◌≤◌, ◌<◌, ◌≡◌, refl, sym, ap,
  ◌∙◌, ◌⊎◌, inl, inr, Bool, Option, some, List, [], ◌∷◌, ◌++◌, arith,
}
use polaris_os.Fifo.Room.{fifo_init-Holds}
use polaris_os.Pipe.Sides.{
  ReadSide, read_idle, read_asleep, read_woken, WriteSide, write_idle, write_asleep, write_woken,
  owed, pending, Sound,
}
use polaris_os.Pipe.Work.{work, Resumption-work}
use polaris_os.Pipe.Flow.{pipe_read-Sound, pipe_write-Sound, resume_read-Sound, resume_write-Sound}
use polaris_os.Pipe.{
  Side, idle, asleep, woken, Pipe, get_pipe_inode, pipe_read, resume_read, pipe_write, resume_write,
  Resumption, resumes_read, resumes_write, Step, reads, writes, resumes, Reachable, fresh, after,
  Resumed, stays, goes,
}
use polaris_os.Fifo.Refine.{Holds, run}

from_returns : {P : Pipe → Type 0} {o : Option Pipe} (p' : Pipe) → Returns P o → o ≡ some p' → P p'
from_returns {P} p' (returns {a} h) e = let same : a ≡ p' = cc in subst P same h

Resumption-Sound : (n : ℕ) (p p' : Pipe) → Sound n p → Resumption p p' → Sound n p'
Resumption-Sound n p p' s (resumes_read left e r) =
    from_returns p' (resume_read-Sound n p s left e) r
Resumption-Sound n p p' s (resumes_write w e r) = from_returns p' (resume_write-Sound n p s w e) r

Step-Sound : (n : ℕ) (p p' : Pipe) → Sound n p → Step p p' → Sound n p'
Step-Sound n p p' s (reads count e r) = from_returns p' (pipe_read-Sound n p s count e) r
Step-Sound n p p' s (writes buf e r) = from_returns p' (pipe_write-Sound n p s buf e) r
Step-Sound n p p' s (resumes r) = Resumption-Sound n p p' s r

-- Whatever the two tasks have done since `get_pipe_inode`, with a buffer of a page: the bytes that the
-- reader was handed, then those in the ring, then those that a blocked `pipe_write` still has to put
-- are all the bytes given, in order; and the reader was handed as many as its calls asked for, less
-- those that a blocked `pipe_read` still has to get.
pub Reachable-Sound : (buf : List ℕ) (p : Pipe) → 4096 ≤ length buf → Reachable buf p → Sound 4096 p
unfolding get_pipe_inode owed pending
Reachable-Sound buf p fits fresh = record {
  q = [];
  holds = fifo_init-Holds buf 4096 (omega arith) (omega arith) fits;
  flow = refl;
  balance = refl;
  reads_at = read_idle;
  writes_at = write_idle;
}
Reachable-Sound buf p fits (after {p = p0} reach s) =
    Step-Sound 4096 p0 p (Reachable-Sound buf p0 fits reach) s

-- Whatever one reader and one writer have done, no assertion of `pipe_read` or `pipe_write` fails, nor
-- that of `fifo_get`, which an unblocked reader calls without a second test: every call and every resumption
-- returns or blocks.
pub pipe_never_fails :
    (buf : List ℕ) (p : Pipe)
    → 4096 ≤ length buf
    → Reachable buf p
    → ((count : ℕ) → p.reader ≡ idle → Returns (Sound 4096) (pipe_read count p))
      × ((bytes : List ℕ) → p.writer ≡ idle → Returns (Sound 4096) (pipe_write bytes p))
      × ((left : ℕ) → p.reader ≡ woken left → Returns (Sound 4096) (resume_read left p))
      × ((w : ℕ × List ℕ) → p.writer ≡ woken w → Returns (Sound 4096) (resume_write w p))
pipe_never_fails buf p fits reach =
    let s = Reachable-Sound buf p fits reach in
    (
      pipe_read-Sound 4096 p s,
      pipe_write-Sound 4096 p s,
      resume_read-Sound 4096 p s,
      resume_write-Sound 4096 p s,
    )

-- An unblocked task that can run on, or neither task unblocked.
pub CanResume : Pipe → Type 0
CanResume p = (p' : Pipe) × Resumption p p'

take-front : (xs ys : List ℕ) (k : ℕ) → length xs ≡ k → take k (xs ++ ys) ≡ xs
take-front [] ys k e = rw (sym e) refl
take-front (x ∷ xs) ys zero e = absurd (omega (arith, e))
take-front (x ∷ xs) ys (suc k) e = ap (λ l. x ∷ l) (take-front xs ys k (omega (arith, e)))

resumed_by :
    {P : Pipe → Type 0} {o : Option Pipe} {p : Pipe}
    → Returns P o
    → ((p' : Pipe) → o ≡ some p' → Resumption p p')
    → CanResume p
unfolding CanResume
resumed_by (returns {a} h) step = (a, step a refl)

module _ (n : ℕ) (p : Pipe) (s : Sound n p) where
  can_read : (left : ℕ) → p.reader ≡ woken left → CanResume p
  can_read left e = resumed_by (resume_read-Sound n p s left e) (λ p' r. resumes_read left e r)

  can_write : (w : ℕ × List ℕ) → p.writer ≡ woken w → CanResume p
  can_write w e = resumed_by (resume_write-Sound n p s w e) (λ p' r. resumes_write w e r)

  length_flow :
      (q : List ℕ) (w : Side (ℕ × List ℕ))
      → p.received ++ (q ++ pending w) ≡ p.given
      → length p.received + (length q + length (pending w)) ≡ length p.given
  length_flow q w flow = omega (
    arith,
    length-append p.received (q ++ pending w),
    length-append q (pending w),
    ap length flow,
  )

  -- With enough bytes given, a reader that is left waiting is unblocked, or the writer is.
  reader_served : p.asked ≤ length p.given → CanResume p ⊎ (p.reader ≡ idle)
  unfolding owed pending
  reader_served enough =
      by_sides p.reader p.writer p.rxwaiter p.txwaiter s.q s.reads_at s.writes_at refl refl s.flow
        s.holds s.balance
    where
      by_sides :
          (r : Side ℕ) (w : Side (ℕ × List ℕ)) (rx tx : Bool) (q : List ℕ)
          → ReadSide r rx q
          → WriteSide n w tx q
          → p.reader ≡ r
          → p.writer ≡ w
          → p.received ++ (q ++ pending w) ≡ p.given
          → Holds n q p.fifo
          → length p.received + owed r ≡ p.asked
          → CanResume p ⊎ (p.reader ≡ idle)
      by_sides r w rx tx q read_idle ws er ew flow h bal = inr er
      by_sides r w rx tx q (read_woken {left = left}) ws er ew flow h bal = inl (can_read left er)
      by_sides r w rx tx q read_asleep write_idle er ew flow h bal =
          absurd (omega (arith, length_flow [] idle flow, bal, enough))
      by_sides r w rx tx q read_asleep (write_asleep full) er ew flow h bal =
          absurd (omega (arith, full, h.valid.room, h.slots))
      by_sides r w rx tx q read_asleep (write_woken {w = left} room) er ew flow h bal =
          inl (can_write left ew)

  -- With enough bytes asked for, a writer that is left waiting is unblocked, or the reader is.
  writer_served : length p.given < p.asked + n → CanResume p ⊎ (p.writer ≡ idle)
  unfolding owed pending
  writer_served enough =
      by_sides p.reader p.writer p.rxwaiter p.txwaiter s.q s.reads_at s.writes_at refl refl s.flow
        s.holds s.balance
    where
      by_sides :
          (r : Side ℕ) (w : Side (ℕ × List ℕ)) (rx tx : Bool) (q : List ℕ)
          → ReadSide r rx q
          → WriteSide n w tx q
          → p.reader ≡ r
          → p.writer ≡ w
          → p.received ++ (q ++ pending w) ≡ p.given
          → Holds n q p.fifo
          → length p.received + owed r ≡ p.asked
          → CanResume p ⊎ (p.writer ≡ idle)
      by_sides r w rx tx q rs write_idle er ew flow h bal = inr ew
      by_sides r w rx tx q rs (write_woken {w = left} room) er ew flow h bal =
          inl (can_write left ew)
      by_sides r w rx tx q read_idle (write_asleep {w = left} full) er ew flow h bal =
          absurd (omega (arith, length_flow q (asleep left) flow, bal, enough, full))
      by_sides r w rx tx q read_asleep (write_asleep full) er ew flow h bal =
          absurd (omega (arith, full, h.valid.room, h.slots))
      by_sides r w rx tx q (read_woken {left = left}) (write_asleep full) er ew flow h bal =
          inl (can_read left er)

  received_front : p.reader ≡ idle → p.received ≡ take p.asked p.given
  unfolding owed
  received_front e =
      sym (
        take-front p.received (s.q ++ pending p.writer) p.asked
          (omega (arith, s.balance, ap owed e)))
      ∙ ap (take p.asked) s.flow

Resumed-Sound :
    (n m : ℕ) (p r : Pipe)
    → Sound n p
    → Resumed m p r
    → Sound n r × (m + work r ≤ work p) × (r.asked ≡ p.asked) × (r.given ≡ p.given)
Resumed-Sound n m p r s stays = (s, omega arith, refl, refl)
Resumed-Sound n m p r s (goes {m = m'} {q = q} first more) =
    let (less, asks, gives) = Resumption-work p q first in
    let (t, rest, asked, given) = Resumed-Sound n m' q r (Resumption-Sound n p q s first) more in
    (t, omega (arith, less, rest), asked ∙ asks, given ∙ gives)

-- From any state that the two tasks can reach, where the calls of `pipe_write` have given at least as
-- many bytes as those of `pipe_read` ask for: the blocked tasks run on at most as many times as bytes
-- are left to get and to put, in any order, and where none can run on any more `pipe_read` has returned
-- and the reader was handed the first of the bytes given, in order, as many as it asked for.
pub pipe_read_served :
    (buf : List ℕ) (m : ℕ) (p r : Pipe)
    → 4096 ≤ length buf
    → Reachable buf p
    → Resumed m p r
    → p.asked ≤ length p.given
    → (m ≤ work p) × (CanResume r ⊎ ((r.reader ≡ idle) × (r.received ≡ take p.asked p.given)))
pipe_read_served buf m p r fits reach run enough =
    let (s, short, asks, gives) = Resumed-Sound 4096 m p r (Reachable-Sound buf p fits reach) run in
    (
      omega (arith, short),
      ends s asks gives (reader_served 4096 r s (omega (arith, enough, asks, ap length gives))),
    )
  where
    ends :
        Sound 4096 r
        → r.asked ≡ p.asked
        → r.given ≡ p.given
        → CanResume r ⊎ (r.reader ≡ idle)
        → CanResume r ⊎ ((r.reader ≡ idle) × (r.received ≡ take p.asked p.given))
    ends s asks gives (inl more) = inl more
    ends s asks gives (inr e) =
        inr (e, received_front 4096 r s e ∙ ap (λ k. take k r.given) asks ∙ ap (take p.asked) gives)

-- The same for the writer, where fewer than 4096 bytes more are given than asked for: `pipe_write` has
-- returned where no task can run on any more.
pub pipe_write_served :
    (buf : List ℕ) (m : ℕ) (p r : Pipe)
    → 4096 ≤ length buf
    → Reachable buf p
    → Resumed m p r
    → length p.given < p.asked + 4096
    → (m ≤ work p) × (CanResume r ⊎ (r.writer ≡ idle))
pipe_write_served buf m p r fits reach run enough =
    let (s, short, asks, gives) = Resumed-Sound 4096 m p r (Reachable-Sound buf p fits reach) run in
    (omega (arith, short), writer_served 4096 r s (omega (arith, enough, asks, ap length gives)))
