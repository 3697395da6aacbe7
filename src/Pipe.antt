-- ===== src/Pipe.antt =====
-- src/fs/pipe.c: a pipe between the task that reads it and the task that writes it. A system call runs
-- with interrupts off, so a task goes on alone until it blocks or returns. `none` is a failed assertion.
pub mod Sides
pub mod Runs
pub mod Flow
pub mod Work
pub mod Live
mod Tests
use polaris_os.Prelude.{
  if◌then◌else◌, ◌>>=◌, ◌>>◌, assert, ℕ, zero, suc, ◌+◌, ◌≡◌, Bool, true, false, not, Option, some,
  List, [], ◌∷◌, ◌++◌,
}
use polaris_os.Fifo.{Fifo, fifo_init, fifo_full, fifo_empty, fifo_get, fifo_put}

-- Where a task stands: outside of the pipe, blocked in its loop, or unblocked in it but not yet running.
pub data Side (A : Type 0) : Type 0 where
  idle : Side A
  asleep : A → Side A
  woken : A → Side A

-- `rxwaiter` and `txwaiter` tell whether the pointers are set. A blocked reader has one byte to get and
-- the number of those after it, a blocked writer one byte to put and the list of those after it.
-- `received` is what the reader has been handed so far, `asked` and `given` sum up the calls.
pub record Pipe : Type 0 where
  pub fifo : Fifo
  pub rxwaiter : Bool
  pub txwaiter : Bool
  pub reader : Side ℕ
  pub writer : Side (ℕ × List ℕ)
  pub received : List ℕ
  pub asked : ℕ
  pub given : List ℕ

-- `get_pipe_inode`, with the page of the buffer.
unfoldable pub get_pipe_inode : List ℕ → Pipe
get_pipe_inode buf = record {
  fifo = fifo_init buf 4096;
  rxwaiter = false;
  txwaiter = false;
  reader = idle;
  writer = idle;
  received = [];
  asked = 0;
  given = [];
}

abbrev pub task_unblock : {A : Type 0} → Side A → Side A
task_unblock idle = idle
task_unblock (asleep a) = woken a
task_unblock (woken a) = woken a

abbrev pub wake_writer : Pipe → Pipe
wake_writer p =
    if p.txwaiter then record p { txwaiter = false; writer = task_unblock p.writer } else p

abbrev pub wake_reader : Pipe → Pipe
wake_reader p =
    if p.rxwaiter then record p { rxwaiter = false; reader = task_unblock p.reader } else p

-- The rest of a round of the loop of `pipe_read`, behind its test.
unfoldable pub read_byte : Pipe → Option Pipe
read_byte p = do
  (byte, fifo) ← fifo_get p.fifo
  some (wake_writer (record p { fifo = fifo; received = p.received ++ byte ∷ [] }))

-- The loop of `pipe_read` on the bytes left to get.
unfoldable pub read_loop : (left : ℕ) → Pipe → Option Pipe
read_loop zero p = some (record p { reader = idle })
read_loop (suc left) p =
    if fifo_empty p.fifo
    then (do assert (not p.rxwaiter); some (record p { rxwaiter = true; reader = asleep left }))
    else (do p' ← read_byte p; read_loop left p')

unfoldable pub pipe_read : (count : ℕ) → Pipe → Option Pipe
pipe_read count p = read_loop count (record p { asked = p.asked + count })

-- The reader runs again: what follows `task_block` in `pipe_read`.
unfoldable pub resume_read : (left : ℕ) → Pipe → Option Pipe
resume_read left p = do p' ← read_byte p; read_loop left p'

unfoldable pub write_byte : ℕ → Pipe → Option Pipe
write_byte byte p = do fifo ← fifo_put p.fifo byte; some (wake_reader (record p { fifo = fifo }))

-- The loop of `pipe_write` on the bytes left to put.
unfoldable pub write_loop : (left : List ℕ) → Pipe → Option Pipe
write_loop [] p = some (record p { writer = idle })
write_loop (byte ∷ left) p =
    if fifo_full p.fifo
    then (do
      assert (not p.txwaiter)
      some (record p { txwaiter = true; writer = asleep (byte, left) }))
    else (do p' ← write_byte byte p; write_loop left p')

unfoldable pub pipe_write : (buf : List ℕ) → Pipe → Option Pipe
pipe_write buf p = write_loop buf (record p { given = p.given ++ buf })

unfoldable pub resume_write : ℕ × List ℕ → Pipe → Option Pipe
resume_write (byte, left) p = do p' ← write_byte byte p; write_loop left p'

-- A task that was unblocked runs on.
pub data Resumption (p : Pipe) : Pipe → Type 0 where
  resumes_read :
      {p' : Pipe} (left : ℕ)
      → p.reader ≡ woken left
      → resume_read left p ≡ some p'
      → Resumption p p'
  resumes_write :
      {p' : Pipe} (left : ℕ × List ℕ)
      → p.writer ≡ woken left
      → resume_write left p ≡ some p'
      → Resumption p p'

-- A task calls the pipe, or runs on in it.
pub data Step (p : Pipe) : Pipe → Type 0 where
  reads : {p' : Pipe} (count : ℕ) → p.reader ≡ idle → pipe_read count p ≡ some p' → Step p p'
  writes : {p' : Pipe} (buf : List ℕ) → p.writer ≡ idle → pipe_write buf p ≡ some p' → Step p p'
  resumes : {p' : Pipe} → Resumption p p' → Step p p'

-- What any number of steps from a new pipe reaches.
pub data Reachable (buf : List ℕ) : Pipe → Type 0 where
  fresh : Reachable buf (get_pipe_inode buf)
  after : {p p' : Pipe} → Reachable buf p → Step p p' → Reachable buf p'

-- Any number of resumptions, and no calls.
pub data Resumed : ℕ → Pipe → Pipe → Type 0 where
  stays : {p : Pipe} → Resumed 0 p p
  goes : {m : ℕ} {p q r : Pipe} → Resumption p q → Resumed m q r → Resumed (suc m) p r
