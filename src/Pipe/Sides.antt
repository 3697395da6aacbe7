-- ===== src/Pipe/Sides.antt =====
-- The state of a pipe between two runs of its tasks, and what a byte that is got or put does to it.
use polaris_os.Prelude.{
  if◌then◌else◌, length, ℕ, ◌+◌, ◌<◌, ◌≡◌, refl, Bool, true, false, List, [], ◌∷◌, ◌++◌, arith,
}
use polaris_os.Fifo.Refine.{Holds}
use polaris_os.Pipe.{Side, idle, asleep, woken, Pipe, task_unblock}

-- A reader is blocked only while the pipe is empty, and an unblocked one finds a byte.
pub data ReadSide : Side ℕ → (rxwaiter : Bool) → List ℕ → Type 0 where
  read_idle : {q : List ℕ} → ReadSide idle false q
  read_asleep : {left : ℕ} → ReadSide (asleep left) true []
  read_woken : {left x : ℕ} {q : List ℕ} → ReadSide (woken left) false (x ∷ q)

-- A writer is blocked only while the pipe is full, and an unblocked one finds room.
pub data WriteSide (n : ℕ) : Side (ℕ × List ℕ) → (txwaiter : Bool) → List ℕ → Type 0 where
  write_idle : {q : List ℕ} → WriteSide n idle false q
  write_asleep : {w : ℕ × List ℕ} {q : List ℕ} → length q + 1 ≡ n → WriteSide n (asleep w) true q
  write_woken : {w : ℕ × List ℕ} {q : List ℕ} → length q + 1 < n → WriteSide n (woken w) false q

-- The bytes that a reader still has to get, and those that a writer still has to put.
unfoldable pub owed : Side ℕ → ℕ
owed idle = 0
owed (asleep left) = left + 1
owed (woken left) = left + 1

unfoldable pub pending : Side (ℕ × List ℕ) → List ℕ
pending idle = []
pending (asleep (byte, left)) = byte ∷ left
pending (woken (byte, left)) = byte ∷ left

-- What the reader has is the front of what the writer gave, and the rest is in the ring `q` or pending.
pub record Sound (n : ℕ) (p : Pipe) : Type 0 where
  pub q : List ℕ
  pub holds : Holds n q p.fifo
  pub flow : p.received ++ (q ++ pending p.writer) ≡ p.given
  pub balance : length p.received + owed p.reader ≡ p.asked
  pub reads_at : ReadSide p.reader p.rxwaiter q
  pub writes_at : WriteSide n p.writer p.txwaiter q

-- In `pipe_read`, with `left` bytes to get.
pub record Reading (n left : ℕ) (p : Pipe) : Type 0 where
  pub q : List ℕ
  pub holds : Holds n q p.fifo
  pub flow : p.received ++ (q ++ pending p.writer) ≡ p.given
  pub balance : length p.received + left ≡ p.asked
  pub awake : p.rxwaiter ≡ false
  pub writes_at : WriteSide n p.writer p.txwaiter q

-- In `pipe_write`, with the bytes `left` to put.
pub record Writing (n : ℕ) (left : List ℕ) (p : Pipe) : Type 0 where
  pub q : List ℕ
  pub holds : Holds n q p.fifo
  pub flow : p.received ++ (q ++ left) ≡ p.given
  pub balance : length p.received + owed p.reader ≡ p.asked
  pub awake : p.txwaiter ≡ false
  pub reads_at : ReadSide p.reader p.rxwaiter q

-- The side of the writer when a byte is taken from the ring.
pub wake_writer_lem :
    (n x : ℕ) (q : List ℕ) (s : Side (ℕ × List ℕ)) (tx : Bool)
    → WriteSide n s tx (x ∷ q)
    → (WriteSide n (if tx then task_unblock s else s) false q)
      × (pending (if tx then task_unblock s else s) ≡ pending s)
unfolding pending
wake_writer_lem n x q s tx write_idle = (write_idle, refl)
wake_writer_lem n x q s tx (write_asleep full) = (write_woken (omega (arith, full)), refl)
wake_writer_lem n x q s tx (write_woken room) = (write_woken (omega (arith, room)), refl)

pub wake_reader_lem :
    (x : ℕ) (q : List ℕ) (s : Side ℕ) (rx : Bool)
    → ReadSide s rx q
    → (ReadSide (if rx then task_unblock s else s) false (q ++ x ∷ []))
      × (owed (if rx then task_unblock s else s) ≡ owed s)
unfolding owed
wake_reader_lem x q s rx read_idle = (read_idle, refl)
wake_reader_lem x q s rx read_asleep = (read_woken, refl)
wake_reader_lem x q s rx read_woken = (read_woken, refl)
