-- ===== src/Pipe/Tests.antt =====
-- A reader that asks for two bytes of an empty pipe, and a writer that then gives three.
use polaris_os.Prelude.{
  length, set, take, replicate, length-replicate, Returns, ℕ, ◌≤◌, ◌≡◌, refl, ◌⊎◌, true, false,
  some, List, [], ◌∷◌, arith,
}
use polaris_os.Fifo.{fifo_next, fifo_init, fifo_full, fifo_empty, fifo_get, make_room, fifo_put}
use polaris_os.Pipe.Sides.{Sound}
use polaris_os.Pipe.Live.{
  Reachable-Sound, pipe_never_fails, CanResume, pipe_read_served, pipe_write_served,
}
use polaris_os.Pipe.Work.{work}
use polaris_os.Pipe.{
  idle, asleep, woken, Pipe, get_pipe_inode, read_byte, read_loop, pipe_read, resume_read,
  write_byte, write_loop, pipe_write, resume_write, resumes_read, reads, writes, Reachable, fresh,
  after, Resumed, stays, goes,
}

abbrev page : List ℕ
page = replicate 4096 0

page_size : 4096 ≤ length page
page_size = omega (arith, length-replicate {A = ℕ} 4096 0)

abbrev blocked : Pipe
blocked = record {
  fifo = record { buf = page; size = 4096; head = 0; tail = 0 };
  rxwaiter = true;
  txwaiter = false;
  reader = asleep 1;
  writer = idle;
  received = [];
  asked = 2;
  given = [];
}

abbrev filled : Pipe
filled = record {
  fifo = record { buf = set (set (set page 0 5) 1 6) 2 7; size = 4096; head = 0; tail = 3 };
  rxwaiter = false;
  txwaiter = false;
  reader = woken 1;
  writer = idle;
  received = [];
  asked = 2;
  given = 5 ∷ 6 ∷ 7 ∷ [];
}

blocks : pipe_read 2 (get_pipe_inode page) ≡ some blocked
unfolding pipe_read get_pipe_inode read_loop fifo_init fifo_empty
blocks = refl

wakes : pipe_write (5 ∷ 6 ∷ 7 ∷ []) blocked ≡ some filled
unfolding pipe_write write_loop write_byte fifo_full fifo_put fifo_next make_room
wakes = refl

idle_at_first : (get_pipe_inode page).reader ≡ idle
unfolding get_pipe_inode
idle_at_first = refl

filled-Reachable : Reachable page filled
filled-Reachable =
    after (after fresh (reads 2 idle_at_first blocks)) (writes (5 ∷ 6 ∷ 7 ∷ []) refl wakes)

abbrev served : Pipe
served = record {
  fifo = record { buf = set (set (set page 0 5) 1 6) 2 7; size = 4096; head = 2; tail = 3 };
  rxwaiter = false;
  txwaiter = false;
  reader = idle;
  writer = idle;
  received = 5 ∷ 6 ∷ [];
  asked = 2;
  given = 5 ∷ 6 ∷ 7 ∷ [];
}

runs_on : resume_read 1 filled ≡ some served
unfolding resume_read read_loop read_byte fifo_get fifo_empty fifo_next
runs_on = refl

served-Resumed : Resumed 1 filled served
served-Resumed = goes (resumes_read 1 refl runs_on) stays

Reachable-Sound_example : Sound 4096 filled
Reachable-Sound_example = Reachable-Sound page filled page_size filled-Reachable

pipe_never_fails_example :
    ((count : ℕ) → filled.reader ≡ idle → Returns (Sound 4096) (pipe_read count filled))
    × ((bytes : List ℕ) → filled.writer ≡ idle → Returns (Sound 4096) (pipe_write bytes filled))
    × ((left : ℕ) → filled.reader ≡ woken left → Returns (Sound 4096) (resume_read left filled))
    × ((w : ℕ × List ℕ) → filled.writer ≡ woken w → Returns (Sound 4096) (resume_write w filled))
pipe_never_fails_example = pipe_never_fails page filled page_size filled-Reachable

pipe_read_served_example :
    (1 ≤ work filled)
    × (CanResume served ⊎ ((served.reader ≡ idle) × (served.received ≡ take 2 (5 ∷ 6 ∷ 7 ∷ []))))
pipe_read_served_example =
    pipe_read_served page 1 filled served page_size filled-Reachable served-Resumed (omega arith)

pipe_write_served_example : (1 ≤ work filled) × (CanResume served ⊎ (served.writer ≡ idle))
pipe_write_served_example =
    pipe_write_served page 1 filled served page_size filled-Reachable served-Resumed (omega arith)
