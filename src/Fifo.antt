-- ===== src/Fifo.antt =====
-- src/lib/fifo.c: a ring of bytes with one slot kept free. `pos + 1` is a `u32` sum.
pub mod Queue
pub mod Refine
pub mod Room
mod Tests
use polaris_os.Prelude.{
  ltb, ◌==◌, if◌then◌else◌, length, get_elem?, set, ◌>>=◌, ◌>>◌, assert, ℕ, zero, suc, ◌+◌, ◌%◌,
  ◌^◌, Bool, not, Option, none, some, List,
}

pub record Fifo : Type 0 where
  pub buf : List ℕ
  pub size : ℕ
  pub head : ℕ
  pub tail : ℕ

unfoldable pub fifo_next : Fifo → ℕ → ℕ
fifo_next f pos = (pos + 1) % 2 ^ 32 % f.size

unfoldable pub fifo_init : List ℕ → ℕ → Fifo
fifo_init buf size = record { buf = buf; size = size; head = 0; tail = 0 }

unfoldable pub fifo_full : Fifo → Bool
unfolding fifo_next
fifo_full f = fifo_next f f.tail == f.head

unfoldable pub fifo_empty : Fifo → Bool
fifo_empty f = f.head == f.tail

unfoldable pub fifo_get : Fifo → Option (ℕ × Fifo)
unfolding fifo_empty fifo_next
fifo_get f = do
  assert (not (fifo_empty f))
  byte ← get_elem? f.buf f.head
  some (byte, record f { head = fifo_next f f.head })

-- `while (fifo_full(fifo)) fifo_get(fifo);` with fuel; `none` is also what lack of fuel gives.
unfoldable pub make_room : ℕ → Fifo → Option Fifo
unfolding fifo_full fifo_get
make_room zero f = none
make_room (suc fuel) f =
    if fifo_full f then (do (byte, f') ← fifo_get f; make_room fuel f') else some f

-- Two rounds of fuel are enough: see `Queue`. A store outside the buffer is `none`.
unfoldable pub fifo_put : Fifo → ℕ → Option Fifo
fifo_put f byte = do
  g ← make_room 2 f
  assert (ltb g.tail (length g.buf))
  some (record g { buf = set g.buf g.tail byte; tail = fifo_next g g.tail })
