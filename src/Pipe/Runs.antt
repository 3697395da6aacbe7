-- ===== src/Pipe/Runs.antt =====
-- Every run of a task in the pipe, up to where it blocks or returns, keeps the state sound.
use mathlib.Core.List.{append_assoc}
use polaris_os.Fifo.Room.{fifo_empty-length, fifo_full-length, fifo_put_room}
use mathlib.Core.Path.{subst}
use polaris_os.Prelude.{
  if◌then◌else◌, length, length-append, ◌>>=◌, ◌>>◌, assert, Returns, returns, Returns-bind, ℕ,
  zero, suc, ◌+◌, ◌≡◌, refl, sym, ap, ◌∙◌, ◌≢◌, Bool, true, false, not, some, List, [], ◌∷◌, ◌++◌,
  arith, ℕ_discrete,
}
use polaris_os.Fifo.{fifo_full, fifo_empty}
use polaris_os.Fifo.Refine.{Holds, fifo_get_lem}
use polaris_os.Pipe.Sides.{
  ReadSide, read_idle, read_asleep, WriteSide, write_idle, write_asleep, owed, pending, Sound,
  Reading, Writing, wake_writer_lem, wake_reader_lem,
}
use polaris_os.Pipe.{
  idle, asleep, Pipe, task_unblock, wake_writer, wake_reader, read_byte, read_loop, write_byte,
  write_loop,
}

pub unblocked_writer :
    (p : Pipe)
    → wake_writer p ≡ record p {
      txwaiter = false;
      writer = if p.txwaiter then task_unblock p.writer else p.writer;
    }
unblocked_writer p = by_waiter p.txwaiter refl
  where
    by_waiter :
        (b : Bool)
        → p.txwaiter ≡ b
        → (if b then record p { txwaiter = false; writer = task_unblock p.writer } else p)
          ≡ record p { txwaiter = false; writer = if b then task_unblock p.writer else p.writer }
    by_waiter true e = refl
    by_waiter false e = ap (λ b. record p { txwaiter = b }) e

pub unblocked_reader :
    (p : Pipe)
    → wake_reader p ≡ record p {
      rxwaiter = false;
      reader = if p.rxwaiter then task_unblock p.reader else p.reader;
    }
unblocked_reader p = by_waiter p.rxwaiter refl
  where
    by_waiter :
        (b : Bool)
        → p.rxwaiter ≡ b
        → (if b then record p { rxwaiter = false; reader = task_unblock p.reader } else p)
          ≡ record p { rxwaiter = false; reader = if b then task_unblock p.reader else p.reader }
    by_waiter true e = refl
    by_waiter false e = ap (λ b. record p { rxwaiter = b }) e

-- A byte is taken.
pub read_byte-Reading :
    (n left x : ℕ) (q : List ℕ) (p : Pipe)
    → Holds n (x ∷ q) p.fifo
    → p.received ++ (x ∷ q ++ pending p.writer) ≡ p.given
    → length p.received + suc left ≡ p.asked
    → p.rxwaiter ≡ false
    → WriteSide n p.writer p.txwaiter (x ∷ q)
    → Returns (Reading n left) (read_byte p)
unfolding read_byte
read_byte-Reading n left x q p h flow bal rx w =
    Returns-bind (fifo_get_lem p.fifo n x q h) (λ (y, f) (same, holds).
      let (side, as_before) = wake_writer_lem n x q p.writer p.txwaiter w in
      let p1 = record p { fifo = f; received = p.received ++ y ∷ [] } in
      returns (
        subst (Reading n left) (sym (unblocked_writer p1)) (record {
          q = q;
          holds = holds;
          flow =
              ap (λ l. p.received ++ y ∷ [] ++ (q ++ l)) as_before
              ∙ append_assoc p.received (y ∷ []) (q ++ pending p.writer)
              ∙ ap (λ z. p.received ++ (z ∷ (q ++ pending p.writer))) same
              ∙ flow;
          balance = omega (arith, bal, length-append p.received (y ∷ []));
          awake = rx;
          writes_at = side;
        })))

pub read_loop-Sound :
    (n left : ℕ) (p : Pipe) → Reading n left p → Returns (Sound n) (read_loop left p)
unfolding read_loop owed
read_loop-Sound n zero p r = returns (record {
  q = r.q;
  holds = r.holds;
  flow = r.flow;
  balance = r.balance;
  reads_at = subst (λ b. ReadSide idle b r.q) (sym r.awake) read_idle;
  writes_at = r.writes_at;
})
read_loop-Sound n (suc left) p r = by_queue r.q r.holds r.flow r.writes_at (read_loop-Sound n left)
  where
    by_queue :
        (q : List ℕ)
        → Holds n q p.fifo
        → p.received ++ (q ++ pending p.writer) ≡ p.given
        → WriteSide n p.writer p.txwaiter q
        → ((p' : Pipe) → Reading n left p' → Returns (Sound n) (read_loop left p'))
        → Returns (Sound n) (
            if fifo_empty p.fifo
            then (do
              assert (not p.rxwaiter)
              some (record p { rxwaiter = true; reader = asleep left }))
            else (do p' ← read_byte p; read_loop left p'))
    by_queue [] holds flow w next =
        rw (fifo_empty-length p.fifo n [] holds, r.awake)
          (returns (record {
            q = [];
            holds = holds;
            flow = flow;
            balance = omega (arith, r.balance);
            reads_at = read_asleep;
            writes_at = w;
          }))
    by_queue (x ∷ q) holds flow w next =
        let e : fifo_empty p.fifo ≡ false =
          fifo_empty-length p.fifo n (x ∷ q) holds ∙ (ground arith) in
        rw e (Returns-bind (read_byte-Reading n left x q p holds flow r.balance r.awake w) next)

-- A byte is put.
pub write_byte-Writing :
    (n x : ℕ) (left q : List ℕ) (p : Pipe)
    → Holds n q p.fifo
    → length q + 1 ≢ n
    → p.received ++ (q ++ x ∷ left) ≡ p.given
    → length p.received + owed p.reader ≡ p.asked
    → p.txwaiter ≡ false
    → ReadSide p.reader p.rxwaiter q
    → Returns (Writing n left) (write_byte x p)
unfolding write_byte
write_byte-Writing n x left q p h room flow bal tx s =
    Returns-bind (fifo_put_room p.fifo n x q h room) (λ f holds.
      let (side, as_before) = wake_reader_lem x q p.reader p.rxwaiter s in
      let p1 = record p { fifo = f } in
      returns (
        subst (Writing n left) (sym (unblocked_reader p1)) (record {
          q = q ++ x ∷ [];
          holds = holds;
          flow = ap (λ l. p.received ++ l) (append_assoc q (x ∷ []) left) ∙ flow;
          balance = ap (λ k. length p.received + k) as_before ∙ bal;
          awake = tx;
          reads_at = side;
        })))

pub write_loop-Sound :
    (n : ℕ) (left : List ℕ) (p : Pipe) → Writing n left p → Returns (Sound n) (write_loop left p)
unfolding write_loop pending
write_loop-Sound n [] p r = returns (record {
  q = r.q;
  holds = r.holds;
  flow = r.flow;
  balance = r.balance;
  reads_at = r.reads_at;
  writes_at = subst (λ b. WriteSide n idle b r.q) (sym r.awake) write_idle;
})
write_loop-Sound n (x ∷ left) p r = elim (ℕ_discrete (length r.q + 1) n) [
  | yes full ↦
      let e : fifo_full p.fifo ≡ true =
        fifo_full-length p.fifo n r.q r.holds ∙ (ground (arith, full)) in
      rw (e, r.awake)
        (returns (record {
          q = r.q;
          holds = r.holds;
          flow = r.flow;
          balance = r.balance;
          reads_at = r.reads_at;
          writes_at = write_asleep full;
        }))
  | no room ↦
      let e : fifo_full p.fifo ≡ false =
        fifo_full-length p.fifo n r.q r.holds ∙ (ground (arith, room)) in
      rw e (
        Returns-bind
          (write_byte-Writing n x left r.q p r.holds room r.flow r.balance r.awake r.reads_at)
          (write_loop-Sound n left))
]
