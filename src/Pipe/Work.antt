-- ===== src/Pipe/Work.antt =====
-- Each time that a blocked task runs on, less is left to do.
use mathlib.Core.Path.{subst}
use polaris_os.Prelude.{
  if◌then◌else◌, length, ◌>>=◌, ◌>>◌, assert, ℕ, zero, suc, ◌+◌, ◌≤◌, ◌<◌, ◌≡◌, refl, sym, ap, ◌∙◌,
  Bool, true, false, not, Option, none, some, List, [], ◌∷◌, ◌++◌, arith,
}
use polaris_os.Fifo.{Fifo, fifo_full, fifo_empty, fifo_get, fifo_put}
use polaris_os.Pipe.Sides.{owed, pending}
use polaris_os.Pipe.Runs.{unblocked_writer, unblocked_reader}
use polaris_os.Pipe.{
  Side, idle, asleep, woken, Pipe, task_unblock, wake_writer, wake_reader, read_byte, read_loop,
  resume_read, write_byte, write_loop, resume_write, Resumption, resumes_read, resumes_write,
}

-- If it returns, the result satisfies `P`.
pub data May {A : Type 0} (P : A → Type 0) : Option A → Type 0 where
  may_stop : May P none
  may : {a : A} → P a → May P (some a)

May-bind :
    {A B : Type 0} {P : A → Type 0} {Q : B → Type 0} {m : Option A} {f : A → Option B}
    → May P m
    → ((a : A) → P a → May Q (f a))
    → May Q (m >>= f)
May-bind may_stop next = may_stop
May-bind (may h) next = next _ h

-- At most `r` bytes are left to get and `w` to put; no call has been added.
pub record Left (r w : ℕ) (p p' : Pipe) : Type 0 where
  pub to_get : owed p'.reader ≤ r
  pub to_put : length (pending p'.writer) ≤ w
  pub same_asked : p'.asked ≡ p.asked
  pub same_given : p'.given ≡ p.given

pending-unblock :
    (s : Side (ℕ × List ℕ)) (b : Bool) → pending (if b then task_unblock s else s) ≡ pending s
unfolding pending
pending-unblock s false = refl
pending-unblock idle true = refl
pending-unblock (asleep w) true = refl
pending-unblock (woken w) true = refl

owed-unblock : (s : Side ℕ) (b : Bool) → owed (if b then task_unblock s else s) ≡ owed s
unfolding owed
owed-unblock s false = refl
owed-unblock idle true = refl
owed-unblock (asleep k) true = refl
owed-unblock (woken k) true = refl

-- A byte got leaves the writer's work as it was, a byte put the reader's.
record Got (p p' : Pipe) : Type 0 where
  others : pending p'.writer ≡ pending p.writer
  asks : p'.asked ≡ p.asked
  gives : p'.given ≡ p.given

record Put (p p' : Pipe) : Type 0 where
  others : owed p'.reader ≡ owed p.reader
  asks : p'.asked ≡ p.asked
  gives : p'.given ≡ p.given

read_byte-Got : (p : Pipe) → May (Got p) (read_byte p)
unfolding read_byte
read_byte-Got p = by_byte (fifo_get p.fifo)
  where
    by_byte :
        (o : Option (ℕ × Fifo))
        → May (Got p) (do
          (byte, fifo) ← o
          some (wake_writer (record p { fifo = fifo; received = p.received ++ byte ∷ [] })))
    by_byte none = may_stop
    by_byte (some (byte, fifo)) =
        let p1 = record p { fifo = fifo; received = p.received ++ byte ∷ [] } in
        may (
          subst (Got p) (sym (unblocked_writer p1))
            (record { others = pending-unblock p.writer p.txwaiter; asks = refl; gives = refl }))

write_byte-Put : (byte : ℕ) (p : Pipe) → May (Put p) (write_byte byte p)
unfolding write_byte
write_byte-Put byte p = by_ring (fifo_put p.fifo byte)
  where
    by_ring :
        (o : Option Fifo) → May (Put p) (do fifo ← o; some (wake_reader (record p { fifo = fifo })))
    by_ring none = may_stop
    by_ring (some fifo) =
        let p1 = record p { fifo = fifo } in
        may (
          subst (Put p) (sym (unblocked_reader p1))
            (record { others = owed-unblock p.reader p.rxwaiter; asks = refl; gives = refl }))

read_loop-Left :
    (left : ℕ) (p q : Pipe)
    → Got p q
    → May (Left left (length (pending p.writer)) p) (read_loop left q)
unfolding read_loop owed
read_loop-Left zero p q g = may (record {
  to_get = omega arith;
  to_put = omega (arith, ap length g.others);
  same_asked = g.asks;
  same_given = g.gives;
})
read_loop-Left (suc left) p q g = by_test (fifo_empty q.fifo) q.rxwaiter (
    May-bind (read_byte-Got q) (λ q' g'. weaken (
      read_loop-Left left p q' (record {
        others = g'.others ∙ g.others;
        asks = g'.asks ∙ g.asks;
        gives = g'.gives ∙ g.gives;
      }))))
  where
    weaken :
        {o : Option Pipe}
        → May (Left left (length (pending p.writer)) p) o
        → May (Left (suc left) (length (pending p.writer)) p) o
    weaken may_stop = may_stop
    weaken (may l) = may (record {
      to_get = omega (arith, l.to_get);
      to_put = l.to_put;
      same_asked = l.same_asked;
      same_given = l.same_given;
    })

    by_test :
        (b waits : Bool) {o : Option Pipe}
        → May (Left (suc left) (length (pending p.writer)) p) o
        → May (Left (suc left) (length (pending p.writer)) p) (
            if b
            then (do assert (not waits); some (record q { rxwaiter = true; reader = asleep left }))
            else o)
    by_test false waits m = m
    by_test true true m = may_stop
    by_test true false m = may (record {
      to_get = omega arith;
      to_put = omega (arith, ap length g.others);
      same_asked = g.asks;
      same_given = g.gives;
    })

write_loop-Left :
    (left : List ℕ) (p q : Pipe)
    → Put p q
    → May (Left (owed p.reader) (length left) p) (write_loop left q)
unfolding write_loop pending
write_loop-Left [] p q g = may (record {
  to_get = omega (arith, g.others);
  to_put = omega arith;
  same_asked = g.asks;
  same_given = g.gives;
})
write_loop-Left (x ∷ left) p q g = by_test (fifo_full q.fifo) q.txwaiter (
    May-bind (write_byte-Put x q) (λ q' g'. weaken (
      write_loop-Left left p q' (record {
        others = g'.others ∙ g.others;
        asks = g'.asks ∙ g.asks;
        gives = g'.gives ∙ g.gives;
      }))))
  where
    weaken :
        {o : Option Pipe}
        → May (Left (owed p.reader) (length left) p) o
        → May (Left (owed p.reader) (suc (length left)) p) o
    weaken may_stop = may_stop
    weaken (may l) = may (record {
      to_get = l.to_get;
      to_put = omega (arith, l.to_put);
      same_asked = l.same_asked;
      same_given = l.same_given;
    })

    by_test :
        (b waits : Bool) {o : Option Pipe}
        → May (Left (owed p.reader) (suc (length left)) p) o
        → May (Left (owed p.reader) (suc (length left)) p) (
            if b
            then (do
              assert (not waits)
              some (record q { txwaiter = true; writer = asleep (x, left) }))
            else o)
    by_test false waits m = m
    by_test true true m = may_stop
    by_test true false m = may (record {
      to_get = omega (arith, g.others);
      to_put = omega arith;
      same_asked = g.asks;
      same_given = g.gives;
    })

from_may : {P : Pipe → Type 0} {o : Option Pipe} (p' : Pipe) → May P o → o ≡ some p' → P p'
from_may p' may_stop e = cc
from_may {P} p' (may {a} h) e = let same : a ≡ p' = cc in subst P same h

-- The bytes that are left to get and to put.
unfoldable pub work : Pipe → ℕ
work p = owed p.reader + length (pending p.writer)

pub Resumption-work :
    (p p' : Pipe)
    → Resumption p p'
    → (work p' < work p) × (p'.asked ≡ p.asked) × (p'.given ≡ p.given)
unfolding work resume_read resume_write owed pending
Resumption-work p p' (resumes_read left e r) =
    let l = from_may p' (May-bind (read_byte-Got p) (λ q g. read_loop-Left left p q g)) r in
    (omega (arith, l.to_get, l.to_put, ap owed e), l.same_asked, l.same_given)
Resumption-work p p' (resumes_write (x, left) e r) =
    let l = from_may p' (May-bind (write_byte-Put x p) (λ q g. write_loop-Left left p q g)) r in
    (omega (arith, l.to_get, l.to_put, ap (λ w. length (pending w)) e), l.same_asked, l.same_given)
