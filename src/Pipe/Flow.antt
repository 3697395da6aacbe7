-- ===== src/Pipe/Flow.antt =====
-- A pipe as its two tasks see it, in any order of their steps.
use mathlib.Core.List.{append_assoc, append-nil}
use polaris_os.Prelude.{
  length, ◌>>=◌, Returns, Returns-bind, ℕ, suc, ◌+◌, ◌≡◌, refl, sym, ap, ◌∙◌, Bool, false, List,
  ◌∷◌, ◌++◌, arith,
}
use polaris_os.Fifo.Refine.{Holds}
use polaris_os.Pipe.Runs.{read_byte-Reading, read_loop-Sound, write_byte-Writing, write_loop-Sound}
use polaris_os.Pipe.Sides.{
  ReadSide, read_idle, read_asleep, read_woken, WriteSide, write_idle, write_asleep, write_woken,
  owed, pending, Sound,
}
use polaris_os.Pipe.{
  Side, idle, woken, Pipe, read_byte, read_loop, pipe_read, resume_read, write_byte, write_loop,
  pipe_write, resume_write,
}

module _ (n : ℕ) (p : Pipe) (s : Sound n p) where
  pub pipe_read-Sound : (count : ℕ) → p.reader ≡ idle → Returns (Sound n) (pipe_read count p)
  unfolding pipe_read owed
  pipe_read-Sound count e =
      read_loop-Sound n count (record p { asked = p.asked + count })
        (record {
          q = s.q;
          holds = s.holds;
          flow = s.flow;
          balance = omega (arith, s.balance, ap owed e);
          awake = not_waiting p.reader p.rxwaiter s.q s.reads_at e;
          writes_at = s.writes_at;
        })
    where
      not_waiting : (r : Side ℕ) (rx : Bool) (q : List ℕ) → ReadSide r rx q → r ≡ idle → rx ≡ false
      not_waiting r rx q read_idle i = refl
      not_waiting r rx q read_asleep i = cc
      not_waiting r rx q read_woken i = refl

  pub pipe_write-Sound : (buf : List ℕ) → p.writer ≡ idle → Returns (Sound n) (pipe_write buf p)
  unfolding pipe_write pending
  pipe_write-Sound buf e =
      write_loop-Sound n buf (record p { given = p.given ++ buf })
        (record {
          q = s.q;
          holds = s.holds;
          flow =
              sym (append_assoc p.received s.q buf)
              ∙ ap (λ l. l ++ buf)
                  (ap (λ l. p.received ++ l)
                      (sym (append-nil s.q) ∙ ap (λ w. s.q ++ pending w) (sym e))
                    ∙ s.flow);
          balance = s.balance;
          awake = not_waiting p.writer p.txwaiter s.writes_at e;
          reads_at = s.reads_at;
        })
    where
      not_waiting :
          (w : Side (ℕ × List ℕ)) (tx : Bool) → WriteSide n w tx s.q → w ≡ idle → tx ≡ false
      not_waiting w tx write_idle i = refl
      not_waiting w tx (write_asleep full) i = cc
      not_waiting w tx (write_woken room) i = refl

  pub resume_read-Sound :
      (left : ℕ) → p.reader ≡ woken left → Returns (Sound n) (resume_read left p)
  unfolding resume_read owed
  resume_read-Sound left e =
      by_side p.reader p.rxwaiter s.q s.reads_at e refl s.holds s.flow s.writes_at
    where
      bal : length p.received + suc left ≡ p.asked
      bal = omega (arith, s.balance, ap owed e)

      by_side :
          (r : Side ℕ) (rx : Bool) (q : List ℕ)
          → ReadSide r rx q
          → r ≡ woken left
          → p.rxwaiter ≡ rx
          → Holds n q p.fifo
          → p.received ++ (q ++ pending p.writer) ≡ p.given
          → WriteSide n p.writer p.txwaiter q
          → Returns (Sound n) (do p' ← read_byte p; read_loop left p')
      by_side r rx q read_idle i a h flow w = cc
      by_side r rx q read_asleep i a h flow w = cc
      by_side r rx q (read_woken {x = x} {q = q'}) i a h flow w =
          Returns-bind (read_byte-Reading n left x q' p h flow bal a w) (read_loop-Sound n left)

  pub resume_write-Sound :
      (w : ℕ × List ℕ) → p.writer ≡ woken w → Returns (Sound n) (resume_write w p)
  unfolding resume_write pending
  resume_write-Sound (x, left) e =
      by_side p.writer p.txwaiter s.q s.writes_at e refl s.holds s.reads_at flow
    where
      flow : p.received ++ (s.q ++ x ∷ left) ≡ p.given
      flow = ap (λ w. p.received ++ (s.q ++ pending w)) (sym e) ∙ s.flow

      by_side :
          (w : Side (ℕ × List ℕ)) (tx : Bool) (q : List ℕ)
          → WriteSide n w tx q
          → w ≡ woken (x, left)
          → p.txwaiter ≡ tx
          → Holds n q p.fifo
          → ReadSide p.reader p.rxwaiter q
          → p.received ++ (q ++ x ∷ left) ≡ p.given
          → Returns (Sound n) (do p' ← write_byte x p; write_loop left p')
      by_side w tx q write_idle i a h r flow = cc
      by_side w tx q (write_asleep full) i a h r flow = cc
      by_side w tx q (write_woken room) i a h r flow =
          Returns-bind (write_byte-Writing n x left q p h (omega (arith, room)) flow s.balance a r)
            (write_loop-Sound n left)
