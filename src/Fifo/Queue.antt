-- ===== src/Fifo/Queue.antt =====
-- A valid ring holds a queue of fewer than `size` bytes: `fifo_get` takes the oldest, and `fifo_put`
-- appends, after it has dropped the oldest of a full ring.
use native.Mathlib.Nat.{mod-eq_of_lt, mod-eq-sub-mod}
use polaris_os.Prelude.{
  ltb, leb, ◌==◌, if◌then◌else◌, lt→ltb, length, set, get_or, get_or-set, ℕ, zero, suc, ◌+◌, ◌-◌,
  ◌%◌, ◌^◌, ◌≤◌, ◌<◌, ◌≡◌, refl, ap, false, List, [], ◌∷◌, ◌++◌, arith, dec_lt,
}
use polaris_os.Fifo.{Fifo, fifo_next, fifo_full, fifo_empty}

pub record IsValid (f : Fifo) : Type 0 where
  pub room : 2 ≤ f.size
  pub word : f.size < 2 ^ 32
  pub stored : f.size ≤ length f.buf
  pub head_in : f.head < f.size
  pub tail_in : f.tail < f.size

-- One turn round the ring at most.
mod_turn : (a n : ℕ) → a < n + n → a % n ≡ (if ltb a n then a else a - n)
mod_turn a n h = elim (dec_lt a n) [
  | yes p ↦ rw (lt→ltb a n p) (mod-eq_of_lt p)
  | no p ↦
      let t : ltb a n ≡ false = ground arith in
      rw t (
        omega (
          arith,
          mod-eq-sub-mod {n = a} {m = n} (omega arith),
          mod-eq_of_lt {n = a - n} {m = n} (omega arith),
        ))
]

abbrev pub after : ℕ → ℕ → ℕ
after n p = if ltb (p + 1) n then p + 1 else 0

pub fifo_next-after : (f : Fifo) (p : ℕ) → IsValid f → p < f.size → fifo_next f p ≡ after f.size p
unfolding fifo_next
fifo_next-after f p v h =
    let e : (p + 1) % 2 ^ 32 ≡ p + 1 = omega (arith, v.word) in
    rw e (ground (arith, mod_turn (p + 1) f.size (omega arith)))

-- How many bytes are stored.
unfoldable pub count : Fifo → ℕ
count f = if leb f.head f.tail then f.tail - f.head else f.size + f.tail - f.head

module _ (buf : List ℕ) (n : ℕ) where
  -- The `k` bytes from position `p` on, round the ring.
  abbrev pub walk : ℕ → ℕ → List ℕ
  walk p zero = []
  walk p (suc k) = get_or buf p 0 ∷ walk (after n p) k

  length-walk : (p k : ℕ) → length (walk p k) ≡ k
  length-walk p zero = refl
  length-walk p (suc k) = ap suc (length-walk (after n p) k)

-- The bytes of the ring, the oldest first.
unfoldable pub contents : Fifo → List ℕ
contents f = walk f.buf f.size f.head (count f)

pub length-contents : (f : Fifo) → length (contents f) ≡ count f
unfolding contents
length-contents f = length-walk f.buf f.size f.head (count f)

-- The position `k` steps after `p`.
abbrev pub ahead : ℕ → ℕ → ℕ → ℕ
ahead n p k = if ltb (p + k) n then p + k else p + k - n

-- A byte stored right behind the last one extends the walk.
pub walk-set :
    (buf : List ℕ) (n x p k i : ℕ)
    → n ≤ length buf
    → p < n
    → k < n
    → i ≡ ahead n p k
    → walk (set buf i x) n p (suc k) ≡ walk buf n p k ++ x ∷ []
walk-set buf n x p zero i fits hp hk e = ground (arith, get_or-set buf i p x 0 (ground arith))
walk-set buf n x p (suc k) i fits hp hk e = ground (
  arith,
  get_or-set buf i p x 0 (ground arith),
  walk-set buf n x (after n p) k i fits (ground arith) (omega arith) (ground arith),
)

module _ (f : Fifo) (v : IsValid f) where
  pub count-lt : count f < f.size
  unfolding count
  count-lt = ground (arith, v.head_in, v.tail_in)

  -- The tail stands behind the last byte.
  pub tail_ahead : f.tail ≡ ahead f.size f.head (count f)
  unfolding count
  tail_ahead = ground (arith, v.head_in, v.tail_in)

  pub fifo_empty-count : fifo_empty f ≡ (count f == 0)
  unfolding fifo_empty count
  fifo_empty-count = ground (arith, v.head_in, v.tail_in)

  pub fifo_full-count : fifo_full f ≡ (count f + 1 == f.size)
  unfolding fifo_full count
  fifo_full-count =
      rw (fifo_next-after f f.tail v v.tail_in) (ground (arith, v.head_in, v.tail_in, v.room))

  pub next_in : (p : ℕ) → p < f.size → fifo_next f p < f.size
  next_in p h = rw (fifo_next-after f p v h) (ground (arith, v.room))
