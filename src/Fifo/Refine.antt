-- ===== src/Fifo/Refine.antt =====
-- The operations of fifo.c refine a queue that forgets its oldest bytes when it is full.
use polaris_os.Prelude.{
  ltb, ◌==◌, if◌then◌else◌, lt→ltb, length, set, length-set, get_or, drop, get_elem?-eq-get_or,
  ◌>>=◌, Returns, returns, ℕ, suc, ◌+◌, ◌≡◌, sym, ap, ◌∙◌, ◌≢◌, true, false, Option, none, some,
  List, [], ◌∷◌, ◌++◌, arith, ℕ_discrete,
}
use polaris_os.Fifo.{Fifo, fifo_next, fifo_full, fifo_get, make_room, fifo_put}
use polaris_os.Fifo.Queue.{
  IsValid, fifo_next-after, count, contents, length-contents, walk-set, count-lt, tail_ahead,
  fifo_empty-count, fifo_full-count, next_in,
}

-- The ring `f` is well formed, has `n` slots, and holds the bytes `q`, the oldest first.
pub record Holds (n : ℕ) (q : List ℕ) (f : Fifo) : Type 0 where
  pub valid : IsValid f
  pub slots : f.size ≡ n
  pub bytes : contents f ≡ q

-- The queue's side of `fifo_put`: at most `n - 1` bytes are kept.
unfoldable pub push : ℕ → List ℕ → ℕ → List ℕ
push n q x = (if length q + 1 == n then drop 1 q else q) ++ x ∷ []

abbrev advance : Fifo → Fifo
advance f = record f { head = fifo_next f f.head }

abbrev store : Fifo → ℕ → Fifo
store f x = record f { buf = set f.buf f.tail x; tail = fifo_next f f.tail }

module _ (f : Fifo) (v : IsValid f) where
  advance-IsValid : IsValid (advance f)
  advance-IsValid = record {
    room = v.room;
    word = v.word;
    stored = v.stored;
    head_in = next_in f v f.head v.head_in;
    tail_in = v.tail_in;
  }

  count-advance : count f ≢ 0 → count (advance f) + 1 ≡ count f
  unfolding count
  count-advance h =
      rw (fifo_next-after f f.head v v.head_in) (ground (arith, v.head_in, v.tail_in, h))

  contents-advance : count f ≢ 0 → contents f ≡ get_or f.buf f.head 0 ∷ contents (advance f)
  unfolding contents
  contents-advance h =
      let e : count f ≡ suc (count (advance f)) = omega (arith, count-advance h) in
      rw (e, fifo_next-after f f.head v v.head_in)

  fifo_get-advance : count f ≢ 0 → fifo_get f ≡ some (get_or f.buf f.head 0, advance f)
  unfolding fifo_get
  fifo_get-advance h = ground (
    arith,
    fifo_empty-count f v,
    get_elem?-eq-get_or f.buf f.head 0 (omega (arith, v.head_in, v.stored)),
  )

  -- Reading an empty ring fails the assertion.
  fifo_get_empty : count f ≡ 0 → fifo_get f ≡ none
  unfolding fifo_get
  fifo_get_empty h = ground (arith, fifo_empty-count f v)

  store-IsValid : (x : ℕ) → IsValid (store f x)
  store-IsValid x = record {
    room = v.room;
    word = v.word;
    stored = omega (arith, v.stored, length-set f.buf f.tail x);
    head_in = v.head_in;
    tail_in = next_in f v f.tail v.tail_in;
  }

  count-store : (x : ℕ) → count f + 1 ≢ f.size → count (store f x) ≡ count f + 1
  unfolding count
  count-store x h =
      rw (fifo_next-after f f.tail v v.tail_in) (ground (arith, v.head_in, v.tail_in, h))

  contents-store : (x : ℕ) → count f + 1 ≢ f.size → contents (store f x) ≡ contents f ++ x ∷ []
  unfolding contents
  contents-store x h =
      let e : count (store f x) ≡ suc (count f) = omega (arith, count-store x h) in
      rw (e) (
        walk-set f.buf f.size x f.head (count f) f.tail v.stored v.head_in (count-lt f v)
          (tail_ahead f v))

module _ {n : ℕ} {q : List ℕ} {f : Fifo} (h : Holds n q f) where
  count-length : count f ≡ length q
  count-length = sym (length-contents f) ∙ ap length h.bytes

-- `fifo_get` on a ring that holds `x` first returns `x` and leaves the rest.
pub fifo_get_lem :
    (f : Fifo) (n x : ℕ) (q : List ℕ)
    → Holds n (x ∷ q) f
    → Returns (λ (y, f'). (y ≡ x) × Holds n q f') (fifo_get f)
fifo_get_lem f n x q h =
    let ne : count f ≢ 0 = omega (arith, count-length h) in
    let e = contents-advance f h.valid ne in
    rw (fifo_get-advance f h.valid ne) (
      returns (
        cc (e, h.bytes),
        record { valid = advance-IsValid f h.valid; slots = h.slots; bytes = cc (e, h.bytes) },
      ))

-- `fifo_get` on an empty ring does not return.
pub fifo_get_nil : (f : Fifo) (n : ℕ) → Holds n [] f → fifo_get f ≡ none
fifo_get_nil f n h = fifo_get_empty f h.valid (count-length h)

-- With room for one more byte the loop of `fifo_put` does nothing, and the store appends.
put_with_room :
    (f : Fifo) (n x : ℕ) (q : List ℕ)
    → Holds n q f
    → length q + 1 ≢ n
    → Holds n (q ++ x ∷ []) (store f x)
put_with_room f n x q h ne =
    let free : count f + 1 ≢ f.size = λ e. ne (omega (arith, count-length h, h.slots)) in
    record {
      valid = store-IsValid f h.valid x;
      slots = h.slots;
      bytes = contents-store f h.valid x free ∙ ap (λ l. l ++ x ∷ []) h.bytes;
    }

room_kept :
    (fuel : ℕ) (f : Fifo) (n : ℕ) (q : List ℕ)
    → Holds n q f
    → length q + 1 ≢ n
    → make_room (suc fuel) f ≡ some f
unfolding make_room
room_kept fuel f n q h ne = ground (arith, fifo_full-count f h.valid, count-length h, h.slots)

-- Without its oldest byte.
taken : (f : Fifo) (n x : ℕ) (q : List ℕ) → Holds n (x ∷ q) f → Holds n q (advance f)
taken f n x q h =
    let e = contents-advance f h.valid (omega (arith, count-length h)) in
    record { valid = advance-IsValid f h.valid; slots = h.slots; bytes = cc (e, h.bytes) }

-- Of a full ring the loop drops the oldest byte, and stops.
room_made :
    (f : Fifo) (n x : ℕ) (q : List ℕ)
    → Holds n (x ∷ q) f
    → length q + 2 ≡ n
    → make_room 2 f ≡ some (advance f)
unfolding make_room
room_made f n x q h e =
    let full : fifo_full f ≡ true =
      ground (arith, fifo_full-count f h.valid, count-length h, h.slots) in
    let ne : count f ≢ 0 = omega (arith, count-length h) in
    let e' = contents-advance f h.valid ne in
    let g : Holds n q (advance f) = record {
      valid = advance-IsValid f h.valid;
      slots = h.slots;
      bytes = cc (e', h.bytes);
    } in
    rw (full, fifo_get-advance f h.valid ne) (room_kept 0 (advance f) n q g (omega arith))

stored : (f : Fifo) → IsValid f → ltb f.tail (length f.buf) ≡ true
stored f v = lt→ltb f.tail (length f.buf) (omega (arith, v.tail_in, v.stored))

-- `fifo_put` on a well-formed ring always returns (its loop ends), and the ring then holds the old
-- bytes, less the oldest if all slots were in use, followed by the new one.
pub fifo_put-push :
    (f : Fifo) (n x : ℕ) (q : List ℕ) → Holds n q f → Returns (Holds n (push n q x)) (fifo_put f x)
unfolding fifo_put push
fifo_put-push f n x [] h =
    let ne : length {A = ℕ} [] + 1 ≢ n = omega (arith, h.slots, h.valid.room) in
    let e : (1 == n) ≡ false = ground (arith, ne) in
    rw (room_kept 1 f n [] h ne, stored f h.valid, e) (returns (put_with_room f n x [] h ne))
fifo_put-push f n x (y ∷ q) h = elim (ℕ_discrete (length q + 2) n) [
  | yes full ↦
      let e : (suc (length q) + 1 == n) ≡ true = ground arith in
      rw (room_made f n y q h full, stored (advance f) (advance-IsValid f h.valid), e)
        (returns (put_with_room (advance f) n x q (taken f n y q h) (omega arith)))
  | no room ↦
      let ne : length (y ∷ q) + 1 ≢ n = omega (arith, room) in
      let e : (suc (length q) + 1 == n) ≡ false = ground (arith, ne) in
      rw (room_kept 1 f n (y ∷ q) h ne, stored f h.valid, e)
        (returns (put_with_room f n x (y ∷ q) h ne))
]

-- What a client asks of the ring, and what the queue answers: the bytes got, in order, and the end.
pub data Op : Type 0 where
  put : ℕ → Op
  get : Op

unfoldable pub run : Fifo → List Op → Option (List ℕ × Fifo)
run f [] = some ([], f)
run f (put x ∷ ops) = do f' ← fifo_put f x; run f' ops
run f (get ∷ ops) = do (x, f') ← fifo_get f; (xs, g) ← run f' ops; some (x ∷ xs, g)

unfoldable pub serve : ℕ → List ℕ → List Op → Option (List ℕ × List ℕ)
serve n q [] = some ([], q)
serve n q (put x ∷ ops) = serve n (push n q x) ops
serve n [] (get ∷ ops) = none
serve n (x ∷ q) (get ∷ ops) = do (xs, r) ← serve n q ops; some (x ∷ xs, r)

-- Both stop, or both return the same bytes and the ring holds what the queue has left.
pub data Agrees (n : ℕ) : Option (List ℕ × Fifo) → Option (List ℕ × List ℕ) → Type 0 where
  both_stop : Agrees n none none
  both : {xs q : List ℕ} {f : Fifo} → Holds n q f → Agrees n (some (xs, f)) (some (xs, q))

Agrees-cons :
    {n : ℕ} (x : ℕ) {r : Option (List ℕ × Fifo)} {s : Option (List ℕ × List ℕ)}
    → Agrees n r s
    → Agrees n (r >>= λ (xs, g). some (x ∷ xs, g)) (s >>= λ (xs, q). some (x ∷ xs, q))
Agrees-cons x both_stop = both_stop
Agrees-cons x (both h) = both h

after_put :
    {n : ℕ} {p : List ℕ} {r : Option Fifo} {k : Fifo → Option (List ℕ × Fifo)}
    {s : Option (List ℕ × List ℕ)}
    → Returns (Holds n p) r
    → ((g : Fifo) → Holds n p g → Agrees n (k g) s)
    → Agrees n (r >>= k) s
after_put (returns h) next = next _ h

-- Any sequence of calls on a well-formed ring returns what the queue returns; it stops at an
-- assertion exactly where the queue is asked for a byte that it does not have.
pub run-serve :
    (n : ℕ) (q : List ℕ) (ops : List Op) (f : Fifo)
    → Holds n q f
    → Agrees n (run f ops) (serve n q ops)
unfolding run serve
run-serve n q [] f h = both h
run-serve n q (put x ∷ ops) f h = after_put (fifo_put-push f n x q h) (run-serve n (push n q x) ops)
run-serve n [] (get ∷ ops) f h = rw (fifo_get_nil f n h) both_stop
run-serve n (x ∷ q) (get ∷ ops) f h =
    let first : get_or f.buf f.head 0 ≡ x =
      cc (contents-advance f h.valid (omega (arith, count-length h)), h.bytes) in
    rw (fifo_get-advance f h.valid (omega (arith, count-length h)), first)
      (Agrees-cons x (run-serve n q ops (advance f) (taken f n x q h)))
