-- ===== src/Fifo/Room.antt =====
-- A ring that is asked before it is used: what the tests say of the queue, and a put with room.
use mathlib.Core.Path.{subst}
use polaris_os.Prelude.{
  ◌==◌, if◌then◌else◌, length, drop, Returns, ℕ, ◌+◌, ◌^◌, ◌≤◌, ◌<◌, ◌≡◌, refl, sym, ap, ◌∙◌, ◌≢◌,
  false, List, [], ◌∷◌, ◌++◌, arith,
}
use polaris_os.Fifo.{Fifo, fifo_init, fifo_full, fifo_empty, fifo_put}
use polaris_os.Fifo.Queue.{count, contents, length-contents, fifo_empty-count, fifo_full-count}
use polaris_os.Fifo.Refine.{Holds, push, fifo_put-push}

pub fifo_empty-length :
    (f : Fifo) (n : ℕ) (q : List ℕ) → Holds n q f → fifo_empty f ≡ (length q == 0)
fifo_empty-length f n q h =
    fifo_empty-count f h.valid ∙ ap (λ k. k == 0) (sym (length-contents f) ∙ ap length h.bytes)

pub fifo_full-length :
    (f : Fifo) (n : ℕ) (q : List ℕ) → Holds n q f → fifo_full f ≡ (length q + 1 == n)
fifo_full-length f n q h =
    fifo_full-count f h.valid
    ∙ ap (λ k. k + 1 == f.size) (sym (length-contents f) ∙ ap length h.bytes)
    ∙ ap (λ k. length q + 1 == k) h.slots

pub fifo_put_room :
    (f : Fifo) (n x : ℕ) (q : List ℕ)
    → Holds n q f
    → length q + 1 ≢ n
    → Returns (Holds n (q ++ x ∷ [])) (fifo_put f x)
unfolding push
fifo_put_room f n x q h room =
    let kept : (length q + 1 == n) ≡ false = ground (arith, room) in
    subst (λ b. Returns (Holds n ((if b then drop 1 q else q) ++ x ∷ [])) (fifo_put f x)) kept
      (fifo_put-push f n x q h)

-- The ring of `fifo_init` is an empty queue.
pub fifo_init-Holds :
    (buf : List ℕ) (n : ℕ) → 2 ≤ n → n < 2 ^ 32 → n ≤ length buf → Holds n [] (fifo_init buf n)
unfolding fifo_init contents count
fifo_init-Holds buf n two word fits = record {
  valid = record {
    room = two;
    word = word;
    stored = fits;
    head_in = omega (arith, two);
    tail_in = omega (arith, two);
  };
  slots = refl;
  bytes = refl;
}
