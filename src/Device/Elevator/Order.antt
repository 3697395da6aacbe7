-- ===== src/Device/Elevator/Order.antt =====
-- Any order of the halves of `device_request`, and the order in which the requests are served.
use mathlib.Core.Path.{subst}
use mathlib.Core.List.{append-nil}
use polaris_os.LinkedList.{Ptr}
use polaris_os.LinkedList.Linked.{has}
use polaris_os.Device.Elevator.Neighbour.{unzip}
use polaris_os.Device.Elevator.Queue.{Served, at_rest, busy, Ordered, Sound, IsNew}
use polaris_os.Device.Elevator.Serve.{enqueue-Sound}
use polaris_os.Device.Elevator.Next.{
  Moved, up, up_turned, down, down_turned, all_done, dequeue-Moved,
}
use polaris_os.Prelude.{
  length, ◌>>=◌, Returns, returns, Returns-mono, ℕ, zero, suc, ◌+◌, ◌<◌, ◌≡◌, refl, sym, ap, ◌∙◌,
  Bool, true, false, Option, none, some, List, [], ◌∷◌, ◌++◌, arith,
}
use polaris_os.Device.Elevator.{Disk, enqueue, dequeue}

-- A task asks for a sector, or the one that is served has its sector.
pub data Step (d : Disk) : Disk → Type 0 where
  asks : {d' : Disk} (req idx t : ℕ) → IsNew d req → enqueue req idx t d ≡ some d' → Step d d'
  is_done : {d' : Disk} (req : Ptr) → has req d.serving ≡ true → dequeue req d ≡ some d' → Step d d'

-- What the halves of any number of calls reach, from an empty list of requests.
pub data Reachable (start : Disk) : Disk → Type 0 where
  fresh : Reachable start start
  after : {d d' : Disk} → Reachable start d → Step d d' → Reachable start d'

Moved-Sound : (b : Bool) (ys zs : List Ptr) (d : Disk) → Moved b ys zs d → Sound d
Moved-Sound b ys zs d (up {ys = ys'} {zs = zs'} {z = z} o s e) = record {
  nodes = unzip ys' (z ∷ zs');
  ordered = o;
  served = subst (Served (unzip ys' (z ∷ zs'))) (sym s) (busy ys' zs' z);
}
Moved-Sound b ys zs d (up_turned {ys = ys'} {y = y} o s e) = record {
  nodes = unzip ys' (y ∷ []);
  ordered = o;
  served = subst (Served (unzip ys' (y ∷ []))) (sym s) (busy ys' [] y);
}
Moved-Sound b ys zs d (down {ys = ys'} {zs = zs'} {y = y} o s e) = record {
  nodes = unzip ys' (y ∷ zs');
  ordered = o;
  served = subst (Served (unzip ys' (y ∷ zs'))) (sym s) (busy ys' zs' y);
}
Moved-Sound b ys zs d (down_turned {zs = zs'} {z = z} o s e) = record {
  nodes = z ∷ zs';
  ordered = o;
  served = subst (Served (z ∷ zs')) (sym s) (busy [] zs' z);
}
Moved-Sound b ys zs d (all_done o s) = record {
  nodes = [];
  ordered = o;
  served = subst (Served []) (sym s) at_rest;
}

-- The second half on any sound disk.
dequeue-Sound :
    (d : Disk) (req : Ptr) → Sound d → has req d.serving ≡ true → Returns Sound (dequeue req d)
dequeue-Sound d req s e = by_served s.nodes d.serving s.served refl e s.ordered
  where
    by_served :
        (nodes serving : List Ptr)
        → Served nodes serving
        → d.serving ≡ serving
        → has req serving ≡ true
        → Ordered d nodes
        → Returns Sound (dequeue req d)
    by_served nodes serving at_rest same e o = cc
    by_served nodes serving (busy ys zs x) same e o =
        let it : x ≡ req = ground (arith, e) in
        subst (λ r. Returns Sound (dequeue r d)) it
          (Returns-mono (dequeue-Moved d x ys zs o same) (λ d' m. Moved-Sound d.direct ys zs d' m))

from_returns : {P : Disk → Type 0} {o : Option Disk} (d' : Disk) → Returns P o → o ≡ some d' → P d'
from_returns {P} d' (returns {a} h) e = let same : a ≡ d' = cc in subst P same h

-- Whatever requests come and are done, in whatever order: the list of the disk stays in order of the
-- sectors, exactly one of the requests in it is served where there is any, and the tasks of the others
-- can be woken.
pub elevator_never_stalls : (start d : Disk) → Sound start → Reachable start d → Sound d
elevator_never_stalls start d s fresh = s
elevator_never_stalls start d s (after {d = d0} reach (asks req idx t n r)) =
    from_returns d (enqueue-Sound d0 req idx t (elevator_never_stalls start d0 s reach) n) r
elevator_never_stalls start d s (after {d = d0} reach (is_done req e r)) =
    from_returns d (dequeue-Sound d0 req (elevator_never_stalls start d0 s reach) e) r

-- Serves until the disk is at rest, with no new request: the requests in the order of their service.
unfoldable pub serve_all : ℕ → Disk → Option (List Ptr)
serve_all zero d = none
serve_all (suc fuel) d = elim d.serving [
  | [] ↦ some []
  | req ∷ more ↦ do d' ← dequeue req d; reqs ← serve_all fuel d'; some (req ∷ reqs)
]

-- The order of an elevator: on to the end of the list, then back over the requests on the other side.
unfoldable pub sweep : (direct : Bool) (ys zs : List Ptr) → List Ptr
sweep false ys zs = zs ++ ys
sweep true ys zs = ys ++ zs

rests : (fuel : ℕ) (d : Disk) → d.serving ≡ [] → 0 < fuel → serve_all fuel d ≡ some []
unfolding serve_all
rests zero d e pos = absurd (omega (arith, pos))
rests (suc fuel) d e pos = rw e refl

-- What `serve_all-sweep` states, at one amount of fuel.
Sweeps : ℕ → Type 0
Sweeps fuel =
    (d : Disk) (x : Ptr) (ys zs : List Ptr)
    → Ordered d (unzip ys (x ∷ zs))
    → d.serving ≡ x ∷ []
    → length ys + length zs + 1 < fuel
    → serve_all fuel d ≡ some (x ∷ sweep d.direct ys zs)

sweep_on :
    (fuel : ℕ) (b : Bool) (ys zs : List Ptr) (d : Disk)
    → Sweeps fuel
    → Moved b ys zs d
    → length ys + length zs < fuel
    → serve_all fuel d ≡ some (sweep b ys zs)
unfolding sweep Sweeps
sweep_on fuel b ys zs d ih (up {ys = vs} {zs = ws} {z = z} o one e) enough =
    ih d z vs ws o one (omega (arith, enough)) ∙ ap (λ c. some (z ∷ sweep c vs ws)) e
sweep_on fuel b ys zs d ih (up_turned {ys = vs} {y = y} o one e) enough =
    ih d y vs [] o one (omega (arith, enough))
    ∙ ap (λ c. some (y ∷ sweep c vs [])) e
    ∙ ap (λ l. some (y ∷ l)) (append-nil vs)
sweep_on fuel b ys zs d ih (down {ys = vs} {zs = ws} {y = y} o one e) enough =
    ih d y vs ws o one (omega (arith, enough)) ∙ ap (λ c. some (y ∷ sweep c vs ws)) e
sweep_on fuel b ys zs d ih (down_turned {zs = ws} {z = z} o one e) enough =
    ih d z [] ws o one (omega (arith, enough))
    ∙ ap (λ c. some (z ∷ sweep c [] ws)) e
    ∙ ap (λ l. some (z ∷ l)) (append-nil ws)
sweep_on fuel b ys zs d ih (all_done {direct = true} o none_left) enough =
    rests fuel d none_left (omega (arith, enough))
sweep_on fuel b ys zs d ih (all_done {direct = false} o none_left) enough =
    rests fuel d none_left (omega (arith, enough))

then_sweep :
    (fuel : ℕ) (x : Ptr) (b : Bool) (ys zs : List Ptr) {r : Option Disk}
    → Sweeps fuel
    → Returns (Moved b ys zs) r
    → length ys + length zs < fuel
    → (do d' ← r; reqs ← serve_all fuel d'; some (x ∷ reqs)) ≡ some (x ∷ sweep b ys zs)
then_sweep fuel x b ys zs ih (returns {a = d'} m) enough =
    ap (λ o. do reqs ← o; some (x ∷ reqs)) (sweep_on fuel b ys zs d' ih m enough)

-- Without new requests the disk serves all those in the list, each once: first the one it is at, then
-- those on in its direction, the nearest first, then those on the other side, the nearest first.
pub serve_all-sweep :
    (fuel : ℕ) (d : Disk) (x : Ptr) (ys zs : List Ptr)
    → Ordered d (unzip ys (x ∷ zs))
    → d.serving ≡ x ∷ []
    → length ys + length zs + 1 < fuel
    → serve_all fuel d ≡ some (x ∷ sweep d.direct ys zs)
unfolding serve_all Sweeps
serve_all-sweep zero d x ys zs o one enough = absurd (omega (arith, enough))
serve_all-sweep (suc fuel) d x ys zs o one enough =
    ap
      (λ serving. elim serving [
        | [] ↦ some []
        | req ∷ more ↦ do d' ← dequeue req d; reqs ← serve_all fuel d'; some (req ∷ reqs)
      ])
      one
    ∙ then_sweep fuel x d.direct ys zs (serve_all-sweep fuel) (dequeue-Moved d x ys zs o one)
        (omega (arith, enough))
