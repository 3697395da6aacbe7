-- ===== src/Device/Elevator/Next.antt =====
-- The second half of `device_request`: the request leaves the list, and its neighbour is served.
use mathlib.Core.Path.{subst}
use polaris_os.LinkedList.Without.{without, has-without, length-without, Distinct-without}
use polaris_os.LinkedList.{Ptr, Store}
use polaris_os.LinkedList.Linked.{has, IsList, has-append}
use polaris_os.LinkedList.Remove.{Shrunk, list_remove_lem}
use polaris_os.LinkedList.Sort.{Sorted}
use polaris_os.Device.Elevator.Neighbour.{
  unzip, unzip-append, has-unzip, scan, request_nextreq-scan,
}
use polaris_os.Device.Elevator.Queue.{Ordered, Sorted-drop}
use polaris_os.Prelude.{
  ◌==◌, length, length-append, ◌>>◌, assert, Returns, returns, Returns-bind, ◌≡◌, refl, sym, ap,
  ◌∙◌, Bool, true, false, not, ◌&&◌, none, some, List, [], ◌∷◌, ◌++◌, arith, ℕ_discrete,
}
use polaris_os.Device.Elevator.{Disk, turn, is_some, finish, dequeue}

-- The disk after a request with the requests `ys` before it and `zs` behind it is done: the next one in
-- the direction is served, the turn at an end is made, and the disk is at rest only if there is none.
pub data Moved : (direct : Bool) (ys zs : List Ptr) → Disk → Type 0 where
  up :
      {ys zs : List Ptr} {z : Ptr} {d : Disk}
      → Ordered d (unzip ys (z ∷ zs))
      → d.serving ≡ z ∷ []
      → d.direct ≡ false
      → Moved false ys (z ∷ zs) d
  up_turned :
      {ys : List Ptr} {y : Ptr} {d : Disk}
      → Ordered d (unzip ys (y ∷ []))
      → d.serving ≡ y ∷ []
      → d.direct ≡ true
      → Moved false (y ∷ ys) [] d
  down :
      {ys zs : List Ptr} {y : Ptr} {d : Disk}
      → Ordered d (unzip ys (y ∷ zs))
      → d.serving ≡ y ∷ []
      → d.direct ≡ true
      → Moved true (y ∷ ys) zs d
  down_turned :
      {zs : List Ptr} {z : Ptr} {d : Disk}
      → Ordered d (z ∷ zs)
      → d.serving ≡ z ∷ []
      → d.direct ≡ false
      → Moved true [] (z ∷ zs) d
  all_done : {direct : Bool} {d : Disk} → Ordered d [] → d.serving ≡ [] → Moved direct [] [] d

woken-Ordered :
    (w : Disk) (n : Ptr) (nodes : List Ptr)
    → Ordered w nodes
    → w.serving ≡ []
    → Ordered (record w { serving = n ∷ w.serving }) nodes
woken-Ordered w n nodes o e = record {
  is_list = o.is_list;
  sorted = o.sorted;
  waits = λ p there away. o.waits p there (ap (has p) e);
  same = o.same;
  counted = o.counted;
  alone = o.alone;
}

has_task :
    (w : Disk) (n : Ptr) (nodes : List Ptr)
    → Ordered w nodes
    → w.serving ≡ []
    → has n nodes ≡ true
    → is_some (w.task n) ≡ true
has_task w n nodes o e there = o.waits n there (ap (has n) e)

-- What follows `list_remove` in `device_request`.
pub settle :
    (b : Bool) (ys zs : List Ptr) (w : Disk)
    → Ordered w (unzip ys zs)
    → w.serving ≡ []
    → w.direct ≡ (scan b ys zs).1
    → Returns (Moved b ys zs) (elim (scan b ys zs).0 [
      | none ↦ some w
      | some next ↦ do
        assert (is_some (w.task next))
        some (record w { serving = next ∷ w.serving })
    ])
unfolding scan
settle false ys (z ∷ zs) w o e turn =
    rw (has_task w z (unzip ys (z ∷ zs)) o e (ground (arith, has-unzip z ys (z ∷ zs))))
      (returns (up (woken-Ordered w z (unzip ys (z ∷ zs)) o e) (ap (λ l. z ∷ l) e) turn))
settle false (y ∷ ys) [] w o e turn =
    rw (has_task w y (unzip ys (y ∷ [])) o e (ground (arith, has-unzip y ys (y ∷ []))))
      (returns (up_turned (woken-Ordered w y (unzip ys (y ∷ [])) o e) (ap (λ l. y ∷ l) e) turn))
settle false [] [] w o e turn = returns (all_done o e)
settle true (y ∷ ys) zs w o e turn =
    rw (has_task w y (unzip ys (y ∷ zs)) o e (ground (arith, has-unzip y ys (y ∷ zs))))
      (returns (down (woken-Ordered w y (unzip ys (y ∷ zs)) o e) (ap (λ l. y ∷ l) e) turn))
settle true [] (z ∷ zs) w o e turn =
    rw (has_task w z (z ∷ zs) o e (ground arith))
      (returns (down_turned (woken-Ordered w z (z ∷ zs) o e) (ap (λ l. z ∷ l) e) turn))
settle true [] [] w o e turn = returns (all_done o e)

module _ (d : Disk) (x : Ptr) (ys zs : List Ptr) (o : Ordered d (unzip ys (x ∷ zs)))
    (one : d.serving ≡ x ∷ []) where
  -- The disk without the request, and with its direction.
  abbrev left : Bool → Store → Disk
  left direct links = record d {
    direct = direct;
    links = links;
    serving = without x d.serving;
    live = without x d.live;
  }

  module _ (links : Store)
      (g : Shrunk d.links d.ends (unzip ys [] ++ x ∷ zs) x (unzip ys [] ++ zs) links) where
    gone : has x (unzip ys zs) ≡ false
    gone = ground (
      arith,
      g.out,
      has-append x (unzip ys [] ++ zs) (d.ends.tail ∷ []),
      ap (has x) (unzip-append ys zs),
    )

    remains : (p : Ptr) → has p (unzip ys zs) ≡ (not (p == x) && has p (unzip ys (x ∷ zs)))
    remains p = elim (ℕ_discrete p x) [
      | yes hit ↦
          let at_x : has p (unzip ys zs) ≡ false = ap (λ q. has q (unzip ys zs)) hit ∙ gone in
          ground (arith, hit, at_x)
      | no ne ↦ ground (arith, ne, has-unzip p ys zs, has-unzip p ys (x ∷ zs))
    ]

    left-Ordered : (b : Bool) → Ordered (left b links) (unzip ys zs)
    left-Ordered b =
        let there : has x d.live ≡ true = o.same x ∙ (ground (arith, has-unzip x ys (x ∷ zs))) in
        record {
          is_list = subst (IsList links d.ends) (sym (unzip-append ys zs)) g.is_list;
          sorted = subst (Sorted d.key) (sym (unzip-append ys zs)) (
              Sorted-drop d.key x (unzip ys []) zs
                (subst (Sorted d.key) (unzip-append ys (x ∷ zs)) o.sorted));
          waits = λ p e a.
              o.waits p (ground (arith, remains p, e))
                (ap (has p) one ∙ (ground (arith, remains p, e)));
          same = λ p. ground (arith, has-without p x d.live, o.same p, remains p);
          counted = omega (
            arith,
            length-without x d.live o.alone there,
            o.counted,
            ap length (unzip-append ys (x ∷ zs)),
            ap length (unzip-append ys zs),
            length-append (unzip ys []) (x ∷ zs),
            length-append (unzip ys []) zs,
          );
          alone = Distinct-without x d.live o.alone;
        }

    at_rest_now : (b : Bool) → (left b links).serving ≡ []
    at_rest_now b = ap (without x) one ∙ (ground arith)

  -- Once the request that is served is done, `device_request` serves the one that the elevator picks:
  -- no assertion fails, the list stays in order, and the disk rests only if no request is left.
  pub dequeue-Moved : Returns (Moved d.direct ys zs) (dequeue x d)
  unfolding dequeue finish
  dequeue-Moved =
      let (next, direct) = scan d.direct ys zs in
      subst (λ r. Returns (Moved d.direct ys zs) (finish x r))
        (sym (request_nextreq-scan d x ys zs o.is_list))
        (Returns-bind
          (list_remove_lem d.links d.ends x (unzip ys []) zs
            (subst (IsList d.links d.ends) (unzip-append ys (x ∷ zs)) o.is_list))
          (λ links g.
            settle d.direct ys zs (left direct links) (left-Ordered links g direct)
              (at_rest_now links g direct) refl))
