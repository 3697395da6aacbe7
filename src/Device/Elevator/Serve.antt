-- ===== src/Device/Elevator/Serve.antt =====
-- The two halves of `device_request` on a disk in order.
use polaris_os.LinkedList.{Ptr, Store}
use polaris_os.LinkedList.Linked.{has, has-append}
use polaris_os.LinkedList.Insert.{Grown, Fresh}
use polaris_os.LinkedList.Walk.{list_empty-nil}
use polaris_os.LinkedList.Sort.{insort, Sorted, list_insert_sort-insort}
use polaris_os.Device.Elevator.Neighbour.{unzip, has-unzip}
use polaris_os.Device.Elevator.Queue.{
  Served, at_rest, busy, Ordered, Sound, IsNew, Sorted-assign, has-insort, length-insort, cut_at,
}
use polaris_os.Prelude.{
  ◌==◌, if◌then◌else◌, Bool-cases, length, Returns, returns, Returns-bind, ℕ, suc, ◌≡◌, refl, sym,
  ◌∙◌, inl, inr, Bool, true, false, none, some, List, [], ◌∷◌, arith,
}
use polaris_os.Device.Elevator.{Disk, assign, enqueue, is_some}

module _ (d : Disk) (req idx t : ℕ) where
  abbrev key' : Ptr → ℕ
  key' = assign d.key req idx

  -- The disk behind `enqueue`, with the new links.
  abbrev added : Bool → Store → Disk
  added empty links = record d {
    key = key';
    links = links;
    task = assign d.task req (if empty then none else some t);
    serving = if empty then req ∷ d.serving else d.serving;
    live = req ∷ d.live;
  }

  Served-insort :
      (nodes serving : List Ptr)
      → Served nodes serving
      → Served (insort key' req nodes) (if length nodes == 0 then req ∷ serving else serving)
  Served-insort nodes serving at_rest = busy [] [] req
  Served-insort nodes serving (busy ys zs x) =
      let still : has x (insort key' req (unzip ys (x ∷ zs))) ≡ true =
        ground (arith, has-insort key' x req (unzip ys (x ∷ zs)), has-unzip x ys (x ∷ zs)) in
      let (ys', zs', e) = cut_at x (insort key' req (unzip ys (x ∷ zs))) still in
      let some_there : (length (unzip ys (x ∷ zs)) == 0) ≡ false =
        not_empty (unzip ys (x ∷ zs)) (ground (arith, has-unzip x ys (x ∷ zs))) in
      rw (some_there, e) (busy ys' zs' x)
    where
      not_empty : (l : List Ptr) → has x l ≡ true → (length l == 0) ≡ false
      not_empty [] e = cc
      not_empty (y ∷ l) e = ground arith

  module _ (nodes : List Ptr) (o : Ordered d nodes) (n : IsNew d req) where
    not_queued : has req nodes ≡ false
    not_queued = sym (o.same req) ∙ n.fresh

    added-waits :
        (b : Bool) (p : Ptr)
        → has p (insort key' req nodes) ≡ true
        → has p (if b then req ∷ d.serving else d.serving) ≡ false
        → is_some (assign d.task req (if b then none else some t) p) ≡ true
    added-waits b p there away = elim (Bool-cases (p == req)) [
      | inl hit ↦ rw hit (on_req b hit away)
      | inr other ↦ rw other (
          o.waits p (ground (arith, has-insort key' p req nodes, there, other)) (out_before b away))
    ]
      where
        on_req :
            (b : Bool)
            → (p == req) ≡ true
            → has p (if b then req ∷ d.serving else d.serving) ≡ false
            → is_some (if b then none else some t) ≡ true
        on_req true hit away = ground (arith, hit, away)
        on_req false hit away = refl

        out_before :
            (b : Bool)
            → has p (if b then req ∷ d.serving else d.serving) ≡ false
            → has p d.serving ≡ false
        out_before true away = ground (arith, away)
        out_before false away = away

    added-Ordered :
        (b : Bool) (links : Store)
        → Grown d.links d.ends nodes req (insort key' req nodes) links
          × Sorted key' (insort key' req nodes)
        → Ordered (added b links) (insort key' req nodes)
    added-Ordered b links (g, s) = record {
      is_list = g.is_list;
      sorted = s;
      waits = added-waits b;
      same = λ p. ground (arith, has-insort key' p req nodes, o.same p);
      counted = omega (arith, length-insort key' req nodes, o.counted);
      alone = (n.fresh, o.alone);
    }

  -- A new request goes into the list in order, and is served at once exactly if it is the only one.
  pub enqueue-Sound : (s : Sound d) → IsNew d req → Returns Sound (enqueue req idx t d)
  unfolding enqueue
  enqueue-Sound s n =
      let o = s.ordered in
      let fresh : Fresh d.ends s.nodes req = record {
        node = n.real;
        out = ground (
          arith,
          n.not_head,
          n.not_tail,
          not_queued s.nodes o n,
          has-append req s.nodes (d.ends.tail ∷ []),
        );
      } in
      rw (list_empty-nil d.links d.ends s.nodes o.is_list) (
        Returns-bind
          (list_insert_sort-insort key' d.links d.ends s.nodes req (suc (length d.live)) o.is_list
            fresh (n.no_next, n.no_prev) (omega (arith, o.counted))
            (Sorted-assign d.key req idx s.nodes (not_queued s.nodes o n) o.sorted))
          (λ links g. returns (record {
            nodes = insort key' req s.nodes;
            ordered = added-Ordered s.nodes o n (length s.nodes == 0) links g;
            served = Served-insort s.nodes d.serving s.served;
          })))
