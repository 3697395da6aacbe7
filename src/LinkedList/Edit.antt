-- ===== src/LinkedList/Edit.antt =====
-- The four writes of an insertion and of a removal, in a sequence of linked nodes.
use polaris_os.Prelude.{◌≡◌, ap, false, List, [], ◌∷◌, ◌++◌, arith}
use polaris_os.LinkedList.{Ptr, null, Store, set_next, set_prev}
use polaris_os.LinkedList.Linked.{
  has, Distinct, Linked, has-append, Linked-split, Linked-join, Linked-set_next, Linked-set_prev,
  Distinct-append, Linked-set_next_out, Linked-set_prev_out,
}

-- What the insertion of `n` between the neighbours `a` and `b` leaves in the store.
unfoldable pub inserted : (a n b : Ptr) → Store → Store
inserted a n b h = set_prev b n (set_next a n (set_next n b (set_prev n a h)))

-- What the removal of `n` between `a` and `b` leaves.
unfoldable pub removed : (a n b : Ptr) → Store → Store
removed a n b h = set_next n null (set_prev n null (set_prev b a (set_next a b h)))

module _ (h : Store) (pre : List Ptr) (a n b : Ptr) (post : List Ptr)
    (d : Distinct (pre ++ a ∷ b ∷ post)) (out : has n (pre ++ a ∷ b ∷ post) ≡ false) where
  apart_facts :
      (has a pre ≡ false)
      × (has b pre ≡ false)
      × (has n pre ≡ false)
      × (has n (a ∷ b ∷ post) ≡ false)
      × (has a (b ∷ post) ≡ false)
      × (has b post ≡ false)
  apart_facts =
      let (d1, d2, apart) = Distinct-append pre (a ∷ b ∷ post) d in
      (
        ground (arith, apart a),
        ground (arith, apart b),
        ground (arith, has-append n pre (a ∷ b ∷ post)),
        ground (arith, has-append n pre (a ∷ b ∷ post)),
        d2.0,
        d2.1.0,
      )

  inserted-left : Linked h (pre ++ a ∷ []) → Linked (inserted a n b h) (pre ++ a ∷ [])
  unfolding inserted
  inserted-left k =
      let (ap, bp, np, ns, ab, bs) = apart_facts in
      Linked-set_prev_out _ (pre ++ a ∷ []) b n (ground (arith, has-append b pre (a ∷ []))) (
        Linked-set_next _ pre a a n ap (
          Linked-set_next _ pre a n b np (
            Linked-set_prev_out h (pre ++ a ∷ []) n a (ground (arith, has-append n pre (a ∷ [])))
              k)))

  inserted-right : Linked h (b ∷ post) → Linked (inserted a n b h) (b ∷ post)
  unfolding inserted
  inserted-right k =
      let (ap, bp, np, ns, ab, bs) = apart_facts in
      Linked-set_prev _ b post b n bs (
        Linked-set_next_out _ (b ∷ post) a n ab (
          Linked-set_next_out _ (b ∷ post) n b (ground arith)
            (Linked-set_prev_out h (b ∷ post) n a (ground arith) k)))

  inserted-mid :
      (inserted a n b h).next a ≡ n
      × (inserted a n b h).prev n ≡ a
      × (inserted a n b h).next n ≡ b
      × (inserted a n b h).prev b ≡ n
  unfolding inserted set_next set_prev
  inserted-mid =
      let (ap, bp, np, ns, ab, bs) = apart_facts in
      (ground arith, ground arith, ground arith, ground arith)

  -- The node now stands between its neighbours, and all else is as it was.
  pub inserted-Linked :
      Linked h (pre ++ a ∷ b ∷ post) → Linked (inserted a n b h) (pre ++ a ∷ n ∷ b ∷ post)
  inserted-Linked k =
      let (left, right) = Linked-split h pre a (b ∷ post) k in
      let (an, na, nb, bn) = inserted-mid in
      Linked-join (inserted a n b h) pre a (n ∷ b ∷ post) (inserted-left left)
        (an, na, (nb, bn, inserted-right right.2))

module _ (h : Store) (pre : List Ptr) (a n b : Ptr) (post : List Ptr)
    (d : Distinct (pre ++ a ∷ n ∷ b ∷ post)) where
  removal_facts :
      (has a pre ≡ false)
      × (has b pre ≡ false)
      × (has n pre ≡ false)
      × (has n (b ∷ post) ≡ false)
      × (has a (n ∷ b ∷ post) ≡ false)
      × (has b post ≡ false)
  removal_facts =
      let (d1, d2, apart) = Distinct-append pre (a ∷ n ∷ b ∷ post) d in
      (
        ground (arith, apart a),
        ground (arith, apart b),
        ground (arith, apart n),
        d2.1.0,
        d2.0,
        d2.1.1.0,
      )

  removed-left : Linked h (pre ++ a ∷ []) → Linked (removed a n b h) (pre ++ a ∷ [])
  unfolding removed
  removed-left k =
      let (ap, bp, np, ns, ab, bs) = removal_facts in
      Linked-set_next _ pre a n null np (
        Linked-set_prev_out _ (pre ++ a ∷ []) n null (ground (arith, has-append n pre (a ∷ []))) (
          Linked-set_prev_out _ (pre ++ a ∷ []) b a (ground (arith, has-append b pre (a ∷ [])))
            (Linked-set_next h pre a a b ap k)))

  removed-right : Linked h (b ∷ post) → Linked (removed a n b h) (b ∷ post)
  unfolding removed
  removed-right k =
      let (ap, bp, np, ns, ab, bs) = removal_facts in
      Linked-set_next_out _ (b ∷ post) n null ns (
        Linked-set_prev_out _ (b ∷ post) n null ns
          (Linked-set_prev _ b post b a bs (Linked-set_next_out h (b ∷ post) a b (ground arith) k)))

  removed-mid : ((removed a n b h).next a ≡ b) × ((removed a n b h).prev b ≡ a)
  unfolding removed set_next set_prev
  removed-mid = let (ap, bp, np, ns, ab, bs) = removal_facts in (ground arith, ground arith)

  -- The neighbours point at each other again, and all else is as it was.
  pub removed-Linked :
      Linked h (pre ++ a ∷ n ∷ b ∷ post) → Linked (removed a n b h) (pre ++ a ∷ b ∷ post)
  removed-Linked k =
      let (left, right) = Linked-split h pre a (n ∷ b ∷ post) k in
      let (ab, ba) = removed-mid in
      Linked-join (removed a n b h) pre a (b ∷ post) (removed-left left)
        (ab, ba, removed-right right.2.2)
