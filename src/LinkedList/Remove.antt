-- ===== src/LinkedList/Remove.antt =====
-- `list_remove` takes a node out of a list and clears its two pointers.
use mathlib.Core.Path.{subst}
use polaris_os.Prelude.{
  ◌==◌, Returns, returns, ◌≡◌, refl, sym, ap, ◌∙◌, false, ◌||◌, some, List, [], ◌∷◌, ◌++◌, arith,
}
use polaris_os.LinkedList.{Ptr, null, Store, Ends, set_next, set_prev, deref, list_remove}
use polaris_os.LinkedList.Linked.{
  has, IsSeq, whole, IsList, SameOutside, has-append, Linked-split, Distinct-append, Distinct-join,
}
use polaris_os.LinkedList.Edit.{removed, removed-Linked}
use polaris_os.LinkedList.Insert.{deref-mem, last_view, whole-append}

-- `h'` has the list without `n`, which stands alone, and differs from `h` in the list's nodes only.
pub record Shrunk (h : Store) (l : Ends) (xs : List Ptr) (n : Ptr) (ys : List Ptr) (h' : Store)
    : Type 0 where
  pub is_list : IsList h' l ys
  pub out : has n (whole l ys) ≡ false
  pub no_next : h'.next n ≡ null
  pub no_prev : h'.prev n ≡ null
  pub frame : SameOutside (whole l xs) h h'

module _ (h : Store) (pre : List Ptr) (a n b : Ptr) (post : List Ptr)
    (k : IsSeq h (pre ++ a ∷ n ∷ b ∷ post)) where
  seq_has : (p : Ptr) → has p (pre ++ a ∷ n ∷ b ∷ post) ≡ (has p pre || has p (a ∷ n ∷ b ∷ post))
  seq_has p = has-append p pre (a ∷ n ∷ b ∷ post)

  node_facts :
      (deref a ≡ some a)
      × (deref n ≡ some n)
      × (deref b ≡ some b)
      × ((a == n) ≡ false)
      × ((n == b) ≡ false)
      × ((n == a) ≡ false)
  node_facts =
      let d2 = (Distinct-append pre (a ∷ n ∷ b ∷ post) k.distinct).1 in
      let s = pre ++ a ∷ n ∷ b ∷ post in
      (
        deref-mem a s k.not_null (ground (arith, seq_has a)),
        deref-mem n s k.not_null (ground (arith, seq_has n)),
        deref-mem b s k.not_null (ground (arith, seq_has b)),
        ground (arith, d2.0),
        ground (arith, d2.1.0),
        ground (arith, d2.0),
      )

  pub list_remove-removed : list_remove n h ≡ some (removed a n b h)
  unfolding list_remove removed set_next set_prev
  list_remove-removed =
      let (da, dn, db, an, nb, na) = node_facts in
      let (ignored, right) = Linked-split h pre a (n ∷ b ∷ post) k.linked in
      let e : h.prev n ≡ a = right.1 in
      let e' : h.next n ≡ b = right.2.0 in rw (dn, e, da, e', db, na, db)

  removed-IsSeq : IsSeq (removed a n b h) (pre ++ a ∷ b ∷ post)
  removed-IsSeq =
      let (d1, d2, apart) = Distinct-append pre (a ∷ n ∷ b ∷ post) k.distinct in
      record {
        linked = removed-Linked h pre a n b post k.distinct k.linked;
        distinct =
            Distinct-join pre (a ∷ b ∷ post) d1 (ground (arith, d2.0), d2.1.1)
              (λ p e. ground (arith, apart p));
        not_null = ground (
          arith,
          has-append null pre (a ∷ n ∷ b ∷ post),
          has-append null pre (a ∷ b ∷ post),
          k.not_null,
        );
      }

  removed_out : has n (pre ++ a ∷ b ∷ post) ≡ false
  removed_out =
      let (d1, d2, apart) = Distinct-append pre (a ∷ n ∷ b ∷ post) k.distinct in
      ground (arith, has-append n pre (a ∷ b ∷ post), apart n, d2.0, d2.1.0)

  removed_alone : ((removed a n b h).next n ≡ null) × ((removed a n b h).prev n ≡ null)
  unfolding removed set_next set_prev
  removed_alone = (ground arith, ground arith)

  removed_frame : SameOutside (pre ++ a ∷ n ∷ b ∷ post) h (removed a n b h)
  unfolding removed set_next set_prev
  removed_frame p e = (ground (arith, seq_has p), ground (arith, seq_has p))

module _ (h : Store) (l : Ends) (n : Ptr) (ys zs : List Ptr) (b : Ptr) (post : List Ptr)
    (rest : zs ++ l.tail ∷ [] ≡ b ∷ post) (k : IsList h l (ys ++ n ∷ zs)) where
  remove_at : Returns (Shrunk h l (ys ++ n ∷ zs) n (ys ++ zs)) (list_remove n h)
  remove_at =
      let (pre, a, e) = last_view l.head ys in
      let old : whole l (ys ++ n ∷ zs) ≡ pre ++ a ∷ n ∷ b ∷ post =
        whole-append l ys (n ∷ zs) ∙ e (n ∷ zs ++ l.tail ∷ []) ∙ ap (λ r. pre ++ a ∷ n ∷ r) rest in
      let new : whole l (ys ++ zs) ≡ pre ++ a ∷ b ∷ post =
        whole-append l ys zs ∙ e (zs ++ l.tail ∷ []) ∙ ap (λ r. pre ++ a ∷ r) rest in
      let k' = rw old at k in
      rw (list_remove-removed h pre a n b post k') (
        returns (record {
          is_list = rw new (removed-IsSeq h pre a n b post k');
          out = subst (λ s. has n s ≡ false) (sym new) (removed_out h pre a n b post k');
          no_next = (removed_alone h pre a n b post k').0;
          no_prev = (removed_alone h pre a n b post k').1;
          frame =
              subst (λ s. SameOutside s h (removed a n b h)) (sym old)
                (removed_frame h pre a n b post k');
        }))

-- `list_remove` of a node that stands anywhere in a well-formed list returns: the other nodes form a
-- well-formed list in their old order, and the links of cells outside the list are as they were.
pub list_remove_lem :
    (h : Store) (l : Ends) (n : Ptr) (ys zs : List Ptr)
    → IsList h l (ys ++ n ∷ zs)
    → Returns (Shrunk h l (ys ++ n ∷ zs) n (ys ++ zs)) (list_remove n h)
list_remove_lem h l n ys [] k = remove_at h l n ys [] l.tail [] refl k
list_remove_lem h l n ys (z ∷ zs) k = remove_at h l n ys (z ∷ zs) z (zs ++ l.tail ∷ []) refl k
