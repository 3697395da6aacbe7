-- ===== src/LinkedList/Insert.antt =====
-- `list_insert_before` and `list_insert_after` put a node between two neighbours of a list.
use mathlib.Core.List.{append_assoc}
use polaris_os.Prelude.{
  ◌==◌, Returns, returns, ◌≡◌, refl, ap, ◌∙◌, true, false, some, List, [], ◌∷◌, ◌++◌, arith,
}
use polaris_os.LinkedList.{
  Ptr, null, Store, Ends, set_next, set_prev, deref, list_insert_before, list_insert_after,
}
use polaris_os.LinkedList.Linked.{
  has, IsSeq, whole, IsList, SameOutside, has-append, Linked-split, Distinct-append, Distinct-join,
}
use polaris_os.LinkedList.Edit.{inserted, inserted-Linked}

not_null_of : (p : Ptr) (s : List Ptr) → has null s ≡ false → has p s ≡ true → (p == null) ≡ false
not_null_of p [] z e = cc
not_null_of p (x ∷ xs) z e = ground (arith, not_null_of p xs)

pub deref-mem : (p : Ptr) (s : List Ptr) → has null s ≡ false → has p s ≡ true → deref p ≡ some p
deref-mem p s z e = rw (not_null_of p s z e)

module _ (h : Store) (pre : List Ptr) (a n b : Ptr) (post : List Ptr)
    (k : IsSeq h (pre ++ a ∷ b ∷ post)) (out : has n (pre ++ a ∷ b ∷ post) ≡ false)
    (some_node : (n == null) ≡ false) where
  deref-a : deref a ≡ some a
  deref-a =
      deref-mem a (pre ++ a ∷ b ∷ post) k.not_null (ground (arith, has-append a pre (a ∷ b ∷ post)))

  deref-b : deref b ≡ some b
  deref-b =
      deref-mem b (pre ++ a ∷ b ∷ post) k.not_null (ground (arith, has-append b pre (a ∷ b ∷ post)))

  apart : ((a == n) ≡ false) × ((b == n) ≡ false)
  apart = (
    ground (arith, has-append n pre (a ∷ b ∷ post)),
    ground (arith, has-append n pre (a ∷ b ∷ post)),
  )

  pub insert_before-inserted : list_insert_before b n h ≡ some (inserted a n b h)
  unfolding list_insert_before inserted set_next set_prev
  insert_before-inserted =
      let e : h.prev b ≡ a = (Linked-split h pre a (b ∷ post) k.linked).1.1 in
      rw (some_node, deref-b, apart.1, e, deref-a)

  pub insert_after-inserted : list_insert_after a n h ≡ some (inserted a n b h)
  unfolding list_insert_after inserted set_next set_prev
  insert_after-inserted =
      let e : h.next a ≡ b = (Linked-split h pre a (b ∷ post) k.linked).1.0 in
      rw (some_node, deref-a, apart.0, e, deref-b)

  pub inserted-IsSeq : IsSeq (inserted a n b h) (pre ++ a ∷ n ∷ b ∷ post)
  inserted-IsSeq =
      let (d1, d2, apart) = Distinct-append pre (a ∷ b ∷ post) k.distinct in
      let outs = has-append n pre (a ∷ b ∷ post) in
      record {
        linked = inserted-Linked h pre a n b post k.distinct out k.linked;
        distinct =
            Distinct-join pre (a ∷ n ∷ b ∷ post) d1
              (ground (arith, outs), (ground (arith, outs), d2.1))
              (λ p e. ground (arith, outs, apart p));
        not_null = ground (
          arith,
          has-append null pre (a ∷ b ∷ post),
          has-append null pre (a ∷ n ∷ b ∷ post),
          k.not_null,
        );
      }

  pub inserted_frame : SameOutside (n ∷ pre ++ a ∷ b ∷ post) h (inserted a n b h)
  unfolding inserted set_next set_prev
  inserted_frame p e = (
    ground (arith, has-append p pre (a ∷ b ∷ post)),
    ground (arith, has-append p pre (a ∷ b ∷ post)),
  )

-- The first node of `zs`, or the tail.
abbrev pub first : List Ptr → Ptr → Ptr
first [] t = t
first (z ∷ zs) t = z

-- A sequence that is not empty ends with some node.
pub last_view :
    (x : Ptr) (xs : List Ptr)
    → (pre : List Ptr) × (a : Ptr) × ((zs : List Ptr) → x ∷ xs ++ zs ≡ pre ++ a ∷ zs)
last_view x [] = ([], x, λ zs. refl)
last_view x (y ∷ xs) =
    let (pre, a, e) = last_view y xs in (x ∷ pre, a, λ zs. ap (λ l. x ∷ l) (e zs))

-- `h'` has the list with `n` in it, and differs from `h` in its nodes only.
pub record Grown (h : Store) (l : Ends) (xs : List Ptr) (n : Ptr) (ys : List Ptr) (h' : Store)
    : Type 0 where
  pub is_list : IsList h' l ys
  pub frame : SameOutside (n ∷ whole l xs) h h'

-- A node that may be inserted: not NULL, and not in the list.
pub record Fresh (l : Ends) (xs : List Ptr) (n : Ptr) : Type 0 where
  pub node : (n == null) ≡ false
  pub out : has n (whole l xs) ≡ false

pub whole-append :
    (l : Ends) (ys zs : List Ptr) → whole l (ys ++ zs) ≡ l.head ∷ ys ++ (zs ++ l.tail ∷ [])
whole-append l ys zs = ap (λ r. l.head ∷ r) (append_assoc ys zs (l.tail ∷ []))

-- The same, with the neighbours given.
insert_between :
    (h : Store) (n : Ptr) (s t : List Ptr) (pre : List Ptr) (a b : Ptr) (post : List Ptr)
    → s ≡ pre ++ a ∷ b ∷ post
    → t ≡ pre ++ a ∷ n ∷ b ∷ post
    → IsSeq h s
    → has n s ≡ false
    → (n == null) ≡ false
    → (list_insert_before b n h ≡ some (inserted a n b h))
      × (list_insert_after a n h ≡ some (inserted a n b h))
      × IsSeq (inserted a n b h) t
      × SameOutside (n ∷ s) h (inserted a n b h)
insert_between h n s t pre a b post e e' k out node =
    let k' = rw e at k in
    let out' = rw e at out in
    (
      insert_before-inserted h pre a n b post k' out' node,
      insert_after-inserted h pre a n b post k' out' node,
      rw e' (inserted-IsSeq h pre a n b post k' out' node),
      rw e (inserted_frame h pre a n b post k' out' node),
    )

module _ (h : Store) (l : Ends) (n : Ptr) (ys : List Ptr) (b : Ptr) (post zs : List Ptr)
    (rest : zs ++ l.tail ∷ [] ≡ b ∷ post) (k : IsList h l (ys ++ zs))
    (f : Fresh l (ys ++ zs) n) where
  insert_before_at : Returns (Grown h l (ys ++ zs) n (ys ++ n ∷ zs)) (list_insert_before b n h)
  insert_before_at =
      let (pre, a, e) = last_view l.head ys in
      let old : whole l (ys ++ zs) ≡ pre ++ a ∷ b ∷ post =
        whole-append l ys zs ∙ e (zs ++ l.tail ∷ []) ∙ ap (λ r. pre ++ a ∷ r) rest in
      let new : whole l (ys ++ n ∷ zs) ≡ pre ++ a ∷ n ∷ b ∷ post =
        whole-append l ys (n ∷ zs) ∙ e (n ∷ zs ++ l.tail ∷ []) ∙ ap (λ r. pre ++ a ∷ n ∷ r) rest in
      let (runs, _, is, same) =
        insert_between h n (whole l (ys ++ zs)) (whole l (ys ++ n ∷ zs)) pre a b post old new k
          f.out f.node in
      rw runs (returns (record { is_list = is; frame = same }))

-- `list_insert_before` with an anchor anywhere in a well-formed list, the tail included, and a node
-- that is not in it: the node stands before the anchor in a well-formed list, and the links of cells
-- outside the list are as they were.
pub list_insert_before_lem :
    (h : Store) (l : Ends) (n : Ptr) (ys zs : List Ptr)
    → IsList h l (ys ++ zs)
    → Fresh l (ys ++ zs) n
    → Returns (Grown h l (ys ++ zs) n (ys ++ n ∷ zs)) (list_insert_before (first zs l.tail) n h)
list_insert_before_lem h l n ys [] k f = insert_before_at h l n ys l.tail [] [] refl k f
list_insert_before_lem h l n ys (z ∷ zs) k f =
    insert_before_at h l n ys z (zs ++ l.tail ∷ []) (z ∷ zs) refl k f

insert_after_at :
    (h : Store) (l : Ends) (n : Ptr) (xs : List Ptr) (b : Ptr) (post : List Ptr)
    → xs ++ l.tail ∷ [] ≡ b ∷ post
    → IsList h l xs
    → Fresh l xs n
    → Returns (Grown h l xs n (n ∷ xs)) (list_insert_after l.head n h)
insert_after_at h l n xs b post rest k f =
    let old : whole l xs ≡ l.head ∷ b ∷ post = ap (λ r. l.head ∷ r) rest in
    let new : whole l (n ∷ xs) ≡ l.head ∷ n ∷ b ∷ post = ap (λ r. l.head ∷ n ∷ r) rest in
    let (_, runs, is, same) =
      insert_between h n (whole l xs) (whole l (n ∷ xs)) [] l.head b post old new k f.out f.node in
    rw runs (returns (record { is_list = is; frame = same }))

-- Inserting behind the head.
pub list_insert_after_lem :
    (h : Store) (l : Ends) (n : Ptr) (xs : List Ptr)
    → IsList h l xs
    → Fresh l xs n
    → Returns (Grown h l xs n (n ∷ xs)) (list_insert_after l.head n h)
list_insert_after_lem h l n [] k f = insert_after_at h l n [] l.tail [] refl k f
list_insert_after_lem h l n (x ∷ xs) k f =
    insert_after_at h l n (x ∷ xs) x (xs ++ l.tail ∷ []) refl k f
