-- ===== src/LinkedList/PushPop.antt =====
-- Pushing and popping at the two ends of a list.
use polaris_os.Prelude.{
  ◌==◌, length, length-append, Returns, returns, Returns-bind, ℕ, ◌<◌, ◌≡◌, refl, ◌∙◌, true, false,
  none, List, [], ◌∷◌, ◌++◌, arith,
}
use mathlib.Core.List.{append-nil}
use polaris_os.LinkedList.{
  Ptr, null, Store, Ends, set_next, set_prev, list_init, list_empty, list_push_front,
  list_push_back, list_pop_front, list_pop_back,
}
use polaris_os.LinkedList.Linked.{has, whole, IsList, has-append, Linked-split}
use polaris_os.LinkedList.Insert.{
  Grown, Fresh, whole-append, list_insert_before_lem, list_insert_after_lem,
}
use polaris_os.LinkedList.Walk.{list_search-has, list_empty-nil}
use polaris_os.LinkedList.Remove.{Shrunk, list_remove_lem}

-- A node outside the whole list is not one of its nodes.
not_among : (l : Ends) (xs : List Ptr) (n : Ptr) → Fresh l xs n → has n xs ≡ false
not_among l xs n f = ground (arith, has-append n xs (l.tail ∷ []), f.out)

module _ (h : Store) (l : Ends) (xs : List Ptr) (k : IsList h l xs) (n : Ptr) (f : Fresh l xs n)
    (fuel : ℕ) (enough : length xs < fuel) where
  -- `list_push_front` of a node that is not in the well-formed list returns, if the search has one
  -- round more than there are nodes: the node is then the first one.
  pub list_push_front-cons : Returns (Grown h l xs n (n ∷ xs)) (list_push_front fuel l n h)
  unfolding list_push_front
  list_push_front-cons =
      rw (list_search-has h l xs k fuel n enough, not_among l xs n f)
        (list_insert_after_lem h l n xs k f)

  -- `list_push_back` under the same conditions: the node is then the last one.
  pub list_push_back-append : Returns (Grown h l xs n (xs ++ n ∷ [])) (list_push_back fuel l n h)
  unfolding list_push_back
  list_push_back-append =
      let same : xs ++ [] ≡ xs = append-nil xs in
      rw (list_search-has h l xs k fuel n enough, not_among l xs n f)
        (rw same at (list_insert_before_lem h l n xs [] (rw same k) (rw same f)))

-- What a pop promises on a list that is not empty: the node, and the rest of the list.
abbrev pub Popped : Store → Ends → List Ptr → Ptr → List Ptr → Ptr × Store → Type 0
Popped h l xs n ys (m, h') = (m ≡ n) × Shrunk h l xs n ys h'

last_prev :
    (h : Store) (l : Ends) (x : Ptr) (xs : List Ptr) → IsList h l (xs ++ x ∷ []) → h.prev l.tail ≡ x
last_prev h l x xs k =
    let e : whole l (xs ++ x ∷ []) ≡ (l.head ∷ xs) ++ x ∷ l.tail ∷ [] =
      whole-append l xs (x ∷ []) in
    (Linked-split h (l.head ∷ xs) x (l.tail ∷ []) (rw e at k.linked)).1.1

module _ (h : Store) (l : Ends) where
  -- `list_pop_front` of a well-formed list that is not empty returns the first node and unlinks it.
  pub list_pop_front-cons :
      (x : Ptr) (xs : List Ptr)
      → IsList h l (x ∷ xs)
      → Returns (Popped h l (x ∷ xs) x xs) (list_pop_front l h)
  unfolding list_pop_front
  list_pop_front-cons x xs k =
      let e : list_empty l h ≡ false = list_empty-nil h l (x ∷ xs) k ∙ (ground arith) in
      rw (e, k.linked.0) (Returns-bind (list_remove_lem h l x [] xs k) λ h' s. returns (refl, s))

  -- `list_pop_back` of a well-formed list that is not empty returns the last node and unlinks it.
  pub list_pop_back-append :
      (x : Ptr) (xs : List Ptr)
      → IsList h l (xs ++ x ∷ [])
      → Returns (Popped h l (xs ++ x ∷ []) x xs) (list_pop_back l h)
  unfolding list_pop_back
  list_pop_back-append x xs k =
      let some_node : (length (xs ++ x ∷ []) == 0) ≡ false =
        ground (arith, length-append xs (x ∷ [])) in
      let e : list_empty l h ≡ false = list_empty-nil h l (xs ++ x ∷ []) k ∙ some_node in
      let same : xs ++ [] ≡ xs = append-nil xs in
      let last : h.prev l.tail ≡ x = last_prev h l x xs k in
      rw (e, last)
        (Returns-bind (rw same at (list_remove_lem h l x xs [] k)) λ h' s. returns (refl, s))

  -- A pop from an empty list fails its assertion.
  pub pop_empty : IsList h l [] → (list_pop_front l h ≡ none) × (list_pop_back l h ≡ none)
  unfolding list_pop_front list_pop_back
  pop_empty k = let e : list_empty l h ≡ true = list_empty-nil h l [] k in (rw e, rw e)

-- `list_init` of two different sentinels that are not null makes a well-formed empty list.
pub list_init-IsList :
    (l : Ends) (h : Store)
    → (l.head == l.tail) ≡ false
    → (null == l.head) ≡ false
    → (null == l.tail) ≡ false
    → IsList (list_init l h) l []
unfolding list_init set_next set_prev
list_init-IsList l h ne nh nt = record {
  linked = (ground arith, ground arith, tt);
  distinct = (ground arith, (refl, tt));
  not_null = ground arith;
}
