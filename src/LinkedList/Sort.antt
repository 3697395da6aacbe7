-- ===== src/LinkedList/Sort.antt =====
-- `list_insert_sort` keeps a list sorted by the signed keys of its nodes.
use polaris_os.Prelude.{
  ◌==◌, if◌then◌else◌, Bool-cases, length, Returns, Returns-mono, ℕ, zero, suc, ◌<◌, ◌≡◌, refl, inl,
  inr, false, some, List, [], ◌∷◌, ◌++◌, arith,
}
use polaris_os.LinkedList.{Ptr, null, Store, Ends, gt_int, anchor_loop, list_insert_sort}
use polaris_os.LinkedList.Linked.{IsList}
use polaris_os.LinkedList.Insert.{first, Grown, Fresh, list_insert_before_lem}
use polaris_os.LinkedList.Walk.{Rest, Rest-step, Rest-start}

module _ (key : Ptr → ℕ) where
  -- Where the insertion of a node with key `k` cuts a list.
  abbrev pub before : ℕ → List Ptr → List Ptr
  before k [] = []
  before k (x ∷ xs) = if gt_int (key x) k then [] else x ∷ before k xs

  abbrev pub behind : ℕ → List Ptr → List Ptr
  behind k [] = []
  behind k (x ∷ xs) = if gt_int (key x) k then x ∷ xs else behind k xs

  -- The node goes behind all keys that are not greater.
  abbrev pub insort : Ptr → List Ptr → List Ptr
  insort n [] = n ∷ []
  insort n (x ∷ xs) = if gt_int (key x) (key n) then n ∷ x ∷ xs else x ∷ insort n xs

  before-append-behind : (k : ℕ) (xs : List Ptr) → before k xs ++ behind k xs ≡ xs
  before-append-behind k [] = refl
  before-append-behind k (x ∷ xs) = ground (arith, before-append-behind k xs)

  insort-eq-append :
      (n : Ptr) (xs : List Ptr) → before (key n) xs ++ n ∷ behind (key n) xs ≡ insort n xs
  insort-eq-append n [] = refl
  insort-eq-append n (x ∷ xs) = ground (arith, insort-eq-append n xs)

  -- No key of the list is smaller than `k`.
  abbrev pub AtLeast : ℕ → List Ptr → Type 0
  AtLeast k [] = Unit
  AtLeast k (x ∷ xs) = (gt_int k (key x) ≡ false) × AtLeast k xs

  abbrev pub Sorted : List Ptr → Type 0
  Sorted [] = Unit
  Sorted (x ∷ xs) = AtLeast (key x) xs × Sorted xs

  AtLeast-mono : (a b : ℕ) (xs : List Ptr) → gt_int a b ≡ false → AtLeast b xs → AtLeast a xs
  AtLeast-mono a b [] h k = tt
  AtLeast-mono a b (x ∷ xs) h k = (ground arith, AtLeast-mono a b xs h k.1)

  AtLeast-insort :
      (a : ℕ) (n : Ptr) (xs : List Ptr)
      → gt_int a (key n) ≡ false
      → AtLeast a xs
      → AtLeast a (insort n xs)
  AtLeast-insort a n [] h k = (h, tt)
  AtLeast-insort a n (x ∷ xs) h k = elim (Bool-cases (gt_int (key x) (key n))) [
    | inl gt ↦ rw gt (h, (k.0, k.1))
    | inr le ↦ rw le (k.0, AtLeast-insort a n xs h k.1)
  ]

  pub Sorted-insort : (n : Ptr) (xs : List Ptr) → Sorted xs → Sorted (insort n xs)
  Sorted-insort n [] s = (tt, tt)
  Sorted-insort n (x ∷ xs) s = elim (Bool-cases (gt_int (key x) (key n))) [
    | inl gt ↦
        let le : gt_int (key n) (key x) ≡ false = ground arith in
        rw gt ((le, AtLeast-mono (key n) (key x) xs le s.0), s)
    | inr le ↦ rw le (AtLeast-insort (key x) n xs le s.0, Sorted-insort n xs s.1)
  ]

  module _ (h : Store) (t : Ptr) (k : ℕ) where
    anchor_loop-first :
        (fuel : ℕ) (cur : Ptr) (xs : List Ptr)
        → Rest h t cur xs
        → length xs < fuel
        → anchor_loop fuel h key t k cur ≡ some (first (behind k xs) t)
    unfolding anchor_loop
    anchor_loop-first zero cur xs r f = absurd (omega arith)
    anchor_loop-first (suc fuel) cur [] r f = ground (arith, r.start)
    anchor_loop-first (suc fuel) cur (x ∷ xs) r f =
        let r' : Rest h t x (x ∷ xs) = record {
          linked = r.linked;
          start = refl;
          no_tail = r.no_tail;
          no_null = r.no_null;
        } in
        let ne : (x == t) ≡ false = ground (arith, r.no_tail) in
        let node : (x == null) ≡ false = ground (arith, r.no_null) in
        let ih = anchor_loop-first fuel (h.next x) xs (Rest-step h t x xs r') (omega arith) in
        rw (r.start, ne)
          (elim (Bool-cases (gt_int (key x) k)) [ inl gt ↦ rw gt | inr le ↦ rw (le, node) ih ])

  -- On a well-formed list whose keys are in order, and a node that is not in it and has null links,
  -- `list_insert_sort` returns when its walk has one round more than there are nodes: the node then
  -- stands behind the last key that is not greater, the order holds, and no other link has changed.
  pub list_insert_sort-insort :
      (h : Store) (l : Ends) (xs : List Ptr) (n : Ptr) (fuel : ℕ)
      → IsList h l xs
      → Fresh l xs n
      → (h.next n ≡ null) × (h.prev n ≡ null)
      → length xs < fuel
      → Sorted xs
      → Returns
          (λ h'. Grown h l xs n (insort n xs) h' × Sorted (insort n xs))
          (list_insert_sort fuel key l n h)
  unfolding list_insert_sort
  list_insert_sort-insort h l xs n fuel k f alone enough s =
      let cut : before (key n) xs ++ behind (key n) xs ≡ xs = before-append-behind (key n) xs in
      rw
        (
          anchor_loop-first h l.tail (key n) fuel (h.next l.head) xs (Rest-start h l xs k) enough,
          alone.0,
          alone.1,
        )
        (Returns-mono
          (list_insert_before_lem h l n (before (key n) xs) (behind (key n) xs) (rw cut k)
            (rw cut f))
          (λ h' g. (rw (cut, insort-eq-append n xs) at g, Sorted-insort n xs s)))
