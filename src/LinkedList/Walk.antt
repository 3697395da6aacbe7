-- ===== src/LinkedList/Walk.antt =====
-- The loops over a list: enough fuel is one round more than there are nodes.
use polaris_os.Prelude.{
  ◌==◌, length, ℕ, zero, suc, ◌+◌, ◌%◌, ◌^◌, ◌<◌, ◌≡◌, refl, ap, ◌∙◌, false, some, List, [], ◌∷◌,
  ◌++◌, arith,
}
use polaris_os.LinkedList.{
  Ptr, null, Store, Ends, list_empty, search_loop, list_search, size_loop, list_size,
}
use polaris_os.LinkedList.Linked.{has, Linked, IsList, has-append, Distinct-append}
use polaris_os.LinkedList.Insert.{first}

-- The nodes `xs` from `cur` on, before the tail `t`.
pub record Rest (h : Store) (t cur : Ptr) (xs : List Ptr) : Type 0 where
  pub linked : Linked h (xs ++ t ∷ [])
  pub start : cur ≡ first xs t
  pub no_tail : has t xs ≡ false
  pub no_null : has null xs ≡ false

pub Rest-step :
    (h : Store) (t x : Ptr) (xs : List Ptr) → Rest h t x (x ∷ xs) → Rest h t (h.next x) xs
Rest-step h t x [] r = record { linked = tt; start = r.linked.0; no_tail = refl; no_null = refl }
Rest-step h t x (y ∷ xs) r = record {
  linked = r.linked.2;
  start = r.linked.0;
  no_tail = ground (arith, r.no_tail);
  no_null = ground (arith, r.no_null);
}

pub Rest-start :
    (h : Store) (l : Ends) (xs : List Ptr) → IsList h l xs → Rest h l.tail (h.next l.head) xs
Rest-start h l [] k = record { linked = tt; start = k.linked.0; no_tail = refl; no_null = refl }
Rest-start h l (x ∷ xs) k = record {
  linked = k.linked.2;
  start = k.linked.0;
  no_tail =
      (let apart = (Distinct-append (l.head ∷ x ∷ xs) (l.tail ∷ []) k.distinct).2 in
        ground (arith, apart l.tail));
  no_null = ground (arith, has-append null (x ∷ xs) (l.tail ∷ []), k.not_null);
}

module _ (h : Store) (t node : Ptr) where
  search_loop-has :
      (fuel : ℕ) (cur : Ptr) (xs : List Ptr)
      → Rest h t cur xs
      → length xs < fuel
      → search_loop fuel h t node cur ≡ some (has node xs)
  unfolding search_loop
  search_loop-has zero cur xs r f = absurd (omega arith)
  search_loop-has (suc fuel) cur [] r f = ground (arith, r.start)
  search_loop-has (suc fuel) cur (x ∷ xs) r f =
      let r' : Rest h t x (x ∷ xs) = record {
        linked = r.linked;
        start = refl;
        no_tail = r.no_tail;
        no_null = r.no_null;
      } in
      rw r.start (
        ground (
          arith,
          r.no_tail,
          r.no_null,
          search_loop-has fuel (h.next x) xs (Rest-step h t x xs r') (omega arith),
        ))

module _ (h : Store) (t : Ptr) where
  size_loop-length :
      (fuel : ℕ) (cur : Ptr) (xs : List Ptr) (size : ℕ)
      → Rest h t cur xs
      → length xs < fuel
      → size + length xs < 2 ^ 32
      → size_loop fuel h t cur size ≡ some (size + length xs)
  unfolding size_loop
  size_loop-length zero cur xs size r f b = absurd (omega arith)
  size_loop-length (suc fuel) cur [] size r f b = ground (arith, r.start)
  size_loop-length (suc fuel) cur (x ∷ xs) size r f b =
      let r' : Rest h t x (x ∷ xs) = record {
        linked = r.linked;
        start = refl;
        no_tail = r.no_tail;
        no_null = r.no_null;
      } in
      let e : (size + 1) % 2 ^ 32 ≡ size + 1 = omega arith in
      rw (r.start, e)
        (ground (
          arith,
          r.no_tail,
          r.no_null,
          size_loop-length fuel (h.next x) xs (size + 1) (Rest-step h t x xs r') (omega arith)
              (omega arith),
        ))

module _ (h : Store) (l : Ends) (xs : List Ptr) (k : IsList h l xs) where
  -- `list_search` on a well-formed list says whether the node is in it, in one round more than there
  -- are nodes.
  pub list_search-has :
      (fuel : ℕ) (node : Ptr) → length xs < fuel → list_search fuel l node h ≡ some (has node xs)
  unfolding list_search
  list_search-has fuel node f =
      search_loop-has h l.tail node fuel (h.next l.head) xs (Rest-start h l xs k) f

  -- `list_size` counts the nodes.
  pub list_size-length :
      (fuel : ℕ) → length xs < fuel → length xs < 2 ^ 32 → list_size fuel l h ≡ some (length xs)
  unfolding list_size
  list_size-length fuel f b =
      size_loop-length h l.tail fuel (h.next l.head) xs 0 (Rest-start h l xs k) f (omega arith)
      ∙ ap some (omega arith)

  pub list_empty-nil : list_empty l h ≡ (length xs == 0)
  unfolding list_empty
  list_empty-nil = empty_of xs (Rest-start h l xs k)
    where
      empty_of :
          (ys : List Ptr)
          → Rest h l.tail (h.next l.head) ys
          → (h.next l.head == l.tail) ≡ (length ys == 0)
      empty_of [] r = ground (arith, r.start)
      empty_of (y ∷ ys) r = rw r.start (ground (arith, r.no_tail))
