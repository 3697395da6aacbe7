-- ===== src/Device/Elevator/Queue.antt =====
-- The list of requests keeps its order and one request of it is served, through both halves of
-- `device_request`.
use polaris_os.LinkedList.{Ptr, null}
use polaris_os.LinkedList.Linked.{has, Distinct, IsList}
use polaris_os.LinkedList.Sort.{insort, AtLeast, Sorted}
use polaris_os.Device.Elevator.Neighbour.{unzip}
use polaris_os.Prelude.{
  ◌==◌, length, ℕ, suc, ◌≡◌, refl, sym, ap, true, false, ◌||◌, List, [], ◌∷◌, ◌++◌, arith,
  ℕ_discrete,
}
use polaris_os.Device.Elevator.{Disk, assign, is_some}

-- Nothing to serve and nobody in the list, or one request of the list is served.
pub data Served : (nodes serving : List Ptr) → Type 0 where
  at_rest : Served [] []
  busy : (ys zs : List Ptr) (x : Ptr) → Served (unzip ys (x ∷ zs)) (x ∷ [])

-- The requests that are allocated are those of the list, which is in order of the sectors; all of
-- them but the one that is served are blocked and have a task to wake.
pub record Ordered (d : Disk) (nodes : List Ptr) : Type 0 where
  pub is_list : IsList d.links d.ends nodes
  pub sorted : Sorted d.key nodes
  pub waits : (p : Ptr) → has p nodes ≡ true → has p d.serving ≡ false → is_some (d.task p) ≡ true
  pub same : (p : Ptr) → has p d.live ≡ has p nodes
  pub counted : length d.live ≡ length nodes
  pub alone : Distinct d.live

pub record Sound (d : Disk) : Type 0 where
  pub nodes : List Ptr
  pub ordered : Ordered d nodes
  pub served : Served nodes d.serving

-- What the code relies on for a new request: it is none of those allocated and no sentinel, and its
-- node has null links.
pub record IsNew (d : Disk) (req : Ptr) : Type 0 where
  pub real : (req == null) ≡ false
  pub fresh : has req d.live ≡ false
  pub not_head : (req == d.ends.head) ≡ false
  pub not_tail : (req == d.ends.tail) ≡ false
  pub no_next : d.links.next req ≡ null
  pub no_prev : d.links.prev req ≡ null

module _ (key : Ptr → ℕ) (req idx : ℕ) where
  AtLeast-assign :
      (k : ℕ) (xs : List Ptr)
      → has req xs ≡ false
      → AtLeast key k xs
      → AtLeast (assign key req idx) k xs
  AtLeast-assign k [] e a = tt
  AtLeast-assign k (x ∷ xs) e a =
      (ground (arith, e, a.0), AtLeast-assign k xs (ground (arith, e)) a.1)

  pub Sorted-assign :
      (xs : List Ptr) → has req xs ≡ false → Sorted key xs → Sorted (assign key req idx) xs
  Sorted-assign [] e s = tt
  Sorted-assign (x ∷ xs) e s =
      let other : (x == req) ≡ false = ground (arith, e) in
      (
        rw other (AtLeast-assign (key x) xs (ground (arith, e)) s.0),
        Sorted-assign xs (ground (arith, e)) s.1,
      )

module _ (key : Ptr → ℕ) where
  pub has-insort : (p n : Ptr) (xs : List Ptr) → has p (insort key n xs) ≡ ((p == n) || has p xs)
  has-insort p n [] = refl
  has-insort p n (x ∷ xs) = ground (arith, has-insort p n xs)

  pub length-insort : (n : Ptr) (xs : List Ptr) → length (insort key n xs) ≡ suc (length xs)
  length-insort n [] = refl
  length-insort n (x ∷ xs) = ground (arith, length-insort n xs)

  AtLeast-drop :
      (k : ℕ) (x : Ptr) (ys zs : List Ptr) → AtLeast key k (ys ++ x ∷ zs) → AtLeast key k (ys ++ zs)
  AtLeast-drop k x [] zs a = a.1
  AtLeast-drop k x (y ∷ ys) zs a = (a.0, AtLeast-drop k x ys zs a.1)

  pub Sorted-drop : (x : Ptr) (ys zs : List Ptr) → Sorted key (ys ++ x ∷ zs) → Sorted key (ys ++ zs)
  Sorted-drop x [] zs s = s.1
  Sorted-drop x (y ∷ ys) zs s = (AtLeast-drop (key y) x ys zs s.0, Sorted-drop x ys zs s.1)

-- A node of a list cuts it.
pub cut_at :
    (p : Ptr) (xs : List Ptr) → has p xs ≡ true → (ys zs : List Ptr) × (xs ≡ unzip ys (p ∷ zs))
cut_at p xs e = from [] xs e
  where
    from :
        (ys xs : List Ptr)
        → has p xs ≡ true
        → (ys' zs : List Ptr) × (unzip ys xs ≡ unzip ys' (p ∷ zs))
    from ys [] e = cc
    from ys (x ∷ xs) e = elim (ℕ_discrete p x) [
      | yes same ↦ (ys, xs, ap (λ z. unzip ys (z ∷ xs)) (sym same))
      | no ne ↦ from (x ∷ ys) xs (ground (arith, ne, e))
    ]
