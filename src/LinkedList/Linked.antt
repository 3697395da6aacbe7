-- ===== src/LinkedList/Linked.antt =====
-- Sequences of distinct nodes that the two pointers of each node link, and what a write leaves.
use polaris_os.Prelude.{◌==◌, ◌≡◌, refl, Bool, true, false, ◌||◌, List, [], ◌∷◌, ◌++◌, arith}
use polaris_os.LinkedList.{Ptr, null, Store, Ends, set_next, set_prev}

abbrev pub has : Ptr → List Ptr → Bool
has a [] = false
has a (x ∷ xs) = (a == x) || has a xs

abbrev pub Distinct : List Ptr → Type 0
Distinct [] = Unit
Distinct (x ∷ xs) = (has x xs ≡ false) × Distinct xs

-- Neighbours point at each other.
abbrev pub Linked : Store → List Ptr → Type 0
Linked h [] = Unit
Linked h (a ∷ []) = Unit
Linked h (a ∷ b ∷ r) = (h.next a ≡ b) × (h.prev b ≡ a) × Linked h (b ∷ r)

-- Distinct nodes, none of them NULL, that are linked in order.
pub record IsSeq (h : Store) (s : List Ptr) : Type 0 where
  pub linked : Linked h s
  pub distinct : Distinct s
  pub not_null : has null s ≡ false

-- The sentinels and the nodes between them.
abbrev pub whole : Ends → List Ptr → List Ptr
whole l xs = l.head ∷ xs ++ l.tail ∷ []

-- The list `l` holds the nodes `xs` in order.
abbrev pub IsList : Store → Ends → List Ptr → Type 0
IsList h l xs = IsSeq h (whole l xs)

-- Only nodes of `s` differ in `h'`.
abbrev pub SameOutside : List Ptr → Store → Store → Type 0
SameOutside s h h' = (p : Ptr) → has p s ≡ false → (h'.next p ≡ h.next p) × (h'.prev p ≡ h.prev p)

pub has-append : (a : Ptr) (xs ys : List Ptr) → has a (xs ++ ys) ≡ (has a xs || has a ys)
has-append a [] ys = refl
has-append a (x ∷ xs) ys = ground (arith, has-append a xs ys)

-- A linked sequence is cut at a node, which both parts keep, and joined again.
pub Linked-split :
    (h : Store) (xs : List Ptr) (a : Ptr) (ys : List Ptr)
    → Linked h (xs ++ a ∷ ys)
    → Linked h (xs ++ a ∷ []) × Linked h (a ∷ ys)
Linked-split h [] a ys k = (tt, k)
Linked-split h (x ∷ []) a ys k = ((k.0, k.1, tt), k.2)
Linked-split h (x ∷ y ∷ xs) a ys k =
    let (left, right) = Linked-split h (y ∷ xs) a ys k.2 in ((k.0, k.1, left), right)

pub Linked-join :
    (h : Store) (xs : List Ptr) (a : Ptr) (ys : List Ptr)
    → Linked h (xs ++ a ∷ [])
    → Linked h (a ∷ ys)
    → Linked h (xs ++ a ∷ ys)
Linked-join h [] a ys k m = m
Linked-join h (x ∷ []) a ys k m = (k.0, k.1, m)
Linked-join h (x ∷ y ∷ xs) a ys k m = (k.0, k.1, Linked-join h (y ∷ xs) a ys k.2 m)

-- A write to `next` of a node that is not in the sequence, or is its last.
pub Linked-set_next :
    (h : Store) (xs : List Ptr) (a p q : Ptr)
    → has p xs ≡ false
    → Linked h (xs ++ a ∷ [])
    → Linked (set_next p q h) (xs ++ a ∷ [])
unfolding set_next
Linked-set_next h [] a p q o k = tt
Linked-set_next h (x ∷ []) a p q o k = (ground arith, k.1, tt)
Linked-set_next h (x ∷ y ∷ xs) a p q o k =
    (ground arith, k.1, Linked-set_next h (y ∷ xs) a p q (ground arith) k.2)

-- A write to `prev` of a node that is not in the sequence, or is its first.
pub Linked-set_prev :
    (h : Store) (a : Ptr) (xs : List Ptr) (p q : Ptr)
    → has p xs ≡ false
    → Linked h (a ∷ xs)
    → Linked (set_prev p q h) (a ∷ xs)
unfolding set_prev
Linked-set_prev h a [] p q o k = tt
Linked-set_prev h a (x ∷ xs) p q o k =
    (k.0, ground arith, Linked-set_prev h x xs p q (ground arith) k.2)

-- Distinct nodes of a joined sequence.
pub Distinct-append :
    (xs ys : List Ptr)
    → Distinct (xs ++ ys)
    → Distinct xs × Distinct ys × ((a : Ptr) → has a xs ≡ true → has a ys ≡ false)
Distinct-append [] ys d = (tt, d, λ a e. cc)
Distinct-append (x ∷ xs) ys d =
    let (dx, dy, apart) = Distinct-append xs ys d.1 in
    (
      (ground (arith, has-append x xs ys), dx),
      dy,
      λ a e. ground (arith, has-append x xs ys, apart a),
    )

pub Distinct-join :
    (xs ys : List Ptr)
    → Distinct xs
    → Distinct ys
    → ((a : Ptr) → has a xs ≡ true → has a ys ≡ false)
    → Distinct (xs ++ ys)
Distinct-join [] ys dx dy apart = dy
Distinct-join (x ∷ xs) ys dx dy apart = (
  ground (arith, has-append x xs ys, apart x),
  Distinct-join xs ys dx.1 dy (λ a e. apart a (ground arith)),
)

-- A write to a node outside the sequence.
pub Linked-set_next_out :
    (h : Store) (xs : List Ptr) (p q : Ptr)
    → has p xs ≡ false
    → Linked h xs
    → Linked (set_next p q h) xs
unfolding set_next
Linked-set_next_out h [] p q o k = tt
Linked-set_next_out h (x ∷ []) p q o k = tt
Linked-set_next_out h (x ∷ y ∷ xs) p q o k =
    (ground arith, k.1, Linked-set_next_out h (y ∷ xs) p q (ground arith) k.2)

pub Linked-set_prev_out :
    (h : Store) (xs : List Ptr) (p q : Ptr)
    → has p xs ≡ false
    → Linked h xs
    → Linked (set_prev p q h) xs
Linked-set_prev_out h [] p q o k = tt
Linked-set_prev_out h (x ∷ xs) p q o k = Linked-set_prev h x xs p q (ground arith) k
