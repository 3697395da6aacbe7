-- ===== src/Device/Elevator/Neighbour.antt =====
-- Which request `request_nextreq` picks.
use mathlib.Core.Path.{subst}
use mathlib.Core.List.{append_assoc}
use polaris_os.LinkedList.{Ptr, Store, Ends}
use polaris_os.LinkedList.Linked.{has, Linked, IsList, has-append, Distinct-append}
use polaris_os.LinkedList.Insert.{first}
use polaris_os.Prelude.{
  ◌==◌, if◌then◌else◌, ◌≡◌, refl, sym, ap, ◌∙◌, Bool, true, false, not, ◌&&◌, ◌||◌, Option, none,
  some, List, [], ◌∷◌, ◌++◌, arith, ℕ_discrete,
}
use polaris_os.Device.Elevator.{Disk, turn, request_nextreq}

-- The last node of a list, or `h` if there is none.
abbrev last : Ptr → List Ptr → Ptr
last h [] = h
last h (x ∷ xs) = last x xs

-- The list around a place: the nodes before it, the nearest first, and those behind it.
abbrev pub unzip : List Ptr → List Ptr → List Ptr
unzip [] zs = zs
unzip (y ∷ ys) zs = unzip ys (y ∷ zs)

pub unzip-append : (ys zs : List Ptr) → unzip ys zs ≡ unzip ys [] ++ zs
unzip-append [] zs = refl
unzip-append (y ∷ ys) zs =
    unzip-append ys (y ∷ zs)
    ∙ sym (append_assoc (unzip ys []) (y ∷ []) zs)
    ∙ ap (λ l. l ++ zs) (sym (unzip-append ys (y ∷ [])))

last-unzip : (a r : Ptr) (ys rs : List Ptr) → last a (unzip ys (r ∷ rs)) ≡ last r rs
last-unzip a r [] rs = refl
last-unzip a r (y ∷ ys) rs = last-unzip a y ys (r ∷ rs)

last-first : (a : Ptr) (ys : List Ptr) → last a (unzip ys []) ≡ first ys a
last-first a [] = refl
last-first a (y ∷ ys) = last-unzip a y ys []

pub has-unzip : (a : Ptr) (ys zs : List Ptr) → has a (unzip ys zs) ≡ (has a ys || has a zs)
has-unzip a [] zs = refl
has-unzip a (y ∷ ys) zs = ground (arith, has-unzip a ys (y ∷ zs))

-- A node's links name its neighbours.
node_links :
    (h : Store) (l : Ends) (x : Ptr) (ys zs : List Ptr)
    → IsList h l (ys ++ x ∷ zs)
    → (h.prev x ≡ last l.head ys) × (h.next x ≡ first zs l.tail)
node_links h l x ys zs k = at_node l.head ys (k.linked)
  where
    at_node :
        (a : Ptr) (ys : List Ptr)
        → Linked h (a ∷ (ys ++ x ∷ zs) ++ l.tail ∷ [])
        → (h.prev x ≡ last a ys) × (h.next x ≡ first zs l.tail)
    at_node a [] m = (m.1, followed zs m.2)
      where
        followed : (zs : List Ptr) → Linked h (x ∷ zs ++ l.tail ∷ []) → h.next x ≡ first zs l.tail
        followed [] m = m.0
        followed (z ∷ zs) m = m.0
    at_node a (y ∷ ys) m = at_node y ys m.2

pub neighbours :
    (h : Store) (l : Ends) (x : Ptr) (ys zs : List Ptr)
    → IsList h l (unzip ys (x ∷ zs))
    → (h.prev x ≡ first ys l.head) × (h.next x ≡ first zs l.tail)
neighbours h l x ys zs k =
    let (p, q) =
      node_links h l x (unzip ys []) zs (subst (IsList h l) (unzip-append ys (x ∷ zs)) k) in
    (p ∙ last-first l.head ys, q)

-- The nodes of a list are not its sentinels.
pub inner :
    (h : Store) (l : Ends) (xs : List Ptr)
    → IsList h l xs
    → (p : Ptr) → has p xs ≡ true
    → ((p == l.head) ≡ false) × ((p == l.tail) ≡ false)
inner h l xs k p e =
    let (outer, d) = k.distinct in
    let (dx, dt, apart) = Distinct-append xs (l.tail ∷ []) d in
    let away = apart p e in
    let out_too = has-append l.head xs (l.tail ∷ []) in (not_head, ground (arith, away))
  where
    not_head : (p == l.head) ≡ false
    not_head = elim (ℕ_discrete p l.head) [
      | yes same ↦
          let both = subst (λ q. has q xs ≡ true) same e in
          ground (arith, both, has-append l.head xs (l.tail ∷ []), k.distinct.0)
      | no ne ↦ ground (arith, ne)
    ]

-- The elevator: on in its direction as long as there is a request, and back where there is none.
-- It returns the request, and the direction.
unfoldable pub scan : (direct : Bool) (ys zs : List Ptr) → Option Ptr × Bool
scan false ys (z ∷ zs) = (some z, false)
scan false (y ∷ ys) [] = (some y, true)
scan false [] [] = (none, true)
scan true (y ∷ ys) zs = (some y, true)
scan true [] (z ∷ zs) = (some z, false)
scan true [] [] = (none, false)

-- The nodes next to a place are not the sentinels of the list.
abbrev Inner : Ends → List Ptr → List Ptr → Type 0
Inner l ys zs =
    (a : Ptr) → (has a ys || has a zs) ≡ true → ((a == l.head) ≡ false) × ((a == l.tail) ≡ false)

module _ (l : Ends) (p q : Ptr) (apart : (l.head == l.tail) ≡ false) where
  turns :
      (b : Bool) (ys zs : List Ptr)
      → p ≡ first ys l.head
      → q ≡ first zs l.tail
      → Inner l ys zs
      → (if not b && (q == l.tail) then true else if b && (p == l.head) then false else b)
        ≡ (scan b ys zs).1
  unfolding scan
  turns false ys (z ∷ zs) e f out = ground (arith, out z)
  turns false (y ∷ ys) [] e f out = ground arith
  turns false [] [] e f out = ground arith
  turns true (y ∷ ys) zs e f out = ground (arith, out y)
  turns true [] (z ∷ zs) e f out = ground arith
  turns true [] [] e f out = ground arith

  picks :
      (b : Bool) (ys zs : List Ptr)
      → p ≡ first ys l.head
      → q ≡ first zs l.tail
      → Inner l ys zs
      → (let next = if (scan b ys zs).1 then p else q in
          if (next == l.head) || (next == l.tail) then none else some next)
        ≡ (scan b ys zs).0
  unfolding scan
  picks false ys (z ∷ zs) e f out = rw (f, (out z (ground arith)).0, (out z (ground arith)).1) refl
  picks false (y ∷ ys) [] e f out = rw (e, (out y (ground arith)).0, (out y (ground arith)).1) refl
  picks false [] [] e f out = ground arith
  picks true (y ∷ ys) zs e f out = rw (e, (out y (ground arith)).0, (out y (ground arith)).1) refl
  picks true [] (z ∷ zs) e f out = rw (f, (out z (ground arith)).0, (out z (ground arith)).1) refl
  picks true [] [] e f out = ground arith

-- `request_nextreq` of a request in a well-formed list picks the next one in the direction of the disk
-- and keeps the direction; at the end of the list it turns and picks the next one on the other side;
-- and it returns NULL exactly if there is no other request.
pub request_nextreq-scan :
    (d : Disk) (x : Ptr) (ys zs : List Ptr)
    → IsList d.links d.ends (unzip ys (x ∷ zs))
    → request_nextreq x d ≡ ((scan d.direct ys zs).0, record d { direct = (scan d.direct ys zs).1 })
unfolding request_nextreq turn scan
request_nextreq-scan d x ys zs k =
    let (p, q) = neighbours d.links d.ends x ys zs k in
    let out : Inner d.ends ys zs = λ a e.
      inner d.links d.ends (unzip ys (x ∷ zs)) k a (ground (arith, has-unzip a ys (x ∷ zs))) in
    let apart : (d.ends.head == d.ends.tail) ≡ false =
      ground (arith, k.distinct.0, has-append d.ends.head (unzip ys (x ∷ zs)) (d.ends.tail ∷ [])) in
    rw (turns d.ends (d.links.prev x) (d.links.next x) apart d.direct ys zs p q out) (
      ap (λ o. (o, record d { direct = (scan d.direct ys zs).1 }))
        (picks d.ends (d.links.prev x) (d.links.next x) apart d.direct ys zs p q out))
