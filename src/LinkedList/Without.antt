-- ===== src/LinkedList/Without.antt =====
-- A sequence of nodes that a node has left, and the node at its end.
use mathlib.Core.Path.{subst}
use polaris_os.LinkedList.Linked.{has, Distinct}
use polaris_os.Prelude.{
  ◌==◌, if◌then◌else◌, Bool-cases, length, ℕ, suc, ◌≡◌, refl, sym, inl, inr, true, false, not, ◌&&◌,
  ◌||◌, List, [], ◌∷◌, arith, ℕ_discrete,
}

abbrev pub without : ℕ → List ℕ → List ℕ
without p [] = []
without p (x ∷ xs) = if p == x then without p xs else x ∷ without p xs

pub has-without : (p x : ℕ) (xs : List ℕ) → has p (without x xs) ≡ (not (p == x) && has p xs)
has-without p x [] = ground arith
has-without p x (y ∷ ys) = ground (arith, has-without p x ys)

pub without_absent : (x : ℕ) (xs : List ℕ) → has x xs ≡ false → without x xs ≡ xs
without_absent x [] e = refl
without_absent x (y ∷ ys) e = ground (arith, e, without_absent x ys)

pub length-without :
    (x : ℕ) (xs : List ℕ) → Distinct xs → has x xs ≡ true → suc (length (without x xs)) ≡ length xs
length-without x [] d e = cc
length-without x (y ∷ ys) d e = elim (ℕ_discrete x y) [
  | yes same ↦
      let out : has x ys ≡ false = subst (λ z. has z ys ≡ false) (sym same) d.0 in
      let hit : (x == y) ≡ true = ground (arith, same) in rw (hit, without_absent x ys out) refl
  | no ne ↦ ground (arith, ne, e, length-without x ys d.1)
]

pub Distinct-without : (x : ℕ) (xs : List ℕ) → Distinct xs → Distinct (without x xs)
Distinct-without x [] d = tt
Distinct-without x (y ∷ ys) d = elim (Bool-cases (x == y)) [
  | inl hit ↦ rw hit (Distinct-without x ys d.1)
  | inr other ↦ rw other (ground (arith, has-without y x ys, d.0), Distinct-without x ys d.1)
]

-- The last of a sequence that is not empty, and those before it.
abbrev pub split_last : ℕ → List ℕ → List ℕ × ℕ
split_last i [] = ([], i)
split_last i (j ∷ js) = let (front, last) = split_last j js in (i ∷ front, last)

pub has-split_last :
    (p i : ℕ) (is : List ℕ)
    → has p (i ∷ is) ≡ (has p (split_last i is).0 || (p == (split_last i is).1))
has-split_last p i [] = ground arith
has-split_last p i (j ∷ js) = ground (arith, has-split_last p j js)

pub Distinct-split_last :
    (i : ℕ) (is : List ℕ)
    → Distinct (i ∷ is)
    → Distinct (split_last i is).0 × (has (split_last i is).1 (split_last i is).0 ≡ false)
Distinct-split_last i [] d = (tt, refl)
Distinct-split_last i (j ∷ js) d =
    let (front, out) = Distinct-split_last j js d.1 in
    (
      (ground (arith, d.0, has-split_last i j js), front),
      ground (arith, d.0, has-split_last i j js, out),
    )
