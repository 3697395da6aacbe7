-- ===== src/Strings/Find.antt =====
-- The searches in a string: the first and the last char of a kind.
use polaris_os.Strings.{first_loop, last_loop, strchr, is_separator, strrsep}
use polaris_os.Strings.Copy.{Text}
use polaris_os.Prelude.{
  ◌==◌, if◌then◌else◌, length, ℕ, suc, ◌+◌, ◌≡◌, refl, ap, ◌∙◌, ◌≢◌, Bool, true, false, Option,
  none, some, List, [], ◌∷◌, ◌++◌, arith,
}

-- Chars of a string none of which is sought.
abbrev pub NoneOf : (ℕ → Bool) → List ℕ → Type 0
NoneOf sought [] = Unit
NoneOf sought (c ∷ s) = (c ≢ 0) × (sought c ≡ false) × NoneOf sought s

module _ (sought : ℕ → Bool) where
  first_found :
      (pre : List ℕ) (c : ℕ) (post : List ℕ) (at : ℕ)
      → NoneOf sought pre
      → sought c ≡ true
      → first_loop sought (pre ++ c ∷ post) at ≡ some (some (at + length pre))
  unfolding first_loop
  first_found [] c post at n y =
      let e : at ≡ at + 0 = omega arith in rw y (ap (λ x. some (some x)) e)
  first_found (d ∷ pre) c post at (nz, off, more) y =
      let z : (d == 0) ≡ false = ground (arith, nz) in
      let e : at + 1 + length pre ≡ at + suc (length pre) = omega arith in
      rw (off, z, first_found pre c post (at + 1) more y, e) refl

  last_none :
      (s rest : List ℕ) (at : ℕ) (last : Option ℕ)
      → NoneOf sought s
      → sought 0 ≡ false
      → last_loop sought (s ++ 0 ∷ rest) at last ≡ some last
  unfolding last_loop
  last_none [] rest at last n z = rw z refl
  last_none (d ∷ s) rest at last (nz, off, more) z =
      let nil : (d == 0) ≡ false = ground (arith, nz) in
      rw (off, nil, last_none s rest (at + 1) last more z) refl

  last_found :
      (pre : List ℕ) (c : ℕ) (post rest : List ℕ) (at : ℕ) (last : Option ℕ)
      → Text pre
      → c ≢ 0
      → sought c ≡ true
      → NoneOf sought post
      → sought 0 ≡ false
      → last_loop sought (pre ++ c ∷ (post ++ 0 ∷ rest)) at last ≡ some (some (at + length pre))
  unfolding last_loop
  last_found [] c post rest at last t nz y n z =
      let nil : (c == 0) ≡ false = ground (arith, nz) in
      let e : at ≡ at + 0 = omega arith in
      rw (y, nil, last_none post rest (at + 1) (some at) n z) (ap (λ x. some (some x)) e)
  last_found (d ∷ pre) c post rest at last (nd, t) nz y n z =
      let nil : (d == 0) ≡ false = ground (arith, nd) in
      let e : at + 1 + length pre ≡ at + suc (length pre) = omega arith in
      rw
        (
          nil,
          last_found pre c post rest (at + 1) (if sought d then some at else last) t nz y n z,
          e,
        )
        refl

from_start : (n : ℕ) → some (some (0 + n)) ≡ some (some n)
from_start n = ap (λ k. some (some k)) (omega arith)

-- `strrsep` returns the place of the last separator of a string, and NULL if it has none.
pub strrsep-last :
    (pre : List ℕ) (c : ℕ) (post rest : List ℕ)
    → Text pre
    → is_separator c ≡ true
    → NoneOf is_separator post
    → (strrsep (pre ++ c ∷ (post ++ 0 ∷ rest)) ≡ some (some (length pre)))
      × (strrsep (post ++ 0 ∷ rest) ≡ some none)
unfolding strrsep
strrsep-last pre c post rest t y n =
    let nz : c ≢ 0 = ground arith in
    (
      last_found is_separator pre c post rest 0 none t nz y n refl ∙ from_start (length pre),
      last_none is_separator post rest 0 none n refl,
    )

-- `strchr` returns the place of the first char that is sought.
pub strchr-first :
    (pre : List ℕ) (ch : ℕ) (post : List ℕ)
    → NoneOf (λ c. c == ch) pre
    → strchr (pre ++ ch ∷ post) ch ≡ some (some (length pre))
unfolding strchr
strchr-first pre ch post n =
    first_found (λ c. c == ch) pre ch post 0 n (ground arith) ∙ from_start (length pre)
