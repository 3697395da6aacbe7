-- ===== src/Strings/Tests.antt =====
-- Runs of the functions on strings, and the theorems at short ones.
use polaris_os.Strings.{copy_loop, strncpy, char_order, strcmp, memchr}
use polaris_os.Strings.Compare.{strcmp_iff}
use polaris_os.Prelude.{ℕ, ◌-◌, ◌^◌, ◌≡◌, refl, ◌↔◌, none, some, List, [], ◌∷◌, arith}

-- "/a/b" and "bc".
abbrev path : List ℕ
path = 47 ∷ 97 ∷ 47 ∷ 98 ∷ 0 ∷ []

abbrev short : List ℕ
short = 98 ∷ 99 ∷ []

compares : strcmp (200 ∷ 0 ∷ []) (98 ∷ 0 ∷ []) ≡ some (2 ^ 32 - 1)
unfolding strcmp char_order
compares = refl

cuts : strncpy (1 ∷ 2 ∷ 3 ∷ []) path 2 ≡ some (47 ∷ 0 ∷ 3 ∷ [])
unfolding strncpy copy_loop
cuts = refl

not_there : memchr short 7 2 0 ≡ none
unfolding memchr
not_there = refl

strcmp_iff_example : (strcmp (98 ∷ 99 ∷ 0 ∷ []) (98 ∷ 0 ∷ 5 ∷ []) ≡ some 0) ↔ (short ≡ 98 ∷ [])
strcmp_iff_example =
    strcmp_iff short (98 ∷ []) [] (5 ∷ []) (omega arith, (omega arith, tt)) (omega arith, tt)
      (omega arith, (omega arith, tt)) (omega arith, tt)
