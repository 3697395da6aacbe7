-- ===== src/Names/Tests.antt =====
-- A path of two components.
use polaris_os.Names.Match.{strip, behind, match_name-behind}
use polaris_os.Prelude.{replicate, ℕ, ◌≡◌, refl, none, some, List, [], ◌∷◌, ◌++◌, arith}
use polaris_os.Names.{name_ended, match_name}

-- `bin/ls` against the entries `bin`, `bi` and `ls`.
match_name-behind_example :
    match_name (98 ∷ 105 ∷ 110 ∷ 47 ∷ 108 ∷ 115 ∷ 0 ∷ []) (98 ∷ 105 ∷ 110 ∷ 0 ∷ [])
    ≡ some (behind (strip (98 ∷ 105 ∷ 110 ∷ []) (98 ∷ 105 ∷ 110 ∷ 47 ∷ 108 ∷ 115 ∷ [])) [])
match_name-behind_example =
    match_name-behind (98 ∷ 105 ∷ 110 ∷ 47 ∷ 108 ∷ 115 ∷ []) (98 ∷ 105 ∷ 110 ∷ []) [] []
      (omega arith, (omega arith, (omega arith, (omega arith, (omega arith, (omega arith, tt))))))
      (omega arith, (omega arith, (omega arith, tt)))

next_component :
    match_name (98 ∷ 105 ∷ 110 ∷ 47 ∷ 108 ∷ 115 ∷ 0 ∷ []) (98 ∷ 105 ∷ 110 ∷ 0 ∷ [])
    ≡ some (some (108 ∷ 115 ∷ 0 ∷ []))
unfolding match_name name_ended
next_component = refl

not_a_component :
    match_name (98 ∷ 105 ∷ 110 ∷ 47 ∷ 108 ∷ 115 ∷ 0 ∷ []) (98 ∷ 105 ∷ 0 ∷ []) ≡ some none
unfolding match_name name_ended
not_a_component = refl

abbrev fourteen : List ℕ
fourteen = replicate 14 97

-- A name of 14 bytes fills its field, and the number of the next entry follows: 1 and 0 here. The entry
-- does not match its own name then.
full_name_missed : match_name (fourteen ++ 0 ∷ []) (fourteen ++ 1 ∷ 0 ∷ []) ≡ some none
unfolding match_name name_ended
full_name_missed = refl
