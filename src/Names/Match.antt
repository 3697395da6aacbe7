-- ===== src/Names/Match.antt =====
-- `match_name` finds whole components only.
use polaris_os.Strings.{is_separator}
use polaris_os.Strings.Copy.{Text}
use polaris_os.Prelude.{
  ◌==◌, if◌then◌else◌, Bool-cases, ℕ, ◌≡◌, refl, inl, inr, true, false, not, ◌&&◌, Option, none,
  some, List, [], ◌∷◌, ◌++◌, arith, ℕ_discrete,
}
use polaris_os.Names.{name_ended, match_name}

-- What stands behind `entry` at the front of a name.
abbrev pub strip : (entry name : List ℕ) → Option (List ℕ)
strip [] name = some name
strip (b ∷ entry) [] = none
strip (b ∷ entry) (a ∷ name) = if a == b then strip entry name else none

-- The path behind a whole component: at its end, or behind one separator.
abbrev pub behind : Option (List ℕ) → List ℕ → Option (List ℕ)
behind none r = none
behind (some []) r = some (0 ∷ r)
behind (some (c ∷ name)) r = if is_separator c then some (name ++ 0 ∷ r) else none

-- `match_name` of a path and the name of an entry, both ended by a zero as names of fewer than 14 bytes
-- are, returns true exactly if the
-- path begins with the name and a separator or the end of the path follows; `next` is then the path
-- behind that separator, or its end.
pub match_name-behind :
    (name entry r q : List ℕ)
    → Text name
    → Text entry
    → match_name (name ++ 0 ∷ r) (entry ++ 0 ∷ q) ≡ some (behind (strip entry name) r)
unfolding match_name name_ended
match_name-behind [] [] r q tn te = refl
match_name-behind [] (b ∷ entry) r q tn te = ground (arith, te.0)
match_name-behind (a ∷ name) [] r q tn te = elim (Bool-cases (is_separator a)) [
  | inl sep ↦ ground (arith, tn.0, sep)
  | inr plain ↦ ground (arith, tn.0, plain)
]
match_name-behind (a ∷ name) (b ∷ entry) r q tn te = elim (ℕ_discrete a b) [
  | yes same ↦
      let on : ((a == b) && (not (a == 0) && not (b == 0))) ≡ true =
        ground (arith, tn.0, te.0, same) in
      let hit : (a == b) ≡ true = ground (arith, same) in
      rw (on, hit) (match_name-behind name entry r q tn.1 te.1)
  | no ne ↦
      let off : (a == b) ≡ false = ground (arith, ne) in
      let more : (b == 0) ≡ false = ground (arith, te.0) in rw (off, more) refl
]
