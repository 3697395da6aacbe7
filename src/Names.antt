-- ===== src/Names.antt =====
-- src/fs/namei.c: a component of a path against the name of a directory entry. A pointer is the list of
-- the bytes from it on, as in Strings; a read past the end is `none`.
pub mod Match
mod Tests
use polaris_os.Strings.{is_separator}
use polaris_os.Prelude.{◌==◌, if◌then◌else◌, ℕ, not, ◌&&◌, Option, none, some, List, [], ◌∷◌}

-- `match_name` behind its loop, at the chars that it has stopped at: what is left of the path, behind a
-- separator if there is one, or `none` for false.
unfoldable pub name_ended : (lhs : ℕ) (name : List ℕ) (rhs : ℕ) → Option (List ℕ)
name_ended lhs name rhs =
    if not (rhs == 0)
    then none
    else if not (lhs == 0) && not (is_separator lhs)
    then none
    else some (if is_separator lhs then name else lhs ∷ name)

unfoldable pub match_name : (name entry_name : List ℕ) → Option (Option (List ℕ))
match_name [] entry_name = none
match_name (lhs ∷ name) [] = none
match_name (lhs ∷ name) (rhs ∷ entry_name) =
    let rest = match_name name entry_name in
    if (lhs == rhs) && (not (lhs == 0) && not (rhs == 0))
    then rest
    else some (name_ended lhs name rhs)
