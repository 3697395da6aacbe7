-- ===== src/Strings.antt =====
-- src/lib/string.c. A pointer is the list of the bytes from it to the end of its object, so an access
-- past the end is `none`; a pointer that is returned is its distance, with `none` for NULL. A `char`
-- is signed and held as its bit pattern. Source and destination do not overlap.
pub mod Copy
pub mod Compare
pub mod Find
mod Tests
use polaris_os.Prelude.{
  ltb, ◌==◌, if◌then◌else◌, get_elem?, set, ◌>>=◌, ◌>>◌, assert, ℕ, zero, suc, ◌+◌, ◌-◌, ◌%◌, ◌^◌,
  Bool, true, false, not, ◌&&◌, ◌||◌, Option, none, some, List, [], ◌∷◌,
}
use polaris_os.Bitmap.{eof}

unfoldable pub strcpy : (dest src : List ℕ) → Option (List ℕ)
strcpy dest [] = none
strcpy [] (c ∷ src) = none
strcpy (x ∷ dest) (c ∷ src) =
    let rest = strcpy dest src in
    if c == 0 then some (c ∷ dest) else (do dest' ← rest; some (c ∷ dest'))

-- The loop of `strncpy`: the destination, and whether the end of the source was copied.
unfoldable pub copy_loop : (count : ℕ) → (dest src : List ℕ) → Option (Bool × List ℕ)
copy_loop zero dest src = some (false, dest)
copy_loop (suc count) dest [] = none
copy_loop (suc count) [] (c ∷ src) = none
copy_loop (suc count) (x ∷ dest) (c ∷ src) =
    let rest = copy_loop count dest src in
    if c == 0 then some (true, c ∷ dest) else (do (done, dest') ← rest; some (done, c ∷ dest'))

-- With `count` 0 the last write is outside the destination.
unfoldable pub strncpy : (dest src : List ℕ) → (count : ℕ) → Option (List ℕ)
strncpy dest src count = do
  (done, dest') ← copy_loop count dest src
  if done then some dest' else do
    assert (ltb 0 count)
    old ← get_elem? dest' (count - 1)
    some (set dest' (count - 1) 0)

unfoldable pub strcat : (dest src : List ℕ) → Option (List ℕ)
unfolding strcpy
strcat [] src = none
strcat (c ∷ dest) src =
    let rest = strcat dest src in
    if c == 0 then strcpy (c ∷ dest) src else (do dest' ← rest; some (c ∷ dest'))

unfoldable pub strlen : List ℕ → Option ℕ
strlen [] = none
strlen (c ∷ str) =
    let rest = strlen str in if c == 0 then some 0 else (do n ← rest; some ((n + 1) % 2 ^ 32))

-- `a < b ? -1 : a > b` on chars.
abbrev pub lt_char : ℕ → ℕ → Bool
lt_char a b = ltb ((a + 128) % 256) ((b + 128) % 256)

unfoldable pub char_order : ℕ → ℕ → ℕ
char_order a b = if lt_char a b then eof else (if lt_char b a then 1 else 0)

unfoldable pub strcmp : (lhs rhs : List ℕ) → Option ℕ
strcmp [] rhs = none
strcmp (a ∷ lhs) [] = none
strcmp (a ∷ lhs) (b ∷ rhs) =
    let rest = strcmp lhs rhs in
    if (a == b) && (not (a == 0) && not (b == 0)) then rest else some (char_order a b)

-- The loops of `strchr` and `strsep`, and of `strrchr` and `strrsep`, for the chars that are sought.
unfoldable pub first_loop : (ℕ → Bool) → List ℕ → ℕ → Option (Option ℕ)
first_loop sought [] at = none
first_loop sought (c ∷ str) at =
    let rest = first_loop sought str (at + 1) in
    if sought c then some (some at) else if c == 0 then some none else rest

unfoldable pub last_loop : (ℕ → Bool) → List ℕ → ℕ → Option ℕ → Option (Option ℕ)
last_loop sought [] at last = none
last_loop sought (c ∷ str) at last =
    let last' = if sought c then some at else last in
    let rest = last_loop sought str (at + 1) last' in if c == 0 then some last' else rest

unfoldable pub strchr : List ℕ → ℕ → Option (Option ℕ)
strchr str ch = first_loop (λ c. c == ch) str 0

unfoldable pub strrchr : List ℕ → ℕ → Option (Option ℕ)
strrchr str ch = last_loop (λ c. c == ch) str 0 none

-- '/' and '\\'.
abbrev pub is_separator : ℕ → Bool
is_separator c = (c == 47) || (c == 92)

unfoldable pub strsep : List ℕ → Option (Option ℕ)
strsep str = first_loop is_separator str 0

unfoldable pub strrsep : List ℕ → Option (Option ℕ)
strrsep str = last_loop is_separator str 0 none

unfoldable pub memcmp : (lhs rhs : List ℕ) → (count : ℕ) → Option ℕ
memcmp lhs rhs zero = some 0
memcmp [] rhs (suc count) = none
memcmp (a ∷ lhs) [] (suc count) = none
memcmp (a ∷ lhs) (b ∷ rhs) (suc count) =
    let rest = memcmp lhs rhs count in if a == b then rest else some (char_order a b)

unfoldable pub memset : (dest : List ℕ) → (ch count : ℕ) → Option (List ℕ)
memset dest ch zero = some dest
memset [] ch (suc count) = none
memset (x ∷ dest) ch (suc count) = do dest' ← memset dest ch count; some (ch % 256 ∷ dest')

unfoldable pub memcpy : (dest src : List ℕ) → (count : ℕ) → Option (List ℕ)
memcpy dest src zero = some dest
memcpy [] src (suc count) = none
memcpy (x ∷ dest) [] (suc count) = none
memcpy (x ∷ dest) (c ∷ src) (suc count) = do dest' ← memcpy dest src count; some (c ∷ dest')

-- The code has no `return` for a byte that is not found.
unfoldable pub memchr : List ℕ → (ch count : ℕ) → ℕ → Option ℕ
memchr str ch zero at = none
memchr [] ch (suc count) at = none
memchr (c ∷ str) ch (suc count) at =
    let rest = memchr str ch count (at + 1) in if c == ch then some at else rest
