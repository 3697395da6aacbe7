-- ===== src/Strings/Copy.antt =====
-- What the copying functions make of strings.
use polaris_os.Strings.{strcpy, strcat, strlen, memcpy}
use polaris_os.Prelude.{
  ◌==◌, length, take, drop, ℕ, zero, suc, ◌+◌, ◌%◌, ◌^◌, ◌≤◌, ◌<◌, ◌≡◌, refl, ◌≢◌, false, some,
  List, [], ◌∷◌, ◌++◌, arith,
}

-- Chars of a string: no one ends it.
abbrev pub Text : List ℕ → Type 0
Text [] = Unit
Text (c ∷ s) = (c ≢ 0) × Text s

-- `strlen` counts the chars before the end.
pub strlen-length :
    (s rest : List ℕ) → Text s → length s < 2 ^ 32 → strlen (s ++ 0 ∷ rest) ≡ some (length s)
unfolding strlen
strlen-length [] rest t h = refl
strlen-length (c ∷ s) rest t h =
    let e : (c == 0) ≡ false = ground (arith, t.0) in
    let small : (length s + 1) % 2 ^ 32 ≡ suc (length s) = omega arith in
    rw (e, strlen-length s rest t.1 (omega arith), small) refl

-- `strcpy` of a string to a destination with room for it and its end copies both, and leaves the
-- bytes behind them.
pub strcpy-append :
    (dest s rest : List ℕ)
    → Text s
    → length s < length dest
    → strcpy dest (s ++ 0 ∷ rest) ≡ some (s ++ 0 ∷ drop (suc (length s)) dest)
unfolding strcpy
strcpy-append [] s rest t h = absurd (omega arith)
strcpy-append (x ∷ dest) [] rest t h = refl
strcpy-append (x ∷ dest) (c ∷ s) rest t h =
    let e : (c == 0) ≡ false = ground (arith, t.0) in
    rw (e, strcpy-append dest s rest t.1 (omega arith)) refl

-- `strcat` of a string to another one, in a destination with room for both, appends it.
pub strcat-append :
    (d dest s rest : List ℕ)
    → Text d
    → Text s
    → length s ≤ length dest
    → strcat (d ++ 0 ∷ dest) (s ++ 0 ∷ rest) ≡ some (d ++ s ++ 0 ∷ drop (length s) dest)
unfolding strcat
strcat-append [] dest s rest td ts h = rw (strcpy-append (0 ∷ dest) s rest ts (omega arith)) refl
strcat-append (c ∷ d) dest s rest td ts h =
    let e : (c == 0) ≡ false = ground (arith, td.0) in
    rw (e, strcat-append d dest s rest td.1 ts h) refl

-- `memcpy` inside both objects copies the first `count` bytes.
pub memcpy-take :
    (dest src : List ℕ) (count : ℕ)
    → count ≤ length dest
    → count ≤ length src
    → memcpy dest src count ≡ some (take count src ++ drop count dest)
unfolding memcpy
memcpy-take dest src zero h k = refl
memcpy-take [] src (suc count) h k = absurd (omega arith)
memcpy-take (x ∷ dest) [] (suc count) h k = absurd (omega arith)
memcpy-take (x ∷ dest) (c ∷ src) (suc count) h k =
    rw (memcpy-take dest src count (omega arith) (omega arith)) refl
