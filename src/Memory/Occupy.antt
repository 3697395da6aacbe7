-- ===== src/Memory/Occupy.antt =====
-- src/kernel/memory.c: the counts that `memory_map_init` and `mapping_init` set to one at boot.
use mathlib.Core.List.{append_assoc}
use polaris_os.Prelude.{
  length, set, length-append, get_or, drop, replicate, length-replicate, ℕ, zero, suc, ◌+◌, ◌-◌,
  ◌≤◌, ◌<◌, ◌≡◌, refl, sym, ap, ◌∙◌, ◌≢◌, List, [], ◌∷◌, ◌++◌, arith,
}
use polaris_os.Memory.Frames.{zeros}

-- `for (i = from; left > 0; ...) memory_map[i] = 1`
unfoldable pub occupy : (left : ℕ) → List ℕ → (i : ℕ) → List ℕ
occupy zero frames i = frames
occupy (suc left) frames i = occupy left (set frames i 1) (i + 1)

set-append : (xs : List ℕ) (y v : ℕ) (ys : List ℕ) → set (xs ++ y ∷ ys) (length xs) v ≡ xs ++ v ∷ ys
set-append [] y v ys = refl
set-append (x ∷ xs) y v ys = ap (λ r. x ∷ r) (set-append xs y v ys)

-- The loop turns the next `left` counts into ones.
occupy-append :
    (left : ℕ) (pre ys : List ℕ)
    → left ≤ length ys
    → occupy left (pre ++ ys) (length pre) ≡ pre ++ (replicate left 1 ++ drop left ys)
unfolding occupy
occupy-append zero pre ys h = refl
occupy-append (suc left) pre [] h = absurd (omega arith)
occupy-append (suc left) pre (y ∷ ys) h =
    let longer : length pre + 1 ≡ length (pre ++ 1 ∷ []) =
      omega (arith, length-append pre (1 ∷ [])) in
    let one : pre ++ 1 ∷ ys ≡ (pre ++ 1 ∷ []) ++ ys = sym (append_assoc pre (1 ∷ []) ys) in
    rw (set-append pre y 1 ys, longer, one)
      (occupy-append left (pre ++ 1 ∷ []) ys (omega arith)
        ∙ append_assoc pre (1 ∷ []) (replicate left 1 ++ drop left ys))

pub drop-replicate : (n k x : ℕ) → drop n (replicate k x) ≡ replicate (k - n) x
drop-replicate zero k x = ap (λ j. replicate j x) (omega arith)
drop-replicate (suc n) zero x = let e : 0 ≡ 0 - suc n = omega arith in ap (λ j. replicate j x) e
drop-replicate (suc n) (suc k) x = drop-replicate n k x ∙ ap (λ j. replicate j x) (omega arith)

drop-replicate_append :
    (n a x : ℕ) (zs : List ℕ) → a ≤ n → drop n (replicate a x ++ zs) ≡ drop (n - a) zs
drop-replicate_append n zero x zs h = ap (λ j. drop j zs) (omega arith)
drop-replicate_append zero (suc a) x zs h = absurd (omega arith)
drop-replicate_append (suc n) (suc a) x zs h =
    drop-replicate_append n a x zs (omega arith) ∙ ap (λ j. drop j zs) (omega arith)

zeros-ones : (n : ℕ) (zs : List ℕ) → zeros (replicate n 1 ++ zs) ≡ zeros zs
zeros-ones zero zs = refl
zeros-ones (suc n) zs = zeros-ones n zs

zeros-replicate : (n : ℕ) → zeros (replicate n 0) ≡ n
zeros-replicate zero = refl
zeros-replicate (suc n) = ap suc (zeros-replicate n)

get_or-ones : (n i : ℕ) (zs : List ℕ) → i < n → get_or (replicate n 1 ++ zs) i 0 ≡ 1
get_or-ones zero i zs h = elim h [ ]
get_or-ones (suc n) zero zs h = refl
get_or-ones (suc n) (suc i) zs h = get_or-ones n i zs (omega arith)

module _ (n start total : ℕ) (begun : 0 < start) (inside : start ≤ suc n)
    (enough : suc n ≤ total) where
  first_frames :
      occupy start (replicate total 0) 0 ≡ replicate start 1 ++ replicate (total - start) 0
  first_frames =
      occupy-append start [] (replicate total 0) (omega (arith, length-replicate {A = ℕ} total 0))
      ∙ ap (λ r. replicate start 1 ++ r) (drop-replicate start total 0)

  pub boot_frames :
      occupy n (occupy start (replicate total 0) 0) 1
      ≡ 1 ∷ (replicate n 1 ++ replicate (total - suc n) 0)
  boot_frames =
      let rest : List ℕ = replicate (start - 1) 1 ++ replicate (total - start) 0 in
      let ones : start ≡ suc (start - 1) = omega arith in
      let long : n ≤ length rest = omega (
        arith,
        length-append {A = ℕ} (replicate (start - 1) 1) (replicate (total - start) 0),
        length-replicate {A = ℕ} (start - 1) 1,
        length-replicate {A = ℕ} (total - start) 0,
      ) in
      let left : total - start - (n - (start - 1)) ≡ total - suc n = omega arith in
      let tail : drop n rest ≡ replicate (total - suc n) 0 =
        drop-replicate_append n (start - 1) 1 (replicate (total - start) 0) (omega arith)
        ∙ drop-replicate (n - (start - 1)) (total - start) 0
        ∙ ap (λ k. replicate k 0) left in
      ap (λ cs. occupy n cs 1)
        (first_frames ∙ ap (λ k. replicate k 1 ++ replicate (total - start) 0) ones)
      ∙ occupy-append n (1 ∷ []) rest long
      ∙ ap (λ r. 1 ∷ (replicate n 1 ++ r)) tail

pub get_or-zeros : (n i : ℕ) → get_or {A = ℕ} (replicate n 0) i 0 ≡ 0
get_or-zeros zero i = refl
get_or-zeros (suc n) zero = refl
get_or-zeros (suc n) (suc i) = get_or-zeros n i

-- The counts at boot: `n + 1` pages in use, then `k` free ones.
abbrev pub boot_counts : ℕ → ℕ → List ℕ
boot_counts n k = 1 ∷ (replicate n 1 ++ replicate k 0)

pub boot_counts_kept : (n k i : ℕ) → i < suc n → get_or (boot_counts n k) i 0 ≢ 0
boot_counts_kept n k zero h = omega arith
boot_counts_kept n k (suc i) h = omega (arith, get_or-ones n i (replicate k 0) (omega arith))

pub boot_counts_size :
    (n k : ℕ) → (length (boot_counts n k) ≡ suc n + k) × (zeros (boot_counts n k) ≡ k)
boot_counts_size n k = (
  omega (
    arith,
    length-append {A = ℕ} (replicate n 1) (replicate k 0),
    length-replicate {A = ℕ} n 1,
    length-replicate {A = ℕ} k 0,
  ),
  zeros-ones n (replicate k 0) ∙ zeros-replicate k,
)
