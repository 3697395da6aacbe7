-- ===== src/FileSystem/ZoneWalk.antt =====
-- `bmap` without `create` follows the path of words of a block; with it, it changes no word that is
-- in use, and a later look at the block finds what it returned.
use mathlib.Core.Path.{subst}
use polaris_os.FileSystem.{Super, balloc}
use polaris_os.FileSystem.Zones.{
  Array, in_inode, in_block, Disk, read, write, total_block, assign_zone, reckon, bmap,
}
use polaris_os.Prelude.{
  ltb, ◌==◌, if◌then◌else◌, Bool-cases, >>=-eq-some, ℕ, zero, suc, ◌+◌, ◌-◌, ◌*◌, ◌/◌, ◌%◌, ◌^◌,
  ◌<◌, ◌≡◌, refl, sym, ap, ◌∙◌, ◌≢◌, inl, inr, true, false, none, some, List, [], ◌∷◌, arith,
  ℕ_discrete,
}

-- The words that lead to a block of a file, and the way back.
abbrev pub path : ℕ → List ℕ
path block =
    if ltb block 7
    then block ∷ []
    else if ltb block 519
    then 7 ∷ (block - 7) ∷ []
    else 8 ∷ (block - 519) / 512 ∷ (block - 519) % 512 ∷ []

abbrev pub follow : Array → List ℕ → Disk → ℕ
follow array [] d = 0
follow array (i ∷ []) d = read array i d
follow array (i ∷ j ∷ is) d =
    if read array i d == 0 then 0 else follow (in_block (read array i d)) (j ∷ is) d

-- Every word that is in use is as before.
abbrev pub Kept : Disk → Disk → Type 0
Kept d d' = (array : Array) (i : ℕ) → read array i d ≢ 0 → read array i d' ≡ read array i d

Kept-trans : (a b c : Disk) → Kept a b → Kept b c → Kept a c
Kept-trans a b c k l array i h = let e = k array i h in l array i (λ z. h (sym e ∙ z)) ∙ e

write-Kept :
    (array : Array) (i v : ℕ) (d : Disk) (sb : Super)
    → read array i d ≡ 0
    → Kept d (write array i v (record d { super = sb }))
unfolding write
write-Kept in_inode i v d sb free in_inode j h = ground (arith, free)
write-Kept in_inode i v d sb free (in_block m) j h = refl
write-Kept (in_block n) i v d sb free in_inode j h = refl
write-Kept (in_block n) i v d sb free (in_block m) j h = elim (ℕ_discrete n m) [
  | no ne ↦ ground (arith, ne)
  | yes same ↦ elim (ℕ_discrete i j) [
    | no ne ↦ ground (arith, ne)
    | yes equal ↦
        absurd (h (ap (λ x. d.words x j) (sym same) ∙ ap (λ x. d.words n x) (sym equal) ∙ free))
  ]
]

no_create : (array : Array) (i : ℕ) (d : Disk) → assign_zone array i false d ≡ some d
unfolding assign_zone
no_create array i d = ground arith

assign_zone-Kept :
    (array : Array) (i : ℕ) (d d' : Disk) → assign_zone array i true d ≡ some d' → Kept d d'
unfolding assign_zone
assign_zone-Kept array i d d' e = elim (Bool-cases (read array i d == 0)) [
  | inl free ↦
      let ((bit, sb), _, runs) = >>=-eq-some (balloc d.super) _ (rw free at e) in
      let result : write array i (bit % 2 ^ 16) (record d { super = sb }) ≡ d' = cc in
      subst (Kept d) result (write-Kept array i _ d sb (ground arith))
  | inr used ↦
      let unchanged : some d ≡ some d' = rw used at e in
      let same : d ≡ d' = cc in subst (Kept d) same (λ a j h. refl)
]

-- What a walk with `create` leaves: a walk without it finds the same.
abbrev Found : (level : ℕ) → Array → (index block divider : ℕ) → Disk → ℕ → Disk → Type 0
Found level array index block divider d v d' =
    Kept d d' × (reckon level array index block divider false d' ≡ some (v, d'))

reckon-Found :
    (level : ℕ) (array : Array) (index block divider : ℕ) (d : Disk) (v : ℕ) (d' : Disk)
    → reckon level array index block divider true d ≡ some (v, d')
    → Found level array index block divider d v d'
unfolding reckon
reckon-Found zero array index block divider d v d' e =
    let (d1, made, out) = >>=-eq-some (assign_zone array index true d) _ e in
    let same : d1 ≡ d' = cc in
    let value : read array index d' ≡ v = ap (λ x. read array index x) (sym same) ∙ cc in
    (
      assign_zone-Kept array index d d' (made ∙ ap some same),
      rw (no_create array index d') (ap (λ x. some (x, d')) value),
    )
reckon-Found (suc level) array index block divider d v d' e =
    let (d1, made, out) = >>=-eq-some (assign_zone array index true d) _ e in
    let first = assign_zone-Kept array index d d1 made in
    elim (Bool-cases (read array index d1 == 0)) [
      | inl absent ↦
          let ended : some (0, d1) ≡ some (v, d') = rw absent at out in
          let same : d1 ≡ d' = cc in
          let value : 0 ≡ v = cc in
          let still : (read array index d' == 0) ≡ true =
            ap (λ x. read array index x == 0) (sym same) ∙ absent in
          (
            subst (Kept d) same first,
            rw (no_create array index d', still) (ap (λ x. some (x, d')) value),
          )
      | inr named ↦
          let (kept, again) =
            reckon-Found level (in_block (read array index d1)) (block / divider % 2 ^ 16)
              (block % divider) (divider / 512) d1 v d' (rw named at out) in
          let same : read array index d' ≡ read array index d1 =
            kept array index (ground (arith, named)) in
          (Kept-trans d d1 d' first kept, rw (no_create array index d', same, named) again)
    ]

-- `bmap` with `create`, when it returns, has changed no word that was in use, and `bmap` without
-- `create` then returns the same and changes nothing.
pub bmap-Kept :
    (block : ℕ) (d : Disk) (v : ℕ) (d' : Disk)
    → bmap block true d ≡ some (v, d')
    → Kept d d' × (bmap block false d' ≡ some (v, d'))
unfolding bmap
bmap-Kept block d v d' e = elim (Bool-cases (ltb block total_block)) [
  | inr out ↦ absurd (let stops : none ≡ some (v, d') = rw out at e in cc)
  | inl inside ↦ elim (Bool-cases (ltb block 7)) [
    | inl direct ↦
        rw (inside, direct)
          (reckon-Found 0 in_inode block block 1 d v d' (rw (inside, direct) at e))
    | inr far ↦ elim (Bool-cases (ltb (block - 7) 512)) [
      | inl once ↦
          rw (inside, far, once)
            (reckon-Found 1 in_inode 7 (block - 7) 1 d v d' (rw (inside, far, once) at e))
      | inr twice ↦
          let low : ltb (block - 7 - 512) (512 * 512) ≡ true = ground arith in
          rw (inside, far, twice, low)
            (reckon-Found 2 in_inode 8 (block - 7 - 512) 512 d v d'
              (rw (inside, far, twice, low) at e))
    ]
  ]
]

last_level :
    (array : Array) (index block divider : ℕ) (d : Disk)
    → reckon 0 array index block divider false d ≡ some (read array index d, d)
unfolding reckon
last_level array index block divider d = rw (no_create array index d) refl

next_level :
    (level : ℕ) (array : Array) (index block divider : ℕ) (d : Disk)
    → reckon (suc level) array index block divider false d ≡ (
        if read array index d == 0
        then some (0, d)
        else reckon level
            (in_block (read array index d))
            (block / divider % 2 ^ 16)
            (block % divider)
            (divider / 512)
            false
            d)
unfolding reckon
next_level level array index block divider d = rw (no_create array index d) refl

follow_two :
    (array : Array) (index block i : ℕ) (d : Disk)
    → block % 2 ^ 16 ≡ i
    → reckon 1 array index block 1 false d ≡ some (follow array (index ∷ i ∷ []) d, d)
follow_two array index block i d e =
    let one : block / 1 % 2 ^ 16 ≡ i = omega (arith, e) in
    rw (next_level 0 array index block 1 d, one, last_level)
      (elim (Bool-cases (read array index d == 0)) [ inl z ↦ rw z refl | inr ne ↦ rw ne refl ])

follow_three :
    (array : Array) (index block : ℕ) (d : Disk)
    → block < 512 * 512
    → reckon 2 array index block 512 false d
      ≡ some (follow array (index ∷ block / 512 ∷ block % 512 ∷ []) d, d)
follow_three array index block d h =
    let high : block / 512 % 2 ^ 16 ≡ block / 512 = omega arith in
    rw (next_level 1 array index block 512 d, high)
      (elim (Bool-cases (read array index d == 0)) [
        | inl z ↦ rw z refl
        | inr ne ↦ rw ne (
            follow_two (in_block (read array index d)) (block / 512) (block % 512) (block % 512) d
              (omega arith))
      ])

-- `bmap` without `create` of a block that a file can have follows the words of the block's path and
-- changes nothing; 0 is the answer where a word on the way is 0.
pub bmap-follow :
    (block : ℕ) (d : Disk)
    → block < total_block
    → bmap block false d ≡ some (follow in_inode (path block) d, d)
unfolding bmap
bmap-follow block d h =
    let inside : ltb block total_block ≡ true = ground arith in
    elim (Bool-cases (ltb block 7)) [
      | inl direct ↦ rw (inside, direct) (last_level in_inode block block 1 d)
      | inr far ↦ elim (Bool-cases (ltb (block - 7) 512)) [
        | inl once ↦
            let short : ltb block 519 ≡ true = ground arith in
            rw (inside, far, once, short)
              (follow_two in_inode 7 (block - 7) (block - 7) d (ground arith))
        | inr twice ↦
            let long : ltb block 519 ≡ false = ground arith in
            let low : ltb (block - 7 - 512) (512 * 512) ≡ true = ground arith in
            let same : block - 7 - 512 ≡ block - 519 = omega arith in
            rw (inside, far, twice, low, long, same)
              (follow_three in_inode 8 (block - 519) d (omega arith))
      ]
    ]

-- The block that a path leads to.
abbrev pub block_of : List ℕ → ℕ
block_of [] = 0
block_of (i ∷ []) = i
block_of (i ∷ j ∷ []) = 7 + j
block_of (i ∷ j ∷ k ∷ is) = 519 + 512 * j + k

-- The path of a block says which block it is, so two blocks of a file share no path.
pub block_of-path : (block : ℕ) → block_of (path block) ≡ block
block_of-path block = ground arith
