-- ===== src/Strings/Compare.antt =====
-- `strcmp` tells strings apart.
use polaris_os.Strings.{char_order, strcmp}
use polaris_os.Strings.Copy.{Text}
use polaris_os.Bitmap.Bits.{AllBytes}
use polaris_os.Prelude.{
  ◌==◌, if◌then◌else◌, ℕ, ◌<◌, ◌≡◌, refl, ◌≢◌, ◌↔◌, true, false, not, ◌&&◌, Option, some, List, [],
  ◌∷◌, ◌++◌, arith, ℕ_discrete,
}

order_apart : (c d : ℕ) → c < 256 → d < 256 → c ≢ d → char_order c d ≢ 0
unfolding char_order
order_apart c d h k ne = ground (arith, ne)

-- Where the first chars differ the result is not 0, and the strings are not equal.
differ :
    (c d : ℕ) (r : Option ℕ) (s t : List ℕ)
    → c < 256
    → d < 256
    → c ≢ d
    → ((if (c == d) && (not (c == 0) && not (d == 0)) then r else some (char_order c d)) ≡ some 0)
      ↔ (c ∷ s ≡ d ∷ t)
differ c d r s t h k ne =
    let off : ((c == d) && (not (c == 0) && not (d == 0))) ≡ false = ground (arith, ne) in
    rw off ((λ e. absurd (order_apart c d h k ne cc)), (λ e. absurd (ne cc)))

-- `strcmp` of two strings of bytes returns 0 exactly if they are equal.
pub strcmp_iff :
    (s t a b : List ℕ)
    → Text s
    → Text t
    → AllBytes s
    → AllBytes t
    → (strcmp (s ++ 0 ∷ a) (t ++ 0 ∷ b) ≡ some 0) ↔ (s ≡ t)
unfolding strcmp char_order
strcmp_iff [] [] a b ts tt' bs bt = ((λ e. refl), (λ e. refl))
strcmp_iff [] (d ∷ t) a b ts tt' bs bt =
    let off : ((0 == d) && (not (0 == 0) && not (d == 0))) ≡ false = ground arith in
    let ne : 0 ≢ d = ground (arith, tt'.0) in
    rw off ((λ e. absurd (order_apart 0 d (omega arith) bt.0 ne cc)), (λ e. absurd cc))
strcmp_iff (c ∷ s) [] a b ts tt' bs bt =
    let off : ((c == 0) && (not (c == 0) && not (0 == 0))) ≡ false = ground arith in
    rw off ((λ e. absurd (order_apart c 0 bs.0 (omega arith) ts.0 cc)), (λ e. absurd cc))
strcmp_iff (c ∷ s) (d ∷ t) a b ts tt' bs bt = elim (ℕ_discrete c d) [
  | no ne ↦ differ c d _ s t bs.0 bt.0 ne
  | yes same ↦
      let on : ((c == d) && (not (c == 0) && not (d == 0))) ≡ true = ground (arith, ts.0, tt'.0) in
      let (to, from) = strcmp_iff s t a b ts.1 tt'.1 bs.1 bt.1 in
      rw on ((λ e. let r = to e in cc), (λ e. from cc))
]
