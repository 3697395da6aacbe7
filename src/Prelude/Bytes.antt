-- ===== src/Prelude/Bytes.antt =====
-- Single bits of a byte, as C writes them: `b & (1 << i)`, `b | (1 << i)` and `b & ~(1 << i)`.
-- The laws are read off a table of all bytes and all bit numbers.
use Prim.Native.Nat.{ℕ, zero, suc, ◌-◌, ◌<◌, ◌^◌, bit_and, bit_or}
use mathlib.Core.Path.{◌≡◌, refl}
use mathlib.Core.Bool.{Bool, true, false, not, ◌&&◌, ◌||◌}
use native.Mathlib.Omega.{arith}
use native.Mathlib.Decide.{dec_lt}
use polaris_os.Prelude.Tests.{ltb, ◌==◌}

unfoldable pub test_bit : ℕ → ℕ → Bool
test_bit b i = not (bit_and b (2 ^ i) == 0)

unfoldable pub set_bit : ℕ → ℕ → ℕ
set_bit b i = bit_or b (2 ^ i)

-- `~(1 << i)` on a byte is `255 - (1 << i)`.
unfoldable pub clear_bit : ℕ → ℕ → ℕ
clear_bit b i = bit_and b (255 - 2 ^ i)

-- The test passes at every number under `n`.
everywhere : ℕ → (ℕ → Bool) → Bool
everywhere zero test = true
everywhere (suc n) test = everywhere n test && test n

passes : (test : ℕ → Bool) (n k : ℕ) → k < n → everywhere n test ≡ true → test k ≡ true
unfolding everywhere
passes test zero k h all = elim h [ ]
passes test (suc n) k h all = elim (dec_lt k n) [
  | yes below ↦ passes test n k below (ground (arith, all))
  | no last ↦ let e : k ≡ n = omega arith in rw e (ground (arith, all))
]

bool_eq : Bool → Bool → Bool
bool_eq true b = b
bool_eq false b = not b

bool_eq_sound : (a b : Bool) → bool_eq a b ≡ true → a ≡ b
unfolding bool_eq
bool_eq_sound a b h = ground arith

-- The two laws of a bit number `i` and a bit number `j` at the byte `b`.
pair_laws : ℕ → ℕ → ℕ → Bool
pair_laws b i j =
    bool_eq (test_bit (set_bit b i) j) (i == j || test_bit b j)
    && bool_eq (test_bit (clear_bit b i) j) (not (i == j) && test_bit b j)

byte_laws : ℕ → ℕ → Bool
byte_laws b i = ltb (set_bit b i) 256 && ltb (clear_bit b i) 256

table :
    everywhere 256 (λ b. everywhere 8 (λ i. byte_laws b i && everywhere 8 (pair_laws b i))) ≡ true
unfolding everywhere byte_laws pair_laws bool_eq test_bit set_bit clear_bit
table = refl

clear_bits : everywhere 8 (λ i. not (test_bit 0 i)) ≡ true
unfolding everywhere test_bit
clear_bits = refl

-- The byte 0 has no bit.
pub test_bit_zero : (i : ℕ) → i < 8 → test_bit 0 i ≡ false
test_bit_zero i h = ground (arith, passes (λ i. not (test_bit 0 i)) 8 i h clear_bits)

module _ (b i : ℕ) (byte : b < 256) (small : i < 8) where
  row : (byte_laws b i && everywhere 8 (pair_laws b i)) ≡ true
  row =
      passes (λ i. byte_laws b i && everywhere 8 (pair_laws b i)) 8 i small
        (passes (λ b. everywhere 8 (λ i. byte_laws b i && everywhere 8 (pair_laws b i))) 256 b byte
          table)

  pub set_bit-lt : set_bit b i < 256
  unfolding byte_laws
  set_bit-lt = ground (arith, row)

  pub clear_bit-lt : clear_bit b i < 256
  unfolding byte_laws
  clear_bit-lt = ground (arith, row)

  pair : (j : ℕ) → j < 8 → pair_laws b i j ≡ true
  pair j h = passes (pair_laws b i) 8 j h (ground (arith, row))

  pub test_bit-set_bit : (j : ℕ) → j < 8 → test_bit (set_bit b i) j ≡ (i == j || test_bit b j)
  unfolding pair_laws
  test_bit-set_bit j h = bool_eq_sound _ _ (ground (arith, pair j h))

  pub test_bit-clear_bit :
      (j : ℕ) → j < 8 → test_bit (clear_bit b i) j ≡ (not (i == j) && test_bit b j)
  unfolding pair_laws
  test_bit-clear_bit j h = bool_eq_sound _ _ (ground (arith, pair j h))
