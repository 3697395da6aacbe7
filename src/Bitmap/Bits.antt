-- ===== src/Bitmap/Bits.antt =====
-- What the bytes of a bitmap stand for: a bit for each index, and the laws of a test and a write.
use polaris_os.Prelude.{
  ◌==◌, if◌then◌else◌, length, set, length-set, get_or, replicate, get_or-set, get_elem?-eq-get_or,
  ℕ, zero, suc, ◌+◌, ◌-◌, ◌*◌, ◌/◌, ◌%◌, ◌^◌, ◌<◌, ◌≡◌, refl, Bool, true, false, ◌&&◌, some, List,
  [], ◌∷◌, arith,
}
use polaris_os.Prelude.Bytes.{
  test_bit, set_bit, clear_bit, set_bit-lt, clear_bit-lt, test_bit-set_bit, test_bit-clear_bit,
}
use polaris_os.Bitmap.{Bitmap, bitmap_test, bitmap_set}

-- Every byte of the buffer is a byte.
abbrev pub AllBytes : List ℕ → Type 0
AllBytes [] = Unit
AllBytes (b ∷ bs) = (b < 256) × AllBytes bs

pub zero_bytes : (n : ℕ) → AllBytes (replicate n 0)
zero_bytes zero = tt
zero_bytes (suc n) = (omega arith, zero_bytes n)

-- The buffer has the stated length, and no index of a bit exceeds a signed 32-bit integer.
pub record IsValid (m : Bitmap) : Type 0 where
  pub sized : length m.bits ≡ m.len
  pub bytes : AllBytes m.bits
  pub small : m.offset + m.len * 8 < 2 ^ 31

-- Bit `k` of the map, counted from its offset.
unfoldable pub bit_at : List ℕ → ℕ → Bool
bit_at bs k = test_bit (get_or bs (k / 8) 0) (k % 8)

abbrev pub bit : Bitmap → ℕ → Bool
bit m k = bit_at m.bits k

unfoldable pub put : Bitmap → ℕ → Bool → Bitmap
put m k v =
    let b = get_or m.bits (k / 8) 0 in
    record m { bits = set m.bits (k / 8) (if v then set_bit b (k % 8) else clear_bit b (k % 8)) }

AllBytes-get : (bs : List ℕ) (i : ℕ) → AllBytes bs → get_or bs i 0 < 256
AllBytes-get [] i h = omega arith
AllBytes-get (b ∷ bs) zero h = h.0
AllBytes-get (b ∷ bs) (suc i) h = AllBytes-get bs i h.1

AllBytes-set : (bs : List ℕ) (i v : ℕ) → AllBytes bs → v < 256 → AllBytes (set bs i v)
AllBytes-set [] i v h k = tt
AllBytes-set (b ∷ bs) zero v h k = (k, h.1)
AllBytes-set (b ∷ bs) (suc i) v h k = (h.0, AllBytes-set bs i v h.1 k)

module _ (m : Bitmap) (k : ℕ) (v : IsValid m) (inside : k < m.len * 8) where
  in_buffer : k / 8 < length m.bits
  in_buffer = omega (arith, v.sized)

  pub bitmap_test-bit : bitmap_test m (m.offset + k) ≡ some (bit m k)
  unfolding bitmap_test bit_at
  bitmap_test-bit = ground (
    arith,
    get_elem?-eq-get_or m.bits (k / 8) 0 in_buffer,
    (let e : m.offset + k - m.offset ≡ k = omega arith in e),
  )

  pub bitmap_set-put : (x : Bool) → bitmap_set m (m.offset + k) x ≡ some (put m k x)
  unfolding bitmap_set put
  bitmap_set-put x = ground (
    arith,
    get_elem?-eq-get_or m.bits (k / 8) 0 in_buffer,
    (let e : m.offset + k - m.offset ≡ k = omega arith in e),
  )

-- The bit at `j` of a byte with bit `i` set or cleared.
byte_bit :
    (b i j : ℕ) (x : Bool)
    → b < 256
    → i < 8
    → j < 8
    → test_bit (if x then set_bit b i else clear_bit b i) j ≡ (if i == j then x else test_bit b j)
byte_bit b i j true h hi hj = ground (arith, test_bit-set_bit b i h hi j hj)
byte_bit b i j false h hi hj = ground (arith, test_bit-clear_bit b i h hi j hj)

byte_lt : (b i : ℕ) (x : Bool) → b < 256 → i < 8 → (if x then set_bit b i else clear_bit b i) < 256
byte_lt b i true h hi = set_bit-lt b i h hi
byte_lt b i false h hi = clear_bit-lt b i h hi

same_place : (k j : ℕ) → ((k / 8 == j / 8) && (k % 8 == j % 8)) ≡ (k == j)
same_place k j = ground arith

module _ (m : Bitmap) (k : ℕ) (x : Bool) where
  pub len-put : (put m k x).len ≡ m.len
  unfolding put
  len-put = refl

  pub offset-put : (put m k x).offset ≡ m.offset
  unfolding put
  offset-put = refl

  -- A write changes the bit that it is for, and no other.
  pub bit-put :
      (j : ℕ) → IsValid m → k < m.len * 8 → bit (put m k x) j ≡ (if k == j then x else bit m j)
  unfolding put bit_at
  bit-put j v h = ground (
    arith,
    get_or-set m.bits (k / 8) (j / 8)
        (if x
          then set_bit (get_or m.bits (k / 8) 0) (k % 8)
          else clear_bit (get_or m.bits (k / 8) 0) (k % 8))
        0 (in_buffer m k v h),
    byte_bit (get_or m.bits (k / 8) 0) (k % 8) (j % 8) x (AllBytes-get m.bits (k / 8) v.bytes)
        (omega arith) (omega arith),
  )

  pub put-IsValid : IsValid m → IsValid (put m k x)
  unfolding put
  put-IsValid v = record {
    sized = omega (
      arith,
      length-set m.bits (k / 8) (
          if x
          then set_bit (get_or m.bits (k / 8) 0) (k % 8)
          else clear_bit (get_or m.bits (k / 8) 0) (k % 8)),
      v.sized,
    );
    bytes =
        AllBytes-set m.bits (k / 8) _ v.bytes
          (byte_lt _ (k % 8) x (AllBytes-get m.bits (k / 8) v.bytes) (omega arith));
    small = v.small;
  }
