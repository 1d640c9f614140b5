-- ===== src/Pmm/Bits.antt =====
-- Setting, clearing and testing one bit of a byte of the bitmap, by tables over all bytes.
use lithium_kernel.Prelude.{
  ℕ, ◌-◌, ◌^◌, ◌<◌, ◌≡◌, refl, Bool, true, false, ◌&&◌, arith, bit_and, bit_or, ltb, ◌==◌,
  if◌then◌else◌, same, same→eq, checks_below, checks_below_at,
}

-- Bit `j` of the byte is clear.
abbrev pub is_clear : ℕ → ℕ → Bool
is_clear b j = bit_and b (2 ^ j) == 0

or_test : ℕ → ℕ → ℕ → Bool
or_test b i j = same (is_clear (bit_or b (2 ^ i)) j) (if i == j then false else is_clear b j)

and_test : ℕ → ℕ → ℕ → Bool
and_test b i j = same (is_clear (bit_and b (255 - 2 ^ i)) j) (if i == j then true else is_clear b j)

byte_test : ℕ → ℕ → Bool
byte_test b i = ltb (bit_or b (2 ^ i)) 256 && ltb (bit_and b (255 - 2 ^ i)) 256

at_all_bits : (ℕ → ℕ → ℕ → Bool) → Bool
at_all_bits t = checks_below 256 (λ b. checks_below 8 (λ i. checks_below 8 (λ j. t b i j)))

at_all_bits_sound :
    (t : ℕ → ℕ → ℕ → Bool) (b i j : ℕ)
    → at_all_bits t ≡ true
    → b < 256
    → i < 8
    → j < 8
    → t b i j ≡ true
unfolding at_all_bits
at_all_bits_sound t b i j h hb hi hj =
    checks_below_at 8 _ j (checks_below_at 8 _ i (checks_below_at 256 _ b h hb) hi) hj

or_table : at_all_bits or_test ≡ true
unfolding at_all_bits checks_below or_test
or_table = refl

and_table : at_all_bits and_test ≡ true
unfolding at_all_bits checks_below and_test
and_table = refl

byte_table : checks_below 256 (λ b. checks_below 8 (λ i. byte_test b i)) ≡ true
unfolding checks_below byte_test
byte_table = refl

full_table : checks_below 8 (λ j. same (is_clear 255 j) false) ≡ true
unfolding checks_below
full_table = refl

pub is_clear-or :
    (b i j : ℕ)
    → b < 256
    → i < 8
    → j < 8
    → is_clear (bit_or b (2 ^ i)) j ≡ (if i == j then false else is_clear b j)
unfolding or_test
is_clear-or b i j hb hi hj = same→eq _ _ (at_all_bits_sound or_test b i j or_table hb hi hj)

pub is_clear-and :
    (b i j : ℕ)
    → b < 256
    → i < 8
    → j < 8
    → is_clear (bit_and b (255 - 2 ^ i)) j ≡ (if i == j then true else is_clear b j)
unfolding and_test
is_clear-and b i j hb hi hj = same→eq _ _ (at_all_bits_sound and_test b i j and_table hb hi hj)

pub set_bit-lt :
    (b i : ℕ) → b < 256 → i < 8 → (bit_or b (2 ^ i) < 256) × (bit_and b (255 - 2 ^ i) < 256)
unfolding byte_test
set_bit-lt b i hb hi =
    ground (arith, checks_below_at 8 _ i (checks_below_at 256 _ b byte_table hb) hi)

-- A byte of ones has no clear bit.
pub is_clear-full : (j : ℕ) → j < 8 → is_clear 255 j ≡ false
is_clear-full j h = same→eq _ _ (checks_below_at 8 _ j full_table h)
