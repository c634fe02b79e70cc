-- ===== src/Wire/Crc/Laws.antt =====
-- About the product with the generator.
use rdml_blue_rov2_deploymen.Common.{
  ℕ, ◌*◌, ◌^◌, ◌≡◌, arith, bit_xor, bit_xor_shift, bit_xor_interchange,
}
use rdml_blue_rov2_deploymen.Wire.Crc.{times_generator}

pub times_generator_xor :
    (a b : ℕ) → times_generator (bit_xor a b) ≡ bit_xor (times_generator a) (times_generator b)
unfolding times_generator
times_generator_xor a b = rw (
  ← bit_xor_shift 8 a b,
  ← bit_xor_shift 2 a b,
  ← bit_xor_shift 1 a b,
  bit_xor_interchange (a * 2 ^ 1) (b * 2 ^ 1) a b,
  bit_xor_interchange (a * 2 ^ 2) (b * 2 ^ 2) (bit_xor (a * 2 ^ 1) a) (bit_xor (b * 2 ^ 1) b),
  bit_xor_interchange (a * 2 ^ 8) (b * 2 ^ 8),
)

pub times_generator_shift : (q : ℕ) → times_generator (q * 2 ^ 8) ≡ times_generator q * 2 ^ 8
unfolding times_generator
times_generator_shift q =
    rw
      (
        ← bit_xor_shift 8 (q * 2 ^ 8) (bit_xor (q * 2 ^ 2) (bit_xor (q * 2 ^ 1) q)),
        ← bit_xor_shift 8 (q * 2 ^ 2) (bit_xor (q * 2 ^ 1) q),
        ← bit_xor_shift 8 (q * 2 ^ 1) q,
      )
      (ground (arith, swap 4, swap 2))
  where
    swap : (m : ℕ) → q * 256 * m ≡ q * m * 256
    swap m = grind arith
