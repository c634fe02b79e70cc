-- ===== src/Wire/Crc.antt =====
-- The checksum, described apart from the code: a remainder of polynomials over the field of two
-- elements. The binary digits of a number are the coefficients, and the sum is the exclusive or.
pub mod Laws
use rdml_blue_rov2_deploymen.Common.{ℕ, ◌+◌, ◌*◌, ◌^◌, ◌≡◌, List, [], ◌∷◌, IsByte, bit_xor}

-- The product with x^8 + x^2 + x + 1, the generator 0x07 with its leading coefficient.
unfoldable pub times_generator : ℕ → ℕ
times_generator q = bit_xor (q * 2 ^ 8) (bit_xor (q * 2 ^ 2) (bit_xor (q * 2 ^ 1) q))

-- The number `n` continued by the bytes of a list, the most significant first.
unfoldable pub number_from : ℕ → List ℕ → ℕ
number_from n [] = n
number_from n (b ∷ bytes) = number_from (n * 2 ^ 8 + b) bytes

-- `r` is a remainder of `n * x^8` by the generator.
pub record IsRemainder (n r : ℕ) : Type 0 where
  pub quotient : ℕ
  pub divides : bit_xor (times_generator quotient) r ≡ n * 2 ^ 8
  pub small : IsByte r
