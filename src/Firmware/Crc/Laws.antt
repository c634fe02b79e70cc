-- ===== src/Firmware/Crc/Laws.antt =====
-- About calculate_crc of modules/teensy/lib/packet/crc.cpp and polynomials.
use rdml_blue_rov2_deploymen.Common.{ℕ, zero, suc, ◌+◌, ◌*◌, ◌/◌, ◌^◌, ◌<◌, ◌≡◌, refl}
use rdml_blue_rov2_deploymen.Common.{List, [], ◌∷◌, All, IsByte, arith}
use rdml_blue_rov2_deploymen.Common.{bit_xor, bit_xor-IsByte, bit_xor_assoc, bit_xor_shift}
use rdml_blue_rov2_deploymen.Common.{bit_xor_fields, agree_below, agree_below→eq}
use rdml_blue_rov2_deploymen.Wire.Crc.{times_generator, number_from, IsRemainder}
use rdml_blue_rov2_deploymen.Wire.Crc.Laws.{times_generator_xor, times_generator_shift}
use rdml_blue_rov2_deploymen.Firmware.Crc.{shift_bit, shift_bits, add_byte, crc_loop, calculate_crc}

-- The quotient of the division that `shift_bits` makes, in the same rounds.
quotient_loop : ℕ → ℕ → ℕ → ℕ
unfolding shift_bits
quotient_loop zero crc q = q
quotient_loop (suc n) crc q = quotient_loop n (shift_bit crc) (q * 2 + crc / 128)

-- Eight rounds divide `c * x^8`, for every byte `c`.
divide_byte :
    (c : ℕ) → c < 256 → bit_xor (times_generator (quotient_loop 8 c 0)) (shift_bits 8 c) ≡ c * 2 ^ 8
unfolding quotient_loop shift_bits times_generator agree_below
divide_byte = agree_below→eq _ _ 256 refl

shift_bits-IsByte : (c : ℕ) → c < 256 → shift_bits 8 c / 256 ≡ 0
unfolding shift_bits agree_below
shift_bits-IsByte = agree_below→eq _ _ 256 refl

module _ (crc b : ℕ) (hc : IsByte crc) (hb : IsByte b) where
  add_byte-divides :
      bit_xor (times_generator (quotient_loop 8 (bit_xor crc b) 0)) (add_byte crc b)
      ≡ bit_xor crc b * 2 ^ 8
  unfolding add_byte
  add_byte-divides = divide_byte (bit_xor crc b) (bit_xor-IsByte crc b hc hb)

  pub add_byte-IsByte : IsByte (add_byte crc b)
  unfolding add_byte
  add_byte-IsByte = omega (arith, shift_bits-IsByte (bit_xor crc b) (bit_xor-IsByte crc b hc hb))

-- A round of the outer loop appends a byte to the dividend.
add_byte-IsRemainder :
    (n crc b : ℕ) → IsByte b → IsRemainder n crc → IsRemainder (n * 2 ^ 8 + b) (add_byte crc b)
add_byte-IsRemainder n crc b hb r = record {
  quotient = bit_xor (q * 2 ^ 8) (quotient_loop 8 (bit_xor crc b) 0);
  divides = rw (
    times_generator_xor (q * 2 ^ 8) (quotient_loop 8 (bit_xor crc b) 0),
    bit_xor_assoc (times_generator (q * 2 ^ 8))
        (times_generator (quotient_loop 8 (bit_xor crc b) 0)),
    add_byte-divides crc b r.small hb,
    times_generator_shift q,
    bit_xor_shift 8 (times_generator q) (bit_xor crc b),
    ← bit_xor_assoc (times_generator q) crc b,
    r.divides,
    bit_xor_fields 8 n b hb,
  );
  small = add_byte-IsByte crc b r.small hb;
}
  where
    q : ℕ
    q = r.quotient

crc_loop-IsRemainder :
    (bytes : List ℕ) (n crc : ℕ)
    → All IsByte bytes
    → IsRemainder n crc
    → IsRemainder (number_from n bytes) (crc_loop crc bytes)
unfolding crc_loop number_from
crc_loop-IsRemainder [] n crc h r = r
crc_loop-IsRemainder (b ∷ bytes) n crc (hb, h) r =
    crc_loop-IsRemainder bytes (n * 2 ^ 8 + b) (add_byte crc b) h
      (add_byte-IsRemainder n crc b hb r)

-- On a list of bytes `calculate_crc` is the remainder, by x^8 + x^2 + x + 1, of the polynomial of the
-- bytes times x^8; it is a byte.
pub calculate_crc-IsRemainder :
    (bytes : List ℕ) → All IsByte bytes → IsRemainder (number_from 0 bytes) (calculate_crc bytes)
unfolding calculate_crc
calculate_crc-IsRemainder bytes h =
    crc_loop-IsRemainder bytes 0 0 h
      (record { quotient = 0; divides = unfold times_generator in refl; small = omega arith })

pub calculate_crc-IsByte : (bytes : List ℕ) → All IsByte bytes → IsByte (calculate_crc bytes)
calculate_crc-IsByte bytes h = (calculate_crc-IsRemainder bytes h).small
