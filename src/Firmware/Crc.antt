-- ===== src/Firmware/Crc.antt =====
-- modules/teensy/lib/packet/crc.cpp.
pub mod Laws
pub mod Detection
use rdml_blue_rov2_deploymen.Common.{ℕ, zero, suc, ◌*◌, ◌%◌, bit_and, bit_xor, not}
use rdml_blue_rov2_deploymen.Common.{List, [], ◌∷◌, ◌==◌, if◌then◌else◌}

-- One round of the inner loop.
unfoldable pub shift_bit : ℕ → ℕ
shift_bit crc = if not (bit_and crc 0x80 == 0) then bit_xor (crc * 2) 0x07 % 256 else crc * 2 % 256

-- The inner loop, by the rounds that are left.
unfoldable pub shift_bits : ℕ → ℕ → ℕ
unfolding shift_bit
shift_bits zero crc = crc
shift_bits (suc n) crc = shift_bits n (shift_bit crc)

-- One round of the outer loop.
unfoldable pub add_byte : ℕ → ℕ → ℕ
unfolding shift_bits
add_byte crc byte = shift_bits 8 (bit_xor crc byte)

unfoldable pub crc_loop : ℕ → List ℕ → ℕ
unfolding add_byte
crc_loop crc [] = crc
crc_loop crc (byte ∷ bytes) = crc_loop (add_byte crc byte) bytes

unfoldable pub calculate_crc : List ℕ → ℕ
unfolding crc_loop
calculate_crc bytes = crc_loop 0x00 bytes
