-- ===== src/Host/Crc/Agree.antt =====
-- About calculate_crc of modules/autonomy_pi/ros/autonomy_teensy/src/crc.cpp, beside calculate_crc of the firmware.
use rdml_blue_rov2_deploymen.Common.{ℕ, zero, suc, ◌≡◌, refl, List, [], ◌∷◌}
use rdml_blue_rov2_deploymen.Firmware.Crc
use rdml_blue_rov2_deploymen.Host.Crc.{shift_bit, shift_bits, add_byte, crc_loop, calculate_crc}

shift_bits_firmware : (n crc : ℕ) → shift_bits n crc ≡ Crc.shift_bits n crc
unfolding shift_bits Crc.shift_bits
shift_bits_firmware zero crc = refl
shift_bits_firmware (suc n) crc = shift_bits_firmware n (shift_bit crc)

crc_loop_firmware : (crc : ℕ) (bytes : List ℕ) → crc_loop crc bytes ≡ Crc.crc_loop crc bytes
unfolding crc_loop Crc.crc_loop
crc_loop_firmware crc [] = refl
crc_loop_firmware crc (byte ∷ bytes) = crc_loop_firmware (add_byte crc byte) bytes

-- The two functions `calculate_crc` agree on every list.
pub calculate_crc_firmware : (bytes : List ℕ) → calculate_crc bytes ≡ Crc.calculate_crc bytes
unfolding calculate_crc Crc.calculate_crc
calculate_crc_firmware bytes = crc_loop_firmware 0 bytes
