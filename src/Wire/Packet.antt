-- ===== src/Wire/Packet.antt =====
-- A packet on the link, described apart from the code that writes and reads it.
use rdml_blue_rov2_deploymen.Common.{ℕ, List, [], ◌∷◌, ◌++◌}
use rdml_blue_rov2_deploymen.Wire.Cobs.{stuff}
use rdml_blue_rov2_deploymen.Firmware.Crc.{calculate_crc}

-- The identifiers, the payload and their checksum.
abbrev pub contents : ℕ → ℕ → List ℕ → List ℕ
contents packet_id device_id payload =
    packet_id ∷ device_id ∷ (payload ++ (calculate_crc (packet_id ∷ device_id ∷ payload) ∷ []))

-- The frame, without the delimiter behind it.
abbrev pub frame : ℕ → ℕ → List ℕ → List ℕ
frame packet_id device_id payload = stuff [] (contents packet_id device_id payload)
