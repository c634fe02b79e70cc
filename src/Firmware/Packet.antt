-- ===== src/Firmware/Packet.antt =====
-- modules/teensy/lib/packet/packet.cpp and packet.h.
pub mod Copies
pub mod Encode
pub mod Decode
use rdml_blue_rov2_deploymen.Common.{ℕ, zero, suc, ◌+◌, ◌-◌, ◌/◌, Option, none, some, not, ◌||◌}
use rdml_blue_rov2_deploymen.Common.{List, take, replicate, ltb, ◌==◌, if◌then◌else◌}
use rdml_blue_rov2_deploymen.Common.{Result, ok, err, fault, stuck, ◌>>=◌, load, store}
use rdml_blue_rov2_deploymen.Firmware.Ids.{PacketId, DeviceId}
use rdml_blue_rov2_deploymen.Firmware.Crc.{calculate_crc}
use rdml_blue_rov2_deploymen.Firmware.Cobs.{Failure, minus_one, encode_cobs, decode_cobs}

abbrev pub max_payload_size : ℕ
max_payload_size = 64

abbrev pub max_encoded_size : ℕ
max_encoded_size = (max_payload_size + 3) + (max_payload_size + 3) / 254 + 2

abbrev pub header_size : ℕ
header_size = 2

abbrev pub crc_size : ℕ
crc_size = 1

abbrev pub max_frame_size : ℕ
max_frame_size = header_size + max_payload_size + crc_size

-- `payload` is the whole array of `max_payload_size` bytes.
pub record Packet : Type 0 where
  pub packet_id : PacketId
  pub device_id : DeviceId
  pub payload : List ℕ
  pub size : ℕ

-- `frame[HEADER_SIZE + i] = packet.payload[i]`, by the rounds that are left.
pub copy_to_frame : ℕ → ℕ → List ℕ → List ℕ → Result Failure (List ℕ)
copy_to_frame zero i payload frame = ok frame
copy_to_frame (suc n) i payload frame = do
  byte ← load payload i
  frame' ← store frame (header_size + i) byte
  copy_to_frame n (i + 1) payload frame'

-- The result is the array behind `out` and the number of bytes written.
unfoldable pub encode : Packet → List ℕ → ℕ → Result Failure (List ℕ × ℕ)
encode packet out out_size =
    if ltb max_payload_size packet.size || out_size == 0 then err minus_one else (do
      frame₁ ← store (replicate max_frame_size 0) 0 packet.packet_id
      frame₂ ← store frame₁ 1 packet.device_id
      frame₃ ← copy_to_frame packet.size 0 packet.payload frame₂
      let frame_size = header_size + packet.size
      frame₄ ← store frame₃ frame_size (calculate_crc (take frame_size frame₃))
      (out', encoded_size) ← encode_cobs (take (frame_size + crc_size) frame₄) out (out_size - 1)
      out'' ← store out' encoded_size 0x00
      ok (out'', encoded_size + 1))

-- `out.payload[i] = decoded[HEADER_SIZE + i]`, by the rounds that are left.
pub copy_from_frame : ℕ → ℕ → List ℕ → List ℕ → Result Failure (List ℕ)
copy_from_frame zero i decoded payload = ok payload
copy_from_frame (suc n) i decoded payload = do
  byte ← load decoded (header_size + i)
  payload' ← store payload i byte
  copy_from_frame n (i + 1) decoded payload'

-- `decode` from the test of the size on; `none` is `std::nullopt`.
pub parse_decoded : List ℕ → ℕ → Result Failure (Option Packet)
parse_decoded decoded decoded_size =
    if ltb decoded_size (header_size + crc_size) then ok none else (do
      let body_size = decoded_size - crc_size
      actual_crc ← load decoded body_size
      if not (actual_crc == calculate_crc (take body_size decoded)) then ok none else (do
        packet_id ← load decoded 0
        device_id ← load decoded 1
        let size = body_size - header_size
        payload ← copy_from_frame size 0 decoded (replicate max_payload_size 0)
        ok (
            some (record {
              packet_id = packet_id;
              device_id = device_id;
              payload = payload;
              size = size;
            }))))

unfoldable pub decode : List ℕ → Result Failure (Option Packet)
decode bytes = elim (decode_cobs bytes (replicate max_frame_size 0) max_frame_size) [
  | ok (decoded, decoded_size) ↦ parse_decoded decoded decoded_size
  | err minus_one ↦ ok none
  | fault ↦ fault
  | stuck ↦ stuck
]
