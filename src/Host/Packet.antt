-- ===== src/Host/Packet.antt =====
-- modules/autonomy_pi/ros/autonomy_teensy/src/packet.cpp and include/autonomy_teensy/packet.hpp.
pub mod Frames
pub mod Stream
pub mod Resync
use rdml_blue_rov2_deploymen.Common.{ℕ, zero, suc, ◌+◌, ◌-◌, Option, none, some, not, true, false}
use rdml_blue_rov2_deploymen.Common.{List, [], ◌∷◌, ◌++◌, length, is_empty, take, drop}
use rdml_blue_rov2_deploymen.Common.{ltb, ◌==◌, if◌then◌else◌}
use rdml_blue_rov2_deploymen.Common.{Result, ok, err, fault, stuck, ◌>>=◌, load}
use rdml_blue_rov2_deploymen.Host.Error.{InvalidArgument, too_short, crc_mismatch}
use rdml_blue_rov2_deploymen.Host.Error.{payload_too_large, not_enough_bytes}
use rdml_blue_rov2_deploymen.Host.Ids.{PacketId, DeviceId}
use rdml_blue_rov2_deploymen.Host.Crc.{calculate_crc}
use rdml_blue_rov2_deploymen.Host.Cobs.{encode_cobs, decode_cobs}

abbrev pub max_payload_size : ℕ
max_payload_size = 64

abbrev pub packet_delimiter : ℕ
packet_delimiter = 0x00

abbrev pub header_size : ℕ
header_size = 2

abbrev pub crc_size : ℕ
crc_size = 1

pub record Packet : Type 0 where
  pub packet_id : PacketId
  pub device_id : DeviceId
  pub payload : List ℕ

-- `pop_front<T>` for a type of `size` bytes: the bytes that `memcpy` reads, and the packet without them.
unfoldable pub pop_front : ℕ → Packet → Result InvalidArgument (List ℕ × Packet)
pop_front size packet =
    if ltb (length packet.payload) size
    then err not_enough_bytes
    else ok (take size packet.payload, record packet { payload = drop size packet.payload })

-- `decode_packet` from the test of the size on.
unfoldable pub parse_decoded : List ℕ → Result InvalidArgument Packet
parse_decoded decoded = if ltb (length decoded) (header_size + crc_size) then err too_short else (do
  let payload_size = length decoded - crc_size
  let body = take payload_size decoded
  actual_crc ← load decoded payload_size
  if not (actual_crc == calculate_crc body) then err crc_mismatch else (do
    packet_id ← load decoded 0
    device_id ← load decoded 1
    ok (record {
      packet_id = packet_id;
      device_id = device_id;
      payload = drop header_size (take payload_size decoded);
    })))

unfoldable pub decode_packet : List ℕ → Result InvalidArgument Packet
decode_packet bytes = do decoded ← decode_cobs bytes; parse_decoded decoded

-- `std::find(start, end, PACKET_DELIMITER)`: what stands before the delimiter and what stands behind it,
-- or `none` where there is none.
unfoldable pub find_delimiter : List ℕ → Option (List ℕ × List ℕ)
find_delimiter [] = none
find_delimiter (byte ∷ bytes) =
    if byte == packet_delimiter then some ([], bytes) else (elim (find_delimiter bytes) [
      | none ↦ none
      | some (packet_data, rest) ↦ some (byte ∷ packet_data, rest)
    ])

-- The `try` block: an `std::invalid_argument` is swallowed.
unfoldable pub push_decoded : List ℕ → List Packet → Result InvalidArgument (List Packet)
push_decoded packet_data packets = elim (decode_packet packet_data) [
  | ok packet ↦ ok (packets ++ (packet ∷ []))
  | err e ↦ ok packets
  | fault ↦ fault
  | stuck ↦ stuck
]

-- The loop, with the bytes from `start` on. Each round passes a delimiter, so as many rounds as there are
-- bytes are enough.
unfoldable pub decode_packets_loop :
    ℕ → List ℕ → List Packet → Result InvalidArgument (List Packet × List ℕ)
decode_packets_loop zero start packets = elim (find_delimiter start) [
  | none ↦ ok (packets, start)
  | some found ↦ stuck
]
decode_packets_loop (suc fuel) start packets = elim (find_delimiter start) [
  | none ↦ ok (packets, start)
  | some (packet_data, rest) ↦ elim (is_empty packet_data) [
    | true ↦ decode_packets_loop fuel rest packets
    | false ↦ do packets' ← push_decoded packet_data packets; decode_packets_loop fuel rest packets'
  ]
]

-- The packets, and the bytes from the returned iterator on.
unfoldable pub decode_packets : List ℕ → Result InvalidArgument (List Packet × List ℕ)
decode_packets bytes = decode_packets_loop (length bytes) bytes []

unfoldable pub encode_packet : PacketId → DeviceId → List ℕ → Result InvalidArgument (List ℕ)
encode_packet packet_id device_id payload =
    if ltb max_payload_size (length payload) then err payload_too_large else (do
      let body = packet_id ∷ device_id ∷ payload
      frame ← encode_cobs (body ++ (calculate_crc body ∷ []))
      ok (frame ++ (packet_delimiter ∷ [])))
