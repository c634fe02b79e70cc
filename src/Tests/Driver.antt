-- ===== src/Tests/Driver.antt =====
-- modules/autonomy_pi/ros/autonomy_teensy at concrete inputs.
use rdml_blue_rov2_deploymen.Common.{ℕ, ◌≡◌, refl, arith, List, [], ◌∷◌, ◌++◌, ok, err, ◌↔◌}
use rdml_blue_rov2_deploymen.Wire.Cobs.{Stuffed, stuff}
use rdml_blue_rov2_deploymen.Host.Error.{InvalidArgument, code_past_end}
use rdml_blue_rov2_deploymen.Host.Crc.{calculate_crc}
use rdml_blue_rov2_deploymen.Host.Cobs
use rdml_blue_rov2_deploymen.Host.Packet
use rdml_blue_rov2_deploymen.Host.Cobs.{decode_cobs, encode_cobs}
use rdml_blue_rov2_deploymen.Host.Cobs.Decode.{decode_cobs_iff}
use rdml_blue_rov2_deploymen.Host.Cobs.Encode.{encode_cobs-stuff}
use rdml_blue_rov2_deploymen.Host.Packet.{Packet, decode_packet, decode_packets, encode_packet}
use rdml_blue_rov2_deploymen.Host.Packet.Frames.{parsed}
use rdml_blue_rov2_deploymen.Host.Packet.Stream.{
  receive_all, nothing_received, decode_packets-receive_all,
}
use rdml_blue_rov2_deploymen.Host.Packet.Resync.{streamed, IsBytes, decode_packets-streamed}

-- The check value of the checksum.
abbrev check_digits : List ℕ
check_digits = 0x31 ∷ 0x32 ∷ 0x33 ∷ 0x34 ∷ 0x35 ∷ 0x36 ∷ 0x37 ∷ 0x38 ∷ 0x39 ∷ []

calculate_crc_check : calculate_crc check_digits ≡ 0xf4
unfolding calculate_crc
calculate_crc_check = refl

encode_cobs_run :
    encode_cobs {E = InvalidArgument} (0x11 ∷ 0x00 ∷ 0x22 ∷ []) ≡ ok (2 ∷ 0x11 ∷ 2 ∷ 0x22 ∷ [])
unfolding stuff
encode_cobs_run = encode_cobs-stuff (0x11 ∷ 0x00 ∷ 0x22 ∷ [])

decode_cobs_past_end : decode_cobs (5 ∷ 0x11 ∷ []) ≡ err code_past_end
unfolding decode_cobs Cobs.decode_loop Cobs.copy_block
decode_cobs_past_end = refl

decode_cobs_iff_example :
    (decode_cobs (2 ∷ 0x11 ∷ 2 ∷ 0x22 ∷ []) ≡ ok (0x11 ∷ 0x00 ∷ 0x22 ∷ []))
    ↔ Stuffed (2 ∷ 0x11 ∷ 2 ∷ 0x22 ∷ []) (0x11 ∷ 0x00 ∷ 0x22 ∷ [])
decode_cobs_iff_example =
    decode_cobs_iff (2 ∷ 0x11 ∷ 2 ∷ 0x22 ∷ []) (0x11 ∷ 0x00 ∷ 0x22 ∷ [])
      (omega arith, (omega arith, (omega arith, (omega arith, tt))))

-- A response to the first command, numbered 7, with the result 0.
abbrev response : Packet
response = parsed 0x11 0x01 (1 ∷ 7 ∷ 0 ∷ [])

response-IsBytes : IsBytes response
response-IsBytes = (omega arith, omega arith, (omega arith, (omega arith, (omega arith, tt))))

decode_packets-receive_all_example :
    decode_packets (3 ∷ 0x11 ∷ 0 ∷ 4 ∷ [])
    ≡ ok (
      (receive_all nothing_received (3 ∷ 0x11 ∷ 0 ∷ 4 ∷ [])).packets,
      (receive_all nothing_received (3 ∷ 0x11 ∷ 0 ∷ 4 ∷ [])).pending,
    )
decode_packets-receive_all_example = decode_packets-receive_all (3 ∷ 0x11 ∷ 0 ∷ 4 ∷ [])

-- A malformed frame and the beginning of another.
decode_packets_malformed : decode_packets (3 ∷ 0x11 ∷ 0 ∷ 4 ∷ []) ≡ ok ([], 4 ∷ [])
unfolding decode_packets Packet.decode_packets_loop Packet.find_delimiter Packet.push_decoded
    decode_packet decode_cobs Cobs.decode_loop Cobs.copy_block
decode_packets_malformed = refl

decode_packets_rest : decode_packets (4 ∷ 0 ∷ 5 ∷ []) ≡ ok ([], 5 ∷ [])
unfolding decode_packets Packet.decode_packets_loop Packet.find_delimiter Packet.push_decoded
    decode_packet decode_cobs Cobs.decode_loop Cobs.copy_block
decode_packets_rest = refl

decode_packets-streamed_example :
    (packets : List Packet) × (decode_packets ((3 ∷ 0x11 ∷ []) ++ (0 ∷ [])) ≡ ok (packets, []))
    × (decode_packets ((3 ∷ 0x11 ∷ []) ++ (0 ∷ streamed (response ∷ response ∷ [])))
        ≡ ok (packets ++ (response ∷ response ∷ []), []))
decode_packets-streamed_example =
    decode_packets-streamed (3 ∷ 0x11 ∷ []) (response ∷ response ∷ [])
      (response-IsBytes, (response-IsBytes, tt))
