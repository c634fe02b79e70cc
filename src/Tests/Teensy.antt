-- ===== src/Tests/Teensy.antt =====
-- modules/teensy at concrete inputs.
use rdml_blue_rov2_deploymen.Common.{
  ℕ, ◌+◌, ◌≡◌, ◌≢◌, refl, arith, List, [], ◌∷◌, ◌++◌, true, false, none, some,
}
use rdml_blue_rov2_deploymen.Common.{ok, replicate}
use rdml_blue_rov2_deploymen.Wire.Cobs.{stuff}
use rdml_blue_rov2_deploymen.Wire.Crc.{IsRemainder, number_from}
use rdml_blue_rov2_deploymen.Wire.Packet.{frame}
use rdml_blue_rov2_deploymen.Host.Cobs
use rdml_blue_rov2_deploymen.Host.Packet
use rdml_blue_rov2_deploymen.Firmware.Ids.{done, sensor_error, CommandId, command, command_response}
use rdml_blue_rov2_deploymen.Firmware.Cobs.{decode_cobs, encode_cobs}
use rdml_blue_rov2_deploymen.Firmware.Cobs.Encode.{Writes, encode_cobs-Writes}
use rdml_blue_rov2_deploymen.Firmware.Cobs.Decode.{SameDecode, decode_cobs-SameDecode}
use rdml_blue_rov2_deploymen.Firmware.Crc.{calculate_crc}
use rdml_blue_rov2_deploymen.Firmware.Crc.Laws.{calculate_crc-IsRemainder}
use rdml_blue_rov2_deploymen.Firmware.Crc.Detection.{calculate_crc-detects}
use rdml_blue_rov2_deploymen.Firmware.Packet.{encode, decode}
use rdml_blue_rov2_deploymen.Firmware.Packet.Encode.{encode-frame}
use rdml_blue_rov2_deploymen.Firmware.Packet.Decode.{accepted, decode-accepted}
use rdml_blue_rov2_deploymen.Firmware.SerialBuffer.{SerialBuffer, empty_buffer, push, contents}
use rdml_blue_rov2_deploymen.Firmware.SerialBuffer.Holds.{
  Holds, complete, empty_buffer-Holds, push-delimiter,
}
use rdml_blue_rov2_deploymen.Firmware.Client.{
  Client, CommandHandler, Stream, new_client, register_handler, poll_command,
}
use rdml_blue_rov2_deploymen.Firmware.Client.Handlers.{
  register_all, registered, reply, poll_command-registered,
}

calculate_crc-IsRemainder_example :
    IsRemainder (number_from 0 (0x10 ∷ 0x01 ∷ [])) (calculate_crc (0x10 ∷ 0x01 ∷ []))
calculate_crc-IsRemainder_example =
    calculate_crc-IsRemainder (0x10 ∷ 0x01 ∷ []) (omega arith, (omega arith, tt))

calculate_crc-detects_example :
    calculate_crc (0x10 ∷ 0x01 ∷ 0x02 ∷ []) ≢ calculate_crc (0x10 ∷ 0x81 ∷ 0x02 ∷ [])
calculate_crc-detects_example =
    calculate_crc-detects (0x10 ∷ []) 0x01 0x81 (0x02 ∷ []) (omega arith, tt) (omega arith)
      (omega arith) (omega arith, tt) one_bit
  where
    one_bit : ◌≢◌ {A = ℕ} 1 0x81
    one_bit e = omega arith

encode_cobs-Writes_example :
    Writes []
      (stuff [] (0x11 ∷ 0 ∷ 0x22 ∷ []))
      6
      (encode_cobs (0x11 ∷ 0 ∷ 0x22 ∷ []) (replicate 6 0) 5)
encode_cobs-Writes_example =
    encode_cobs-Writes (0x11 ∷ 0 ∷ 0x22 ∷ []) (replicate 6 0) 5 (omega arith) (omega arith)

decode_cobs-SameDecode_example :
    SameDecode 4 6
      (Cobs.decode_cobs (2 ∷ 0x11 ∷ 2 ∷ 0x22 ∷ []))
      (decode_cobs (2 ∷ 0x11 ∷ 2 ∷ 0x22 ∷ []) (replicate 6 0) 4)
decode_cobs-SameDecode_example =
    decode_cobs-SameDecode (2 ∷ 0x11 ∷ 2 ∷ 0x22 ∷ []) (replicate 6 0) 4 (omega arith)

encode-frame_example : Writes [] (frame 0x11 0x01 (1 ∷ 7 ∷ 0 ∷ []) ++ (0 ∷ [])) 69 (
    encode
      (record {
        packet_id = 0x11;
        device_id = 0x01;
        payload = (1 ∷ 7 ∷ 0 ∷ []) ++ replicate 61 0;
        size = 3;
      })
      (replicate 69 0)
      69)
encode-frame_example =
    encode-frame 0x11 0x01 (1 ∷ 7 ∷ 0 ∷ []) (replicate 61 0) (replicate 69 0) 69 (omega arith)
      (omega arith) (omega arith)

decode-accepted_example :
    decode (frame 0x10 0x01 (1 ∷ 7 ∷ 0 ∷ []))
    ≡ ok (accepted (Packet.decode_packet (frame 0x10 0x01 (1 ∷ 7 ∷ 0 ∷ []))))
decode-accepted_example = decode-accepted (frame 0x10 0x01 (1 ∷ 7 ∷ 0 ∷ []))

-- One byte has arrived.
abbrev one_byte : SerialBuffer
one_byte = record { buffer = 7 ∷ replicate 68 0; len = 1; overflowed = false }

one_byte-Holds : Holds one_byte (7 ∷ [])
one_byte-Holds = Holds.within (replicate 68 0) refl (omega arith)

push-delimiter_example :
    (b' : SerialBuffer) × (push one_byte 0 ≡ ok (complete (7 ∷ []), b'))
    × (complete (7 ∷ []) ≡ true → (contents b' ≡ 7 ∷ []) × Holds b' (7 ∷ []))
    × (complete (7 ∷ []) ≡ false → Holds b' [])
push-delimiter_example = push-delimiter (7 ∷ []) one_byte-Holds

-- A client whose first handler counts its calls.
abbrev counted : CommandHandler ℕ
counted n = (done, n + 1)

abbrev client : Client ℕ
client = record { buffer = empty_buffer; command_handlers = some counted ∷ none ∷ none ∷ [] }

abbrev stream : Stream
stream = record { input = frame command 0x01 (1 ∷ 7 ∷ 0 ∷ []) ++ (0 ∷ 5 ∷ []); output = [] }

-- The command 1 is registered twice, and the command 4 has no place.
abbrev handlers : List (CommandId × CommandHandler ℕ)
handlers = (1, λ n. (sensor_error, n)) ∷ (1, counted) ∷ (4, counted) ∷ []

handlers-registered : register_all handlers new_client ≡ ok client
unfolding register_handler
handlers-registered = refl

poll_command-registered_example :
    (b : SerialBuffer) × Holds b []
    × (poll_command client stream 4
        ≡ ok (
          record client { buffer = b },
          record {
            input = 5 ∷ [];
            output =
                stream.output
                ++ (frame command_response 0x01
                      (1 ∷ 7 ∷ (reply (registered 1 handlers none) 4).0 ∷ [])
                    ++ (0 ∷ []));
          },
          (reply (registered 1 handlers none) 4).1,
        ))
poll_command-registered_example =
    poll_command-registered handlers client stream 4 0x01 1 7 0 (5 ∷ [])
      (omega arith, (omega arith, (omega arith, tt))) handlers-registered empty_buffer-Holds
      (omega arith) (omega arith) (omega arith) (omega arith) refl

-- The last handler of the first command, and none for the command 4.
registered_first : reply (registered 1 handlers none) 4 ≡ (0, 5)
registered_first = refl

registered_fourth : reply (registered 4 handlers none) 4 ≡ (1, 4)
registered_fourth = refl
