-- ===== src/Tests/Link.antt =====
-- A command and its the driver's reading loop and the firmware's polling at concrete inputs.
use rdml_blue_rov2_deploymen.Common.{
  ℕ, ◌+◌, ◌≡◌, ◌≢◌, refl, arith, none, some, List, [], ◌∷◌, ◌++◌, true, false, ok,
}
use rdml_blue_rov2_deploymen.Wire.Packet.{frame}
use rdml_blue_rov2_deploymen.Host.Ids
use rdml_blue_rov2_deploymen.Host.Cobs
use rdml_blue_rov2_deploymen.Host.Packet
use rdml_blue_rov2_deploymen.Host.Packet.{Packet, decode_packet, decode_packets, encode_packet}
use rdml_blue_rov2_deploymen.Host.Packet.Frames.{parsed, encode_packet-frame}
use rdml_blue_rov2_deploymen.Host.Cobs.{decode_cobs}
use rdml_blue_rov2_deploymen.Host.Client
use rdml_blue_rov2_deploymen.Host.Client.{
  poll_connection, dispatch_all, send, read_failed, arrived, cannot_read, read_from_socket,
}
use rdml_blue_rov2_deploymen.Host.Client.Failure.{poll_connection-failed}
use rdml_blue_rov2_deploymen.Host.Client.Chunks.{rounds, poll_connection-joined}
use rdml_blue_rov2_deploymen.Firmware.Ids.{done, calibration_start}
use rdml_blue_rov2_deploymen.Firmware.SerialBuffer.{SerialBuffer, empty_buffer}
use rdml_blue_rov2_deploymen.Firmware.SerialBuffer.Holds.{Holds, empty_buffer-Holds}
use rdml_blue_rov2_deploymen.Firmware.Client.{
  Client, CommandHandler, Stream, find_handler, poll_command,
}
use rdml_blue_rov2_deploymen.Firmware.Client.Total.{poll_command_total}
use rdml_blue_rov2_deploymen.Firmware.Client.Handlers.{reply}
use rdml_blue_rov2_deploymen.Link.{command-answer}
use rdml_blue_rov2_deploymen.Link.Telemetry.{send_all, send_all-received}

-- A client whose first handler counts its calls.
abbrev counter : CommandHandler ℕ
counter n = (done, n + 1)

abbrev firmware : Client ℕ
firmware = record { buffer = empty_buffer; command_handlers = some counter ∷ none ∷ none ∷ [] }

counter-find_handler : find_handler calibration_start firmware ≡ ok (some counter)
unfolding find_handler
counter-find_handler = refl

abbrev start_frame : List ℕ
start_frame = frame Ids.command Ids.imu_01 (calibration_start ∷ 7 ∷ 0 ∷ []) ++ (0 ∷ [])

command-answer_example :
    (b : SerialBuffer) × (output : List ℕ) × Holds b []
    × (poll_command firmware (record { input = start_frame ++ (5 ∷ []); output = [] }) 4
        ≡ ok (
          record firmware { buffer = b },
          record { input = 5 ∷ []; output = output },
          (reply (some counter) 4).1,
        ))
    × (decode_packets output
        ≡ ok (
          parsed Ids.command_response Ids.imu_01
                (calibration_start ∷ 7 ∷ (reply (some counter) 4).0 ∷ [])
              ∷ [],
          [],
        ))
command-answer_example =
    command-answer firmware 4 Ids.imu_01 calibration_start 7 0 start_frame (5 ∷ []) (some counter)
      empty_buffer-Holds (omega arith) (omega arith) (omega arith) (omega arith)
      counter-find_handler
      (encode_packet-frame Ids.command Ids.imu_01 (calibration_start ∷ 7 ∷ 0 ∷ []))

-- Noise, with a delimiter in it.
poll_command_total_example :
    (b : SerialBuffer) × (q' : List ℕ) × (stream' : Stream) × (w' : ℕ) × Holds b q'
    × (poll_command firmware (record { input = 3 ∷ 9 ∷ 0 ∷ 5 ∷ []; output = [] }) 4
        ≡ ok (record firmware { buffer = b }, stream', w'))
poll_command_total_example =
    poll_command_total firmware (record { input = 3 ∷ 9 ∷ 0 ∷ 5 ∷ []; output = [] }) 4 []
      empty_buffer-Holds refl

-- A driver that counts the packets of one identifier.
abbrev driver : Client.Client ℕ
driver = record {
  connected = true;
  accumulated = 3 ∷ [];
  callbacks = (Ids.command_response, (λ packet n. n + 1) ∷ []) ∷ [];
}

noise_decoded : decode_packets (3 ∷ 9 ∷ 0 ∷ 5 ∷ []) ≡ ok ([], 5 ∷ [])
unfolding decode_packets Packet.decode_packets_loop Packet.find_delimiter Packet.push_decoded
    decode_packet decode_cobs Cobs.decode_loop Cobs.copy_block
noise_decoded = refl

poll_connection-joined_example :
    poll_connection (rounds ((9 ∷ []) ∷ [] ∷ (0 ∷ 5 ∷ []) ∷ [])) driver 4
    ≡ ok (record driver { accumulated = 5 ∷ [] }, dispatch_all driver [] 4)
poll_connection-joined_example =
    poll_connection-joined ((9 ∷ []) ∷ [] ∷ (0 ∷ 5 ∷ []) ∷ []) driver 4 [] (5 ∷ []) (nonzero, tt)
      noise_decoded
  where
    nonzero : ◌≢◌ {A = ℕ} 3 0
    nonzero e = omega arith

poll_connection-failed_example :
    (c' : Client.Client ℕ) × (poll_connection
        (rounds ((9 ∷ []) ∷ [] ∷ (0 ∷ 5 ∷ []) ∷ []) ++ (read_failed ∷ arrived (0 ∷ []) ∷ []))
        driver
        4
      ≡ ok (c', dispatch_all driver [] 4))
    × (c' ≡ record driver { connected = false; accumulated = 5 ∷ [] })
    × (send (1 ∷ 0 ∷ []) false c' ≡ (false, c', []))
poll_connection-failed_example =
    poll_connection-failed ((9 ∷ []) ∷ [] ∷ (0 ∷ 5 ∷ []) ∷ []) read_failed (arrived (0 ∷ []) ∷ [])
      driver 4 [] (5 ∷ []) cannot_read (1 ∷ 0 ∷ []) false (nonzero, tt) noise_decoded
      (unfold read_from_socket in refl)
  where
    nonzero : ◌≢◌ {A = ℕ} 3 0
    nonzero e = omega arith

-- A calibration status with nine bytes of payload, and a response.
abbrev packets : List Packet
packets =
    parsed Ids.cal_status Ids.imu_01 (3 ∷ 3 ∷ 0 ∷ 3 ∷ 7 ∷ 0 ∷ 0 ∷ 0 ∷ 0 ∷ [])
    ∷ parsed Ids.command_response Ids.imu_01 (1 ∷ 7 ∷ 0 ∷ [])
    ∷ []

send_all-received_example :
    (output : List ℕ) × (send_all packets (record { input = []; output = [] })
      ≡ ok (record { input = []; output = output }))
    × (decode_packets output ≡ ok (packets, []))
send_all-received_example =
    send_all-received packets []
      (
        (
          omega arith,
          omega arith,
          (
            omega arith,
            (
              omega arith,
              (
                omega arith,
                (
                  omega arith,
                  (omega arith, (omega arith, (omega arith, (omega arith, (omega arith, tt))))),
                ),
              ),
            ),
          ),
        ),
        ((omega arith, omega arith, (omega arith, (omega arith, (omega arith, tt)))), tt),
      )
      (omega arith, (omega arith, tt))
