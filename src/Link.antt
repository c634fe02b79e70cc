-- ===== src/Link.antt =====
-- A command from the driver to the firmware and its answer back: src/packet.cpp of
-- modules/autonomy_pi/ros/autonomy_teensy at one end, client.cpp of modules/teensy/lib/packet at the other.
pub mod Calibration
pub mod Delivery
pub mod Motion
pub mod Service
pub mod Status
pub mod Telemetry
use rdml_blue_rov2_deploymen.Common.{
  ℕ, ◌≡◌, sym, ap, ◌∙◌, arith, Option, List, [], ◌∷◌, ◌++◌, append_assoc, IsByte, ok, ok_injective,
}
use rdml_blue_rov2_deploymen.Wire.Packet.{frame}
use rdml_blue_rov2_deploymen.Host.Ids
use rdml_blue_rov2_deploymen.Host.Packet.{encode_packet, decode_packets}
use rdml_blue_rov2_deploymen.Host.Packet.Frames.{parsed, encode_packet-frame}
use rdml_blue_rov2_deploymen.Host.Packet.Resync.{decode_packets-streamed_alone}
use rdml_blue_rov2_deploymen.Firmware.Ids.{
  CommandResponse, done, unknown_command, sensor_error, invalid_state, to_byte,
}
use rdml_blue_rov2_deploymen.Firmware.SerialBuffer.{SerialBuffer}
use rdml_blue_rov2_deploymen.Firmware.SerialBuffer.Holds.{Holds}
use rdml_blue_rov2_deploymen.Firmware.Client.{
  Client, CommandHandler, find_handler, answer, poll_command,
}
use rdml_blue_rov2_deploymen.Firmware.Client.Command.{poll_command-command}
use rdml_blue_rov2_deploymen.Firmware.Client.Handlers.{reply, reply-answer}

to_byte-IsByte : (r : CommandResponse) → IsByte (to_byte r)
to_byte-IsByte done = omega arith
to_byte-IsByte unknown_command = omega arith
to_byte-IsByte sensor_error = omega arith
to_byte-IsByte invalid_state = omega arith

-- What the driver encodes for a command.
encoded-frame :
    (device cmd seq arg : ℕ) (bytes : List ℕ)
    → encode_packet Ids.command device (cmd ∷ seq ∷ arg ∷ []) ≡ ok bytes
    → bytes ≡ frame Ids.command device (cmd ∷ seq ∷ arg ∷ []) ++ (0 ∷ [])
encoded-frame device cmd seq arg bytes e =
    ok_injective (sym e ∙ encode_packet-frame Ids.command device (cmd ∷ seq ∷ arg ∷ []))

-- The bytes that `encode_packet` of the driver returns for a command, its fields all bytes, are taken in by
-- `poll_command` of the firmware with an empty buffer: the handler registered for the command runs once, or
-- none if there is none, and what the firmware writes is decoded by the driver's `decode_packets` as one
-- packet, the response with the same number and the handler's result, or the result byte 1, `UNKNOWN_COMMAND`,
-- if there is no handler.
pub command-answer :
    {W : Type 0} (c : Client W) (w : W) (device cmd seq arg : ℕ) (bytes input : List ℕ)
    (handler : Option (CommandHandler W))
    → Holds c.buffer []
    → IsByte device
    → IsByte cmd
    → IsByte seq
    → IsByte arg
    → find_handler cmd c ≡ ok handler
    → encode_packet Ids.command device (cmd ∷ seq ∷ arg ∷ []) ≡ ok bytes
    → (b : SerialBuffer) × (output : List ℕ) × Holds b []
      × (poll_command c (record { input = bytes ++ input; output = [] }) w
          ≡ ok (
            record c { buffer = b },
            record { input = input; output = output },
            (reply handler w).1,
          ))
      × (decode_packets output
          ≡ ok (parsed Ids.command_response device (cmd ∷ seq ∷ (reply handler w).0 ∷ []) ∷ [], []))
command-answer c w device cmd seq arg bytes input handler h hd hc hs ha found e =
    rw (← reply-answer handler w) (
      let (b, hb, run) =
        poll_command-command c (record { input = bytes ++ input; output = [] }) w device cmd seq arg
          input handler h hd hc hs ha found
          (ap (λ l. l ++ input) (encoded-frame device cmd seq arg bytes e)
            ∙ append_assoc (frame Ids.command device (cmd ∷ seq ∷ arg ∷ [])) (0 ∷ []) input) in
      (
        b,
        _,
        hb,
        run,
        decode_packets-streamed_alone
            (parsed Ids.command_response device (cmd ∷ seq ∷ to_byte (answer handler w).0 ∷ [])
              ∷ [])
            ((omega arith, hd, (hc, (hs, (to_byte-IsByte (answer handler w).0, tt)))), tt),
      ))
