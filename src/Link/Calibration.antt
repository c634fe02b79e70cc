-- ===== src/Link/Calibration.antt =====
-- The commands of the calibration on the link: src/main.cpp of modules/teensy with both ends of the link.
use rdml_blue_rov2_deploymen.Common.{ℕ, ◌≤◌, ◌≡◌, arith, List, [], ◌∷◌, ◌++◌, some, IsByte, ok}
use rdml_blue_rov2_deploymen.Host.Ids
use rdml_blue_rov2_deploymen.Host.Packet.{encode_packet, decode_packets}
use rdml_blue_rov2_deploymen.Host.Packet.Frames.{parsed}
use rdml_blue_rov2_deploymen.Firmware.Ids.{CommandResponse, to_byte}
use rdml_blue_rov2_deploymen.Firmware.SerialBuffer.{SerialBuffer}
use rdml_blue_rov2_deploymen.Firmware.SerialBuffer.Holds.{Holds}
use rdml_blue_rov2_deploymen.Firmware.Client.{Client, poll_command}
use rdml_blue_rov2_deploymen.Firmware.Imu.{Board, calibrating}
use rdml_blue_rov2_deploymen.Firmware.Imu.Calibration.{IsSh2}
use rdml_blue_rov2_deploymen.Firmware.Main.{World}
use rdml_blue_rov2_deploymen.Firmware.Main.Commands.{Step}
use rdml_blue_rov2_deploymen.Firmware.Main.Registered.{registered, find_registered}
use rdml_blue_rov2_deploymen.Link.{command-answer}

module _ {D F : Type 0} (board : Board D F) (sh2 : IsSh2 board) where
  -- With the bits of sh2.h and the handlers of `setup`, a client with an empty buffer takes in one of the
  -- three calibration commands as the driver's `encode_packet` returns it: it makes a step of `Step`, and
  -- what it writes is decoded by the driver as one response, with the command, its number and the result of
  -- that step.
  pub calibration-answer :
      (c : Client (World D F)) (w : World D F) (cmd seq arg : ℕ) (bytes input : List ℕ)
      → Holds c.buffer []
      → c.command_handlers ≡ registered board
      → 1 ≤ cmd
      → cmd ≤ 3
      → IsByte seq
      → IsByte arg
      → encode_packet Ids.command Ids.imu_01 (cmd ∷ seq ∷ arg ∷ []) ≡ ok bytes
      → (b : SerialBuffer) × (output : List ℕ) × (result : CommandResponse) × (w' : World D F)
        × Holds b []
        × Step cmd (calibrating board w.imu) result (calibrating board w'.imu)
        × (poll_command c (record { input = bytes ++ input; output = [] }) w
            ≡ ok (record c { buffer = b }, record { input = input; output = output }, w'))
        × (decode_packets output
            ≡ ok
                (parsed Ids.command_response Ids.imu_01 (cmd ∷ seq ∷ to_byte result ∷ []) ∷ [], []))
  calibration-answer c w cmd seq arg bytes input h handlers ge le hs ha e =
      let (handler, found, step) = find_registered board sh2 cmd c w ge le handlers in
      let (b, output, hb, run, decoded) =
        command-answer c w Ids.imu_01 cmd seq arg bytes input (some handler) h (omega arith)
          (omega arith) hs ha found e in
      (b, output, (handler w).0, (handler w).1, hb, step, run, decoded)
