-- ===== src/Link/Service.antt =====
-- A calibration command from the service of the node, src/driver.cpp of modules/autonomy_pi/ros/autonomy_teensy,
-- to the sensor, src/main.cpp of modules/teensy, and the answer back.
use rdml_blue_rov2_deploymen.Common.{
  ℕ, ◌≤◌, ◌≡◌, refl, arith, Bool, true, some, List, [], ◌∷◌, append-nil, IsByte, ok, Result, ==_iff,
}
use rdml_blue_rov2_deploymen.Host.Packet.{Packet, decode_packets}
use rdml_blue_rov2_deploymen.Host.Packet.Frames.{parsed}
use rdml_blue_rov2_deploymen.Host.Error.{InvalidArgument}
use rdml_blue_rov2_deploymen.Firmware.Cobs.{Failure}
use rdml_blue_rov2_deploymen.Host.Ids
use rdml_blue_rov2_deploymen.Host.Client as Host
use rdml_blue_rov2_deploymen.Host.Command.{Commands, Attempt, response_of, Message, verdict}
use rdml_blue_rov2_deploymen.Host.Command.Answers.{first_answer, answer_to}
use rdml_blue_rov2_deploymen.Host.Command.Rounds.{next_seq, link_up, command_frame, encoded}
use rdml_blue_rov2_deploymen.Host.Command.Results.{seq_of, send_command_answered}
use rdml_blue_rov2_deploymen.Host.Node.{Driver, Outside}
use rdml_blue_rov2_deploymen.Host.Node.Lifecycle.{call_service}
use rdml_blue_rov2_deploymen.Firmware.Ids.{CommandResponse, to_byte}
use rdml_blue_rov2_deploymen.Firmware.SerialBuffer.{SerialBuffer}
use rdml_blue_rov2_deploymen.Firmware.SerialBuffer.Holds.{Holds}
use rdml_blue_rov2_deploymen.Firmware.Client.{Client, Stream, poll_command}
use rdml_blue_rov2_deploymen.Firmware.Imu.{Board, calibrating}
use rdml_blue_rov2_deploymen.Firmware.Imu.Calibration.{IsSh2}
use rdml_blue_rov2_deploymen.Firmware.Main.{World}
use rdml_blue_rov2_deploymen.Firmware.Main.Commands.{Step}
use rdml_blue_rov2_deploymen.Firmware.Main.Registered.{registered}
use rdml_blue_rov2_deploymen.Link.Calibration.{calibration-answer}

abbrev decoded : Result InvalidArgument (List Packet × List ℕ) → List Packet
decoded (ok (packets, rest)) = packets
decoded _ = []

abbrev heard_of : {W : Type 0} → Result Failure (Client W × Stream × W) → List Packet
heard_of (ok (c, stream, w)) = decoded (decode_packets stream.output)
heard_of _ = []

-- What the driver decodes of what the firmware writes, when it polls with these bytes at hand.
abbrev pub replies : {W : Type 0} → Client W → W → List ℕ → List Packet
replies c w bytes = heard_of (poll_command c (record { input = bytes; output = [] }) w)

first_answer-own :
    (cmd seq result : ℕ)
    → first_answer seq (parsed Ids.command_response Ids.imu_01 (cmd ∷ seq ∷ result ∷ []) ∷ [])
      ≡ some (cmd, seq, result)
unfolding first_answer answer_to response_of
first_answer-own cmd seq result = rw (first_answer, (==_iff seq seq).1 refl) refl

next_seq-IsByte : (seq : ℕ) → IsByte (next_seq seq)
next_seq-IsByte seq = omega arith

-- A first attempt whose frame goes out, and to which the firmware `c` in the world `w` gives the replies.
pub record IsExchange {W : Type 0} (c : Client W) (w : W) (bytes : List ℕ) (here : Attempt)
    : Type 0 where
  pub up : link_up here ≡ true
  pub heard : here.in_time ≡ replies c w bytes

module _ {D F : Type 0} (board : Board D F) (sh2 : IsSh2 board) where
  -- What the driver hears of one of the commands.
  replies-command :
      (c : Client (World D F)) (w : World D F) (cmd seq : ℕ)
      → Holds c.buffer []
      → c.command_handlers ≡ registered board
      → 1 ≤ cmd
      → cmd ≤ 3
      → IsByte seq
      → (b : SerialBuffer) × (output : List ℕ) × (result : CommandResponse) × (w' : World D F)
        × Step cmd (calibrating board w.imu) result (calibrating board w'.imu)
        × (poll_command c (record { input = command_frame cmd 0 seq; output = [] }) w
            ≡ ok (record c { buffer = b }, record { input = []; output = output }, w'))
        × (replies c w (command_frame cmd 0 seq)
            ≡ parsed Ids.command_response Ids.imu_01 (cmd ∷ seq ∷ to_byte result ∷ []) ∷ [])
  replies-command c w cmd seq h handlers ge le hs =
      let (b, output, result, w', hb, step, run, same) =
        calibration-answer board sh2 c w cmd seq 0 (command_frame cmd 0 seq) [] h handlers ge le hs
          (omega arith) (encoded cmd 0 seq) in
      let polled = rw append-nil at run in
      (b, output, result, w', step, polled, rw (polled, same) refl)

  module _ {C S G : Type 0} where
    -- With the bits of sh2.h: a service, of one of the three commands, of a node whose client is connected, with
    -- at least one attempt, a link that lets the frame of the
    -- first one through, and the firmware with an empty buffer and the handlers of `setup` at the other end, whose
    -- replies to that frame come in time: the firmware takes the frame in, with one step of `Step` on the
    -- sensor, and the service returns the verdict on the result of that step.
    pub call_service-Step :
        (c : Client (World D F)) (w : World D F) (cmd : ℕ) (environment : ℕ → Attempt)
        (d : Driver C S F G) (reader : Host.Client (Outside C S F G))
        → Holds c.buffer []
        → c.command_handlers ≡ registered board
        → 1 ≤ cmd
        → cmd ≤ 3
        → d.client ≡ some reader
        → reader.connected ≡ true
        → 1 ≤ d.node.params.command_retries
        → IsExchange c w
            (command_frame cmd 0 (next_seq d.node.commands.command_seq))
            (environment 0)
        → (success : Bool) × (message : Message) × (d' : Driver C S F G) × (b : SerialBuffer)
          × (output : List ℕ) × (result : CommandResponse) × (w' : World D F) × (call_service cmd
                environment d
              ≡ ok (success, message, d'))
          × ((success, message) ≡ verdict (to_byte result))
          × Step cmd (calibrating board w.imu) result (calibrating board w'.imu)
          × (poll_command c
                (record {
                  input = command_frame cmd 0 (next_seq d.node.commands.command_seq);
                  output = [];
                })
                w
              ≡ ok (record c { buffer = b }, record { input = []; output = output }, w'))
    unfolding call_service
    call_service-Step c w cmd environment d reader h handlers ge le has up some_attempt exchange =
        let (b, output, result, w', step, run, heard) =
          replies-command c w cmd (next_seq s.command_seq) h handlers ge le
            (next_seq-IsByte s.command_seq) in
        let (o, e, verdict_is, frames) =
          send_command_answered environment cmd 0 d.node.params.command_retries s reader up 0
            (cmd, next_seq s.command_seq, to_byte result) some_attempt
            (λ j lt. absurd (omega arith))
            (
              exchange.up,
              rw (seq_first s.command_seq, exchange.heard, heard)
                  (first_answer-own cmd (next_seq s.command_seq) (to_byte result)),
            ) in
        (
          o.success,
          o.message,
          record { client = some o.client; node = record d.node { commands = o.commands } },
          b,
          output,
          result,
          w',
          rw (has, e) refl,
          verdict_is,
          step,
          run,
        )
      where
        s : Commands
        s = d.node.commands

        seq_first : (seq : ℕ) → seq_of seq 0 ≡ next_seq seq
        seq_first seq = omega arith
