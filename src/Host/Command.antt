-- ===== src/Host/Command.antt =====
-- modules/autonomy_pi/ros/autonomy_teensy/src/driver.cpp: `send_command`, and the callback on
-- COMMAND_RESPONSE that answers it. What arrives while an attempt waits, and when the link fails, is chosen
-- by the environment, a function of the attempt.
pub mod Answers
pub mod Rounds
pub mod Course
pub mod Results
pub mod Total
pub mod Turns
use rdml_blue_rov2_deploymen.Common.{
  ℕ, zero, suc, ◌+◌, ◌%◌, ◌^◌, Bool, true, false, ◌&&◌, Option, none, some, List, [], ◌∷◌,
}
use rdml_blue_rov2_deploymen.Common.{◌==◌, if◌then◌else◌, Result, ok, err, fault, stuck, ◌>>=◌}
use rdml_blue_rov2_deploymen.Host.Error.{InvalidArgument}
use rdml_blue_rov2_deploymen.Host.Ids.{
  CommandId, command, imu_01, response_ok, unknown_command, sensor_error, invalid_state,
}
use rdml_blue_rov2_deploymen.Host.Packet.{Packet, encode_packet}
use rdml_blue_rov2_deploymen.Host.Client.{Client, send}

-- `std::array<std::uint8_t, 3>`
abbrev pub Response : Type 0
Response = ℕ × ℕ × ℕ

-- The members for the command that is waited for. `pending_promise` tells whether the optional has a value,
-- and `future` is the state that its promise shares with the future of the newest attempt; the state of an
-- older promise has no reader any more.
pub record Commands : Type 0 where
  pub pending_promise : Bool
  pub future : Option Response
  pub pending_seq : ℕ
  pub command_seq : ℕ

abbrev pub new_commands : Commands
new_commands = record { pending_promise = false; future = none; pending_seq = 0; command_seq = 0 }

-- The payload as an array, unless `packet.payload.size() != 3`.
unfoldable pub response_of : List ℕ → Option Response
response_of (command_id ∷ seq ∷ result ∷ []) = some (command_id, seq, result)
response_of _ = none

unfoldable pub on_command_response : Packet → Commands → Commands
unfolding response_of
on_command_response packet s = elim (response_of packet.payload) [
  | none ↦ s
  | some (command_id, seq, result) ↦
      if s.pending_promise && seq == s.pending_seq
      then record s { pending_promise = false; future = some (command_id, seq, result) }
      else s
]

-- The responses that the reading thread delivers, one after another.
unfoldable pub deliver_all : List Packet → Commands → Commands
deliver_all [] s = s
deliver_all (packet ∷ packets) s = deliver_all packets (on_command_response packet s)

-- The block under `command_lock_` at the head of an attempt.
unfoldable pub begin_attempt : Commands → ℕ × Commands
begin_attempt s =
    let seq = (s.command_seq + 1) % 2 ^ 8 in
    (seq, record { pending_promise = true; future = none; pending_seq = seq; command_seq = seq })

-- What `message` is set to.
pub data Message : Type 0 where
  encode_failed : InvalidArgument → Message
  link_down : Message
  executed : Message
  not_recognized : Message
  reported_sensor_error : Message
  not_valid : Message
  unrecognized_result : Message
  timed_out : Message

-- The `switch` on the result code.
unfoldable pub verdict : ℕ → Bool × Message
verdict result =
    if result == response_ok
    then (true, executed)
    else if result == unknown_command
    then (false, not_recognized)
    else if result == sensor_error
    then (false, reported_sensor_error)
    else if result == invalid_state
    then (false, not_valid)
    else (false, unrecognized_result)

-- One attempt's surroundings: whether the reading thread has given up before the frame is written, whether
-- the write fails, the responses until the wait ends (or the write fails), and those between that and the
-- next attempt.
pub record Attempt : Type 0 where
  pub reader_stopped : Bool
  pub write_fails : Bool
  pub in_time : List Packet
  pub late : List Packet

-- How a call ends, with the frames that were written.
pub record Outcome (W : Type 0) : Type 0 where
  pub success : Bool
  pub message : Message
  pub commands : Commands
  pub client : Client W
  pub frames : List (List ℕ)

module _ {W : Type 0} where
  unfoldable pub ended : Bool × Message → Commands → Client W → List (List ℕ) → Outcome W
  ended (success, message) s c frames = record {
    success = success;
    message = message;
    commands = s;
    client = c;
    frames = frames;
  }

  unfoldable pub after_frame : List ℕ → Outcome W → Outcome W
  after_frame frame o = record o { frames = frame ∷ o.frames }

  -- The reading thread leaves its loop on an I/O error.
  unfoldable pub stop_reader : Bool → Client W → Client W
  stop_reader true c = record c { connected = false }
  stop_reader false c = c

  -- The loop, with `left` attempts to go, on attempt number `attempt`.
  unfoldable pub attempts_loop :
      (ℕ → Attempt)
      → CommandId
      → ℕ
      → ℕ
      → ℕ
      → Commands
      → Client W
      → Result InvalidArgument (Outcome W)
  unfolding ended after_frame stop_reader begin_attempt deliver_all verdict
  attempts_loop environment command_id arg zero attempt s c = ok (ended (false, timed_out) s c [])
  attempts_loop environment command_id arg (suc left) attempt s c =
      let (seq, s₁) = begin_attempt s in
      let here = environment attempt in
      elim (encode_packet command imu_01 (command_id ∷ seq ∷ arg ∷ [])) [
        | err e ↦ ok (ended (false, encode_failed e) s₁ c [])
        | fault ↦ fault
        | stuck ↦ stuck
        | ok frame ↦
            let (sent, c', written) =
              send frame here.write_fails (stop_reader here.reader_stopped c) in
            let s₂ = deliver_all here.in_time s₁ in
            elim sent [
              | false ↦ ok (ended (false, link_down) s₂ c' [])
              | true ↦ elim s₂.future [
                | some (answered, seq', result) ↦ ok (ended (verdict result) s₂ c' (written ∷ []))
                | none ↦ do
                  o ←
                      attempts_loop environment command_id arg left (attempt + 1)
                        (deliver_all here.late s₂) c'
                  ok (after_frame written o)
              ]
            ]
      ]

  unfoldable pub send_command :
      ℕ → (ℕ → Attempt) → CommandId → ℕ → Commands → Client W → Result InvalidArgument (Outcome W)
  send_command command_retries environment command_id arg s c =
      attempts_loop environment command_id arg command_retries 0 s c
