-- ===== src/Tests/Turns.antt =====
-- A command whose answer arrives between the write of its frame and the wait.
use rdml_blue_rov2_deploymen.Common.{
  ℕ, ◌+◌, ◌*◌, ◌≤◌, ◌≡◌, ◌⊎◌, refl, [], ◌∷◌, Bool, true, false, none, some, ap, ok,
}
use rdml_blue_rov2_deploymen.Host.Ids.{calibration_start, command_response, imu_01}
use rdml_blue_rov2_deploymen.Host.Packet.{Packet}
use rdml_blue_rov2_deploymen.Host.Packet.Frames.{parsed}
use rdml_blue_rov2_deploymen.Host.Client.{Client, send, new_client}
use rdml_blue_rov2_deploymen.Host.Command.{
  Message, executed, Attempt, Outcome, new_commands, begin_attempt, response_of,
  on_command_response, stop_reader, verdict, send_command,
}
use rdml_blue_rov2_deploymen.Host.Command.Rounds.{command_frame, encoded}
use rdml_blue_rov2_deploymen.Host.Command.Turns.{
  encoding, returned, Call, next_attempt, encode, write, end_wait, caller_step, calls, responds,
  gives_up, Run, here, next, called,
}
use rdml_blue_rov2_deploymen.Host.Command.Turns.Stages.{Brings}
use rdml_blue_rov2_deploymen.Host.Command.Turns.Serial.{arrivals, run-send_command}
use rdml_blue_rov2_deploymen.Host.Command.Turns.Ends.{caller_steps, caller-ends}

abbrev client : Client ℕ
client = new_client

abbrev response : ℕ → Packet
response seq = parsed command_response imu_01 (calibration_start ∷ seq ∷ 0 ∷ [])

-- The reading thread gives up after the answer.
abbrev last : Call ℕ
last = record {
  caller = returned (true, executed);
  left = 1;
  commands = record {
    pending_promise = false;
    future = some (calibration_start, 1, 0);
    pending_seq = 1;
    command_seq = 1;
  };
  client = record client { connected = false };
  frames = command_frame calibration_start 0 1 ∷ [];
}

-- Behind the block under the lock.
abbrev begun : Call ℕ
begun = record {
  caller = encoding 1;
  left = 1;
  commands = record { pending_promise = true; future = none; pending_seq = 1; command_seq = 1 };
  client = client;
  frames = [];
}

answered_run : Run calibration_start 0 last (called 2 new_commands client)
unfolding caller_step next_attempt begin_attempt encode write send end_wait verdict
    on_command_response response_of stop_reader
answered_run = next (responds (response 1) refl) (
    next (calls false refl refl) (
      next (calls false refl (ap (λ r. encode r (begun)) (encoded calibration_start 0 1))) (
        next (calls false refl refl) (
          next (responds (response 7) refl) (
            next (responds (response 1) refl)
              (next (gives_up refl) (next (calls false refl refl) here)))))))

run-send_command_example :
    (environment : ℕ → Attempt) × (o : Outcome ℕ) × (send_command 2 environment calibration_start 0
        new_commands client
      ≡ ok o)
    × ◌≡◌ {A = Bool × Message} (o.success, o.message) (true, executed)
    × (o.frames ≡ command_frame calibration_start 0 1 ∷ [])
    × ((i : ℕ) → Brings (arrivals calibration_start 0 answered_run) (environment i))
run-send_command_example =
    run-send_command calibration_start 0 2 new_commands client last (true, executed) answered_run
      refl

caller-ends_example :
    (caller_steps calibration_start 0 answered_run ≤ 4 * 2 + 1)
    × (((result : Bool × Message) × (last.caller ≡ returned result))
        ⊎ ((m : Call ℕ) × (caller_step calibration_start 0 last.caller true last ≡ ok m)))
caller-ends_example = caller-ends calibration_start 0 2 new_commands client last true answered_run
