-- ===== src/Tests/Flow.antt =====
-- The way of a message to the node, and of a command to the sensor and back, at concrete inputs.
use rdml_blue_rov2_deploymen.Common.{
  ℕ, suc, ◌≡◌, refl, arith, Bool, true, false, none, some, List, [], ◌∷◌, All, IsByte, append-nil,
  ok,
}
use rdml_blue_rov2_deploymen.Host.Packet.Resync.{streamed}
use rdml_blue_rov2_deploymen.Host.Client.{poll_connection}
use rdml_blue_rov2_deploymen.Host.Client.Chunks.{joined, rounds}
use rdml_blue_rov2_deploymen.Host.Command.{new_commands}
use rdml_blue_rov2_deploymen.Host.Node.{Ros, Params, Node, configured_client}
use rdml_blue_rov2_deploymen.Host.Node.Callbacks.{IsValid}
use rdml_blue_rov2_deploymen.Firmware.Client.{Client}
use rdml_blue_rov2_deploymen.Firmware.Imu.{calibrating}
use rdml_blue_rov2_deploymen.Firmware.Main.{World, send_sample}
use rdml_blue_rov2_deploymen.Link.Status.{IsFloat, status_packet}
use rdml_blue_rov2_deploymen.Host.Client.{register_callback}
use rdml_blue_rov2_deploymen.Host.Command.{Attempt, Message, verdict}
use rdml_blue_rov2_deploymen.Host.Command.Rounds.{command_frame}
use rdml_blue_rov2_deploymen.Host.Node.{Driver}
use rdml_blue_rov2_deploymen.Host.Node.Lifecycle.{call_service}
use rdml_blue_rov2_deploymen.Firmware.Ids.{CommandResponse, to_byte, calibration_start}
use rdml_blue_rov2_deploymen.Firmware.SerialBuffer.{SerialBuffer, empty_buffer}
use rdml_blue_rov2_deploymen.Firmware.SerialBuffer.Holds.{empty_buffer-Holds}
use rdml_blue_rov2_deploymen.Firmware.Client.{poll_command}
use rdml_blue_rov2_deploymen.Firmware.Main.Commands.{Step}
use rdml_blue_rov2_deploymen.Firmware.Main.Registered.{registered}
use rdml_blue_rov2_deploymen.Link.Service.{replies, call_service-Step}
use rdml_blue_rov2_deploymen.Link.Motion.{sample_packet, with_motion, send_sample-published}
use rdml_blue_rov2_deploymen.Tests.Board.{
  board, sample, imu, world, float_bytes, float_of, board-IsSh2, four,
}

abbrev ros : Ros ℕ ℕ Bool Bool
ros = record { now = λ c. (c, suc c); float_of = float_of; to_double = λ x. x; zero_double = false }

bits-IsByte : (x : Bool) → All IsByte (float_bytes x)
bits-IsByte true = (omega arith, (omega arith, (omega arith, (omega arith, tt))))
bits-IsByte false = (omega arith, (omega arith, (omega arith, (omega arith, tt))))

bits_back : (x : Bool) → float_of (float_bytes x) ≡ x
bits_back true = refl
bits_back false = refl

ros-IsFloat : IsFloat float_bytes ros.float_of
ros-IsFloat = record { four = four; bytes = bits-IsByte; back = bits_back }

abbrev params : Params Bool
params = record {
  port = [];
  baudrate = 921600;
  frame_id = 0x62 ∷ [];
  orientation_variances = true ∷ true ∷ true ∷ [];
  angular_velocity_variances = true ∷ true ∷ true ∷ [];
  linear_acceleration_variances = true ∷ true ∷ true ∷ [];
  command_timeout = true;
  command_retries = 3;
}

params-IsValid : IsValid params
params-IsValid = record {
  v₁ = true;
  v₂ = true;
  v₃ = true;
  w₁ = true;
  w₂ = true;
  w₃ = true;
  a₁ = true;
  a₂ = true;
  a₃ = true;
  three_orientation = refl;
  three_angular_velocity = refl;
  three_linear_acceleration = refl;
}

abbrev node : Node ℕ ℕ Bool Bool
node = record {
  params = params;
  clock = 40;
  imu_pub = some true;
  calib_pub = some true;
  imu_messages = [];
  statuses = [];
  start_cal_srv = none;
  save_cal_srv = none;
  stop_cal_srv = none;
  commands = new_commands;
}

-- The bytes of the status all at once.
abbrev status_chunks : List (List ℕ)
status_chunks = streamed (status_packet board float_bytes imu ∷ []) ∷ []

abbrev sample_chunks : List (List ℕ)
sample_chunks = [] ∷ streamed (sample_packet board float_bytes ros ros-IsFloat sample ∷ []) ∷ []

sample_joined :
    joined sample_chunks ≡ streamed (sample_packet board float_bytes ros ros-IsFloat sample ∷ [])
sample_joined = append-nil (streamed (sample_packet board float_bytes ros ros-IsFloat sample ∷ []))

send_sample-published_example :
    (send_sample board float_bytes (record { input = []; output = [] }) (some sample)
      ≡ ok (record { input = []; output = joined sample_chunks }))
    × (poll_connection (rounds sample_chunks) (configured_client ros) (ok node)
        ≡ ok (
          configured_client ros,
          ok (with_motion board float_bytes ros ros-IsFloat node params-IsValid sample),
        ))
send_sample-published_example =
    send_sample-published board float_bytes ros ros-IsFloat sample [] sample_chunks node
      params-IsValid sample_joined refl

abbrev teensy : Client (World ℕ Bool)
teensy = record { buffer = empty_buffer; command_handlers = registered board }

abbrev driver : Driver ℕ ℕ Bool Bool
driver = record { client = some (configured_client ros); node = node }

-- Each attempt gets what the firmware writes for the frame of the first one.
abbrev surroundings : ℕ → Attempt
surroundings attempt = record {
  reader_stopped = false;
  write_fails = false;
  in_time = replies teensy world (command_frame calibration_start 0 1);
  late = [];
}

call_service-Step_example :
    (success : Bool) × (message : Message) × (d' : Driver ℕ ℕ Bool Bool) × (b : SerialBuffer)
    × (output : List ℕ) × (result : CommandResponse) × (w' : World ℕ Bool) × (call_service
          calibration_start surroundings driver
        ≡ ok (success, message, d'))
    × ((success, message) ≡ verdict (to_byte result))
    × Step calibration_start (calibrating board world.imu) result (calibrating board w'.imu)
    × (poll_command teensy
          (record { input = command_frame calibration_start 0 1; output = [] })
          world
        ≡ ok (record teensy { buffer = b }, record { input = []; output = output }, w'))
call_service-Step_example =
    call_service-Step board board-IsSh2 teensy world calibration_start surroundings driver
      (configured_client ros) empty_buffer-Holds refl (omega arith) (omega arith) refl
      (unfold configured_client register_callback in refl) (omega arith)
      (record { up = refl; heard = refl })
