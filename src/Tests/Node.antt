-- ===== src/Tests/Node.antt =====
-- The node of modules/autonomy_pi/ros/autonomy_teensy at concrete inputs.
use rdml_blue_rov2_deploymen.Common.{
  ℕ, zero, suc, ◌≤◌, ◌<◌, ◌≡◌, refl, arith, true, false, none, some, List, [], ◌∷◌, length, ok, ◌⊎◌,
}
use rdml_blue_rov2_deploymen.Host.Ids.{
  calibration_start, command_response, imu_01, imu_data, cal_status,
}
use rdml_blue_rov2_deploymen.Host.Packet.{Packet}
use rdml_blue_rov2_deploymen.Host.Packet.Frames.{parsed}
use rdml_blue_rov2_deploymen.Host.Client.{Client, new_client}
use rdml_blue_rov2_deploymen.Host.Client.{SerialPort}
use rdml_blue_rov2_deploymen.Host.Command.{
  response_of, new_commands, Attempt, Outcome, verdict, send_command,
}
use rdml_blue_rov2_deploymen.Host.Command.Answers.{first_answer, answer_to}
use rdml_blue_rov2_deploymen.Host.Command.Course.{Follows, numbered, send_command-Follows}
use rdml_blue_rov2_deploymen.Host.Command.Results.{
  Confirmed, Gets, seq_of, send_command_success, send_command_answered,
}
use rdml_blue_rov2_deploymen.Host.Node.{Ros, Params, Driver}
use rdml_blue_rov2_deploymen.Host.Node.Callbacks.{IsValid}
use rdml_blue_rov2_deploymen.Host.Node.Reach.{
  Stage, unconfigured, Event, configure, activate, deactivate, cleanup, shutdown, packet_arrives,
  service_called, IsBare, Inv, run,
}
use rdml_blue_rov2_deploymen.Host.Node.{configured_client}
use rdml_blue_rov2_deploymen.Host.Node.Reach.{IsReady}
use rdml_blue_rov2_deploymen.Host.Node.Lifecycle.{receive}
use rdml_blue_rov2_deploymen.Host.Node.Effects.{Does, accepted, receive-Does}
use rdml_blue_rov2_deploymen.Host.Node.Safety.{run-Inv}

-- A response to the first command with the result 0.
abbrev response : ℕ → Packet
response seq = parsed command_response imu_01 (calibration_start ∷ seq ∷ 0 ∷ [])

-- The first attempt gets an old response only, and the second one its own.
abbrev surroundings : ℕ → Attempt
surroundings zero = record {
  reader_stopped = false;
  write_fails = false;
  in_time = response 9 ∷ [];
  late = response 1 ∷ [];
}
surroundings (suc attempt) = record {
  reader_stopped = false;
  write_fails = false;
  in_time = response 2 ∷ [];
  late = [];
}

abbrev client : Client ℕ
client = new_client

send_command-Follows_example :
    Follows surroundings calibration_start 0 3 0 0
      (send_command 3 surroundings calibration_start 0 new_commands client)
send_command-Follows_example =
    send_command-Follows surroundings calibration_start 0 3 new_commands client refl

send_command_success_example :
    (o : Outcome ℕ) × (send_command 3 surroundings calibration_start 0 new_commands client ≡ ok o)
    × (length o.frames ≤ 3)
    × ((o.success ≡ false)
        ⊎ ((i : ℕ) × (i < 3)
            × (o.frames ≡ numbered calibration_start 0 (suc i) 0)
            × Confirmed surroundings 0 0 i))
send_command_success_example =
    send_command_success surroundings calibration_start 0 3 new_commands client refl

before_second : (j : ℕ) → j < 1 → Gets surroundings none (seq_of 0 j) j
unfolding first_answer answer_to response_of
before_second zero h = (refl, refl)
before_second (suc j) h = absurd (omega arith)

second : Gets surroundings (some (calibration_start, 2, 0)) (seq_of 0 1) 1
unfolding first_answer answer_to response_of
second = (refl, refl)

send_command_answered_example :
    (o : Outcome ℕ) × (send_command 3 surroundings calibration_start 0 new_commands client ≡ ok o)
    × ((o.success, o.message) ≡ verdict 0)
    × (o.frames ≡ numbered calibration_start 0 2 0)
send_command_answered_example =
    send_command_answered surroundings calibration_start 0 3 new_commands client refl 1
      (calibration_start, 2, 0) (omega arith) before_second second

-- A clock that counts, and floats that are their first byte.
abbrev pub ros : Ros ℕ ℕ ℕ ℕ
ros = record { now = λ c. (c, suc c); float_of = first; to_double = λ x. x; zero_double = 0 }
  where
    first : List ℕ → ℕ
    first [] = 0
    first (b ∷ bytes) = b

abbrev pub params : Params ℕ
params = record {
  port = [];
  baudrate = 921600;
  frame_id = 0x62 ∷ [];
  orientation_variances = 1 ∷ 2 ∷ 3 ∷ [];
  angular_velocity_variances = 4 ∷ 5 ∷ 6 ∷ [];
  linear_acceleration_variances = 7 ∷ 8 ∷ 9 ∷ [];
  command_timeout = 0;
  command_retries = 3;
}

pub params-IsValid : IsValid params
params-IsValid = record {
  v₁ = 1;
  v₂ = 2;
  v₃ = 3;
  w₁ = 4;
  w₂ = 5;
  w₃ = 6;
  a₁ = 7;
  a₂ = 8;
  a₃ = 9;
  three_orientation = refl;
  three_angular_velocity = refl;
  three_linear_acceleration = refl;
}

abbrev driver : Driver ℕ ℕ ℕ ℕ
driver = record {
  client = none;
  node = record {
    params = record {
      port = [];
      baudrate = 921600;
      frame_id = [];
      orientation_variances = [];
      angular_velocity_variances = [];
      linear_acceleration_variances = [];
      command_timeout = 0;
      command_retries = 0;
    };
    clock = 0;
    imu_pub = none;
    calib_pub = none;
    imu_messages = [];
    statuses = [];
    start_cal_srv = none;
    save_cal_srv = none;
    stop_cal_srv = none;
    commands = new_commands;
  };
}

driver-IsBare : IsBare driver
driver-IsBare = record {
  no_client = refl;
  no_imu_pub = refl;
  no_calib_pub = refl;
  no_start = refl;
  no_save = refl;
  no_stop = refl;
}

-- The driver once it is configured and activated.
abbrev pub active_driver : Driver ℕ ℕ ℕ ℕ
active_driver = record {
  client = some (configured_client ros);
  node = record driver.node { params = params; imu_pub = some true; calib_pub = some true };
}

active_driver-IsReady : IsReady ros true active_driver
active_driver-IsReady = record {
  reader = configured_client ros;
  has_client = refl;
  has_callbacks = refl;
  has_imu_pub = refl;
  has_calib_pub = refl;
  valid = params-IsValid;
}

abbrev short_status : Packet
short_status = parsed cal_status imu_01 (3 ∷ 3 ∷ [])

receive-Does_example :
    (d' : Driver ℕ ℕ ℕ ℕ) × (receive short_status active_driver ≡ ok d')
    × (d'.client ≡ active_driver.client)
    × Does ros
        (accepted ros true imu_data 40 short_status)
        (accepted ros true cal_status 9 short_status)
        false
        short_status
        active_driver.node
        d'.node
receive-Does_example = receive-Does ros true short_status active_driver active_driver-IsReady

abbrev serial_port : SerialPort
serial_port = record { opens = λ port. true; accepts = λ option. true }

abbrev events : List (Event ℕ)
events =
    configure (some params) serial_port
    ∷ packet_arrives (response 7)
    ∷ activate
    ∷ service_called calibration_start surroundings
    ∷ deactivate
    ∷ cleanup
    ∷ configure (some params) serial_port
    ∷ activate
    ∷ shutdown
    ∷ packet_arrives short_status
    ∷ configure none serial_port
    ∷ []

run-Inv_example :
    (stage' : Stage) × (d' : Driver ℕ ℕ ℕ ℕ) × (run ros events unconfigured driver
      ≡ ok (stage', d'))
    × Inv ros stage' d'
run-Inv_example =
    run-Inv ros events unconfigured driver
      (params-IsValid, (tt, (tt, (tt, (tt, (tt, (params-IsValid, (tt, (tt, (tt, (tt, tt)))))))))))
      driver-IsBare
