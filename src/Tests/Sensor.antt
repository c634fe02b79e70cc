-- ===== src/Tests/Sensor.antt =====
-- The sensor's driver and the main program of the firmware, on a board that counts its calls.
use rdml_blue_rov2_deploymen.Common.{
  ℕ, ◌+◌, ◌≤◌, ◌≡◌, ◌≢◌, ◌==◌, if◌then◌else◌, refl, arith, true, false, List, [], ◌∷◌, ◌++◌, ok,
}
use rdml_blue_rov2_deploymen.Wire.Packet.{frame}
use rdml_blue_rov2_deploymen.Host.Ids
use rdml_blue_rov2_deploymen.Host.Packet.{decode_packets}
use rdml_blue_rov2_deploymen.Host.Packet.Frames.{parsed, encode_packet-frame}
use rdml_blue_rov2_deploymen.Firmware.Ids.{
  CommandResponse, to_byte, calibration_start, calibration_save, calibration_stop,
}
use rdml_blue_rov2_deploymen.Firmware.SerialBuffer.{SerialBuffer, empty_buffer}
use rdml_blue_rov2_deploymen.Firmware.SerialBuffer.Holds.{Holds, empty_buffer-Holds}
use rdml_blue_rov2_deploymen.Firmware.Client.{Client, Stream, poll_command}
use rdml_blue_rov2_deploymen.Firmware.Imu.{Board, Imu, calibrating, recover}
use rdml_blue_rov2_deploymen.Common.{zero, suc}
use rdml_blue_rov2_deploymen.Firmware.Imu.{read}
use rdml_blue_rov2_deploymen.Firmware.Imu.Newest.{HasIds, after, sampled, IsNewest}
use rdml_blue_rov2_deploymen.Firmware.Imu.Newest.Kept.{read-IsNewest}
use rdml_blue_rov2_deploymen.Firmware.Imu.Reading.{samples, fetched, samples_bound}
use rdml_blue_rov2_deploymen.Firmware.Imu.Calibration.{IsSh2}
use rdml_blue_rov2_deploymen.Firmware.Imu.Restore.{Settings}
use rdml_blue_rov2_deploymen.Firmware.Imu.Restore.Recovered.{Restores, recover-Restores}
use rdml_blue_rov2_deploymen.Firmware.Main.{
  World, start_calibration_command, save_calibration_command, stop_calibration_command, main_loop,
}
use rdml_blue_rov2_deploymen.Firmware.Main.Commands.{Step, MakesStep, commands-MakesStep}
use rdml_blue_rov2_deploymen.Firmware.Main.Registered.{registered}
use rdml_blue_rov2_deploymen.Firmware.Main.Total.{main_loop_total}
use rdml_blue_rov2_deploymen.Link.Calibration.{calibration-answer}

-- Every call succeeds, each reading of the clock is a millisecond, and a float is a number.
abbrev board : Board ℕ ℕ
board = record {
  begin_device = λ address int_pin rst_pin d. (true, d);
  enable_report = λ report interval d. (true, d);
  set_calibration_config = λ mask d. (true, d);
  call_save_calibration = λ d. (true, d);
  call_was_reset = λ d. (false, d);
  get_sensor_event = λ d. (true, d);
  sensor_event_id = λ d. 1;
  sensor_status = λ d. 3;
  accel = λ d. (1, 2, 3);
  gyro = λ d. (4, 5, 6);
  quat = λ d. (0, 0, 0, 1);
  quat_radian_accuracy = λ d. 0;
  millis = λ d. (d, d + 1);
  delay = λ ms d. d + ms;
  sh2_accelerometer = 0x01;
  sh2_gyroscope_calibrated = 0x02;
  sh2_magnetic_field_calibrated = 0x03;
  sh2_rotation_vector = 0x05;
  sh2_cal_accel = 0x01;
  sh2_cal_gyro = 0x02;
  sh2_cal_mag = 0x04;
  zero_float = 0;
  add_float = λ x y. x + y;
  mul_float = λ x y. x;
  div_float = λ x y. x;
  sqrt_float = λ x. x;
  is_positive = λ x. false;
}

board-IsSh2 : IsSh2 board
board-IsSh2 = record { accel_bit = refl; gyro_bit = refl; mag_bit = refl }

abbrev imu : Imu ℕ
imu = record {
  sample = record {
    qx = 0;
    qy = 0;
    qz = 0;
    qw = 0;
    gx = 0;
    gy = 0;
    gz = 0;
    ax = 0;
    ay = 0;
    az = 0;
  };
  sensor_accuracy = record {
    accel_status = 0;
    gyro_status = 0;
    mag_status = 0;
    quat_status = 0;
    quat_rad = 0;
  };
  report_period_ms = 5;
  gyro_stale_ms = 100;
  have_accel = false;
  have_quat = false;
  last_gyro_ms = 0;
  cal_mask = 7;
}

abbrev world : World ℕ ℕ
world = record { device = 0; imu = imu; last_cal_status_ms = 0 }

abbrev client : Client (World ℕ ℕ)
client = record { buffer = empty_buffer; command_handlers = registered board }

abbrev float_bytes : ℕ → List ℕ
float_bytes x = x ∷ 0 ∷ 0 ∷ 0 ∷ []

-- A sensor with the calibration configuration and the intervals of four reports.
abbrev Chip : Type 0
Chip = ℕ × (ℕ → ℕ)

abbrev chip_board : Board Chip ℕ
chip_board = record {
  begin_device = λ address int_pin rst_pin d. (true, d);
  enable_report = λ report us d. (true, (d.0, λ other. if other == report then us else d.1 other));
  set_calibration_config = λ mask d. (true, (mask, d.1));
  call_save_calibration = λ d. (true, d);
  call_was_reset = λ d. (true, d);
  get_sensor_event = λ d. (false, d);
  sensor_event_id = λ d. 1;
  sensor_status = λ d. 3;
  accel = λ d. (1, 2, 3);
  gyro = λ d. (4, 5, 6);
  quat = λ d. (0, 0, 0, 1);
  quat_radian_accuracy = λ d. 0;
  millis = λ d. (0, d);
  delay = λ ms d. d;
  sh2_accelerometer = 0x01;
  sh2_gyroscope_calibrated = 0x02;
  sh2_magnetic_field_calibrated = 0x03;
  sh2_rotation_vector = 0x05;
  sh2_cal_accel = 0x01;
  sh2_cal_gyro = 0x02;
  sh2_cal_mag = 0x04;
  zero_float = 0;
  add_float = λ x y. x + y;
  mul_float = λ x y. x;
  div_float = λ x y. x;
  sqrt_float = λ x. x;
  is_positive = λ x. false;
}

same_report : (report us other : ℕ) → (if report == report then us else other) ≡ us
same_report report us other = ground arith

other_report :
    (report other us before : ℕ)
    → other ≢ report
    → (if other == report then us else before) ≡ before
other_report report other us before ne = ground arith

chip_board-Settings : Settings chip_board
chip_board-Settings = record {
  config = λ d. d.0;
  interval = λ report d. d.1 report;
  configured = λ mask d h. refl;
  configured_alone = λ mask report d. refl;
  enabled = λ report us d h. same_report report us (d.1 report);
  enabled_alone = λ report other us d ne. other_report report other us (d.1 other) ne;
  waited = λ ms report d. refl;
}

chip_board-HasIds : HasIds chip_board
chip_board-HasIds = record {
  accelerometer = refl;
  gyroscope = refl;
  magnetic_field = refl;
  rotation_vector = refl;
}

chip_board-IsSh2 : IsSh2 chip_board
chip_board-IsSh2 = record { accel_bit = refl; gyro_bit = refl; mag_bit = refl }

-- A chip that has lost its settings while the driver was calibrating.
abbrev blank : Chip
blank = (0, λ report. 0)

recover-Restores_example :
    Restores chip_board chip_board-Settings imu
      (recover chip_board imu blank).0
      (recover chip_board imu blank).1
      (recover chip_board imu blank).2
recover-Restores_example =
    recover-Restores chip_board chip_board-Settings chip_board-HasIds chip_board-IsSh2 imu blank

commands-MakesStep_example :
    MakesStep board calibration_start (start_calibration_command board) world
    × MakesStep board calibration_save (save_calibration_command board) world
    × MakesStep board calibration_stop (stop_calibration_command board) world
commands-MakesStep_example = commands-MakesStep board board-IsSh2 world

abbrev start_frame : List ℕ
start_frame = frame Ids.command Ids.imu_01 (calibration_start ∷ 7 ∷ 0 ∷ []) ++ (0 ∷ [])

calibration-answer_example :
    (b : SerialBuffer) × (output : List ℕ) × (result : CommandResponse) × (w' : World ℕ ℕ) × Holds b
      []
    × Step calibration_start (calibrating board world.imu) result (calibrating board w'.imu)
    × (poll_command client (record { input = start_frame ++ []; output = [] }) world
        ≡ ok (record client { buffer = b }, record { input = []; output = output }, w'))
    × (decode_packets output
        ≡ ok (
          parsed Ids.command_response Ids.imu_01 (calibration_start ∷ 7 ∷ to_byte result ∷ []) ∷ [],
          [],
        ))
calibration-answer_example =
    calibration-answer board board-IsSh2 client world calibration_start 7 0 start_frame []
      empty_buffer-Holds refl (omega arith) (omega arith) (omega arith) (omega arith)
      (encode_packet-frame Ids.command Ids.imu_01 (calibration_start ∷ 7 ∷ 0 ∷ []))

main_loop_total_example :
    (b : SerialBuffer) × (q' : List ℕ) × (stream' : Stream) × (w' : World ℕ ℕ) × Holds b q'
    × (main_loop board float_bytes client (record { input = 3 ∷ 0 ∷ []; output = [] }) world
        ≡ ok (record client { buffer = b }, stream', w'))
main_loop_total_example =
    main_loop_total board float_bytes (λ x. refl) client
      (record { input = 3 ∷ 0 ∷ []; output = [] }) world [] empty_buffer-Holds refl

samples_bound_example :
    (samples board (0 ∷ 1 ∷ 2 ∷ []) imu ≤ fetched board 0x01 (0 ∷ 1 ∷ 2 ∷ []) + 0)
    × (samples board (0 ∷ 1 ∷ 2 ∷ []) imu ≤ fetched board 0x05 (0 ∷ 1 ∷ 2 ∷ []) + 0)
samples_bound_example = samples_bound board (0 ∷ 1 ∷ 2 ∷ []) imu

-- The same board, whose events come in turn.
abbrev turns : Board ℕ ℕ
turns = record board { sensor_event_id = kind }
  where
    kind : ℕ → ℕ
    kind zero = 1
    kind (suc zero) = 2
    kind _ = 5

turns-HasIds : HasIds turns
turns-HasIds = record {
  accelerometer = refl;
  gyroscope = refl;
  magnetic_field = refl;
  rotation_vector = refl;
}

-- A sample behind three events, one of each kind.
read-IsNewest_example :
    IsNewest turns 100
      (sampled turns imu)
      (1 ∷ 0 ∷ [])
      2
      (read turns (after turns (1 ∷ 0 ∷ []) imu) 2).0
read-IsNewest_example = read-IsNewest turns turns-HasIds (1 ∷ 0 ∷ []) imu 2 refl refl refl
