-- ===== src/Tests/Board.antt =====
-- The start of the firmware at concrete inputs, on a board with a clock.
use rdml_blue_rov2_deploymen.Common.{
  ℕ, suc, ◌+◌, ◌%◌, ◌^◌, ◌≡◌, refl, arith, Bool, true, false, ◌&&◌, List, [], ◌∷◌, length, ltb,
  ◌==◌, ok, ◌⊎◌,
}
use rdml_blue_rov2_deploymen.Firmware.Client.{Client, Stream, new_client}
use rdml_blue_rov2_deploymen.Firmware.Imu.{Board, Imu, Sample, calibrating}
use rdml_blue_rov2_deploymen.Firmware.Imu.Begin.{begin}
use rdml_blue_rov2_deploymen.Firmware.Imu.Begin.Ends.{HasClock, Ended, begin-Ended}
use rdml_blue_rov2_deploymen.Firmware.Imu.Calibration.{IsSh2}
use rdml_blue_rov2_deploymen.Firmware.Main.{World}
use rdml_blue_rov2_deploymen.Firmware.Main.Setup.{
  imu_init_failed, ready, error_loop, setup, loop_all,
}
use rdml_blue_rov2_deploymen.Firmware.Main.Setup.Starts.{IsServing, setup-loop_all}

-- The sensor answers once 250 ms have passed; a call takes a millisecond; a float is a bit.
abbrev pub board : Board ℕ Bool
board = record {
  begin_device = λ address int_pin rst_pin d. (ltb 250 d, suc d);
  enable_report = λ report interval d. (true, suc d);
  set_calibration_config = λ mask d. (true, suc d);
  call_save_calibration = λ d. (true, suc d);
  call_was_reset = λ d. (false, d);
  get_sensor_event = λ d. (true, d);
  sensor_event_id = λ d. 1;
  sensor_status = λ d. 3;
  accel = λ d. (true, false, true);
  gyro = λ d. (true, true, true);
  quat = λ d. (false, false, false, true);
  quat_radian_accuracy = λ d. true;
  millis = λ d. (suc d % 2 ^ 32, suc d);
  delay = λ ms d. d + ms;
  sh2_accelerometer = 0x01;
  sh2_gyroscope_calibrated = 0x02;
  sh2_magnetic_field_calibrated = 0x03;
  sh2_rotation_vector = 0x05;
  sh2_cal_accel = 0x01;
  sh2_cal_gyro = 0x02;
  sh2_cal_mag = 0x04;
  zero_float = false;
  add_float = λ x y. x;
  mul_float = λ x y. x && y;
  div_float = λ x y. x;
  sqrt_float = λ x. x;
  is_positive = λ x. x;
}

pub board-IsSh2 : IsSh2 board
board-IsSh2 = record { accel_bit = refl; gyro_bit = refl; mag_bit = refl }

board-HasClock : HasClock board 0x4A 2 3 200
board-HasClock = record {
  time = λ d. d;
  shows = λ d. refl;
  millis_later = λ d. omega arith;
  delay_later = λ ms d. omega arith;
  begin_later = λ d. omega arith;
  millis_soon = λ d. omega arith;
  try_soon = λ d. omega arith;
}

abbrev pub sample : Sample Bool
sample = record {
  qx = false;
  qy = false;
  qz = false;
  qw = true;
  gx = true;
  gy = false;
  gz = true;
  ax = true;
  ay = true;
  az = false;
}

abbrev pub imu : Imu Bool
imu = record {
  sample = sample;
  sensor_accuracy = record {
    accel_status = 3;
    gyro_status = 2;
    mag_status = 1;
    quat_status = 0;
    quat_rad = true;
  };
  report_period_ms = 0;
  gyro_stale_ms = 0;
  have_accel = false;
  have_quat = false;
  last_gyro_ms = 0;
  cal_mask = 2;
}

abbrev pub world : World ℕ Bool
world = record { device = 0; imu = imu; last_cal_status_ms = 0 }

imu_idle : calibrating board imu ≡ false
unfolding calibrating
imu_idle = refl

begin-Ended_example :
    Ended board 0x4A 2 3 200 5000 board-HasClock
      (board-HasClock.time (board.millis 0).1)
      (record imu { report_period_ms = 5; gyro_stale_ms = 100 })
      (begin board 0x4A 2 3 5 100 5000 imu 0)
begin-Ended_example =
    begin-Ended board 0x4A 2 3 200 5000 board-HasClock 5 100 imu 0 (omega arith) (omega arith)

abbrev pub float_bytes : Bool → List ℕ
float_bytes true = 0 ∷ 0 ∷ 0x80 ∷ 0x3f ∷ []
float_bytes false = 0 ∷ 0 ∷ 0 ∷ 0 ∷ []

abbrev pub float_of : List ℕ → Bool
float_of (a ∷ b ∷ c ∷ d ∷ []) = d == 0x3f
float_of _ = false

pub four : (x : Bool) → length (float_bytes x) ≡ 4
four true = refl
four false = refl

setup-loop_all_example :
    (setup board new_client world ≡ ok (error_loop imu_init_failed))
    ⊎ ((c c' : Client (World ℕ Bool)) × (stream' : Stream) × (w₁ w₂ : World ℕ Bool) × (setup board
            new_client world
          ≡ ok (ready c w₁))
        × (calibrating board w₁.imu ≡ false)
        × (loop_all board float_bytes
              ((3 ∷ 0 ∷ []) ∷ [] ∷ [])
              c
              (record { input = []; output = [] })
              w₁
            ≡ ok (c', stream', w₂))
        × IsServing board c')
setup-loop_all_example =
    setup-loop_all board board-IsSh2 200 board-HasClock float_bytes world ((3 ∷ 0 ∷ []) ∷ [] ∷ [])
      (record { input = []; output = [] }) four (omega arith) imu_idle
