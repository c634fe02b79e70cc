-- ===== src/Firmware/Imu.antt =====
-- modules/teensy/lib/bno085: bno085.cpp and bno085.h. The library of the sensor and the functions of
-- Arduino are not part of the repository: they are the record `Board`, over the state `D` of the device and
-- of the clock, with `F` for float.
pub mod Begin
pub mod Calibration
pub mod Reading
pub mod Newest
pub mod Restore
use rdml_blue_rov2_deploymen.Common.{
  ℕ, ◌+◌, ◌-◌, ◌*◌, ◌%◌, ◌^◌, bit_and, bit_or, Bool, true, false, not, ◌&&◌, ◌||◌,
}
use rdml_blue_rov2_deploymen.Common.{Option, none, some, ltb, ◌==◌, if◌then◌else◌}

-- The calls of the library, the constants of its header sh2.h, and the arithmetic of float.
pub record Board (D F : Type 0) : Type 0 where
  pub begin_device : ℕ → ℕ → ℕ → D → Bool × D
  pub enable_report : ℕ → ℕ → D → Bool × D
  pub set_calibration_config : ℕ → D → Bool × D
  pub call_save_calibration : D → Bool × D
  pub call_was_reset : D → Bool × D
  pub get_sensor_event : D → Bool × D
  pub sensor_event_id : D → ℕ
  pub sensor_status : D → ℕ
  pub accel : D → F × F × F
  pub gyro : D → F × F × F
  pub quat : D → F × F × F × F
  pub quat_radian_accuracy : D → F
  pub millis : D → ℕ × D
  pub delay : ℕ → D → D
  pub sh2_accelerometer : ℕ
  pub sh2_gyroscope_calibrated : ℕ
  pub sh2_magnetic_field_calibrated : ℕ
  pub sh2_rotation_vector : ℕ
  pub sh2_cal_accel : ℕ
  pub sh2_cal_gyro : ℕ
  pub sh2_cal_mag : ℕ
  pub zero_float : F
  pub add_float : F → F → F
  pub mul_float : F → F → F
  pub div_float : F → F → F
  pub sqrt_float : F → F
  pub is_positive : F → Bool

module _ (F : Type 0) where
  pub record Sample : Type 0 where
    pub qx : F
    pub qy : F
    pub qz : F
    pub qw : F
    pub gx : F
    pub gy : F
    pub gz : F
    pub ax : F
    pub ay : F
    pub az : F

  pub record SensorAccuracy : Type 0 where
    pub accel_status : ℕ
    pub gyro_status : ℕ
    pub mag_status : ℕ
    pub quat_status : ℕ
    pub quat_rad : F

  -- The members of the class beside the library's object.
  pub record Imu : Type 0 where
    pub sample : Sample
    pub sensor_accuracy : SensorAccuracy
    pub report_period_ms : ℕ
    pub gyro_stale_ms : ℕ
    pub have_accel : Bool
    pub have_quat : Bool
    pub last_gyro_ms : ℕ
    pub cal_mask : ℕ

module _ {D F : Type 0} (board : Board D F) where
  abbrev pub cal_mask_calibrating : ℕ
  cal_mask_calibrating =
      bit_or (bit_or board.sh2_cal_accel board.sh2_cal_gyro) board.sh2_cal_mag % 2 ^ 8

  abbrev pub cal_mask_default : ℕ
  cal_mask_default = board.sh2_cal_gyro % 2 ^ 8

  unfoldable pub normalize_quat : F × F × F × F → F × F × F × F
  normalize_quat (x, y, z, w) =
      let square : F → F = λ c. board.mul_float c c in
      let norm = board.sqrt_float (
        board.add_float (board.add_float (board.add_float (square x) (square y)) (square z))
          (square w)) in
      if board.is_positive norm
      then (
        board.div_float x norm,
        board.div_float y norm,
        board.div_float z norm,
        board.div_float w norm,
      )
      else (x, y, z, w)

  -- `period * 1000` on `uint32_t`.
  abbrev pub to_us : ℕ → ℕ
  to_us period_ms = (period_ms * 1000) % 2 ^ 32

  -- The result for the accelerometer is not looked at.
  unfoldable pub set_reports : Imu F → D → Bool × D
  set_reports imu d =
      let (accel_ok, d₁) =
        board.enable_report board.sh2_accelerometer (to_us imu.report_period_ms) d in
      let (gyro_ok, d₂) =
        board.enable_report board.sh2_gyroscope_calibrated (to_us imu.report_period_ms) d₁ in
      let (quat_ok, d₃) =
        board.enable_report board.sh2_rotation_vector (to_us imu.report_period_ms) d₂ in
      (gyro_ok && quat_ok, d₃)

  unfoldable pub configure : Imu F → D → Bool × D × Imu F
  unfolding set_reports
  configure imu d =
      let imu' : Imu F = record imu { have_accel = false; have_quat = false; last_gyro_ms = 0 } in
      let (reports_ok, d') = set_reports imu' d in (reports_ok, board.delay 100 d', imu')

  unfoldable pub calibrating : Imu F → Bool
  calibrating imu = not (bit_and imu.cal_mask board.sh2_cal_mag == 0)

  unfoldable pub calibrate : ℕ → ℕ → Imu F → D → Bool × D × Imu F
  calibrate sensors mag_report_period_ms imu d =
      let (enabled, d₁) =
        board.enable_report board.sh2_magnetic_field_calibrated (to_us mag_report_period_ms) d in
      let (applied, d₂) = board.set_calibration_config sensors d₁ in
      let imu' : Imu F = record imu {
        cal_mask = sensors;
        sensor_accuracy = record imu.sensor_accuracy { mag_status = 0 };
      } in
      if not enabled
      then (false, d₁, imu)
      else if not applied
      then (false, d₂, imu)
      else (true, d₂, imu')

  unfoldable pub start_calibration : Imu F → D → Bool × D × Imu F
  unfolding calibrate
  start_calibration imu d = calibrate cal_mask_calibrating 20 imu d

  unfoldable pub stop_calibration : Imu F → D → Bool × D × Imu F
  unfolding calibrate
  stop_calibration imu d = calibrate cal_mask_default 0 imu d

  unfoldable pub save_calibration : D → Bool × D
  save_calibration d = board.call_save_calibration d

  unfoldable pub was_reset : D → Bool × D
  was_reset d = board.call_was_reset d

  -- `reset()`
  unfoldable pub recover : Imu F → D → Bool × D × Imu F
  unfolding configure calibrating start_calibration stop_calibration
  recover imu d =
      let (configured, d', imu') = configure imu d in
      if not configured
      then (false, d', imu')
      else if calibrating imu'
      then start_calibration imu' d'
      else stop_calibration imu' d'

  -- The `switch` of `read`, on the event that has just been fetched.
  unfoldable pub take_event : Imu F → D → D × Imu F
  unfolding normalize_quat
  take_event imu d =
      let status = bit_and (board.sensor_status d) 0x03 in
      if board.sensor_event_id d == board.sh2_accelerometer
      then (let (x, y, z) = board.accel d in
          (
            d,
            record imu {
              sample = record imu.sample { ax = x; ay = y; az = z };
              sensor_accuracy = record imu.sensor_accuracy { accel_status = status };
              have_accel = true;
            },
          ))
      else if board.sensor_event_id d == board.sh2_gyroscope_calibrated
      then (let (x, y, z) = board.gyro d in
          let (now, d') = board.millis d in
          (
            d',
            record imu {
              sample = record imu.sample { gx = x; gy = y; gz = z };
              sensor_accuracy = record imu.sensor_accuracy { gyro_status = status };
              last_gyro_ms = now;
            },
          ))
      else if board.sensor_event_id d == board.sh2_magnetic_field_calibrated
      then (d, record imu { sensor_accuracy = record imu.sensor_accuracy { mag_status = status } })
      else if board.sensor_event_id d == board.sh2_rotation_vector
      then (let (x, y, z, w) = normalize_quat (board.quat d) in
          (
            d,
            record imu {
              sample = record imu.sample { qx = x; qy = y; qz = z; qw = w };
              sensor_accuracy = record imu.sensor_accuracy {
                quat_status = status;
                quat_rad = board.quat_radian_accuracy d;
              };
              have_quat = true;
            },
          ))
      else (d, imu)

  -- The part of `read` behind the events.
  unfoldable pub take_sample : Imu F → D → Option (Sample F) × D × Imu F
  take_sample imu d =
      let (now, d') = board.millis d in
      let fresh : Imu F = record imu { have_accel = false; have_quat = false } in
      let stale : Imu F = record fresh {
        sample = record fresh.sample {
          gx = board.zero_float;
          gy = board.zero_float;
          gz = board.zero_float;
        };
      } in
      if not imu.have_accel || not imu.have_quat
      then (none, d, imu)
      else if ltb imu.gyro_stale_ms ((now + 2 ^ 32 - imu.last_gyro_ms) % 2 ^ 32)
      then (some stale.sample, d', stale)
      else (some fresh.sample, d', fresh)

  unfoldable pub read : Imu F → D → Option (Sample F) × D × Imu F
  unfolding take_event take_sample
  read imu d =
      let (have_event, d₁) = board.get_sensor_event d in
      let (d₂, imu') = if have_event then take_event imu d₁ else (d₁, imu) in take_sample imu' d₂
