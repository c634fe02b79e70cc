-- ===== src/Firmware/Imu/Restore.antt =====
-- About the calls by which reset of modules/teensy/lib/bno085/bno085.cpp makes the settings of the sensor.
pub mod Recovered
use rdml_blue_rov2_deploymen.Common.{
  ℕ, ◌≡◌, ◌≢◌, refl, ◌∙◌, arith, Bool, true, false, Bool-cases, not, bit_and, ◌==◌, ◌⊎◌, inl, inr,
}
use rdml_blue_rov2_deploymen.Firmware.Imu.{Board, Imu, to_us, set_reports, configure, calibrate}
use rdml_blue_rov2_deploymen.Firmware.Imu.Newest.{HasIds}

-- The settings of the sensor and what the calls of its library do to them: a call that succeeds makes its own
-- setting, and the other settings stay as they are.
pub record Settings {D F : Type 0} (board : Board D F) : Type 0 where
  pub config : D → ℕ
  pub interval : ℕ → D → ℕ
  pub configured :
      (mask : ℕ) (d : D)
      → (board.set_calibration_config mask d).0 ≡ true
      → config (board.set_calibration_config mask d).1 ≡ mask
  pub configured_alone :
      (mask report : ℕ) (d : D)
      → interval report (board.set_calibration_config mask d).1 ≡ interval report d
  pub enabled :
      (report us : ℕ) (d : D)
      → (board.enable_report report us d).0 ≡ true
      → interval report (board.enable_report report us d).1 ≡ us
  pub enabled_alone :
      (report other us : ℕ) (d : D)
      → other ≢ report
      → interval other (board.enable_report report us d).1 ≡ interval other d
  pub waited : (ms report : ℕ) (d : D) → interval report (board.delay ms d) ≡ interval report d

module _ {D F : Type 0} (board : Board D F) where
  -- A call that the sensor refuses.
  pub data Refuses : Type 0 where
    no_report : {report us : ℕ} {d : D} → (board.enable_report report us d).0 ≡ false → Refuses
    no_config : {mask : ℕ} {d : D} → (board.set_calibration_config mask d).0 ≡ false → Refuses

-- The bit of the magnetometer in the mask that the driver keeps.
abbrev pub has_mag : {F : Type 0} → Imu F → Bool
has_mag imu = not (bit_and imu.cal_mask 0x04 == 0)

module _ {D F : Type 0} (board : Board D F) (settings : Settings board) where
  -- The two reports whose results are looked at are enabled with the period.
  abbrev pub HasReports : Imu F → D → Type 0
  HasReports imu d =
      (settings.interval board.sh2_gyroscope_calibrated d ≡ to_us board imu.report_period_ms)
      × (settings.interval board.sh2_rotation_vector d ≡ to_us board imu.report_period_ms)

  -- A refused call, or the two reports.
  abbrev Reports : Imu F → Bool → D → Type 0
  Reports imu succeeded d' =
      ((succeeded ≡ false) × Refuses board) ⊎ ((succeeded ≡ true) × HasReports imu d')

  -- A configuration of the calibration, on a sensor that has its reports.
  abbrev pub Calibrates : ℕ → ℕ → Imu F → Bool × D × Imu F → Type 0
  Calibrates mask us imu (succeeded, d', imu') =
      ((succeeded ≡ false) × Refuses board)
      ⊎ ((succeeded ≡ true)
          × (settings.config d' ≡ mask)
          × (settings.interval board.sh2_magnetic_field_calibrated d' ≡ us)
          × HasReports imu d')

module _ {D F : Type 0} (board : Board D F) (settings : Settings board) (ids : HasIds board) where
  gyro-ne-quat : board.sh2_gyroscope_calibrated ≢ board.sh2_rotation_vector
  gyro-ne-quat e = omega (arith, ids.gyroscope, ids.rotation_vector)

  gyro-ne-mag : board.sh2_gyroscope_calibrated ≢ board.sh2_magnetic_field_calibrated
  gyro-ne-mag e = omega (arith, ids.gyroscope, ids.magnetic_field)

  quat-ne-mag : board.sh2_rotation_vector ≢ board.sh2_magnetic_field_calibrated
  quat-ne-mag e = omega (arith, ids.rotation_vector, ids.magnetic_field)

  set_reports-HasReports :
      (imu : Imu F) (d : D)
      → Reports board settings imu (set_reports board imu d).0 (set_reports board imu d).1
  unfolding set_reports
  set_reports-HasReports imu d = elim (Bool-cases gyro.0) [
    | inr refused ↦ inl (rw refused refl, Refuses.no_report refused)
    | inl gyro_on ↦ elim (Bool-cases quat.0) [
      | inr refused ↦ inl (rw (gyro_on, refused) refl, Refuses.no_report refused)
      | inl quat_on ↦ inr (
        rw (gyro_on, quat_on) refl,
        (
          settings.enabled_alone board.sh2_rotation_vector board.sh2_gyroscope_calibrated us gyro.1
                gyro-ne-quat
              ∙ settings.enabled board.sh2_gyroscope_calibrated us accel.1 gyro_on,
          settings.enabled board.sh2_rotation_vector us gyro.1 quat_on,
        ),
      )
    ]
  ]
    where
      us : ℕ
      us = to_us board imu.report_period_ms

      accel : Bool × D
      accel = board.enable_report board.sh2_accelerometer us d

      gyro : Bool × D
      gyro = board.enable_report board.sh2_gyroscope_calibrated us accel.1

      quat : Bool × D
      quat = board.enable_report board.sh2_rotation_vector us gyro.1

  pub calibrate-Calibrates :
      (mask ms : ℕ) (imu : Imu F) (d : D)
      → HasReports board settings imu d
      → Calibrates board settings mask (to_us board ms) imu (calibrate board mask ms imu d)
  unfolding calibrate
  calibrate-Calibrates mask ms imu d (gyro, quat) = elim (Bool-cases mag.0) [
    | inr refused ↦ rw refused (inl (refl, Refuses.no_report refused))
    | inl mag_on ↦ elim (Bool-cases applied.0) [
      | inr refused ↦ rw (mag_on, refused) (inl (refl, Refuses.no_config refused))
      | inl set ↦
          rw (mag_on, set)
            (inr (
              refl,
              settings.configured mask mag.1 set,
              kept board.sh2_magnetic_field_calibrated
                  ∙ settings.enabled board.sh2_magnetic_field_calibrated us d mag_on,
              (
                kept board.sh2_gyroscope_calibrated
                    ∙ alone board.sh2_gyroscope_calibrated gyro-ne-mag
                    ∙ gyro,
                kept board.sh2_rotation_vector ∙ alone board.sh2_rotation_vector quat-ne-mag ∙ quat,
              ),
            ))
    ]
  ]
    where
      us : ℕ
      us = to_us board ms

      mag : Bool × D
      mag = board.enable_report board.sh2_magnetic_field_calibrated us d

      applied : Bool × D
      applied = board.set_calibration_config mask mag.1

      kept : (report : ℕ) → settings.interval report applied.1 ≡ settings.interval report mag.1
      kept report = settings.configured_alone mask report mag.1

      alone :
          (other : ℕ)
          → other ≢ board.sh2_magnetic_field_calibrated
          → settings.interval other mag.1 ≡ settings.interval other d
      alone other ne = settings.enabled_alone board.sh2_magnetic_field_calibrated other us d ne

  pub configure-HasReports :
      (imu : Imu F) (d : D)
      → Reports board settings imu (configure board imu d).0 (configure board imu d).1
  unfolding configure
  configure-HasReports imu d = elim (set_reports-HasReports cleared d) [
    | inl refused ↦ inl refused
    | inr (done, (gyro, quat)) ↦ inr (
      done,
      (
        settings.waited 100 board.sh2_gyroscope_calibrated (set_reports board cleared d).1 ∙ gyro,
        settings.waited 100 board.sh2_rotation_vector (set_reports board cleared d).1 ∙ quat,
      ),
    )
  ]
    where
      cleared : Imu F
      cleared = record imu { have_accel = false; have_quat = false; last_gyro_ms = 0 }
