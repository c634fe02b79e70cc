-- ===== src/Firmware/Imu/Calibration.antt =====
-- About the calls of modules/teensy/lib/bno085/bno085.cpp that start, stop and recover the sensor.
use rdml_blue_rov2_deploymen.Common.{
  ℕ, ◌≡◌, ◌∙◌, refl, Bool, true, false, Bool-cases, inl, inr, if◌then◌else◌,
}
use rdml_blue_rov2_deploymen.Firmware.Imu.{
  Board, Imu, calibrate, calibrating, start_calibration, stop_calibration, configure, recover,
  to_us, cal_mask_calibrating, cal_mask_default,
}

-- The bits of a calibration configuration as sh2.h has them.
pub record IsSh2 {D F : Type 0} (board : Board D F) : Type 0 where
  pub accel_bit : board.sh2_cal_accel ≡ 0x01
  pub gyro_bit : board.sh2_cal_gyro ≡ 0x02
  pub mag_bit : board.sh2_cal_mag ≡ 0x04

same : (b x : Bool) → (if b then x else x) ≡ x
same true x = refl
same false x = refl

module _ {D F : Type 0} (board : Board D F) (sh2 : IsSh2 board) where
  -- The two configurations differ in the bit of the magnetometer.
  calibrating_mask :
      (imu : Imu F)
      → calibrating board (record imu { cal_mask = cal_mask_calibrating board }) ≡ true
  unfolding calibrating
  calibrating_mask imu = rw (sh2.accel_bit, sh2.gyro_bit, sh2.mag_bit)

  default_mask :
      (imu : Imu F) → calibrating board (record imu { cal_mask = cal_mask_default board }) ≡ false
  unfolding calibrating
  default_mask imu = rw (sh2.gyro_bit, sh2.mag_bit)

  -- What a call that configures the calibration comes to: the new configuration, or the old one.
  calibrate-calibrating :
      (mask mag_report_period_ms : ℕ) (after : Bool) (imu : Imu F) (d : D)
      → ((imu' : Imu F) → calibrating board (record imu' { cal_mask = mask }) ≡ after)
      → let (succeeded, d', imu') = calibrate board mask mag_report_period_ms imu d in
        calibrating board imu' ≡ (if succeeded then after else calibrating board imu)
  unfolding calibrate
  calibrate-calibrating mask mag_report_period_ms after imu d h = elim (Bool-cases enabled.0) [
    | inr no_report ↦ rw no_report refl
    | inl report ↦ elim (Bool-cases applied.0) [
      | inr refused ↦ rw (report, refused) refl
      | inl set ↦
          rw (report, set)
            (h (record imu { sensor_accuracy = record imu.sensor_accuracy { mag_status = 0 } }))
    ]
  ]
    where
      enabled : Bool × D
      enabled =
          board.enable_report board.sh2_magnetic_field_calibrated (to_us board mag_report_period_ms)
            d

      applied : Bool × D
      applied = board.set_calibration_config mask enabled.1

  pub start_calibration-calibrating :
      (imu : Imu F) (d : D)
      → let (succeeded, d', imu') = start_calibration board imu d in
        calibrating board imu' ≡ (if succeeded then true else calibrating board imu)
  unfolding start_calibration
  start_calibration-calibrating imu d =
      calibrate-calibrating (cal_mask_calibrating board) 20 true imu d calibrating_mask

  pub stop_calibration-calibrating :
      (imu : Imu F) (d : D)
      → let (succeeded, d', imu') = stop_calibration board imu d in
        calibrating board imu' ≡ (if succeeded then false else calibrating board imu)
  unfolding stop_calibration
  stop_calibration-calibrating imu d =
      calibrate-calibrating (cal_mask_default board) 0 false imu d default_mask

  start_kept :
      (imu : Imu F) (d : D)
      → calibrating board imu ≡ true
      → calibrating board (start_calibration board imu d).2 ≡ true
  start_kept imu d on =
      start_calibration-calibrating imu d ∙ rw on (same (start_calibration board imu d).0 true)

  pub stop_kept :
      (imu : Imu F) (d : D)
      → calibrating board imu ≡ false
      → calibrating board (stop_calibration board imu d).2 ≡ false
  stop_kept imu d off =
      stop_calibration-calibrating imu d ∙ rw off (same (stop_calibration board imu d).0 false)

  pub configure-calibrating :
      (imu : Imu F) (d : D)
      → let (succeeded, d', imu') = configure board imu d in
        calibrating board imu' ≡ calibrating board imu
  unfolding configure calibrating
  configure-calibrating imu d = refl

  -- With the bits of sh2.h, `reset()` of the sensor's driver, whether it succeeds or not: the sensor is
  -- calibrating after it exactly if it was before.
  pub recover-calibrating :
      (imu : Imu F) (d : D)
      → let (succeeded, d', imu') = recover board imu d in
        calibrating board imu' ≡ calibrating board imu
  unfolding recover
  recover-calibrating imu d = elim (Bool-cases configured.0) [
    | inr failed ↦ rw failed (configure-calibrating imu d)
    | inl succeeded ↦ rw succeeded (elim (Bool-cases (calibrating board configured.2)) [
      | inl on ↦ rw on (start_kept configured.2 configured.1 on)
      | inr off ↦ rw off (stop_kept configured.2 configured.1 off)
    ])
  ]
    where
      configured : Bool × D × Imu F
      configured = configure board imu d
