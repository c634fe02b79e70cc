-- ===== src/Firmware/Imu/Restore/Recovered.antt =====
-- About reset of modules/teensy/lib/bno085/bno085.cpp: what it leaves on the sensor and in the members.
use rdml_blue_rov2_deploymen.Common.{
  ℕ, ◌≡◌, refl, sym, ◌∙◌, arith, Bool, true, false, Bool-cases, ◌⊎◌, inl, inr, if◌then◌else◌,
}
use rdml_blue_rov2_deploymen.Firmware.Imu.{
  Board, Imu, configure, calibrating, calibrate, start_calibration, stop_calibration, recover,
  cal_mask_calibrating, cal_mask_default,
}
use rdml_blue_rov2_deploymen.Firmware.Imu.Calibration.{IsSh2, recover-calibrating}
use rdml_blue_rov2_deploymen.Firmware.Imu.Newest.{HasIds}
use rdml_blue_rov2_deploymen.Firmware.Imu.Restore.{
  Settings, Refuses, has_mag, HasReports, calibrate-Calibrates, configure-HasReports,
}

module _ {D F : Type 0} (board : Board D F) (settings : Settings board) where
  -- A call that was refused, or the settings that belong to the mask from before.
  abbrev pub Outcome : Imu F → Bool → D → Type 0
  Outcome imu succeeded d' =
      ((succeeded ≡ false) × Refuses board)
      ⊎ ((succeeded ≡ true)
          × (settings.config d' ≡ (if has_mag imu then 0x07 else 0x02))
          × (settings.interval board.sh2_magnetic_field_calibrated d'
              ≡ (if has_mag imu then 20000 else 0))
          × HasReports board settings imu d')

  -- What `reset()` comes to.
  pub record Restores (imu : Imu F) (succeeded : Bool) (d' : D) (imu' : Imu F) : Type 0 where
    pub mask_kept : has_mag imu' ≡ has_mag imu
    pub no_accel : imu'.have_accel ≡ false
    pub no_quat : imu'.have_quat ≡ false
    pub outcome : Outcome imu succeeded d'

module _ {D F : Type 0} (board : Board D F) where
  calibrate-readings :
      (mask ms : ℕ) (imu : Imu F) (d : D)
      → let (succeeded, d', imu') = calibrate board mask ms imu d in
        (imu'.have_accel ≡ imu.have_accel) × (imu'.have_quat ≡ imu.have_quat)
  unfolding calibrate
  calibrate-readings mask ms imu d = (ground arith, ground arith)

module _ {D F : Type 0} (board : Board D F) (settings : Settings board) (ids : HasIds board)
    (sh2 : IsSh2 board) where
  calibrating-has_mag : (imu : Imu F) → calibrating board imu ≡ has_mag imu
  unfolding calibrating
  calibrating-has_mag imu = rw sh2.mag_bit refl

  recover-mask_kept :
      (imu : Imu F) (d : D)
      → let (succeeded, d', imu') = recover board imu d in has_mag imu' ≡ has_mag imu
  recover-mask_kept imu d =
      sym (calibrating-has_mag (recover board imu d).2)
      ∙ recover-calibrating board sh2 imu d
      ∙ calibrating-has_mag imu

  masks : (cal_mask_calibrating board ≡ 0x07) × (cal_mask_default board ≡ 0x02)
  masks = (rw (sh2.accel_bit, sh2.gyro_bit, sh2.mag_bit) refl, rw sh2.gyro_bit refl)

  recover-readings :
      (imu : Imu F) (d : D)
      → let (succeeded, d', imu') = recover board imu d in
        (imu'.have_accel ≡ false) × (imu'.have_quat ≡ false)
  unfolding recover start_calibration stop_calibration configure
  recover-readings imu d = elim (Bool-cases (configure board imu d).0) [
    | inr failed ↦ rw failed (refl, refl)
    | inl done ↦ elim (Bool-cases (calibrating board (configure board imu d).2)) [
      | inl on ↦
          rw (done, on)
            (calibrate-readings board (cal_mask_calibrating board) 20 (configure board imu d).2
              (configure board imu d).1)
      | inr off ↦
          rw (done, off)
            (calibrate-readings board (cal_mask_default board) 0 (configure board imu d).2
              (configure board imu d).1)
    ]
  ]

  recover-Outcome :
      (imu : Imu F) (d : D)
      → Outcome board settings imu (recover board imu d).0 (recover board imu d).1
  unfolding recover start_calibration stop_calibration
  recover-Outcome imu d = elim (configure-HasReports board settings ids imu d) [
    | inl (failed, refused) ↦ rw failed (inl (refl, refused))
    | inr (done, reports) ↦ elim (Bool-cases (has_mag imu)) [
      | inl on ↦
          rw (done, calibrating-has_mag (configure board imu d).2, kept, on, ← masks.0)
            (calibrate-Calibrates board settings ids (cal_mask_calibrating board) 20 imu'
              (configure board imu d).1 reports)
      | inr off ↦
          rw (done, calibrating-has_mag (configure board imu d).2, kept, off, ← masks.1)
            (calibrate-Calibrates board settings ids (cal_mask_default board) 0 imu'
              (configure board imu d).1 reports)
    ]
  ]
    where
      imu' : Imu F
      imu' = (configure board imu d).2

      kept : has_mag imu' ≡ has_mag imu
      kept = refl

  -- With the identifiers and the bits of sh2.h, on a sensor whose calls that succeed make their own setting and
  -- no other: `reset()` of the sensor's driver, whatever the settings of the sensor were. Either it fails, and
  -- then the sensor has refused a call; or it succeeds, and then the sensor has the calibration configuration
  -- that belongs to the driver's mask from before (all three sensors and a report of the magnetometer every
  -- 20 ms while calibrating, else the gyroscope alone and no such report), and the reports of the gyroscope
  -- and of the rotation vector with the driver's period. In either case the bit of the magnetometer in the mask
  -- stays, and no reading from before is kept for a sample.
  pub recover-Restores :
      (imu : Imu F) (d : D)
      → Restores board settings imu
          (recover board imu d).0
          (recover board imu d).1
          (recover board imu d).2
  recover-Restores imu d = record {
    mask_kept = recover-mask_kept imu d;
    no_accel = (recover-readings imu d).0;
    no_quat = (recover-readings imu d).1;
    outcome = recover-Outcome imu d;
  }
