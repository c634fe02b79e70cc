-- ===== src/Firmware/Main.antt =====
-- modules/teensy/src/main.cpp and include/calibration.h: the handlers of the commands and the body of
-- `loop`. The globals are the record `World` and the client; what is printed for a person is left out.
pub mod Commands
pub mod Registered
pub mod Setup
pub mod Total
use rdml_blue_rov2_deploymen.Common.{
  ℕ, ◌+◌, ◌-◌, ◌%◌, ◌^◌, Bool, true, false, not, Option, none, some, List, [], ◌∷◌, ◌++◌,
}
use rdml_blue_rov2_deploymen.Common.{leb, if◌then◌else◌, Result, ok, err, fault, stuck, ◌>>=◌}
use rdml_blue_rov2_deploymen.Firmware.Ids.{
  imu_data, cal_status, imu_01, calibration_start, calibration_save, calibration_stop,
}
use rdml_blue_rov2_deploymen.Firmware.Ids.{CommandResponse, done, sensor_error, invalid_state}
use rdml_blue_rov2_deploymen.Firmware.Cobs.{Failure}
use rdml_blue_rov2_deploymen.Firmware.Client.{
  Stream, Client, register_handler, send_bytes, poll_command,
}
use rdml_blue_rov2_deploymen.Firmware.Imu.{
  Board, Imu, Sample, calibrating, start_calibration, stop_calibration, save_calibration, was_reset,
  recover, read,
}

abbrev pub cal_status_period_ms : ℕ
cal_status_period_ms = 100

-- `imu` with its device, and `last_cal_status_ms`.
pub record World (D F : Type 0) : Type 0 where
  pub device : D
  pub imu : Imu F
  pub last_cal_status_ms : ℕ

module _ {D F : Type 0} (board : Board D F) where
  -- `succeeded ? CommandResponse::OK : CommandResponse::SENSOR_ERROR`
  abbrev pub ok_or_error : Bool → CommandResponse
  ok_or_error succeeded = if succeeded then done else sensor_error

  unfoldable pub start_calibration_command : World D F → CommandResponse × World D F
  start_calibration_command w =
      if calibrating board w.imu
      then (done, w)
      else (let (started, d, imu') = start_calibration board w.imu w.device in
          (ok_or_error started, record w { device = d; imu = imu' }))

  unfoldable pub save_calibration_command : World D F → CommandResponse × World D F
  save_calibration_command w =
      if not (calibrating board w.imu)
      then (invalid_state, w)
      else (let (saved, d) = save_calibration board w.device in
          (ok_or_error saved, record w { device = d }))

  unfoldable pub stop_calibration_command : World D F → CommandResponse × World D F
  stop_calibration_command w =
      if not (calibrating board w.imu)
      then (done, w)
      else (let (stopped, d, imu') = stop_calibration board w.imu w.device in
          (ok_or_error stopped, record w { device = d; imu = imu' }))

  -- The three calls of `register_handler` in `setup`.
  unfoldable pub register_commands : Client (World D F) → Result Failure (Client (World D F))
  register_commands c = do
    c₁ ← register_handler calibration_start start_calibration_command c
    c₂ ← register_handler calibration_save save_calibration_command c₁
    register_handler calibration_stop stop_calibration_command c₂

  -- The bytes of a float, as `memcpy` finds them, are a parameter.
  module _ (float_bytes : F → List ℕ) where
    -- `status`, the array of nine bytes.
    unfoldable pub status_bytes : Imu F → List ℕ
    status_bytes imu =
        imu.sensor_accuracy.accel_status
        ∷ imu.sensor_accuracy.gyro_status
        ∷ imu.sensor_accuracy.mag_status
        ∷ imu.sensor_accuracy.quat_status
        ∷ imu.cal_mask
        ∷ float_bytes imu.sensor_accuracy.quat_rad

    -- A `Sample` in memory: ten floats without padding.
    unfoldable pub sample_bytes : Sample F → List ℕ
    sample_bytes s =
        float_bytes s.qx
        ++ float_bytes s.qy
        ++ float_bytes s.qz
        ++ float_bytes s.qw
        ++ float_bytes s.gx
        ++ float_bytes s.gy
        ++ float_bytes s.gz
        ++ float_bytes s.ax
        ++ float_bytes s.ay
        ++ float_bytes s.az

    unfoldable pub send_calibration_status :
        Stream → World D F → Result Failure (Stream × World D F)
    send_calibration_status stream w = do
      (sent, stream') ← send_bytes cal_status imu_01 (status_bytes w.imu) stream
      let (now, d) = board.millis w.device
      ok (stream', record w { device = d; last_cal_status_ms = now })

    -- `if (imu.was_reset() && !imu.reset())`
    unfoldable pub recover_if_reset : World D F → World D F
    recover_if_reset w =
        let (happened, d) = was_reset board w.device in
        let (recovered, d', imu') = recover board w.imu d in
        if happened then record w { device = d'; imu = imu' } else record w { device = d }

    -- `const std::optional<Sample> sample = imu.read();` and what is done with it.
    unfoldable pub send_sample : Stream → Option (Sample F) → Result Failure Stream
    send_sample stream none = ok stream
    send_sample stream (some s) = do
      (sent, stream') ← send_bytes imu_data imu_01 (sample_bytes s) stream
      ok stream'

    -- The last statement of `loop`.
    unfoldable pub report_status : Stream → World D F → Result Failure (Stream × World D F)
    report_status stream w =
        let (now, d) = board.millis w.device in
        let w' : World D F = record w { device = d } in
        if not (calibrating board w.imu)
        then ok (stream, w)
        else if leb cal_status_period_ms ((now + 2 ^ 32 - w.last_cal_status_ms) % 2 ^ 32)
        then send_calibration_status stream w'
        else ok (stream, w')

    unfoldable pub main_loop :
        Client (World D F)
        → Stream
        → World D F
        → Result Failure (Client (World D F) × Stream × World D F)
    main_loop c stream w = do
      (c', stream₁, w₁) ← poll_command c stream w
      let w₂ = recover_if_reset w₁
      let (sample, d, imu') = read board w₂.imu w₂.device
      stream₂ ← send_sample stream₁ sample
      (stream₃, w₃) ← report_status stream₂ (record w₂ { device = d; imu = imu' })
      ok (c', stream₃, w₃)
