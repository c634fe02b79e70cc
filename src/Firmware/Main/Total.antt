-- ===== src/Firmware/Main/Total.antt =====
-- About the body of loop of modules/teensy/src/main.cpp.
use rdml_blue_rov2_deploymen.Common.{
  ℕ, ◌+◌, ◌-◌, ◌%◌, ◌^◌, ◌≤◌, ◌≡◌, refl, arith, true, Bool-cases, inl, inr, Option, none, some,
  List, length, length-append, leb, ok,
}
use rdml_blue_rov2_deploymen.Firmware.Ids.{imu_data, cal_status, imu_01}
use rdml_blue_rov2_deploymen.Firmware.Packet.{max_payload_size}
use rdml_blue_rov2_deploymen.Firmware.SerialBuffer.{SerialBuffer}
use rdml_blue_rov2_deploymen.Firmware.SerialBuffer.Holds.{Holds}
use rdml_blue_rov2_deploymen.Firmware.Client.{Stream, Client, max_command_handlers, send_bytes}
use rdml_blue_rov2_deploymen.Firmware.Client.Send.{send_bytes-frame}
use rdml_blue_rov2_deploymen.Firmware.Client.Total.{poll_command_total}
use rdml_blue_rov2_deploymen.Firmware.Imu.{Board, Imu, Sample, calibrating, read}
use rdml_blue_rov2_deploymen.Firmware.Main.{
  World, cal_status_period_ms, status_bytes, sample_bytes, send_calibration_status,
  recover_if_reset, send_sample, report_status, main_loop,
}

send_bytes_total :
    (packet_id device_id : ℕ) (bytes : List ℕ) (stream : Stream)
    → length bytes ≤ max_payload_size
    → (stream' : Stream) × (send_bytes packet_id device_id bytes stream ≡ ok (true, stream'))
send_bytes_total packet_id device_id bytes stream h =
    (_, send_bytes-frame packet_id device_id bytes stream h)

module _ {D F : Type 0} (board : Board D F) (float_bytes : F → List ℕ)
    (four : (x : F) → length (float_bytes x) ≡ 4) where
  pub length-sample_bytes : (s : Sample F) → length (sample_bytes board float_bytes s) ≡ 40
  unfolding sample_bytes
  length-sample_bytes s = simp (length-append, four)

  pub length-status_bytes : (imu : Imu F) → length (status_bytes board float_bytes imu) ≡ 9
  unfolding status_bytes
  length-status_bytes imu = rw four

  -- What `report_status` comes to.
  report_status_total :
      (stream : Stream) (w : World D F)
      → (stream' : Stream) × (w' : World D F) × (report_status board float_bytes stream w
          ≡ ok (stream', w'))
  unfolding report_status send_calibration_status
  report_status_total stream w = elim (Bool-cases (calibrating board w.imu)) [
    | inr off ↦ (stream, w, rw off refl)
    | inl on ↦
        elim (Bool-cases (
          leb cal_status_period_ms
            (((board.millis w.device).0 + 2 ^ 32 - w.last_cal_status_ms) % 2 ^ 32))) [
              | inl due ↦
                  let (stream', sent) =
                    send_bytes_total cal_status imu_01 (status_bytes board float_bytes w.imu) stream
                      (omega (arith, length-status_bytes w.imu)) in
                  (
                    stream',
                    record w {
                      device = (board.millis clock.1).1;
                      last_cal_status_ms = (board.millis clock.1).0;
                    },
                    rw (on, due, sent) refl,
                  )
              | inr early ↦ (stream, record w { device = clock.1 }, rw (on, early) refl)
            ]
  ]
    where
      clock : ℕ × D
      clock = board.millis w.device

  send_sample_total :
      (stream : Stream) (sample : Option (Sample F))
      → (stream' : Stream) × (send_sample board float_bytes stream sample ≡ ok stream')
  unfolding send_sample
  send_sample_total stream none = (stream, refl)
  send_sample_total stream (some s) =
      let (stream', sent) =
        send_bytes_total imu_data imu_01 (sample_bytes board float_bytes s) stream
          (omega (arith, length-sample_bytes s)) in
      (stream', rw sent refl)

  -- The body of `loop`, where a float has four bytes, on any input and whatever the sensor's library answers,
  -- with a buffer that holds any bytes: it returns without leaving an array, the buffer holds some bytes
  -- again, and the handlers are as they were.
  pub main_loop_total :
      (c : Client (World D F)) (stream : Stream) (w : World D F) (q : List ℕ)
      → Holds c.buffer q
      → length c.command_handlers ≡ max_command_handlers
      → (b : SerialBuffer) × (q' : List ℕ) × (stream' : Stream) × (w' : World D F) × Holds b q'
        × (main_loop board float_bytes c stream w ≡ ok (record c { buffer = b }, stream', w'))
  unfolding main_loop
  main_loop_total c stream w q hb h =
      let (b, q', stream₁, w₁, hb', e₁) = poll_command_total c stream w q hb h in
      let w₂ : World D F = recover_if_reset board float_bytes w₁ in
      let (sample, d, imu') = read board w₂.imu w₂.device in
      let (stream₂, e₂) = send_sample_total stream₁ sample in
      let (stream₃, w₃, e₃) = report_status_total stream₂ (record w₂ { device = d; imu = imu' }) in
      (b, q', stream₃, w₃, hb', rw (e₁, e₂, e₃) refl)
