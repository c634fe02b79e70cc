-- ===== src/Firmware/Imu/Begin.antt =====
-- modules/teensy/lib/bno085/bno085.cpp: the initialization of the sensor.
pub mod Ends
use rdml_blue_rov2_deploymen.Common.{ℕ, zero, suc, ◌+◌, ◌-◌, ◌%◌, ◌^◌, Bool, true, false}
use rdml_blue_rov2_deploymen.Common.{ltb, Result, ok, stuck}
use rdml_blue_rov2_deploymen.Firmware.Cobs.{Failure}
use rdml_blue_rov2_deploymen.Firmware.Imu.{Board, Imu, configure}

-- `millis() - start` on `uint32_t`.
abbrev pub since : ℕ → ℕ → ℕ
since start now = (now + 2 ^ 32 - start) % 2 ^ 32

module _ {D F : Type 0} (board : Board D F) (address int_pin rst_pin : ℕ) where
  unfoldable pub begin_loop : ℕ → ℕ → ℕ → Imu F → D → Result Failure (Bool × D × Imu F)
  begin_loop zero start timeout_ms imu d = stuck
  begin_loop (suc fuel) start timeout_ms imu d =
      let (now, d₁) = board.millis d in
      let (begun, d₂) = board.begin_device address int_pin rst_pin d₁ in
      elim (ltb (since start now) timeout_ms) [
        | false ↦ ok (false, d₁, imu)
        | true ↦ elim begun [
          | true ↦ ok (configure board imu d₂)
          | false ↦ begin_loop fuel start timeout_ms imu (board.delay 100 d₂)
        ]
      ]

  -- Each round waits for 100 ms, so that as many rounds as milliseconds are enough.
  unfoldable pub begin : ℕ → ℕ → ℕ → Imu F → D → Result Failure (Bool × D × Imu F)
  begin report_period_ms gyro_stale_ms timeout_ms imu d =
      let imu' : Imu F = record imu {
        report_period_ms = report_period_ms;
        gyro_stale_ms = gyro_stale_ms;
      } in
      let (start, d') = board.millis d in begin_loop (suc timeout_ms) start timeout_ms imu' d'
