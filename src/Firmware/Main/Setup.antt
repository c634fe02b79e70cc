-- ===== src/Firmware/Main/Setup.antt =====
-- modules/teensy/src/main.cpp with include/pinout.h and include/error_code.h: `setup`, and the rounds of `loop`
-- behind it.
pub mod Starts
use rdml_blue_rov2_deploymen.Common.{ℕ, Bool, true, false, not, List, [], ◌∷◌, ◌++◌}
use rdml_blue_rov2_deploymen.Common.{if◌then◌else◌, Result, ok, err, fault, stuck, ◌>>=◌}
use rdml_blue_rov2_deploymen.Firmware.Cobs.{Failure}
use rdml_blue_rov2_deploymen.Firmware.Client.{Stream, Client, new_client}
use rdml_blue_rov2_deploymen.Firmware.Imu.{Board, Imu, stop_calibration}
use rdml_blue_rov2_deploymen.Firmware.Imu.Begin.{begin}
use rdml_blue_rov2_deploymen.Firmware.Main.{World, register_commands, main_loop}

abbrev pub bno08x_addr : ℕ
bno08x_addr = 0x4A

abbrev pub bno08x_int_pin : ℕ
bno08x_int_pin = 2

abbrev pub bno08x_rst_pin : ℕ
bno08x_rst_pin = 3

-- The periods and the timeout that `begin` has as defaults.
abbrev pub default_report_period_ms : ℕ
default_report_period_ms = 5

abbrev pub default_gyro_stale_ms : ℕ
default_gyro_stale_ms = 100

abbrev pub default_timeout_ms : ℕ
default_timeout_ms = 5000

pub data ErrorCode : Type 0 where
  imu_init_failed : ErrorCode

-- How `setup` goes on: it returns, or stays in `error_loop` for ever.
pub data SetUp (W : Type 0) : Type 0 where
  ready : Client W → W → SetUp W
  error_loop : ErrorCode → SetUp W

module _ {D F : Type 0} (board : Board D F) where
  unfoldable pub setup : Client (World D F) → World D F → Result Failure (SetUp (World D F))
  setup c w = do
    (begun, d, imu) ←
        begin board bno08x_addr bno08x_int_pin bno08x_rst_pin default_report_period_ms
          default_gyro_stale_ms default_timeout_ms w.imu w.device
    if not begun then ok (error_loop imu_init_failed) else (do
      let (applied, d', imu') = stop_calibration board imu d
      c' ← register_commands board c
      ok (ready c' (record w { device = d'; imu = imu' })))

  -- Calls of `loop`, each after some bytes have arrived.
  unfoldable pub loop_all :
      (F → List ℕ)
      → List (List ℕ)
      → Client (World D F)
      → Stream
      → World D F
      → Result Failure (Client (World D F) × Stream × World D F)
  loop_all float_bytes [] c stream w = ok (c, stream, w)
  loop_all float_bytes (bytes ∷ arrivals) c stream w = do
    (c', stream', w') ←
        main_loop board float_bytes c (record stream { input = stream.input ++ bytes }) w
    loop_all float_bytes arrivals c' stream' w'
