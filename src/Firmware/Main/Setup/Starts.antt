-- ===== src/Firmware/Main/Setup/Starts.antt =====
-- About setup of modules/teensy/src/main.cpp and the rounds of loop behind it.
use rdml_blue_rov2_deploymen.Common.{
  ℕ, ◌+◌, ◌^◌, ◌≤◌, ◌≡◌, refl, ap, ◌∙◌, arith, Bool, true, false, Bool-cases, inl, inr, ◌⊎◌, List,
  [], ◌∷◌, ◌++◌, length, Result, ok,
}
use rdml_blue_rov2_deploymen.Firmware.Cobs.{Failure}
use rdml_blue_rov2_deploymen.Firmware.SerialBuffer.Holds.{Holds, empty_buffer-Holds}
use rdml_blue_rov2_deploymen.Firmware.Client.{Stream, Client, new_client}
use rdml_blue_rov2_deploymen.Firmware.Imu.{Board, Imu, calibrating, configure, stop_calibration}
use rdml_blue_rov2_deploymen.Firmware.Imu.Begin.{begin}
use rdml_blue_rov2_deploymen.Firmware.Imu.Begin.Ends.{HasClock, begin-Ended}
use rdml_blue_rov2_deploymen.Firmware.Imu.Calibration.{IsSh2, configure-calibrating, stop_kept}
use rdml_blue_rov2_deploymen.Firmware.Main.{World}
use rdml_blue_rov2_deploymen.Firmware.Main.Registered.{registered, register_commands-new_client}
use rdml_blue_rov2_deploymen.Firmware.Main.Total.{main_loop_total}
use rdml_blue_rov2_deploymen.Firmware.Main.Setup.{
  bno08x_addr, bno08x_int_pin, bno08x_rst_pin, default_report_period_ms, default_gyro_stale_ms,
  default_timeout_ms, imu_init_failed, ready, error_loop, setup, loop_all,
}

module _ {D F : Type 0} (board : Board D F) where
  -- A client that the handlers of `setup` are registered with, and whose buffer is in order.
  pub record IsServing (c : Client (World D F)) : Type 0 where
    pub bytes : List ℕ
    pub holds : Holds c.buffer bytes
    pub handlers : c.command_handlers ≡ registered board

  module _ (float_bytes : F → List ℕ) (four : (x : F) → length (float_bytes x) ≡ 4) where
    -- Calls of `loop`, with any bytes arriving between them, all return, and the client serves on.
    loop_all-IsServing :
        (arrivals : List (List ℕ)) (c : Client (World D F)) (stream : Stream) (w : World D F)
        → IsServing c
        → (c' : Client (World D F)) × (stream' : Stream) × (w' : World D F) × (loop_all board
              float_bytes arrivals c stream w
            ≡ ok (c', stream', w'))
          × IsServing c'
    unfolding loop_all
    loop_all-IsServing [] c stream w h = (c, stream, w, refl, h)
    loop_all-IsServing (bytes ∷ arrivals) c stream w h =
        let (b, q, stream₁, w₁, hb, e₁) =
          main_loop_total board float_bytes four c (record stream { input = stream.input ++ bytes })
            w h.bytes h.holds (ap length h.handlers) in
        let (c₂, stream₂, w₂, e₂, h₂) =
          loop_all-IsServing arrivals (record c { buffer = b }) stream₁ w₁
            (record { bytes = q; holds = hb; handlers = h.handlers }) in
        (c₂, stream₂, w₂, rw (e₁, e₂) refl, h₂)

  abbrev begun : World D F → Result Failure (Bool × D × Imu F)
  begun w =
      begin board bno08x_addr bno08x_int_pin bno08x_rst_pin default_report_period_ms
        default_gyro_stale_ms default_timeout_ms w.imu w.device

  setup_failed :
      (w : World D F) (d : D) (imu : Imu F)
      → begun w ≡ ok (false, d, imu)
      → setup board new_client w ≡ ok (error_loop imu_init_failed)
  unfolding setup
  setup_failed w d imu e = rw e refl

  setup_done :
      (w : World D F) (d : D) (imu : Imu F)
      → begun w ≡ ok (true, d, imu)
      → setup board new_client w
        ≡ ok (
            ready
              (record new_client { command_handlers = registered board })
              (record w {
                device = (stop_calibration board imu d).1;
                imu = (stop_calibration board imu d).2;
              }))
  unfolding setup
  setup_done w d imu e = rw (e, register_commands-new_client board) refl

module _ {D F : Type 0} (board : Board D F) (sh2 : IsSh2 board) (slack : ℕ)
    (clock : HasClock board bno08x_addr bno08x_int_pin bno08x_rst_pin slack) where
  abbrev Started : World D F → Type 0
  Started w =
      (setup board new_client w ≡ ok (error_loop imu_init_failed))
      ⊎ ((c : Client (World D F)) × (w' : World D F) × (setup board new_client w ≡ ok (ready c w'))
          × IsServing board c
          × (calibrating board w'.imu ≡ false))

  configured-Started :
      (w : World D F) (imu : Imu F) (d : D)
      → calibrating board imu ≡ false
      → begun board w ≡ ok (configure board imu d)
      → Started w
  configured-Started w imu d off e = elim (Bool-cases (configure board imu d).0) [
    | inr failed ↦ inl (
        setup_failed board w (configure board imu d).1 (configure board imu d).2
          (e ∙ ap (λ b. ok (b, (configure board imu d).1, (configure board imu d).2)) failed))
    | inl succeeded ↦ inr (
      record new_client { command_handlers = registered board },
      _,
      setup_done board w (configure board imu d).1 (configure board imu d).2
          (e ∙ ap (λ b. ok (b, (configure board imu d).1, (configure board imu d).2)) succeeded),
      record { bytes = []; holds = empty_buffer-Holds; handlers = refl },
      stop_kept board sh2 (configure board imu d).2 (configure board imu d).1
          (configure-calibrating board sh2 imu d ∙ off),
    )
  ]

  setup-Started :
      (w : World D F)
      → default_timeout_ms + slack ≤ 2 ^ 32
      → calibrating board w.imu ≡ false
      → Started w
  setup-Started w room off =
      elim (begin-Ended board bno08x_addr bno08x_int_pin bno08x_rst_pin slack default_timeout_ms
        clock default_report_period_ms default_gyro_stale_ms w.imu w.device room (omega arith)) [
          | inl (d', e, late) ↦ inl (setup_failed board w d' _ e)
          | inr (d', e, answered, early) ↦
              configured-Started w
                (record w.imu {
                  report_period_ms = default_report_period_ms;
                  gyro_stale_ms = default_gyro_stale_ms;
                })
                (board.begin_device bno08x_addr bno08x_int_pin bno08x_rst_pin d').1
                (unfold calibrating in off) e
        ]

  -- With a clock of milliseconds of which a try at the sensor takes so little that the timeout and a try fit
  -- into 32 bits, the bits of sh2.h, floats of four bytes and a sensor that is not calibrating,
  -- `setup` of a new client comes to an end: it goes into `error_loop`, or it leaves a client with the three
  -- handlers and a sensor that is not calibrating, and from there any number of calls of `loop`, whatever
  -- bytes arrive between them, all return without leaving an array, and keep the handlers.
  pub setup-loop_all :
      (float_bytes : F → List ℕ) (w : World D F) (arrivals : List (List ℕ)) (stream : Stream)
      → ((x : F) → length (float_bytes x) ≡ 4)
      → default_timeout_ms + slack ≤ 2 ^ 32
      → calibrating board w.imu ≡ false
      → (setup board new_client w ≡ ok (error_loop imu_init_failed))
        ⊎ ((c c' : Client (World D F)) × (stream' : Stream) × (w₁ w₂ : World D F) × (setup board
                new_client w
              ≡ ok (ready c w₁))
            × (calibrating board w₁.imu ≡ false)
            × (loop_all board float_bytes arrivals c stream w₁ ≡ ok (c', stream', w₂))
            × IsServing board c')
  setup-loop_all float_bytes w arrivals stream four room off = elim (setup-Started w room off) [
    | inl failed ↦ inl failed
    | inr (c, w₁, e, serving, idle) ↦
        let (c', stream', w₂, e', serving') =
          loop_all-IsServing board float_bytes four arrivals c stream w₁ serving in
        inr (c, c', stream', w₁, w₂, e, idle, e', serving')
  ]
