-- ===== src/Firmware/Imu/Begin/Ends.antt =====
-- About begin of modules/teensy/lib/bno085/bno085.cpp: how its loop ends.
use rdml_blue_rov2_deploymen.Common.{
  ℕ, zero, suc, ◌+◌, ◌%◌, ◌^◌, ◌≤◌, ◌<◌, ◌≡◌, refl, sym, subst, arith, Bool, true, false,
  Bool-cases, inl, inr, ◌⊎◌, ltb, ltb→lt, ltb_false→le, Result, ok,
}
use rdml_blue_rov2_deploymen.Firmware.Cobs.{Failure}
use rdml_blue_rov2_deploymen.Firmware.Imu.{Board, Imu, configure}
use rdml_blue_rov2_deploymen.Firmware.Imu.Begin.{since, begin_loop, begin}

-- A clock of milliseconds, without wrap-around, that `millis` shows modulo 2 ^ 32. No call sets it back,
-- `delay` lets at least its time pass, and reading it or a try at the sensor with the wait behind it takes at
-- most `slack`.
pub record HasClock {D F : Type 0} (board : Board D F) (address int_pin rst_pin slack : ℕ)
    : Type 0 where
  pub time : D → ℕ
  pub shows : (d : D) → (board.millis d).0 ≡ time (board.millis d).1 % 2 ^ 32
  pub millis_later : (d : D) → time d ≤ time (board.millis d).1
  pub delay_later : (ms : ℕ) (d : D) → time d + ms ≤ time (board.delay ms d)
  pub begin_later : (d : D) → time d ≤ time (board.begin_device address int_pin rst_pin d).1
  pub millis_soon : (d : D) → time (board.millis d).1 ≤ time d + slack
  pub try_soon :
      (d : D)
      → time (board.millis (board.delay 100 (board.begin_device address int_pin rst_pin d).1)).1
        ≤ time d + slack

since_lem : (t₀ t : ℕ) → t₀ ≤ t → t < t₀ + 2 ^ 32 → t₀ + since (t₀ % 2 ^ 32) (t % 2 ^ 32) ≡ t
since_lem t₀ t le lt = omega arith

module _ {D F : Type 0} (board : Board D F) (address int_pin rst_pin slack timeout_ms : ℕ)
    (clock : HasClock board address int_pin rst_pin slack) where
  -- The time that has come when the loop looks at the clock in the state `d`.
  abbrev seen : D → ℕ
  seen d = clock.time (board.millis d).1

  -- The loop gives up once the time is over, or the sensor answers before that.
  abbrev pub Ended : ℕ → Imu F → Result Failure (Bool × D × Imu F) → Type 0
  Ended t₀ imu r =
      ((d' : D) × (r ≡ ok (false, d', imu)) × (t₀ + timeout_ms ≤ clock.time d'))
      ⊎ ((d' : D) × (r ≡ ok (configure board imu (board.begin_device address int_pin rst_pin d').1))
          × ((board.begin_device address int_pin rst_pin d').0 ≡ true)
          × (clock.time d' < t₀ + timeout_ms))

  abbrev tried : D → D
  tried d = (board.begin_device address int_pin rst_pin (board.millis d).1).1

  abbrev answers : D → Bool
  answers d = (board.begin_device address int_pin rst_pin (board.millis d).1).0

  round_over :
      (fuel start : ℕ) (imu : Imu F) (d : D)
      → ltb (since start (board.millis d).0) timeout_ms ≡ false
      → begin_loop board address int_pin rst_pin (suc fuel) start timeout_ms imu d
        ≡ ok (false, (board.millis d).1, imu)
  unfolding begin_loop
  round_over fuel start imu d over = rw (over, begin_loop) refl

  round_begun :
      (fuel start : ℕ) (imu : Imu F) (d : D)
      → ltb (since start (board.millis d).0) timeout_ms ≡ true
      → answers d ≡ true
      → begin_loop board address int_pin rst_pin (suc fuel) start timeout_ms imu d
        ≡ ok (configure board imu (tried d))
  unfolding begin_loop
  round_begun fuel start imu d early begun = rw (early, begin_loop, begun) refl

  round_refused :
      (fuel start : ℕ) (imu : Imu F) (d : D)
      → ltb (since start (board.millis d).0) timeout_ms ≡ true
      → answers d ≡ false
      → begin_loop board address int_pin rst_pin (suc fuel) start timeout_ms imu d
        ≡ begin_loop board address int_pin rst_pin fuel start timeout_ms imu
            (board.delay 100 (tried d))
  unfolding begin_loop
  round_refused fuel start imu d early refused = rw (early, begin_loop, refused) refl

  -- What the test of the loop sees.
  test_lem :
      (t₀ : ℕ) (d : D)
      → t₀ ≤ clock.time d
      → seen d < t₀ + 2 ^ 32
      → t₀ + since (t₀ % 2 ^ 32) (board.millis d).0 ≡ seen d
  test_lem t₀ d le lt =
      rw clock.shows (since_lem t₀ (seen d) (omega (arith, clock.millis_later d)) lt)

  abbrev later : D → D
  later d = board.delay 100 (tried d)

  passed : (d : D) → clock.time d + 100 ≤ clock.time (later d)
  passed d = omega (
    arith,
    clock.millis_later d,
    clock.begin_later (board.millis d).1,
    clock.delay_later 100 (tried d),
  )

  -- One round, with the rounds behind it.
  round-Ended :
      (fuel t₀ : ℕ) (imu : Imu F) (d : D)
      → t₀ ≤ clock.time d
      → seen d < t₀ + 2 ^ 32
      → (seen d < t₀ + timeout_ms
          → Ended t₀ imu (
              begin_loop board address int_pin rst_pin fuel (t₀ % 2 ^ 32) timeout_ms imu (later d)))
      → Ended t₀ imu
          (begin_loop board address int_pin rst_pin (suc fuel) (t₀ % 2 ^ 32) timeout_ms imu d)
  round-Ended fuel t₀ imu d le lt behind =
      elim (Bool-cases (ltb (since (t₀ % 2 ^ 32) (board.millis d).0) timeout_ms)) [
        | inr over ↦ inl (
          (board.millis d).1,
          round_over fuel (t₀ % 2 ^ 32) imu d over,
          omega (
            arith,
            test_lem t₀ d le lt,
            ltb_false→le (since (t₀ % 2 ^ 32) (board.millis d).0) timeout_ms over,
          ),
        )
        | inl early ↦ elim (Bool-cases (answers d)) [
          | inl begun ↦ inr (
            (board.millis d).1,
            round_begun fuel (t₀ % 2 ^ 32) imu d early begun,
            begun,
            elapsed early,
          )
          | inr refused ↦
              subst (Ended t₀ imu) (sym (round_refused fuel (t₀ % 2 ^ 32) imu d early refused))
                (behind (elapsed early))
        ]
      ]
    where
      elapsed :
          ltb (since (t₀ % 2 ^ 32) (board.millis d).0) timeout_ms ≡ true → seen d < t₀ + timeout_ms
      elapsed early = omega (
        arith,
        test_lem t₀ d le lt,
        ltb→lt (since (t₀ % 2 ^ 32) (board.millis d).0) timeout_ms early,
      )

  begin_loop-Ended :
      (fuel t₀ : ℕ) (imu : Imu F) (d : D)
      → timeout_ms + slack ≤ 2 ^ 32
      → t₀ ≤ clock.time d
      → seen d < t₀ + 2 ^ 32
      → t₀ + timeout_ms ≤ fuel + clock.time d
      → Ended t₀ imu
          (begin_loop board address int_pin rst_pin (suc fuel) (t₀ % 2 ^ 32) timeout_ms imu d)
  begin_loop-Ended zero t₀ imu d room le lt enough =
      round-Ended zero t₀ imu d le lt (λ elapsed. absurd (omega (arith, clock.millis_later d)))
  begin_loop-Ended (suc fuel) t₀ imu d room le lt enough =
      round-Ended (suc fuel) t₀ imu d le lt (λ elapsed.
        begin_loop-Ended fuel t₀ imu (later d) room (omega (arith, passed d))
          (omega (arith, clock.try_soon (board.millis d).1)) (omega (arith, passed d)))

  -- `begin`, with a clock of milliseconds of which a try at the sensor takes so little that the timeout and a
  -- try fit into 32 bits, returns: either the sensor has answered before the timeout, and the result is that
  -- of `configure` with the periods that were asked for, or there is no success and at least the timeout has
  -- passed since `begin` has first looked at the clock.
  pub begin-Ended :
      (report_period_ms gyro_stale_ms : ℕ) (imu : Imu F) (d : D)
      → timeout_ms + slack ≤ 2 ^ 32
      → 1 ≤ timeout_ms
      → Ended
          (seen d)
          (record imu { report_period_ms = report_period_ms; gyro_stale_ms = gyro_stale_ms })
          (begin board address int_pin rst_pin report_period_ms gyro_stale_ms timeout_ms imu d)
  unfolding begin
  begin-Ended report_period_ms gyro_stale_ms imu d room some_time = rw clock.shows (
      begin_loop-Ended timeout_ms (seen d)
        (record imu { report_period_ms = report_period_ms; gyro_stale_ms = gyro_stale_ms })
        (board.millis d).1 room (omega arith) (omega (arith, clock.millis_soon (board.millis d).1))
        (omega arith))
