-- ===== src/Firmware/Imu/Reading.antt =====
-- About the samples that read of modules/teensy/lib/bno085/bno085.cpp returns.
use native.Mathlib.Nat.{zero-add}
use rdml_blue_rov2_deploymen.Common.{count}
use rdml_blue_rov2_deploymen.Common.{
  ℕ, ◌+◌, ◌≤◌, arith, Bool, true, false, ◌&&◌, Bool-cases, inl, inr, Option, none, some, List, [],
  ◌∷◌, ◌==◌,
}
use rdml_blue_rov2_deploymen.Firmware.Imu.{Board, Imu, take_event, take_sample, read}

abbrev pub returned {ℓ} : {A : Type ℓ} → Option A → Bool
returned none = false
returned (some a) = true

module _ {D F : Type 0} (board : Board D F) where
  -- Whether a call of `read` fetches an event with that identifier.
  abbrev pub fetches : ℕ → D → Bool
  fetches id d =
      (board.get_sensor_event d).0 && (board.sensor_event_id (board.get_sensor_event d).1 == id)

  take_event-accel :
      (imu : Imu F) (d : D)
      → count (take_event board imu d).1.have_accel
        ≤ count (board.sensor_event_id d == board.sh2_accelerometer) + count imu.have_accel
  unfolding take_event
  take_event-accel imu d = ground arith

  take_event-quat :
      (imu : Imu F) (d : D)
      → count (take_event board imu d).1.have_quat
        ≤ count (board.sensor_event_id d == board.sh2_rotation_vector) + count imu.have_quat
  unfolding take_event
  take_event-quat imu d = ground arith

  take_sample-accel :
      (imu : Imu F) (d : D)
      → count (returned (take_sample board imu d).0) + count (take_sample board imu d).2.have_accel
        ≤ count imu.have_accel
  unfolding take_sample
  take_sample-accel imu d = ground arith

  take_sample-quat :
      (imu : Imu F) (d : D)
      → count (returned (take_sample board imu d).0) + count (take_sample board imu d).2.have_quat
        ≤ count imu.have_quat
  unfolding take_sample
  take_sample-quat imu d = ground arith

  -- One call of `read`.
  read-accel :
      (imu : Imu F) (d : D)
      → count (returned (read board imu d).0) + count (read board imu d).2.have_accel
        ≤ count (fetches board.sh2_accelerometer d) + count imu.have_accel
  unfolding read
  read-accel imu d = elim (Bool-cases (board.get_sensor_event d).0) [
    | inl event ↦ rw event (
        let (d₂, imu') = take_event board imu (board.get_sensor_event d).1 in
        omega (arith, take_sample-accel imu' d₂, take_event-accel imu (board.get_sensor_event d).1))
    | inr nothing ↦ rw (nothing, zero-add) (take_sample-accel imu (board.get_sensor_event d).1)
  ]

  read-quat :
      (imu : Imu F) (d : D)
      → count (returned (read board imu d).0) + count (read board imu d).2.have_quat
        ≤ count (fetches board.sh2_rotation_vector d) + count imu.have_quat
  unfolding read
  read-quat imu d = elim (Bool-cases (board.get_sensor_event d).0) [
    | inl event ↦ rw event (
        let (d₂, imu') = take_event board imu (board.get_sensor_event d).1 in
        omega (arith, take_sample-quat imu' d₂, take_event-quat imu (board.get_sensor_event d).1))
    | inr nothing ↦ rw (nothing, zero-add) (take_sample-quat imu (board.get_sensor_event d).1)
  ]

  -- The number of samples that a row of calls returns, each with the device in a state of its own.
  abbrev pub samples : List D → Imu F → ℕ
  samples [] imu = 0
  samples (d ∷ devices) imu =
      count (returned (read board imu d).0) + samples devices (read board imu d).2

  -- The number of those calls that fetch an event with that identifier.
  abbrev pub fetched : ℕ → List D → ℕ
  fetched id [] = 0
  fetched id (d ∷ devices) = count (fetches id d) + fetched id devices

  -- Any row of calls of `read`, with anything happening to the device between them, returns at most as many
  -- samples as it fetches readings of the accelerometer, and at most as many as it fetches rotation
  -- vectors, one more in either case if one of them was at hand before: no reading is used twice.
  pub samples_bound :
      (devices : List D) (imu : Imu F)
      → (samples devices imu ≤ fetched board.sh2_accelerometer devices + count imu.have_accel)
        × (samples devices imu ≤ fetched board.sh2_rotation_vector devices + count imu.have_quat)
  samples_bound [] imu = (omega arith, omega arith)
  samples_bound (d ∷ devices) imu =
      let (accel, quat) = samples_bound devices (read board imu d).2 in
      (omega (arith, accel, read-accel imu d), omega (arith, quat, read-quat imu d))
