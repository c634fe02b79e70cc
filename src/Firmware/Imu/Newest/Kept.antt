-- ===== src/Firmware/Imu/Newest/Kept.antt =====
-- About rows of calls of read of modules/teensy/lib/bno085/bno085.cpp.
use rdml_blue_rov2_deploymen.Common.{
  ℕ, ◌≡◌, refl, arith, Bool, true, false, ◌||◌, Bool-cases, inl, inr, ◌⊎◌, Option, none, some, List,
  [], ◌∷◌, ◌==◌, if◌then◌else◌,
}
use rdml_blue_rov2_deploymen.Firmware.Imu.{Board, Imu, normalize_quat, take_event, read}
use rdml_blue_rov2_deploymen.Firmware.Imu.Reading.{returned}
use rdml_blue_rov2_deploymen.Firmware.Imu.Newest.{
  HasIds, or_else, newest, at_event, accel_event, gyro_event, quat_event, zeros, accel_of, gyro_of,
  quat_of, time_after, Gyro, Expired, Unread, sampled, Tracks, after_event, after, IsNewest,
  take_sample-IsNewest,
}

module _ {D F : Type 0} (board : Board D F) (ids : HasIds board) where
  take_event-accel :
      (imu : Imu F) (d : D)
      → accel_of board (take_event board imu d).1.sample ≡ (
          if board.sensor_event_id d == board.sh2_accelerometer
          then board.accel d
          else accel_of board imu.sample)
  unfolding take_event
  take_event-accel imu d = ground arith

  take_event-gyro :
      (imu : Imu F) (d : D)
      → gyro_of board (take_event board imu d).1.sample ≡ (
          if board.sensor_event_id d == board.sh2_gyroscope_calibrated
          then board.gyro d
          else gyro_of board imu.sample)
  unfolding take_event
  take_event-gyro imu d = ground (arith, ids.accelerometer, ids.gyroscope)

  take_event-quat :
      (imu : Imu F) (d : D)
      → quat_of board (take_event board imu d).1.sample ≡ (
          if board.sensor_event_id d == board.sh2_rotation_vector
          then normalize_quat board (board.quat d)
          else quat_of board imu.sample)
  unfolding take_event
  take_event-quat imu d =
      ground (arith, ids.accelerometer, ids.gyroscope, ids.magnetic_field, ids.rotation_vector)

  take_event-have_accel :
      (imu : Imu F) (d : D)
      → (take_event board imu d).1.have_accel
        ≡ board.sensor_event_id d == board.sh2_accelerometer || imu.have_accel
  unfolding take_event
  take_event-have_accel imu d =
      ground (arith, ids.accelerometer, ids.gyroscope, ids.magnetic_field, ids.rotation_vector)

  take_event-have_quat :
      (imu : Imu F) (d : D)
      → (take_event board imu d).1.have_quat
        ≡ board.sensor_event_id d == board.sh2_rotation_vector || imu.have_quat
  unfolding take_event
  take_event-have_quat imu d =
      ground (arith, ids.accelerometer, ids.gyroscope, ids.magnetic_field, ids.rotation_vector)

  -- A member, its flag and the events it comes from, when one more event is looked at.
  kept :
      {A : Type 0} (happened have : Bool) (new old : A) (before : Option A)
      → (have ≡ false) ⊎ (before ≡ some old)
      → (happened || have ≡ false)
        ⊎ (or_else (if happened then some new else none) before
            ≡ some (if happened then new else old))
  kept true have new old before h = inr refl
  kept false have new old before h = h

  take_event-last_gyro_ms :
      (imu : Imu F) (d : D)
      → (take_event board imu d).1.last_gyro_ms ≡ (
          if board.sensor_event_id d == board.sh2_gyroscope_calibrated
          then (board.millis d).0
          else imu.last_gyro_ms)
  unfolding take_event
  take_event-last_gyro_ms imu d = ground (arith, ids.accelerometer, ids.gyroscope)

  take_event-gyro_stale_ms :
      (imu : Imu F) (d : D) → (take_event board imu d).1.gyro_stale_ms ≡ imu.gyro_stale_ms
  unfolding take_event
  take_event-gyro_stale_ms imu d = ground arith

  take_event-device :
      (imu : Imu F) (d : D)
      → (take_event board imu d).0 ≡ (
          if board.sensor_event_id d == board.sh2_gyroscope_calibrated
          then (board.millis d).1
          else d)
  unfolding take_event
  take_event-device imu d = ground (arith, ids.accelerometer, ids.gyroscope)

  -- The clock behind the event, whatever the members were.
  after_event-time :
      (imu : Imu F) (d : D) → (board.millis (after_event board imu d).0).0 ≡ time_after board d
  after_event-time imu d = elim (Bool-cases (board.get_sensor_event d).0) [
    | inr nothing ↦ rw nothing refl
    | inl event ↦
        rw (event, take_event-device imu at)
          (elim (Bool-cases (board.sensor_event_id at == board.sh2_gyroscope_calibrated)) [
            | inl is_gyro ↦ rw is_gyro refl
            | inr other ↦ rw other refl
          ])
  ]
    where
      at : D
      at = at_event board d

  -- What is held of the angular velocity, when one more event is looked at.
  kept-Gyro :
      (limit : ℕ) (h : List D) (d : D) (happened : Bool) (new old : F × F × F) (now time : ℕ)
      → gyro_event board d ≡ (if happened then some (new, now) else none)
      → Gyro board limit h old time
      → Gyro board limit (d ∷ h) (if happened then new else old) (if happened then now else time)
  kept-Gyro limit h d true new old now time e g = inl (rw e refl)
  kept-Gyro limit h d false new old now time e (inl g) = inl (rw e g)
  kept-Gyro limit h d false new old now time e (inr (z, gone)) = inr (z, Expired.still e gone)

  kept_time :
      (h : List D) (d : D) (happened : Bool) (new : F × F × F) (now time : ℕ)
      → gyro_event board d ≡ (if happened then some (new, now) else none)
      → (newest (gyro_event board) h ≡ none)
        ⊎ ((g : F × F × F) × (newest (gyro_event board) h ≡ some (g, time)))
      → (newest (gyro_event board) (d ∷ h) ≡ none)
        ⊎ ((g : F × F × F) × (newest (gyro_event board) (d ∷ h)
              ≡ some (g, if happened then now else time)))
  kept_time h d true new now time e t = inr (new, rw e refl)
  kept_time h d false new now time e (inl t) = inl (rw e t)
  kept_time h d false new now time e (inr (g, t)) = inr (g, rw e t)

  kept_unread :
      {A : Type 0} (sampled : List D → Bool) (event : D → Option A) (h : List D) (d : D)
      (happened have : Bool) (new : A)
      → event d ≡ (if happened then some new else none)
      → (have ≡ true) ⊎ Unread sampled event h
      → (happened || have ≡ true) ⊎ Unread sampled event (d ∷ h)
  kept_unread sampled event h d true have new e u = inl refl
  kept_unread sampled event h d false have new e (inl u) = inl u
  kept_unread sampled event h d false have new e (inr u) = inr (Unread.skipped e u)

  after_event-Tracks :
      (limit : ℕ) (sampled : List D → Bool) (h : List D) (imu : Imu F) (d : D)
      → Tracks board limit sampled h imu
      → Tracks board limit sampled (d ∷ h) (after_event board imu d).1
  after_event-Tracks limit sampled h imu d t = elim (Bool-cases (board.get_sensor_event d).0) [
    | inr nothing ↦ rw nothing (record {
      gyro_stale_ms = t.gyro_stale_ms;
      accel = rw nothing t.accel;
      quat = rw nothing t.quat;
      accel_unread =
          kept_unread sampled (accel_event board) h d false imu.have_accel (board.accel at)
            (rw nothing refl) t.accel_unread;
      quat_unread =
          kept_unread sampled (quat_event board) h d false imu.have_quat
            (normalize_quat board (board.quat at)) (rw nothing refl) t.quat_unread;
      gyro =
          kept-Gyro limit h d false (board.gyro at) (gyro_of board imu.sample) 0 imu.last_gyro_ms
            (rw nothing refl) t.gyro;
      time = kept_time h d false (board.gyro at) 0 imu.last_gyro_ms (rw nothing refl) t.time;
    })
    | inl event ↦ record {
      gyro_stale_ms = rw (event, take_event-gyro_stale_ms imu at) t.gyro_stale_ms;
      accel =
          rw (event, take_event-accel imu at, take_event-have_accel imu at)
            (kept (board.sensor_event_id at == board.sh2_accelerometer) imu.have_accel
              (board.accel at) (accel_of board imu.sample) (newest (accel_event board) h) t.accel);
      quat =
          rw (event, take_event-quat imu at, take_event-have_quat imu at)
            (kept (board.sensor_event_id at == board.sh2_rotation_vector) imu.have_quat
              (normalize_quat board (board.quat at)) (quat_of board imu.sample)
              (newest (quat_event board) h) t.quat);
      accel_unread =
          rw (looked event, take_event-have_accel imu at)
            (kept_unread sampled (accel_event board) h d
              (board.sensor_event_id at == board.sh2_accelerometer) imu.have_accel (board.accel at)
              (rw event refl) t.accel_unread);
      quat_unread =
          rw (looked event, take_event-have_quat imu at)
            (kept_unread sampled (quat_event board) h d
              (board.sensor_event_id at == board.sh2_rotation_vector) imu.have_quat
              (normalize_quat board (board.quat at)) (rw event refl) t.quat_unread);
      gyro =
          rw (looked event, take_event-gyro imu at, take_event-last_gyro_ms imu at)
            (kept-Gyro limit h d is_gyro (board.gyro at) (gyro_of board imu.sample)
              (board.millis at).0 imu.last_gyro_ms (rw event refl) t.gyro);
      time =
          rw (looked event, take_event-last_gyro_ms imu at)
            (kept_time h d is_gyro (board.gyro at) (board.millis at).0 imu.last_gyro_ms
              (rw event refl) t.time);
    }
  ]
    where
      at : D
      at = at_event board d

      looked :
          (board.get_sensor_event d).0 ≡ true → after_event board imu d ≡ take_event board imu at
      looked e = rw e refl

      is_gyro : Bool
      is_gyro = board.sensor_event_id at == board.sh2_gyroscope_calibrated

  read-Tracks :
      (limit : ℕ) (sampled : List D → Bool) (h : List D) (imu : Imu F) (d : D)
      → sampled (d ∷ h) ≡ returned (read board imu d).0
      → Tracks board limit sampled h imu
      → IsNewest board limit sampled h d (read board imu d).0
        × Tracks board limit sampled (d ∷ h) (read board imu d).2
  unfolding read
  read-Tracks limit sampled h imu d s t =
      take_sample-IsNewest board limit sampled h d (after_event board imu d).1
        (after_event board imu d).0 (after_event-time imu d) s
        (after_event-Tracks limit sampled h imu d t)

  after-Tracks :
      (limit : ℕ) (h : List D) (imu : Imu F)
      → Tracks board limit (sampled board imu) [] imu
      → Tracks board limit (sampled board imu) h (after board h imu)
  after-Tracks limit [] imu t = t
  after-Tracks limit (d ∷ h) imu t =
      (read-Tracks limit (sampled board imu) h (after board h imu) d refl
        (after-Tracks limit h imu t)).1

  -- With the identifiers of sh2.h: after any row of calls of `read` from a state without readings, whatever
  -- happens to the device between them, a call returns nothing, and then no acceleration, or no rotation, has
  -- been fetched since the last sample; or it returns a sample with the newest acceleration and the newest
  -- rotation, normalized, that these calls have fetched. Its angular velocity is either the newest
  -- one that they have fetched, and the clock, read behind the call's event, shows that at most
  -- `gyro_stale_ms_` milliseconds have passed since the event that brought it; or it is zero, and then none
  -- has been fetched yet, or the clock showed at a call since that event that more had passed.
  pub read-IsNewest :
      (h : List D) (imu : Imu F) (d : D)
      → imu.have_accel ≡ false
      → imu.have_quat ≡ false
      → gyro_of board imu.sample ≡ zeros board
      → IsNewest board imu.gyro_stale_ms
          (sampled board imu)
          h
          d
          (read board (after board h imu) d).0
  read-IsNewest h imu d no_accel no_quat no_gyro =
      (read-Tracks imu.gyro_stale_ms (sampled board imu) h (after board h imu) d refl (
        after-Tracks imu.gyro_stale_ms h imu (record {
          gyro_stale_ms = refl;
          accel = inl no_accel;
          quat = inl no_quat;
          accel_unread = inr Unread.start;
          quat_unread = inr Unread.start;
          gyro = inr (no_gyro, Expired.unfetched refl);
          time = inl refl;
        }))).0
