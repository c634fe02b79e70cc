-- ===== src/Firmware/Imu/Newest.antt =====
-- About what the samples that read of modules/teensy/lib/bno085/bno085.cpp returns are made of.
pub mod Kept
use rdml_blue_rov2_deploymen.Common.{
  ℕ, ◌+◌, ◌-◌, ◌%◌, ◌^◌, ◌≡◌, refl, ap, ◌∙◌, arith, Bool, true, false, not, ◌&&◌, ◌||◌, Bool-cases,
  inl, inr, ◌⊎◌, Option, none, some, List, [], ◌∷◌, ltb, ◌==◌, if◌then◌else◌,
}
use rdml_blue_rov2_deploymen.Firmware.Imu.{
  Board, Imu, Sample, normalize_quat, take_event, take_sample, read,
}
use rdml_blue_rov2_deploymen.Firmware.Imu.Reading.{fetches, returned}

-- The identifiers of the events as sh2.h has them.
pub record HasIds {D F : Type 0} (board : Board D F) : Type 0 where
  pub accelerometer : board.sh2_accelerometer ≡ 0x01
  pub gyroscope : board.sh2_gyroscope_calibrated ≡ 0x02
  pub magnetic_field : board.sh2_magnetic_field_calibrated ≡ 0x03
  pub rotation_vector : board.sh2_rotation_vector ≡ 0x05

abbrev pub or_else : {A : Type 0} → Option A → Option A → Option A
or_else (some a) o = some a
or_else none o = o

-- The newest of the events behind a row of states of the device, the newest state first.
abbrev pub newest : {A D : Type 0} → (D → Option A) → List D → Option A
newest event [] = none
newest event (d ∷ h) = or_else (event d) (newest event h)

-- No event of a kind since the last sample, or since the beginning, where `sampled` tells of a row of calls whether
-- the newest of them has returned a sample.
pub data Unread {A D : Type 0} (sampled : List D → Bool) (event : D → Option A)
    : List D → Type 0 where
  start : Unread sampled event []
  skipped :
      {d : D} {h : List D} → event d ≡ none → Unread sampled event h → Unread sampled event (d ∷ h)
  taken : {d : D} {h : List D} → sampled (d ∷ h) ≡ true → Unread sampled event (d ∷ h)

module _ {D F : Type 0} (board : Board D F) where
  abbrev pub at_event : D → D
  at_event d = (board.get_sensor_event d).1

  -- The reading that a call of `read` fetches, if it is of that kind.
  abbrev pub accel_event : D → Option (F × F × F)
  accel_event d =
      if fetches board board.sh2_accelerometer d then some (board.accel (at_event d)) else none

  -- An angular velocity comes with the time at which it was fetched.
  abbrev pub gyro_event : D → Option ((F × F × F) × ℕ)
  gyro_event d =
      if fetches board board.sh2_gyroscope_calibrated d
      then some (board.gyro (at_event d), (board.millis (at_event d)).0)
      else none

  -- The time that the clock shows once a call has looked at its event: an angular velocity has it read once.
  abbrev pub time_after : D → ℕ
  time_after d =
      if fetches board board.sh2_gyroscope_calibrated d
      then (board.millis (board.millis (at_event d)).1).0
      else (board.millis (at_event d)).0

  -- Whether more than `limit` milliseconds lie between two times that the clock shows.
  abbrev pub too_old : ℕ → ℕ → ℕ → Bool
  too_old limit now time = ltb limit ((now + 2 ^ 32 - time) % 2 ^ 32)

  -- What is held against an angular velocity: none has been fetched, or the clock showed at one of the calls,
  -- the one that fetched it or a later one, that it was too old.
  pub data Expired (limit : ℕ) : List D → Type 0 where
    unfetched : {h : List D} → newest gyro_event h ≡ none → Expired limit h
    old :
        {d : D} {h : List D} {g : F × F × F} {time : ℕ}
        → newest gyro_event (d ∷ h) ≡ some (g, time)
        → too_old limit (time_after d) time ≡ true
        → Expired limit (d ∷ h)
    still : {d : D} {h : List D} → gyro_event d ≡ none → Expired limit h → Expired limit (d ∷ h)

  abbrev pub quat_event : D → Option (F × F × F × F)
  quat_event d =
      if fetches board board.sh2_rotation_vector d
      then some (normalize_quat board (board.quat (at_event d)))
      else none

  abbrev pub zeros : F × F × F
  zeros = (board.zero_float, board.zero_float, board.zero_float)

  abbrev accel_of : Sample F → F × F × F
  accel_of s = (s.ax, s.ay, s.az)

  abbrev gyro_of : Sample F → F × F × F
  gyro_of s = (s.gx, s.gy, s.gz)

  abbrev quat_of : Sample F → F × F × F × F
  quat_of s = (s.qx, s.qy, s.qz, s.qw)

  -- The angular velocity that is held is the newest one with its time, or zero for a reason.
  abbrev pub Gyro : ℕ → List D → F × F × F → ℕ → Type 0
  Gyro limit h g time = (newest gyro_event h ≡ some (g, time)) ⊎ ((g ≡ zeros) × Expired limit h)

  -- What the members hold behind a row of calls.
  pub record Tracks (limit : ℕ) (sampled : List D → Bool) (h : List D) (imu : Imu F) : Type 0 where
    pub gyro_stale_ms : imu.gyro_stale_ms ≡ limit
    pub accel : (imu.have_accel ≡ false) ⊎ (newest accel_event h ≡ some (accel_of imu.sample))
    pub quat : (imu.have_quat ≡ false) ⊎ (newest quat_event h ≡ some (quat_of imu.sample))
    pub accel_unread : (imu.have_accel ≡ true) ⊎ Unread sampled accel_event h
    pub quat_unread : (imu.have_quat ≡ true) ⊎ Unread sampled quat_event h
    pub gyro : Gyro limit h (gyro_of imu.sample) imu.last_gyro_ms
    pub time :
        (newest gyro_event h ≡ none)
        ⊎ ((g : F × F × F) × (newest gyro_event h ≡ some (g, imu.last_gyro_ms)))

  -- The part of `read` that fetches an event.
  abbrev pub after_event : Imu F → D → D × Imu F
  after_event imu d =
      if (board.get_sensor_event d).0 then take_event board imu (at_event d) else (at_event d, imu)

  -- The members behind a row of calls of `read`, the newest call first.
  abbrev pub after : List D → Imu F → Imu F
  after [] imu = imu
  after (d ∷ h) imu = (read board (after h imu) d).2

  -- Whether the newest call has returned a sample.
  abbrev pub sampled : Imu F → List D → Bool
  sampled imu [] = false
  sampled imu (d ∷ h) = returned (read board (after h imu) d).0

  -- What the call on `d` returns, behind those on `h`: nothing, while a reading of one of the two kinds is
  -- missing; or the newest readings, but for an angular velocity that is too old.
  abbrev pub IsNewest : ℕ → (List D → Bool) → List D → D → Option (Sample F) → Type 0
  IsNewest limit sampled h d none =
      Unread sampled accel_event (d ∷ h) ⊎ Unread sampled quat_event (d ∷ h)
  IsNewest limit sampled h d (some s) =
      (newest accel_event (d ∷ h) ≡ some (accel_of s))
      × (newest quat_event (d ∷ h) ≡ some (quat_of s))
      × (((time : ℕ) × (newest gyro_event (d ∷ h) ≡ some (gyro_of s, time))
            × (too_old limit (time_after d) time ≡ false))
          ⊎ ((gyro_of s ≡ zeros) × Expired limit (d ∷ h)))

  settled :
      {A : Type 0} {have : Bool} {x y : Option A} → have ≡ true → (have ≡ false) ⊎ (x ≡ y) → x ≡ y
  settled h (inl e) = cc
  settled h (inr e) = e

  fresh-Gyro :
      (limit : ℕ) (h : List D) (d : D) (g : F × F × F) (time : ℕ)
      → too_old limit (time_after d) time ≡ false
      → Gyro limit (d ∷ h) g time
      → ((time : ℕ) × (newest gyro_event (d ∷ h) ≡ some (g, time))
          × (too_old limit (time_after d) time ≡ false))
        ⊎ ((g ≡ zeros) × Expired limit (d ∷ h))
  fresh-Gyro limit h d g time fresh (inl e) = inl (time, e, fresh)
  fresh-Gyro limit h d g time fresh (inr e) = inr e

  stale_gyro :
      (limit : ℕ) (h : List D) (d : D) (time : ℕ)
      → too_old limit (time_after d) time ≡ true
      → (newest gyro_event (d ∷ h) ≡ none)
        ⊎ ((g : F × F × F) × (newest gyro_event (d ∷ h) ≡ some (g, time)))
      → Expired limit (d ∷ h)
  stale_gyro limit h d time stale (inl e) = Expired.unfetched e
  stale_gyro limit h d time stale (inr (g, e)) = Expired.old e stale

  unread : {have : Bool} {U : Type 0} → have ≡ false → (have ≡ true) ⊎ U → U
  unread h (inl e) = cc
  unread h (inr u) = u

  take_sample-returned :
      (imu : Imu F) (d : D)
      → imu.have_accel ≡ true
      → imu.have_quat ≡ true
      → returned (take_sample board imu d).0 ≡ true
  unfolding take_sample
  take_sample-returned imu d accel quat =
      elim (Bool-cases (too_old imu.gyro_stale_ms (board.millis d).0 imu.last_gyro_ms)) [
        | inl stale ↦ rw (accel, quat, stale) refl
        | inr fresh ↦ rw (accel, quat, fresh) refl
      ]

  take_sample_none :
      (imu : Imu F) (d : D)
      → not imu.have_accel || not imu.have_quat ≡ true
      → take_sample board imu d ≡ (none, d, imu)
  unfolding take_sample
  take_sample_none imu d h = simp (h, take_sample)

  -- `at` is the device behind the event of the call on `d`.
  pub take_sample-IsNewest :
      (limit : ℕ) (sampled : List D → Bool) (h : List D) (d : D) (imu : Imu F) (at : D)
      → (board.millis at).0 ≡ time_after d
      → sampled (d ∷ h) ≡ returned (take_sample board imu at).0
      → Tracks limit sampled (d ∷ h) imu
      → IsNewest limit sampled h d (take_sample board imu at).0
        × Tracks limit sampled (d ∷ h) (take_sample board imu at).2
  unfolding take_sample
  take_sample-IsNewest limit sampled h d imu at now s t = elim (Bool-cases imu.have_accel) [
    | inr no_accel ↦
        rw (take_sample_none imu at (rw no_accel)) (inl (unread no_accel t.accel_unread), t)
    | inl accel ↦ elim (Bool-cases imu.have_quat) [
      | inr no_quat ↦
          rw (take_sample_none imu at (rw (accel, no_quat))) (inr (unread no_quat t.quat_unread), t)
      | inl quat ↦ elim (Bool-cases (too_old limit (time_after d) imu.last_gyro_ms)) [
        | inl stale ↦
            let gone = stale_gyro limit h d imu.last_gyro_ms stale t.time in
            rw (accel, quat, now, t.gyro_stale_ms, stale)
              (
                (settled accel t.accel, settled quat t.quat, inr (refl, gone)),
                record {
                  gyro_stale_ms = refl;
                  accel = inl refl;
                  quat = inl refl;
                  accel_unread = inr (Unread.taken (s ∙ take_sample-returned imu at accel quat));
                  quat_unread = inr (Unread.taken (s ∙ take_sample-returned imu at accel quat));
                  gyro = inr (refl, gone);
                  time = t.time;
                },
              )
        | inr fresh ↦
            rw (accel, quat, now, t.gyro_stale_ms, fresh)
              (
                (
                  settled accel t.accel,
                  settled quat t.quat,
                  fresh-Gyro limit h d (gyro_of imu.sample) imu.last_gyro_ms fresh t.gyro,
                ),
                record {
                  gyro_stale_ms = refl;
                  accel = inl refl;
                  quat = inl refl;
                  accel_unread = inr (Unread.taken (s ∙ take_sample-returned imu at accel quat));
                  quat_unread = inr (Unread.taken (s ∙ take_sample-returned imu at accel quat));
                  gyro = t.gyro;
                  time = t.time;
                },
              )
      ]
    ]
  ]
