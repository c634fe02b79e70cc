-- ===== src/Host/Node/Messages.antt =====
-- About the messages that the callbacks of modules/autonomy_pi/ros/autonomy_teensy/src/driver.cpp make.
use rdml_blue_rov2_deploymen.Common.{
  ℕ, ◌+◌, ◌≡◌, refl, ap, subst, ◌∙◌, arith, List, [], ◌∷◌, ◌++◌, append-nil, length, length-append,
  take-append, drop-append, ok, le→ltb_false, not, bit_and, ◌==◌,
}
use rdml_blue_rov2_deploymen.Host.Packet.{Packet, pop_front}
use rdml_blue_rov2_deploymen.Host.Node.{
  Ros, Params, ImuMessage, CalibrationStatus, pop_float, pop_double, pop_byte, imu_message,
  calibration_status,
}

abbrev pub with_payload : Packet → List ℕ → Packet
with_payload packet bytes = record packet { payload = bytes }

-- Variances on the diagonal of a three by three matrix.
abbrev pub diagonal : {G : Type 0} → G → G → G → G → List G
diagonal zero a b c = a ∷ zero ∷ zero ∷ zero ∷ b ∷ zero ∷ zero ∷ zero ∷ c ∷ []

-- Any payload of four bytes or more has a first float.
split_four :
    (bytes : List ℕ) (n : ℕ)
    → length bytes ≡ 4 + n
    → (block : List ℕ) × (rest : List ℕ) × (bytes ≡ block ++ rest)
      × (length block ≡ 4)
      × (length rest ≡ n)
split_four [] n h = absurd (omega arith)
split_four (a ∷ []) n h = absurd (omega arith)
split_four (a ∷ b ∷ []) n h = absurd (omega arith)
split_four (a ∷ b ∷ c ∷ []) n h = absurd (omega arith)
split_four (a ∷ b ∷ c ∷ d ∷ rest) n h = (a ∷ b ∷ c ∷ d ∷ [], rest, refl, refl, omega arith)

split_nine :
    (bytes : List ℕ)
    → length bytes ≡ 9
    → (a b c d e : ℕ) × (rest : List ℕ) × (bytes ≡ a ∷ b ∷ c ∷ d ∷ e ∷ rest) × (length rest ≡ 4)
split_nine (a ∷ b ∷ c ∷ d ∷ e ∷ rest) h = (a, b, c, d, e, rest, refl, omega arith)
split_nine _ h = absurd (omega arith)

module _ {C S F G : Type 0} (ros : Ros C S F G) (packet : Packet) where
  pop_front-append :
      (block rest : List ℕ)
      → pop_front (length block) (with_payload packet (block ++ rest))
        ≡ ok (block, with_payload packet rest)
  unfolding pop_front
  pop_front-append block rest = rw (
    le→ltb_false (length (block ++ rest)) (length block) (omega (arith, length-append block rest)),
    take-append,
    drop-append,
  )

  pop_float-append :
      (block rest : List ℕ)
      → length block ≡ 4
      → pop_float ros (with_payload packet (block ++ rest))
        ≡ ok (ros.float_of block, with_payload packet rest)
  unfolding pop_float
  pop_float-append block rest h = rw (
      subst
        (λ n.
          pop_front n (with_payload packet (block ++ rest)) ≡ ok (block, with_payload packet rest))
        h (pop_front-append block rest))

  pub pop_double-append :
      (block rest : List ℕ)
      → length block ≡ 4
      → pop_double ros (with_payload packet (block ++ rest))
        ≡ ok (ros.to_double (ros.float_of block), with_payload packet rest)
  unfolding pop_double
  pop_double-append block rest h = rw (pop_float-append block rest h)

  pop_byte-cons :
      (byte : ℕ) (rest : List ℕ)
      → pop_byte ros (with_payload packet (byte ∷ rest)) ≡ ok (byte, with_payload packet rest)
  unfolding pop_byte
  pop_byte-cons byte rest = rw (pop_front-append (byte ∷ []) rest)

  pop_double_total :
      (bytes : List ℕ) (n : ℕ)
      → length bytes ≡ 4 + n
      → (x : G) × (rest : List ℕ) × (pop_double ros (with_payload packet bytes)
          ≡ ok (x, with_payload packet rest))
        × (length rest ≡ n)
  pop_double_total bytes n h =
      let (block, rest, e, four, left) = split_four bytes n h in
      (ros.to_double (ros.float_of block), rest, rw e (pop_double-append block rest four), left)

  -- Forty bytes are ten floats.
  pub imu_message_total :
      (stamp : S) (params : Params G) (bytes : List ℕ) (a b c d e f g h i : G)
      → length bytes ≡ 40
      → params.orientation_variances ≡ a ∷ b ∷ c ∷ []
      → params.angular_velocity_variances ≡ d ∷ e ∷ f ∷ []
      → params.linear_acceleration_variances ≡ g ∷ h ∷ i ∷ []
      → (msg : ImuMessage S G) × (imu_message ros stamp params (with_payload packet bytes) ≡ ok msg)
  unfolding imu_message
  imu_message_total stamp params bytes a b c d e f g h i size v₁ v₂ v₃ =
      let (qx, r₁, e₁, s₁) = pop_double_total bytes 36 size in
      let (qy, r₂, e₂, s₂) = pop_double_total r₁ 32 s₁ in
      let (qz, r₃, e₃, s₃) = pop_double_total r₂ 28 s₂ in
      let (qw, r₄, e₄, s₄) = pop_double_total r₃ 24 s₃ in
      let (gx, r₅, e₅, s₅) = pop_double_total r₄ 20 s₄ in
      let (gy, r₆, e₆, s₆) = pop_double_total r₅ 16 s₅ in
      let (gz, r₇, e₇, s₇) = pop_double_total r₆ 12 s₆ in
      let (ax, r₈, e₈, s₈) = pop_double_total r₇ 8 s₇ in
      let (ay, r₉, e₉, s₉) = pop_double_total r₈ 4 s₈ in
      let (az, r₁₀, e₁₀, s₁₀) = pop_double_total r₉ 0 s₉ in
      (
        record {
          imu_stamp = stamp;
          imu_frame_id = params.frame_id;
          orientation = (qx, qy, qz, qw);
          angular_velocity = (gx, gy, gz);
          linear_acceleration = (ax, ay, az);
          orientation_covariance = diagonal ros.zero_double a b c;
          angular_velocity_covariance = diagonal ros.zero_double d e f;
          linear_acceleration_covariance = diagonal ros.zero_double g h i;
        },
        rw (e₁, e₂, e₃, e₄, e₅, e₆, e₇, e₈, e₉, e₁₀, v₁, v₂, v₃) refl,
      )

  -- Nine bytes are five bytes and a float.
  pub calibration_status_lem :
      (stamp : S) (params : Params G)
      (accelerometer gyroscope magnetometer orientation cal_config : ℕ) (rad : List ℕ)
      → length rad ≡ 4
      → calibration_status ros stamp params (
          with_payload packet
            (accelerometer ∷ gyroscope ∷ magnetometer ∷ orientation ∷ cal_config ∷ rad))
        ≡ ok (record {
          status_stamp = stamp;
          status_frame_id = params.frame_id;
          accelerometer_accuracy = accelerometer;
          gyroscope_accuracy = gyroscope;
          magnetometer_accuracy = magnetometer;
          orientation_accuracy = orientation;
          accelerometer_calibration_enabled = not (bit_and cal_config 0x01 == 0);
          gyroscope_calibration_enabled = not (bit_and cal_config 0x02 == 0);
          magnetometer_calibration_enabled = not (bit_and cal_config 0x04 == 0);
          orientation_accuracy_rad = ros.float_of rad;
        })
  unfolding calibration_status
  calibration_status_lem stamp params accelerometer gyroscope magnetometer orientation cal_config
        rad four =
      rw (pop_byte-cons, pop_byte-cons, pop_byte-cons, pop_byte-cons, pop_byte-cons, last) refl
    where
      last : pop_float ros (with_payload packet rad) ≡ ok (ros.float_of rad, with_payload packet [])
      last = rw append-nil at (pop_float-append rad [] four)

  pub calibration_status_total :
      (stamp : S) (params : Params G) (bytes : List ℕ)
      → length bytes ≡ 9
      → (msg : CalibrationStatus S F) × (calibration_status ros stamp params
            (with_payload packet bytes)
          ≡ ok msg)
  calibration_status_total stamp params bytes h =
      let (a, b, c, d, e, rest, is, four) = split_nine bytes h in
      (
        _,
        ap (λ l. calibration_status ros stamp params (with_payload packet l)) is
            ∙ calibration_status_lem stamp params a b c d e rest four,
      )
