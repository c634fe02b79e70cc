-- ===== src/Link/Motion.antt =====
-- A sample from the firmware, send_sample of modules/teensy/src/main.cpp, to the message of the node,
-- src/driver.cpp of modules/autonomy_pi/ros/autonomy_teensy.
use rdml_blue_rov2_deploymen.Common.{
  ℕ, ◌≡◌, refl, ap, ◌∙◌, arith, true, some, List, [], ◌∷◌, ◌++◌, append-nil, append_assoc, All,
  All-append, IsByte, ok,
}
use rdml_blue_rov2_deploymen.Host.Packet.{Packet}
use rdml_blue_rov2_deploymen.Host.Packet.Frames.{parsed}
use rdml_blue_rov2_deploymen.Host.Packet.Resync.{streamed, IsBytes}
use rdml_blue_rov2_deploymen.Host.Client.{
  dispatch, find_callbacks, call_all, push_callback, register_callback, poll_connection,
}
use rdml_blue_rov2_deploymen.Host.Client.Chunks.{joined, rounds}
use rdml_blue_rov2_deploymen.Host.Node.{
  Ros, Params, ImuMessage, Node, pop_double, imu_message, on_imu_data, configured_client,
}
use rdml_blue_rov2_deploymen.Host.Node.Messages.{with_payload, diagonal, pop_double-append}
use rdml_blue_rov2_deploymen.Host.Node.Callbacks.{IsValid}
use rdml_blue_rov2_deploymen.Firmware.Ids.{imu_data, imu_01}
use rdml_blue_rov2_deploymen.Firmware.Client.Send.{send_bytes-frame}
use rdml_blue_rov2_deploymen.Firmware.Imu.{Board, Sample}
use rdml_blue_rov2_deploymen.Firmware.Main.{sample_bytes, send_sample}
use rdml_blue_rov2_deploymen.Firmware.Main.Total.{length-sample_bytes}
use rdml_blue_rov2_deploymen.Link.Delivery.{poll_connection-streamed}
use rdml_blue_rov2_deploymen.Link.Status.{IsFloat}

module _ {D C S F G : Type 0} (board : Board D F) (float_bytes : F → List ℕ) (ros : Ros C S F G)
    (float : IsFloat float_bytes ros.float_of) where
  abbrev pub sample_packet : Sample F → Packet
  sample_packet s = parsed imu_data imu_01 (sample_bytes board float_bytes s)

  -- What a message ought to say: the sample, and the variances on the diagonals.
  abbrev pub motion_of :
      (stamp : S) (params : Params G) → IsValid params → Sample F → ImuMessage S G
  motion_of stamp params v s = record {
    imu_stamp = stamp;
    imu_frame_id = params.frame_id;
    orientation = (ros.to_double s.qx, ros.to_double s.qy, ros.to_double s.qz, ros.to_double s.qw);
    angular_velocity = (ros.to_double s.gx, ros.to_double s.gy, ros.to_double s.gz);
    linear_acceleration = (ros.to_double s.ax, ros.to_double s.ay, ros.to_double s.az);
    orientation_covariance = diagonal ros.zero_double v.v₁ v.v₂ v.v₃;
    angular_velocity_covariance = diagonal ros.zero_double v.w₁ v.w₂ v.w₃;
    linear_acceleration_covariance = diagonal ros.zero_double v.a₁ v.a₂ v.a₃;
  }

  -- A float at the front of a payload.
  pop_double-float :
      (packet : Packet) (x : F) (rest : List ℕ)
      → pop_double ros (with_payload packet (float_bytes x ++ rest))
        ≡ ok (ros.to_double x, with_payload packet rest)
  pop_double-float packet x rest =
      rw float.back at (pop_double-append ros packet (float_bytes x) rest (float.four x))

  pop_double-last :
      (packet : Packet) (x : F)
      → pop_double ros (with_payload packet (float_bytes x))
        ≡ ok (ros.to_double x, with_payload packet [])
  pop_double-last packet x = rw append-nil at (pop_double-float packet x [])

  abbrev packed : Sample F → List ℕ
  packed s =
      float_bytes s.qx
      ++ (float_bytes s.qy
          ++ (float_bytes s.qz
              ++ (float_bytes s.qw
                  ++ (float_bytes s.gx
                      ++ (float_bytes s.gy
                          ++ (float_bytes s.gz
                              ++ (float_bytes s.ax ++ (float_bytes s.ay ++ float_bytes s.az))))))))

  sample_bytes-packed : (s : Sample F) → sample_bytes board float_bytes s ≡ packed s
  unfolding sample_bytes
  sample_bytes-packed s = simp append_assoc

  imu_message-sample :
      (stamp : S) (params : Params G) (v : IsValid params) (s : Sample F)
      → imu_message ros stamp params (sample_packet s) ≡ ok (motion_of stamp params v s)
  unfolding imu_message
  imu_message-sample stamp params v s = rw (sample_bytes-packed s) (
      rw
        (
          pop_double-float packet s.qx,
          pop_double-float packet s.qy,
          pop_double-float packet s.qz,
          pop_double-float packet s.qw,
          pop_double-float packet s.gx,
          pop_double-float packet s.gy,
          pop_double-float packet s.gz,
          pop_double-float packet s.ax,
          pop_double-float packet s.ay,
          pop_double-last packet s.az,
          v.three_orientation,
          v.three_angular_velocity,
          v.three_linear_acceleration,
        )
        refl)
    where
      packet : Packet
      packet = sample_packet s

  abbrev pub with_motion : (n : Node C S F G) → IsValid n.params → Sample F → Node C S F G
  with_motion n v s = record n {
    clock = (ros.now n.clock).1;
    imu_messages = n.imu_messages ++ (motion_of (ros.now n.clock).0 n.params v s ∷ []);
  }

  on_imu_data-sample :
      (s : Sample F) (n : Node C S F G) (v : IsValid n.params)
      → n.imu_pub ≡ some true
      → on_imu_data ros (sample_packet s) n ≡ ok (with_motion n v s)
  unfolding on_imu_data
  on_imu_data-sample s n v h =
      rw
        (
          h,
          length-sample_bytes board float_bytes float.four s,
          imu_message-sample (ros.now n.clock).0 n.params v s,
        )
        refl

  dispatch-sample :
      (s : Sample F) (n : Node C S F G) (v : IsValid n.params)
      → n.imu_pub ≡ some true
      → dispatch (configured_client ros) (sample_packet s) (ok n) ≡ ok (with_motion n v s)
  unfolding dispatch find_callbacks call_all configured_client register_callback push_callback
  dispatch-sample s n v h = on_imu_data-sample s n v h

  All-floats : (x : F) (rest : List ℕ) → All IsByte rest → All IsByte (float_bytes x ++ rest)
  All-floats x rest h = All-append IsByte (float_bytes x) rest (float.bytes x) h

  sample-IsBytes : (s : Sample F) → IsBytes (sample_packet s)
  sample-IsBytes s = (
    omega arith,
    omega arith,
    rw (sample_bytes-packed s) (
        All-floats s.qx _ (
          All-floats s.qy _ (
            All-floats s.qz _ (
              All-floats s.qw _ (
                All-floats s.gx _ (
                  All-floats s.gy _ (
                    All-floats s.gz _
                      (All-floats s.ax _ (All-floats s.ay _ (float.bytes s.az)))))))))),
  )

  -- Where a float has four bytes and comes back from them: what `send_sample` writes for a sample is one
  -- frame, and when its bytes arrive in any chunks at a client that is at the beginning of a frame, with the
  -- callbacks of `on_configure`, the publisher activated and valid parameters, the node publishes one message.
  -- It has the ten numbers of the sample, each in its place and as a double, and the three variances of each
  -- kind on the diagonal of a matrix of zeros; nothing else of the node changes but the clock.
  pub send_sample-published :
      (s : Sample F) (input : List ℕ) (chunks : List (List ℕ)) (n : Node C S F G)
      (v : IsValid n.params)
      → joined chunks ≡ streamed (sample_packet s ∷ [])
      → n.imu_pub ≡ some true
      → (send_sample board float_bytes (record { input = input; output = [] }) (some s)
          ≡ ok (record { input = input; output = joined chunks }))
        × (poll_connection (rounds chunks) (configured_client ros) (ok n)
            ≡ ok (configured_client ros, ok (with_motion n v s)))
  unfolding send_sample configured_client register_callback
  send_sample-published s input chunks n v e active = (
    rw
        (
          e,
          send_bytes-frame imu_data imu_01 (sample_bytes board float_bytes s)
              (record { input = input; output = [] })
              (omega (arith, length-sample_bytes board float_bytes float.four s)),
        )
        refl,
    poll_connection-streamed (configured_client ros) (ok n) (sample_packet s) chunks
          (sample-IsBytes s) e
        ∙ ap (λ r. ok (configured_client ros, r)) (dispatch-sample s n v active),
  )
