-- ===== src/Host/Node/Callbacks.antt =====
-- About the callbacks of modules/autonomy_pi/ros/autonomy_teensy/src/driver.cpp on any packet.
use rdml_blue_rov2_deploymen.Common.{
  ◌≡◌, refl, Bool, true, false, Bool-cases, inl, inr, some, [], ◌∷◌, ◌++◌, length, ◌==◌, ==_iff, ok,
}
use rdml_blue_rov2_deploymen.Host.Ids.{imu_data, cal_status, command_response}
use rdml_blue_rov2_deploymen.Host.Packet.{Packet}
use rdml_blue_rov2_deploymen.Host.Client.{
  Client, dispatch, find_callbacks, call_all, push_callback, register_callback,
}
use rdml_blue_rov2_deploymen.Host.Node.{
  Ros, Params, Node, Outside, on_imu_data, on_cal_status, on_response, configured_client,
}
use rdml_blue_rov2_deploymen.Host.Node.Messages.{imu_message_total, calibration_status_total}

-- Parameters as teensy_driver_parameters.yaml has them validated: the variances are three.
pub record IsValid {G : Type 0} (params : Params G) : Type 0 where
  pub v₁ : G
  pub v₂ : G
  pub v₃ : G
  pub w₁ : G
  pub w₂ : G
  pub w₃ : G
  pub a₁ : G
  pub a₂ : G
  pub a₃ : G
  pub three_orientation : params.orientation_variances ≡ v₁ ∷ v₂ ∷ v₃ ∷ []
  pub three_angular_velocity : params.angular_velocity_variances ≡ w₁ ∷ w₂ ∷ w₃ ∷ []
  pub three_linear_acceleration : params.linear_acceleration_variances ≡ a₁ ∷ a₂ ∷ a₃ ∷ []

module _ {C S F G : Type 0} (ros : Ros C S F G) where
  -- A callback that returns, and leaves publishers and parameters as they are.
  abbrev pub Handles : Node C S F G → Outside C S F G → Type 0
  Handles n r =
      (n' : Node C S F G) × (r ≡ ok n')
      × (n'.imu_pub ≡ n.imu_pub)
      × (n'.calib_pub ≡ n.calib_pub)
      × (n'.params ≡ n.params)

  pub on_imu_data-Handles :
      (packet : Packet) (n : Node C S F G) (active : Bool)
      → n.imu_pub ≡ some active
      → IsValid n.params
      → Handles n (on_imu_data ros packet n)
  unfolding on_imu_data
  on_imu_data-Handles packet n false e v = (n, rw e refl, refl, refl, refl)
  on_imu_data-Handles packet n true e v = elim (Bool-cases (length packet.payload == 40)) [
    | inr other ↦ (n, rw (e, other) refl, refl, refl, refl)
    | inl size ↦
        let (stamp, clock) = ros.now n.clock in
        let (msg, made) =
          imu_message_total ros packet stamp n.params packet.payload v.v₁ v.v₂ v.v₃ v.w₁ v.w₂ v.w₃
            v.a₁ v.a₂ v.a₃ ((==_iff (length packet.payload) 40).0 size) v.three_orientation
            v.three_angular_velocity v.three_linear_acceleration in
        (
          record n { clock = clock; imu_messages = n.imu_messages ++ (msg ∷ []) },
          rw (e, size, made) refl,
          refl,
          refl,
          refl,
        )
  ]

  pub on_cal_status-Handles :
      (packet : Packet) (n : Node C S F G) (active : Bool)
      → n.calib_pub ≡ some active
      → Handles n (on_cal_status ros packet n)
  unfolding on_cal_status
  on_cal_status-Handles packet n false e = (n, rw e refl, refl, refl, refl)
  on_cal_status-Handles packet n true e = elim (Bool-cases (length packet.payload == 9)) [
    | inr other ↦ (n, rw (e, other) refl, refl, refl, refl)
    | inl size ↦
        let (stamp, clock) = ros.now n.clock in
        let (msg, made) =
          calibration_status_total ros packet stamp n.params packet.payload
            ((==_iff (length packet.payload) 9).0 size) in
        (
          record n { clock = clock; statuses = n.statuses ++ (msg ∷ []) },
          rw (e, size, made) refl,
          refl,
          refl,
          refl,
        )
  ]

  pub on_response-Handles :
      (packet : Packet) (n : Node C S F G) → Handles n (on_response ros packet n)
  unfolding on_response
  on_response-Handles packet n = (_, refl, refl, refl, refl)

  -- What the client does with a packet in a state of the node.
  pub dispatch-Handles :
      (c : Client (Outside C S F G)) (packet : Packet) (n : Node C S F G) (active : Bool)
      → c.callbacks ≡ (configured_client ros).callbacks
      → n.imu_pub ≡ some active
      → n.calib_pub ≡ some active
      → IsValid n.params
      → Handles n (dispatch c packet (ok n))
  unfolding dispatch find_callbacks call_all configured_client register_callback push_callback
  dispatch-Handles c packet n active e imu calib v =
      rw e (elim (Bool-cases (imu_data == packet.packet_id)) [
        | inl is_imu ↦ rw (is_imu, dispatch) (on_imu_data-Handles packet n active imu v)
        | inr not_imu ↦
            rw (not_imu, dispatch)
              (elim (Bool-cases (cal_status == packet.packet_id)) [
                | inl is_status ↦
                    rw (is_status, dispatch) (on_cal_status-Handles packet n active calib)
                | inr not_status ↦
                    rw (not_status, dispatch)
                      (elim (Bool-cases (command_response == packet.packet_id)) [
                        | inl is_response ↦
                            rw (is_response, dispatch) (on_response-Handles packet n)
                        | inr not_response ↦ rw (not_response, dispatch) (n, refl, refl, refl, refl)
                      ])
              ])
      ])
