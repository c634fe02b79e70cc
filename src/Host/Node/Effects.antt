-- ===== src/Host/Node/Effects.antt =====
-- About all that a packet does to the node of modules/autonomy_pi/ros/autonomy_teensy/src/driver.cpp.
use rdml_blue_rov2_deploymen.Common.{
  ℕ, ◌≡◌, refl, sym, arith, Bool, true, false, ◌&&◌, ◌||◌, Bool-cases, inl, inr, some, List, [],
  ◌∷◌, ◌++◌, append-nil, length, count, if◌then◌else◌, ◌==◌, ==_iff, ok,
}
use rdml_blue_rov2_deploymen.Host.Ids.{imu_data, cal_status, command_response}
use rdml_blue_rov2_deploymen.Host.Packet.{Packet}
use rdml_blue_rov2_deploymen.Host.Client.{
  Client, dispatch, find_callbacks, call_all, push_callback, register_callback,
}
use rdml_blue_rov2_deploymen.Host.Command.{on_command_response}
use rdml_blue_rov2_deploymen.Host.Node.{
  Ros, ImuMessage, CalibrationStatus, Node, Driver, Outside, on_imu_data, on_cal_status,
  on_response, configured_client,
}
use rdml_blue_rov2_deploymen.Host.Node.Lifecycle.{receive}
use rdml_blue_rov2_deploymen.Host.Node.Messages.{imu_message_total, calibration_status_total}
use rdml_blue_rov2_deploymen.Host.Node.Callbacks.{IsValid}
use rdml_blue_rov2_deploymen.Host.Node.Reach.{IsReady}

module _ {C S F G : Type 0} (ros : Ros C S F G) where
  -- What a packet does: the messages behind those that were there, one exactly if `imu` or `status` holds, the
  -- clock that is read once for a message, and the command that is waited for.
  pub record Does (imu status response : Bool) (packet : Packet) (n n' : Node C S F G)
      : Type 0 where
    pub new_messages : List (ImuMessage S G)
    pub new_statuses : List (CalibrationStatus S F)
    pub messages : n'.imu_messages ≡ n.imu_messages ++ new_messages
    pub message_count : length new_messages ≡ count imu
    pub statuses : n'.statuses ≡ n.statuses ++ new_statuses
    pub status_count : length new_statuses ≡ count status
    pub commands :
        n'.commands ≡ (if response then on_command_response packet n.commands else n.commands)
    pub clock : n'.clock ≡ (if imu || status then (ros.now n.clock).1 else n.clock)
    pub start_cal_srv : n'.start_cal_srv ≡ n.start_cal_srv
    pub save_cal_srv : n'.save_cal_srv ≡ n.save_cal_srv
    pub stop_cal_srv : n'.stop_cal_srv ≡ n.stop_cal_srv
    pub params : n'.params ≡ n.params
    pub imu_pub : n'.imu_pub ≡ n.imu_pub
    pub calib_pub : n'.calib_pub ≡ n.calib_pub

  nothing-Does : (packet : Packet) (n : Node C S F G) → Does false false false packet n n
  nothing-Does packet n = record {
    new_messages = [];
    new_statuses = [];
    messages = sym (append-nil n.imu_messages);
    message_count = refl;
    statuses = sym (append-nil n.statuses);
    status_count = refl;
    commands = refl;
    clock = refl;
    start_cal_srv = refl;
    save_cal_srv = refl;
    stop_cal_srv = refl;
    params = refl;
    imu_pub = refl;
    calib_pub = refl;
  }

imu_apart :
    (id : ℕ) → imu_data == id ≡ true → (cal_status == id ≡ false) × (command_response == id ≡ false)
imu_apart id h = ground arith

status_apart : (id : ℕ) → cal_status == id ≡ true → command_response == id ≡ false
status_apart id h = ground arith

module _ {C S F G : Type 0} (ros : Ros C S F G) where
  abbrev Comes : Bool → Bool → Bool → Packet → Node C S F G → Outside C S F G → Type 0
  Comes imu status response packet n r =
      (n' : Node C S F G) × (r ≡ ok n') × Does ros imu status response packet n n'

  on_imu_data-Does :
      (packet : Packet) (n : Node C S F G) (activated : Bool)
      → n.imu_pub ≡ some activated
      → IsValid n.params
      → Comes
          (activated && length packet.payload == 40)
          false
          false
          packet
          n
          (on_imu_data ros packet n)
  unfolding on_imu_data
  on_imu_data-Does packet n false e v = (n, rw e refl, nothing-Does ros packet n)
  on_imu_data-Does packet n true e v = elim (Bool-cases (length packet.payload == 40)) [
    | inr other ↦ (n, rw (e, other) refl, rw other (nothing-Does ros packet n))
    | inl size ↦
        let (stamp, clock) = ros.now n.clock in
        let (msg, made) =
          imu_message_total ros packet stamp n.params packet.payload v.v₁ v.v₂ v.v₃ v.w₁ v.w₂ v.w₃
            v.a₁ v.a₂ v.a₃ ((==_iff (length packet.payload) 40).0 size) v.three_orientation
            v.three_angular_velocity v.three_linear_acceleration in
        (
          record n { clock = clock; imu_messages = n.imu_messages ++ (msg ∷ []) },
          rw (e, size, made) refl,
          record {
            new_messages = msg ∷ [];
            new_statuses = [];
            messages = refl;
            message_count = rw size refl;
            statuses = sym (append-nil n.statuses);
            status_count = refl;
            commands = refl;
            clock = rw size refl;
            start_cal_srv = refl;
            save_cal_srv = refl;
            stop_cal_srv = refl;
            params = refl;
            imu_pub = refl;
            calib_pub = refl;
          },
        )
  ]

  on_cal_status-Does :
      (packet : Packet) (n : Node C S F G) (activated : Bool)
      → n.calib_pub ≡ some activated
      → Comes false
          (activated && length packet.payload == 9)
          false
          packet
          n
          (on_cal_status ros packet n)
  unfolding on_cal_status
  on_cal_status-Does packet n false e = (n, rw e refl, nothing-Does ros packet n)
  on_cal_status-Does packet n true e = elim (Bool-cases (length packet.payload == 9)) [
    | inr other ↦ (n, rw (e, other) refl, rw other (nothing-Does ros packet n))
    | inl size ↦
        let (stamp, clock) = ros.now n.clock in
        let (msg, made) =
          calibration_status_total ros packet stamp n.params packet.payload
            ((==_iff (length packet.payload) 9).0 size) in
        (
          record n { clock = clock; statuses = n.statuses ++ (msg ∷ []) },
          rw (e, size, made) refl,
          record {
            new_messages = [];
            new_statuses = msg ∷ [];
            messages = sym (append-nil n.imu_messages);
            message_count = refl;
            statuses = refl;
            status_count = rw size refl;
            commands = refl;
            clock = rw size refl;
            start_cal_srv = refl;
            save_cal_srv = refl;
            stop_cal_srv = refl;
            params = refl;
            imu_pub = refl;
            calib_pub = refl;
          },
        )
  ]

  on_response-Does :
      (packet : Packet) (n : Node C S F G)
      → Comes false false true packet n (on_response ros packet n)
  unfolding on_response
  on_response-Does packet n = (
    record n { commands = on_command_response packet n.commands },
    refl,
    record {
      new_messages = [];
      new_statuses = [];
      messages = sym (append-nil n.imu_messages);
      message_count = refl;
      statuses = sym (append-nil n.statuses);
      status_count = refl;
      commands = refl;
      clock = refl;
      start_cal_srv = refl;
      save_cal_srv = refl;
      stop_cal_srv = refl;
      params = refl;
      imu_pub = refl;
      calib_pub = refl;
    },
  )

  -- Whether a packet is one that makes a message.
  abbrev pub accepted : Bool → ℕ → ℕ → Packet → Bool
  accepted activated packet_id size packet =
      packet_id == packet.packet_id && activated && length packet.payload == size

  dispatch-Does :
      (c : Client (Outside C S F G)) (packet : Packet) (n : Node C S F G) (activated : Bool)
      → c.callbacks ≡ (configured_client ros).callbacks
      → n.imu_pub ≡ some activated
      → n.calib_pub ≡ some activated
      → IsValid n.params
      → Comes
          (accepted activated imu_data 40 packet)
          (accepted activated cal_status 9 packet)
          (command_response == packet.packet_id)
          packet
          n
          (dispatch c packet (ok n))
  unfolding dispatch find_callbacks call_all configured_client register_callback push_callback
  dispatch-Does c packet n activated e imu calib v =
      rw e (elim (Bool-cases (imu_data == packet.packet_id)) [
        | inl is_imu ↦
            let (not_status, not_response) = imu_apart packet.packet_id is_imu in
            rw (is_imu, not_status, not_response, dispatch)
              (on_imu_data-Does packet n activated imu v)
        | inr not_imu ↦
            rw (not_imu, dispatch)
              (elim (Bool-cases (cal_status == packet.packet_id)) [
                | inl is_status ↦
                    rw (is_status, status_apart packet.packet_id is_status, dispatch)
                      (on_cal_status-Does packet n activated calib)
                | inr not_status ↦
                    rw (not_status, dispatch)
                      (elim (Bool-cases (command_response == packet.packet_id)) [
                        | inl is_response ↦ rw (is_response, dispatch) (on_response-Does packet n)
                        | inr not_response ↦
                            rw (not_response, dispatch) (n, refl, nothing-Does ros packet n)
                      ])
              ])
      ])

  -- A node that is configured takes in any packet, and that comes to no more than this: an IMU message behind
  -- the others exactly if the publishers are activated and the packet has the identifier and the 40 bytes of
  -- one, a status exactly if they are activated and it has those of a status and 9 bytes, and the callback
  -- on responses for a packet that has their identifier. The clock is read once if a message is made, and
  -- else left alone. The publishers, the services, the parameters and the client stay.
  pub receive-Does :
      (activated : Bool) (packet : Packet) (d : Driver C S F G)
      → IsReady ros activated d
      → (d' : Driver C S F G) × (receive packet d ≡ ok d')
        × (d'.client ≡ d.client)
        × Does ros
            (accepted activated imu_data 40 packet)
            (accepted activated cal_status 9 packet)
            (command_response == packet.packet_id)
            packet
            d.node
            d'.node
  unfolding receive
  receive-Does activated packet d h =
      let (n, e, does) =
        dispatch-Does h.reader packet d.node activated h.has_callbacks h.has_imu_pub h.has_calib_pub
          h.valid in
      (record d { node = n }, rw (h.has_client, e) refl, refl, does)
