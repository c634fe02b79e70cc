-- ===== src/Host/Node/Teardown/Calls.antt =====
-- About the reading thread of modules/autonomy_pi/ros/autonomy_teensy/src/client.cpp with the callbacks of the node.
use rdml_blue_rov2_deploymen.Common.{
  ◌≡◌, ◌≢◌, refl, sym, subst, Bool, true, false, if◌then◌else◌, Bool-cases, ◌⊎◌, inl, inr, Option,
  none, some, List, [], ◌∷◌, All, ◌==◌, ok,
}
use rdml_blue_rov2_deploymen.Host.Ids.{PacketId, imu_data, cal_status, command_response}
use rdml_blue_rov2_deploymen.Host.Packet.{Packet}
use rdml_blue_rov2_deploymen.Host.Client.{
  Callback, Port, poll_failed, timeout, no_input, read_failed, arrived, read_from_socket,
  find_callbacks, push_callback, register_callback,
}
use rdml_blue_rov2_deploymen.Host.Client.Threads.{
  Reader, testing, reading, dispatching, calling, finished, Threads, take_in, look_up, reader_step,
}
use rdml_blue_rov2_deploymen.Host.Client.Threads.Advance.{take_in-cons}
use rdml_blue_rov2_deploymen.Host.Node.{Ros, Node, Outside, configured_client}
use rdml_blue_rov2_deploymen.Host.Node.Callbacks.{
  IsValid, Handles, on_imu_data-Handles, on_cal_status-Handles, on_response-Handles,
}

module _ {C S F G : Type 0} (ros : Ros C S F G) where
  -- A callback that handles any packet while the publishers are there.
  unfoldable pub IsSafe : Callback (Outside C S F G) → Type 0
  IsSafe callback =
      (packet : Packet) (n : Node C S F G) (imu_active calib_active : Bool)
      → n.imu_pub ≡ some imu_active
      → n.calib_pub ≡ some calib_active
      → IsValid n.params
      → Handles ros n (callback packet (ok n))

  FoundSafe : Option (List (Callback (Outside C S F G))) → Type 0
  FoundSafe none = Unit
  FoundSafe (some callbacks) = All IsSafe callbacks

  find_callbacks-Safe :
      (packet_id : PacketId)
      → FoundSafe (find_callbacks packet_id (configured_client ros).callbacks)
  unfolding FoundSafe IsSafe find_callbacks configured_client register_callback push_callback
  find_callbacks-Safe packet_id = elim (Bool-cases (imu_data == packet_id)) [
    | inl is_imu ↦
        rw (is_imu)
          ((λ packet n active other imu calib v. on_imu_data-Handles ros packet n active imu v), tt)
    | inr not_imu ↦ rw (not_imu) (elim (Bool-cases (cal_status == packet_id)) [
      | inl is_status ↦ rw is_status (
        (λ packet n other active imu calib v. on_cal_status-Handles ros packet n active calib),
        tt,
      )
      | inr not_status ↦ rw not_status (elim (Bool-cases (command_response == packet_id)) [
        | inl is_response ↦
            rw is_response
              ((λ packet n active other imu calib v. on_response-Handles ros packet n), tt)
        | inr not_response ↦ rw not_response tt
      ])
    ])
  ]

  -- Where the reading thread stands, the calls that are left are of such callbacks.
  unfoldable pub SafeReader : Reader (Outside C S F G) → Type 0
  SafeReader (calling to_call packet packets) = All IsSafe to_call
  SafeReader _ = Unit

  -- A step of the reading thread: at most one such callback acts on the node.
  unfoldable pub Acts : Threads (Outside C S F G) → Threads (Outside C S F G) → Type 0
  Acts s t =
      (t.world ≡ s.world)
      ⊎ ((callback : Callback (Outside C S F G)) × (packet : Packet) × IsSafe callback
          × (t.world ≡ callback packet s.world))

  unfoldable pub SafeStep : Threads (Outside C S F G) → Reader (Outside C S F G) → Port → Type 0
  SafeStep s reader port =
      (t : Threads (Outside C S F G)) × (reader_step reader port s ≡ ok t)
      × (t.client.callbacks ≡ s.client.callbacks)
      × SafeReader t.reader
      × Acts s t

  read_from_socket-SafeStep :
      (port : Port) (s : Threads (Outside C S F G)) → SafeStep s reading port
  unfolding SafeStep Acts SafeReader reader_step read_from_socket take_in
  read_from_socket-SafeStep poll_failed s = (_, refl, refl, tt, inl refl)
  read_from_socket-SafeStep timeout s = (_, refl, refl, tt, inl refl)
  read_from_socket-SafeStep no_input s = (_, refl, refl, tt, inl refl)
  read_from_socket-SafeStep read_failed s = (_, refl, refl, tt, inl refl)
  read_from_socket-SafeStep (arrived []) s = (_, refl, refl, tt, inl refl)
  read_from_socket-SafeStep (arrived (b ∷ bytes)) s =
      (_, take_in-cons b bytes s, refl, tt, inl refl)

  look_up-Safe :
      (found : Option (List (Callback (Outside C S F G)))) (packet : Packet) (packets : List Packet)
      → FoundSafe found
      → SafeReader (look_up found packet packets)
  unfolding FoundSafe SafeReader look_up
  look_up-Safe none packet packets h = tt
  look_up-Safe (some to_call) packet packets h = h

  test-Safe : (running : Bool) → SafeReader (if running then reading else finished)
  unfolding SafeReader
  test-Safe true = tt
  test-Safe false = tt

  pub reader_step-SafeStep :
      (reader : Reader (Outside C S F G)) (port : Port) (s : Threads (Outside C S F G))
      → s.client.callbacks ≡ (configured_client ros).callbacks
      → reader ≢ finished
      → SafeReader reader
      → SafeStep s reader port
  unfolding SafeStep Acts SafeReader reader_step
  reader_step-SafeStep testing port s e live h = (_, refl, refl, test-Safe s.running, inl refl)
  reader_step-SafeStep reading port s e live h = read_from_socket-SafeStep port s
  reader_step-SafeStep (dispatching []) port s e live h = (_, refl, refl, tt, inl refl)
  reader_step-SafeStep (dispatching (packet ∷ packets)) port s e live h = (
    _,
    refl,
    refl,
    look_up-Safe (find_callbacks packet.packet_id s.client.callbacks) packet packets (
        subst (λ callbacks. FoundSafe (find_callbacks packet.packet_id callbacks)) (sym e)
          (find_callbacks-Safe packet.packet_id)),
    inl refl,
  )
  reader_step-SafeStep (calling [] packet packets) port s e live h = (_, refl, refl, tt, inl refl)
  reader_step-SafeStep (calling (callback ∷ to_call) packet packets) port s e live (safe, h) =
      (_, refl, refl, h, inr (callback, packet, safe, refl))
  reader_step-SafeStep finished port s e live h = absurd (live refl)
