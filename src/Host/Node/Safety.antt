-- ===== src/Host/Node/Safety.antt =====
-- About the node of modules/autonomy_pi/ros/autonomy_teensy/src/driver.cpp in each stage.
use rdml_blue_rov2_deploymen.Common.{
  ℕ, ◌≡◌, refl, sym, subst, ◌∙◌, Bool, true, false, Bool-cases, inl, inr, some, List, [], ◌∷◌, All,
  Result, ok,
}
use rdml_blue_rov2_deploymen.Host.Node.{Ros, Driver}
use rdml_blue_rov2_deploymen.Host.Node.Lifecycle.{on_cleanup, receive, call_service}
use rdml_blue_rov2_deploymen.Host.Node.Reach.{
  Stage, unconfigured, inactive, active, finalized, Event, configure, activate, deactivate, cleanup,
  shutdown, packet_arrives, service_called, Managed, offers, handle, run, IsBare, IsReady, Inv,
  IsValidated,
}
use rdml_blue_rov2_deploymen.Host.Error.{InvalidArgument}
use rdml_blue_rov2_deploymen.Host.Ids.{CommandId}
use rdml_blue_rov2_deploymen.Host.Packet.{Packet}
use rdml_blue_rov2_deploymen.Host.Command.{Attempt, Message}
use rdml_blue_rov2_deploymen.Host.Command.Total.{send_command-Keeps}
use rdml_blue_rov2_deploymen.Host.Node.Callbacks.{IsValid, dispatch-Handles}
use rdml_blue_rov2_deploymen.Host.Node.Transitions.{
  on_configure-Inv, on_activate-IsReady, on_deactivate-IsReady, on_cleanup-IsBare,
}

module _ {C S F G : Type 0} (ros : Ros C S F G) where
  abbrev Comes : Result InvalidArgument (Managed C S F G) → Type 0
  Comes r = (stage : Stage) × (d : Driver C S F G) × (r ≡ ok (stage, d)) × Inv ros stage d

  receive-IsReady :
      (activated : Bool) (packet : Packet) (d : Driver C S F G)
      → IsReady ros activated d
      → (d' : Driver C S F G) × (receive packet d ≡ ok d') × IsReady ros activated d'
  unfolding receive
  receive-IsReady activated packet d h =
      let (n, e, imu, calib, params) =
        dispatch-Handles ros h.reader packet d.node activated h.has_callbacks h.has_imu_pub
          h.has_calib_pub h.valid in
      (
        record d { node = n },
        rw (h.has_client, e) refl,
        record {
          reader = h.reader;
          has_client = h.has_client;
          has_callbacks = h.has_callbacks;
          has_imu_pub = imu ∙ h.has_imu_pub;
          has_calib_pub = calib ∙ h.has_calib_pub;
          valid = subst IsValid (sym params) h.valid;
        },
      )

  call_service-IsReady :
      (activated : Bool) (command_id : CommandId) (environment : ℕ → Attempt) (d : Driver C S F G)
      → IsReady ros activated d
      → (success : Bool) × (message : Message) × (d' : Driver C S F G) × (call_service command_id
            environment d
          ≡ ok (success, message, d'))
        × IsReady ros activated d'
  unfolding call_service
  call_service-IsReady activated command_id environment d h =
      let (o, e, same) =
        send_command-Keeps environment command_id 0 d.node.params.command_retries d.node.commands
          h.reader in
      (
        o.success,
        o.message,
        record { client = some o.client; node = record d.node { commands = o.commands } },
        rw (h.has_client, e) refl,
        record {
          reader = o.client;
          has_client = refl;
          has_callbacks = same ∙ h.has_callbacks;
          has_imu_pub = h.has_imu_pub;
          has_calib_pub = h.has_calib_pub;
          valid = h.valid;
        },
      )

  bare_packet : (packet : Packet) (d : Driver C S F G) → IsBare d → receive packet d ≡ ok d
  unfolding receive
  bare_packet packet d h = simp (h.no_client, receive)

  bare_offers :
      (command_id : CommandId) (d : Driver C S F G) → IsBare d → offers d command_id ≡ false
  bare_offers command_id d h = rw (h.no_start, h.no_save, h.no_stop) refl

  bare_event :
      (stage : Stage) (d : Driver C S F G)
      → Inv ros stage d
      → IsBare d
      → (packet : Packet) (command_id : CommandId) (environment : ℕ → Attempt)
      → Comes (handle ros (packet_arrives packet) stage d)
        × Comes (handle ros (service_called command_id environment) stage d)
  unfolding handle
  bare_event stage d h bare packet command_id environment = (
    (stage, d, rw (bare_packet packet d bare) refl, h),
    (stage, d, rw (bare_offers command_id d bare, handle) refl, h),
  )

  ready_event :
      (stage : Stage) (activated : Bool) (d : Driver C S F G)
      → ((d' : Driver C S F G) → IsReady ros activated d' → Inv ros stage d')
      → IsReady ros activated d
      → (packet : Packet) (command_id : CommandId) (environment : ℕ → Attempt)
      → Comes (handle ros (packet_arrives packet) stage d)
        × Comes (handle ros (service_called command_id environment) stage d)
  unfolding handle
  ready_event stage activated d keep h packet command_id environment =
      let (d₁, e₁, h₁) = receive-IsReady activated packet d h in
      let (success, message, d₂, e₂, h₂) =
        call_service-IsReady activated command_id environment d h in
      (
        (stage, d₁, rw e₁ refl, keep d₁ h₁),
        elim (Bool-cases (offers d command_id)) [
          | inl offered ↦ (stage, d₂, rw (offered, handle, e₂) refl, keep d₂ h₂)
          | inr refused ↦ (stage, d, rw (refused, handle) refl, keep d h)
        ],
      )

  staged :
      (stage : Stage) (d : Driver C S F G)
      → Inv ros stage d
      → (packet : Packet) (command_id : CommandId) (environment : ℕ → Attempt)
      → Comes (handle ros (packet_arrives packet) stage d)
        × Comes (handle ros (service_called command_id environment) stage d)
  staged unconfigured d h = bare_event unconfigured d h h
  staged inactive d h = ready_event inactive false d (λ d' h'. h') h
  staged active d h = ready_event active true d (λ d' h'. h') h
  staged finalized d (inl h) = bare_event finalized d (inl h) h
  staged finalized d (inr (activated, h)) =
      ready_event finalized activated d (λ d' h'. inr (activated, h')) h

  handle-Inv :
      (e : Event G) (stage : Stage) (d : Driver C S F G)
      → IsValidated e
      → Inv ros stage d
      → Comes (handle ros e stage d)
  unfolding handle
  handle-Inv (configure params serial_port) unconfigured d v h =
      (_, _, refl, on_configure-Inv ros params serial_port d v h)
  handle-Inv (configure params serial_port) inactive d v h = (inactive, d, refl, h)
  handle-Inv (configure params serial_port) active d v h = (active, d, refl, h)
  handle-Inv (configure params serial_port) finalized d v h = (finalized, d, refl, h)
  handle-Inv activate inactive d v h =
      let (result, d', e, h') = on_activate-IsReady ros d h in (active, d', rw e refl, h')
  handle-Inv activate unconfigured d v h = (unconfigured, d, refl, h)
  handle-Inv activate active d v h = (active, d, refl, h)
  handle-Inv activate finalized d v h = (finalized, d, refl, h)
  handle-Inv deactivate active d v h =
      let (result, d', e, h') = on_deactivate-IsReady ros d h in (inactive, d', rw e refl, h')
  handle-Inv deactivate unconfigured d v h = (unconfigured, d, refl, h)
  handle-Inv deactivate inactive d v h = (inactive, d, refl, h)
  handle-Inv deactivate finalized d v h = (finalized, d, refl, h)
  handle-Inv cleanup inactive d v h =
      (unconfigured, (on_cleanup d).1, refl, on_cleanup-IsBare ros d)
  handle-Inv cleanup unconfigured d v h = (unconfigured, d, refl, h)
  handle-Inv cleanup active d v h = (active, d, refl, h)
  handle-Inv cleanup finalized d v h = (finalized, d, refl, h)
  handle-Inv shutdown unconfigured d v h = (finalized, d, refl, inl h)
  handle-Inv shutdown inactive d v h = (finalized, d, refl, inr (false, h))
  handle-Inv shutdown active d v h = (finalized, d, refl, inr (true, h))
  handle-Inv shutdown finalized d v h = (finalized, d, refl, h)
  handle-Inv (packet_arrives packet) stage d v h = (staged stage d h packet 0 never).0
    where
      never : ℕ → Attempt
      never n = record { reader_stopped = true; write_fails = true; in_time = []; late = [] }
  handle-Inv (service_called command_id environment) stage d v h =
      (staged stage d h nothing command_id environment).1
    where
      nothing : Packet
      nothing = record { packet_id = 0; device_id = 0; payload = [] }

  -- From a state that fits its stage any row of events, with validated parameters, is taken in, a shutdown and
  -- what comes after it included: no callback, transition or service goes through a null pointer or lets an
  -- exception out, and the state fits its stage again. In the stages `inactive` and `active` the client is
  -- there with the three callbacks, and so are the publishers, which are activated in `active` alone; in
  -- `unconfigured` there is no client, no publisher and no service; in `finalized` either these are all
  -- absent too, or the client, its three callbacks and the publishers, activated both or neither, are still
  -- there.
  pub run-Inv :
      (events : List (Event G)) (stage : Stage) (d : Driver C S F G)
      → All IsValidated events
      → Inv ros stage d
      → (stage' : Stage) × (d' : Driver C S F G) × (run ros events stage d ≡ ok (stage', d'))
        × Inv ros stage' d'
  unfolding run
  run-Inv [] stage d v h = (stage, d, refl, h)
  run-Inv (e ∷ events) stage d (v, vs) h =
      let (stage₁, d₁, e₁, h₁) = handle-Inv e stage d v h in
      let (stage₂, d₂, e₂, h₂) = run-Inv events stage₁ d₁ vs h₁ in
      (stage₂, d₂, rw (e₁, e₂) refl, h₂)
