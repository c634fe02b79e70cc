-- ===== src/Host/Node/Reach.antt =====
-- About the node of modules/autonomy_pi/ros/autonomy_teensy/src/driver.cpp over any row of events. ROS calls
-- the transitions as the stages of a managed node allow.
use rdml_blue_rov2_deploymen.Common.{
  ℕ, ◌≡◌, Bool, true, false, ◌||◌, ◌⊎◌, Option, none, some, List, [], ◌∷◌, ◌==◌, Result, ok, ◌>>=◌,
}
use rdml_blue_rov2_deploymen.Host.Error.{InvalidArgument}
use rdml_blue_rov2_deploymen.Host.Ids.{CommandId}
use rdml_blue_rov2_deploymen.Host.Packet.{Packet}
use rdml_blue_rov2_deploymen.Host.Client.{Client}
use rdml_blue_rov2_deploymen.Host.Client.{SerialPort}
use rdml_blue_rov2_deploymen.Host.Command.{Attempt}
use rdml_blue_rov2_deploymen.Host.Node.{
  Ros, Params, Driver, Outside, CallbackReturn, callback_success, callback_error, configured_client,
}
use rdml_blue_rov2_deploymen.Host.Node.Lifecycle.{
  on_configure, on_activate, on_deactivate, on_cleanup, receive, call_service,
}
use rdml_blue_rov2_deploymen.Host.Node.Callbacks.{IsValid}

-- The stages of a managed node. The class overrides four transitions; the inherited `on_shutdown` does nothing
-- and succeeds, and the inherited `on_error` fails, which finalizes the node.
pub data Stage : Type 0 where
  unconfigured inactive active finalized : Stage

-- What reaches the node: a transition that is asked for, a packet on the link, a call of a service.
pub data Event (G : Type 0) : Type 0 where
  configure : Option (Params G) → SerialPort → Event G
  activate : Event G
  deactivate : Event G
  cleanup : Event G
  shutdown : Event G
  packet_arrives : Packet → Event G
  service_called : CommandId → (ℕ → Attempt) → Event G

-- The stage and the node.
abbrev pub Managed : (C S F G : Type 0) → Type 0
Managed C S F G = Stage × Driver C S F G

abbrev is_service : Option CommandId → CommandId → Bool
is_service none command_id = false
is_service (some offered) command_id = offered == command_id

abbrev pub stage_after : CallbackReturn → Stage
stage_after callback_success = inactive
stage_after callback_error = finalized

-- The parameters that ROS hands over are validated.
abbrev pub IsValidated : {G : Type 0} → Event G → Type 0
IsValidated (configure (some params) serial_port) = IsValid params
IsValidated _ = Unit

module _ {C S F G : Type 0} where
  abbrev pub offers : Driver C S F G → CommandId → Bool
  offers d command_id =
      is_service d.node.start_cal_srv command_id
      || is_service d.node.save_cal_srv command_id
      || is_service d.node.stop_cal_srv command_id

  -- Nothing is there: no client, no publisher, no service.
  pub record IsBare (d : Driver C S F G) : Type 0 where
    pub no_client : d.client ≡ none
    pub no_imu_pub : d.node.imu_pub ≡ none
    pub no_calib_pub : d.node.calib_pub ≡ none
    pub no_start : d.node.start_cal_srv ≡ none
    pub no_save : d.node.save_cal_srv ≡ none
    pub no_stop : d.node.stop_cal_srv ≡ none

module _ {C S F G : Type 0} (ros : Ros C S F G) where
  -- A transition that the stage does not allow is refused, and so is a service that is not offered.
  unfoldable pub handle :
      Event G → Stage → Driver C S F G → Result InvalidArgument (Managed C S F G)
  handle (configure params serial_port) unconfigured d =
      let (result, d') = on_configure ros params serial_port d in ok (stage_after result, d')
  handle activate inactive d = do (result, d') ← on_activate d; ok (active, d')
  handle deactivate active d = do (result, d') ← on_deactivate d; ok (inactive, d')
  handle cleanup inactive d = ok (unconfigured, (on_cleanup d).1)
  handle shutdown stage d = ok (finalized, d)
  handle (packet_arrives packet) stage d = do d' ← receive packet d; ok (stage, d')
  handle (service_called command_id environment) stage d = elim (offers d command_id) [
    | false ↦ ok (stage, d)
    | true ↦ do (success, message, d') ← call_service command_id environment d; ok (stage, d')
  ]
  handle _ stage d = ok (stage, d)

  unfoldable pub run :
      List (Event G) → Stage → Driver C S F G → Result InvalidArgument (Managed C S F G)
  run [] stage d = ok (stage, d)
  run (e ∷ events) stage d = handle e stage d >>= λ (stage', d'). run events stage' d'

  -- All of it is there, and the publishers are both activated or both not.
  pub record IsReady (activated : Bool) (d : Driver C S F G) : Type 0 where
    pub reader : Client (Outside C S F G)
    pub has_client : d.client ≡ some reader
    pub has_callbacks : reader.callbacks ≡ (configured_client ros).callbacks
    pub has_imu_pub : d.node.imu_pub ≡ some activated
    pub has_calib_pub : d.node.calib_pub ≡ some activated
    pub valid : IsValid d.node.params

  -- What each stage says of the node.
  abbrev pub Inv : Stage → Driver C S F G → Type 0
  Inv unconfigured d = IsBare d
  Inv inactive d = IsReady false d
  Inv active d = IsReady true d
  Inv finalized d = IsBare d ⊎ ((activated : Bool) × IsReady activated d)
