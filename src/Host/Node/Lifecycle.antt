-- ===== src/Host/Node/Lifecycle.antt =====
-- modules/autonomy_pi/ros/autonomy_teensy/src/driver.cpp: the transitions of the node, its services, and
-- the packets that reach it.
use rdml_blue_rov2_deploymen.Common.{ℕ, Bool, true, false, Option, none, some, Result, ok, ◌>>=◌}
use rdml_blue_rov2_deploymen.Host.Error.{InvalidArgument}
use rdml_blue_rov2_deploymen.Host.Ids.{
  CommandId, calibration_start, calibration_save, calibration_stop,
}
use rdml_blue_rov2_deploymen.Host.Packet.{Packet}
use rdml_blue_rov2_deploymen.Host.Client.{SerialPort, open_client, dispatch}
use rdml_blue_rov2_deploymen.Host.Command.{Attempt, Message, send_command}
use rdml_blue_rov2_deploymen.Host.Node.{
  Ros, Params, Node, Driver, CallbackReturn, callback_success, callback_error, deref,
  with_callbacks,
}

-- `publisher->on_activate()` and `on_deactivate()`.
unfoldable pub set_activated : Bool → Option Bool → Result InvalidArgument (Option Bool)
set_activated activated publisher = do was ← deref publisher; ok (some activated)

module _ {C S F G : Type 0} where
  -- `imu_pub_` and `calib_pub_` together.
  unfoldable pub set_publishers : Option Bool → Node C S F G → Node C S F G
  set_publishers publisher n = record n { imu_pub = publisher; calib_pub = publisher }

  unfoldable pub offer_services : Node C S F G → Node C S F G
  offer_services n = record n {
    start_cal_srv = some calibration_start;
    save_cal_srv = some calibration_save;
    stop_cal_srv = some calibration_stop;
  }

  unfoldable pub withdraw_services : Node C S F G → Node C S F G
  withdraw_services n = record n { start_cal_srv = none; save_cal_srv = none; stop_cal_srv = none }

  unfoldable pub on_activate :
      Driver C S F G → Result InvalidArgument (CallbackReturn × Driver C S F G)
  unfolding set_activated
  on_activate d = do
    imu ← set_activated true d.node.imu_pub
    calib ← set_activated true d.node.calib_pub
    ok (callback_success, record d { node = record d.node { imu_pub = imu; calib_pub = calib } })

  unfoldable pub on_deactivate :
      Driver C S F G → Result InvalidArgument (CallbackReturn × Driver C S F G)
  unfolding set_activated
  on_deactivate d = do
    imu ← set_activated false d.node.imu_pub
    calib ← set_activated false d.node.calib_pub
    ok (callback_success, record d { node = record d.node { imu_pub = imu; calib_pub = calib } })

  -- `pending_promise_`, `pending_seq_` and `command_seq_` are reset under the lock.
  unfoldable pub on_cleanup : Driver C S F G → CallbackReturn × Driver C S F G
  unfolding set_publishers withdraw_services
  on_cleanup d =
      let n = withdraw_services (set_publishers none d.node) in
      (
        callback_success,
        record {
          client = none;
          node = record n {
            commands = record n.commands {
              pending_promise = false;
              pending_seq = 0;
              command_seq = 0;
            };
          };
        },
      )

  -- A packet that the reading thread has decoded.
  unfoldable pub receive : Packet → Driver C S F G → Result InvalidArgument (Driver C S F G)
  receive packet d = elim d.client [
    | none ↦ ok d
    | some c ↦ do n ← dispatch c packet (ok d.node); ok (record d { node = n })
  ]

  -- A call of a service, in surroundings that `send_command` meets.
  unfoldable pub call_service :
      CommandId
      → (ℕ → Attempt)
      → Driver C S F G
      → Result InvalidArgument (Bool × Message × Driver C S F G)
  call_service command_id environment d = do
    c ← deref d.client
    o ← send_command d.node.params.command_retries environment command_id 0 d.node.commands c
    ok (
      o.success,
      o.message,
      record { client = some o.client; node = record d.node { commands = o.commands } },
    )

  module _ (ros : Ros C S F G) where
    -- The parameters, `none` if they cannot be had, and the serial port are the environment's.
    unfoldable pub on_configure :
        Option (Params G) → SerialPort → Driver C S F G → CallbackReturn × Driver C S F G
    unfolding set_publishers offer_services
    on_configure none serial_port d = (callback_error, d)
    on_configure (some params) serial_port d =
        let n : Node C S F G = record d.node { params = params } in
        elim (open_client serial_port params.port params.baudrate) [
          | some c ↦ (
            callback_success,
            record {
              client = some (with_callbacks ros c);
              node = offer_services (set_publishers (some false) n);
            },
          )
          | none ↦ (callback_error, record d { node = set_publishers none n })
        ]
