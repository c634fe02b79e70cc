-- ===== src/Tests/Teardown.antt =====
-- The end of a node whose reading thread runs: by a cleanup, and without one.
use rdml_blue_rov2_deploymen.Common.{
  ℕ, ◌≡◌, ◌≢◌, ◌⊎◌, refl, true, false, some, none, List, [], ◌∷◌, ◌++◌, ok, fault,
}
use rdml_blue_rov2_deploymen.Host.Ids.{imu_data, imu_01}
use rdml_blue_rov2_deploymen.Host.Packet.{Packet}
use rdml_blue_rov2_deploymen.Host.Packet.Frames.{parsed}
use rdml_blue_rov2_deploymen.Host.Client.{
  Client, timeout, read_from_socket, find_callbacks, push_callback, register_callback,
}
use rdml_blue_rov2_deploymen.Host.Client.Threads.{
  Threads, dispatching, calling, finished, in_use, destroyed, take_in, look_up, reader_step,
  destroy, started,
}
use rdml_blue_rov2_deploymen.Host.Node.{Node, Outside, configured_client, on_imu_data}
use rdml_blue_rov2_deploymen.Host.Node.Lifecycle.{set_activated}
use rdml_blue_rov2_deploymen.Host.Node.Teardown.{
  Action, reset_client, act, reset_step, owner_step, cleanup_order, destruction_order, transitions,
  Run, here, next, reads, goes_on,
}
use rdml_blue_rov2_deploymen.Host.Node.Teardown.Cleanup.{cleanup-safe}
use rdml_blue_rov2_deploymen.Tests.Node.{ros, params-IsValid, active_driver}

abbrev client : Client (Outside ℕ ℕ ℕ ℕ)
client = configured_client ros

-- The node is deactivated, then its client is destroyed while the reading thread waits for the port, and then its
-- members are reset.
abbrev inactive : Node ℕ ℕ ℕ ℕ
inactive = record active_driver.node { imu_pub = some false; calib_pub = some false }

abbrev bare : Node ℕ ℕ ℕ ℕ
bare = record inactive {
  imu_pub = none;
  calib_pub = none;
  commands = record inactive.commands { pending_promise = false; pending_seq = 0; command_seq = 0 };
}

abbrev cleaned : Threads (Outside ℕ ℕ ℕ ℕ)
cleaned = record {
  client = client;
  running = false;
  reader = finished;
  owner = destroyed;
  world = ok bare;
}

cleanup_run :
    Run cleaned []
      (started client (ok active_driver.node))
      (transitions (false ∷ []) ++ cleanup_order)
unfolding reader_step take_in read_from_socket destroy owner_step reset_step cleanup_order act
    set_activated
cleanup_run = next (reads timeout (λ h. cc) refl) (
    next (goes_on refl) (
      next (goes_on refl) (
        next (goes_on refl) (
          next (reads timeout (λ h. cc) refl) (
            next (reads timeout (λ h. cc) refl) (
              next (goes_on refl) (
                next (goes_on refl) (
                  next (goes_on refl) (
                    next (goes_on refl) (
                      next (goes_on refl) (next (goes_on refl) (next (goes_on refl) here))))))))))))

cleanup-safe_example :
    (n : Node ℕ ℕ ℕ ℕ) × (cleaned.world ≡ ok n)
    × ((◌≢◌ {A = List Action} [] []) ⊎ ((cleaned.owner ≡ destroyed) × (cleaned.reader ≡ finished)))
cleanup-safe_example =
    cleanup-safe ros client active_driver.node true (false ∷ []) cleaned [] refl refl refl
      params-IsValid cleanup_run

-- Destroyed in the active stage without a cleanup: the publishers are gone while the reading thread still calls
-- the callback on a reading.
abbrev reading_packet : Packet
reading_packet = parsed imu_data imu_01 []

abbrev before_destruction : Threads (Outside ℕ ℕ ℕ ℕ)
before_destruction = record {
  client = client;
  running = true;
  reader = dispatching (reading_packet ∷ []);
  owner = in_use;
  world = ok active_driver.node;
}

abbrev broken : Threads (Outside ℕ ℕ ℕ ℕ)
broken = record before_destruction { reader = calling [] reading_packet []; world = fault }

destruction_run : Run broken (reset_client ∷ []) before_destruction destruction_order
unfolding reader_step look_up find_callbacks configured_client register_callback push_callback
    owner_step destruction_order act on_imu_data
destruction_run = next (goes_on refl) (
    next (goes_on refl) (
      next (goes_on refl) (
        next (goes_on refl) (
          next (goes_on refl) (
            next (goes_on refl)
              (next (reads timeout (λ h. cc) refl) (next (reads timeout (λ h. cc) refl) here)))))))
