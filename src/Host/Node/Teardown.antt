-- ===== src/Host/Node/Teardown.antt =====
-- modules/autonomy_pi/ros/autonomy_teensy/src/driver.cpp, driver.hpp and client.cpp: the transitions of a
-- node that is configured, up to its cleanup, while its reading thread runs. A pointer that is reset and a
-- member that is destroyed are both null to a callback.
mod Calls
pub mod Cleanup
use rdml_blue_rov2_deploymen.Common.{
  ℕ, ◌≡◌, ◌≢◌, Bool, true, false, Option, none, some, List, [], ◌∷◌, ◌++◌, Result, ok, err, fault,
  stuck, ◌>>=◌,
}
use rdml_blue_rov2_deploymen.Host.Error.{InvalidArgument}
use rdml_blue_rov2_deploymen.Host.Client.{Client, Port}
use rdml_blue_rov2_deploymen.Host.Client.Threads.{
  Reader, testing, reading, dispatching, calling, finished, Owner, in_use, joining, destroyed,
  Threads, reader_step, destroy, started,
}
use rdml_blue_rov2_deploymen.Host.Node.{Ros, Node, Outside}
use rdml_blue_rov2_deploymen.Host.Node.Lifecycle.{set_activated}

-- What the owner still has to do: the statements of `on_activate` or `on_deactivate`, and those of `on_cleanup`,
-- of which the block under the lock is one.
pub data Action : Type 0 where
  activate_imu_pub activate_calib_pub : Bool → Action
  reset_client reset_imu_pub reset_calib_pub : Action
  reset_start_cal_srv reset_save_cal_srv reset_stop_cal_srv reset_commands : Action

-- The order of `on_cleanup`.
unfoldable pub cleanup_order : List Action
cleanup_order =
    reset_client ∷ reset_imu_pub ∷ reset_calib_pub ∷ reset_start_cal_srv ∷ reset_save_cal_srv
    ∷ reset_stop_cal_srv ∷ reset_commands ∷ []

-- The order of `~TeensyDriver`, against that of the declarations in driver.hpp.
unfoldable pub destruction_order : List Action
destruction_order =
    reset_commands ∷ reset_stop_cal_srv ∷ reset_save_cal_srv ∷ reset_start_cal_srv ∷ reset_calib_pub
    ∷ reset_imu_pub ∷ reset_client ∷ []

abbrev pub transitions : List Bool → List Action
transitions [] = []
transitions (activated ∷ row) =
    activate_imu_pub activated ∷ activate_calib_pub activated ∷ transitions row

module _ {C S F G : Type 0} where
  -- An action on the members beside the client.
  unfoldable pub act : Action → Node C S F G → Outside C S F G
  unfolding set_activated
  act (activate_imu_pub activated) n = do
    imu ← set_activated activated n.imu_pub
    ok (record n { imu_pub = imu })
  act (activate_calib_pub activated) n = do
    calib ← set_activated activated n.calib_pub
    ok (record n { calib_pub = calib })
  act reset_client n = ok n
  act reset_imu_pub n = ok (record n { imu_pub = none })
  act reset_calib_pub n = ok (record n { calib_pub = none })
  act reset_start_cal_srv n = ok (record n { start_cal_srv = none })
  act reset_save_cal_srv n = ok (record n { save_cal_srv = none })
  act reset_stop_cal_srv n = ok (record n { stop_cal_srv = none })
  act reset_commands n = ok (record n {
    commands = record n.commands { pending_promise = false; pending_seq = 0; command_seq = 0 };
  })

  abbrev is_finished : Reader (Outside C S F G) → Bool
  is_finished finished = true
  is_finished _ = false

  -- `client_.reset()` with the destructor of the client, `none` while its `join` waits.
  unfoldable pub reset_step :
      Owner
      → Bool
      → Threads (Outside C S F G)
      → List Action
      → Option (Threads (Outside C S F G) × List Action)
  unfolding destroy
  reset_step in_use read s rest = some (destroy s, reset_client ∷ rest)
  reset_step joining true s rest = some (record s { owner = destroyed }, rest)
  reset_step joining false s rest = none
  reset_step destroyed read s rest = some (s, rest)

  unfoldable pub owner_step :
      List Action → Threads (Outside C S F G) → Option (Threads (Outside C S F G) × List Action)
  unfolding act reset_step
  owner_step [] s = none
  owner_step (reset_client ∷ rest) s = reset_step s.owner (is_finished s.reader) s rest
  owner_step (action ∷ rest) s = some (record s { world = s.world >>= act action }, rest)

  -- A step of the reading thread or of the owner, from the threads and what is left to do.
  pub data Step (s : Threads (Outside C S F G)) (left : List Action)
      : Threads (Outside C S F G) → List Action → Type 0 where
    reads :
        {t : Threads (Outside C S F G)} (port : Port)
        → s.reader ≢ finished
        → reader_step s.reader port s ≡ ok t
        → Step s left t left
    goes_on :
        {t : Threads (Outside C S F G)} {rest : List Action}
        → owner_step left s ≡ some (t, rest)
        → Step s left t rest

  -- The steps from one state to another, in their order.
  pub data Run (u : Threads (Outside C S F G)) (end : List Action)
      : Threads (Outside C S F G) → List Action → Type 0 where
    here : Run u end u end
    next :
        {s t : Threads (Outside C S F G)} {left rest : List Action}
        → Step s left t rest
        → Run u end t rest
        → Run u end s left
