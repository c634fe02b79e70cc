-- ===== src/Firmware/Main/Commands.antt =====
-- About the handlers of modules/teensy/src/main.cpp, beside a machine with two states: the sensor is
-- calibrating, or it is not.
use rdml_blue_rov2_deploymen.Common.{
  ◌≡◌, ◌∙◌, refl, Bool, true, false, Bool-cases, inl, inr, if◌then◌else◌,
}
use rdml_blue_rov2_deploymen.Firmware.Ids.{
  CommandId, calibration_start, calibration_save, calibration_stop, CommandResponse, done,
  sensor_error, invalid_state,
}
use rdml_blue_rov2_deploymen.Firmware.Client.{CommandHandler}
use rdml_blue_rov2_deploymen.Firmware.Imu.{
  Board, calibrating, start_calibration, stop_calibration, save_calibration,
}
use rdml_blue_rov2_deploymen.Firmware.Imu.Calibration.{
  IsSh2, start_calibration-calibrating, stop_calibration-calibrating,
}
use rdml_blue_rov2_deploymen.Firmware.Main.{
  World, start_calibration_command, save_calibration_command, stop_calibration_command,
}

-- A command, the state before it, its answer and the state after it.
pub data Step : CommandId → Bool → CommandResponse → Bool → Type 0 where
  started : Step calibration_start false done true
  start_again : Step calibration_start true done true
  start_failed : Step calibration_start false sensor_error false
  saved : Step calibration_save true done true
  save_failed : Step calibration_save true sensor_error true
  save_refused : Step calibration_save false invalid_state false
  stopped : Step calibration_stop true done false
  stop_again : Step calibration_stop false done false
  stop_failed : Step calibration_stop true sensor_error true

module _ {D F : Type 0} (board : Board D F) where
  -- A handler makes a step, from and to what `calibrating` says.
  abbrev pub MakesStep : CommandId → CommandHandler (World D F) → World D F → Type 0
  MakesStep command_id handler w =
      Step command_id (calibrating board w.imu) (handler w).0 (calibrating board (handler w).1.imu)

  module _ (sh2 : IsSh2 board) where
    start-Step :
        (succeeded after : Bool)
        → after ≡ (if succeeded then true else false)
        → Step calibration_start false (if succeeded then done else sensor_error) after
    start-Step true after e = rw e started
    start-Step false after e = rw e start_failed

    stop-Step :
        (succeeded after : Bool)
        → after ≡ (if succeeded then false else true)
        → Step calibration_stop true (if succeeded then done else sensor_error) after
    stop-Step true after e = rw e stopped
    stop-Step false after e = rw e stop_failed

    save-Step :
        (succeeded : Bool)
        → Step calibration_save true (if succeeded then done else sensor_error) true
    save-Step true = saved
    save-Step false = save_failed

    start_command-MakesStep :
        (w : World D F) → MakesStep calibration_start (start_calibration_command board) w
    unfolding start_calibration_command
    start_command-MakesStep w = elim (Bool-cases (calibrating board w.imu)) [
      | inl on ↦ rw (on, on) start_again
      | inr off ↦ rw off (
          start-Step (start_calibration board w.imu w.device).0 _
            (start_calibration-calibrating board sh2 w.imu w.device ∙ rw off refl))
    ]

    save_command-MakesStep :
        (w : World D F) → MakesStep calibration_save (save_calibration_command board) w
    unfolding save_calibration_command
    save_command-MakesStep w = elim (Bool-cases (calibrating board w.imu)) [
      | inl on ↦ rw (on, on) (save-Step (save_calibration board w.device).0)
      | inr off ↦ rw (off, off) save_refused
    ]

    stop_command-MakesStep :
        (w : World D F) → MakesStep calibration_stop (stop_calibration_command board) w
    unfolding stop_calibration_command
    stop_command-MakesStep w = elim (Bool-cases (calibrating board w.imu)) [
      | inl on ↦ rw on (
          stop-Step (stop_calibration board w.imu w.device).0 _
            (stop_calibration-calibrating board sh2 w.imu w.device ∙ rw on refl))
      | inr off ↦ rw (off, off) stop_again
    ]

    -- With the bits of sh2.h the three handlers, on any state of the firmware and whatever the sensor's
    -- library answers, make the steps of `Step`: from whether the sensor is calibrating, with the answer
    -- that goes out, to whether it is calibrating then.
    pub commands-MakesStep :
        (w : World D F)
        → MakesStep calibration_start (start_calibration_command board) w
          × MakesStep calibration_save (save_calibration_command board) w
          × MakesStep calibration_stop (stop_calibration_command board) w
    commands-MakesStep w =
        (start_command-MakesStep w, save_command-MakesStep w, stop_command-MakesStep w)
