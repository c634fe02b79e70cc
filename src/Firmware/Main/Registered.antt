-- ===== src/Firmware/Main/Registered.antt =====
-- About the handlers that setup of modules/teensy/src/main.cpp registers.
use rdml_blue_rov2_deploymen.Common.{
  ℕ, zero, suc, ◌≤◌, ◌≡◌, refl, arith, List, [], ◌∷◌, Option, some, ok,
}
use rdml_blue_rov2_deploymen.Firmware.Client.{
  Client, CommandHandler, new_client, register_handler, find_handler,
}
use rdml_blue_rov2_deploymen.Firmware.Imu.{Board}
use rdml_blue_rov2_deploymen.Firmware.Imu.Calibration.{IsSh2}
use rdml_blue_rov2_deploymen.Firmware.Main.{
  World, start_calibration_command, save_calibration_command, stop_calibration_command,
  register_commands,
}
use rdml_blue_rov2_deploymen.Firmware.Main.Commands.{MakesStep, commands-MakesStep}

module _ {D F : Type 0} (board : Board D F) where
  abbrev pub registered : List (Option (CommandHandler (World D F)))
  registered =
      some (start_calibration_command board)
      ∷ some (save_calibration_command board)
      ∷ some (stop_calibration_command board)
      ∷ []

  pub register_commands-new_client :
      register_commands board new_client
      ≡ ok (record (new_client {W = World D F}) { command_handlers = registered })
  unfolding register_commands register_handler
  register_commands-new_client = refl

  pub find_registered :
      IsSh2 board
      → (cmd : ℕ) (c : Client (World D F)) (w : World D F) → 1 ≤ cmd
      → cmd ≤ 3
      → c.command_handlers ≡ registered
      → (handler : CommandHandler (World D F)) × (find_handler cmd c ≡ ok (some handler))
        × MakesStep board cmd handler w
  unfolding find_handler
  find_registered sh2 zero c w ge le e = absurd (omega arith)
  find_registered sh2 (suc zero) c w ge le e =
      (start_calibration_command board, rw e refl, (commands-MakesStep board sh2 w).0)
  find_registered sh2 (suc (suc zero)) c w ge le e =
      (save_calibration_command board, rw e refl, (commands-MakesStep board sh2 w).1)
  find_registered sh2 (suc (suc (suc zero))) c w ge le e =
      (stop_calibration_command board, rw e refl, (commands-MakesStep board sh2 w).2)
  find_registered sh2 (suc (suc (suc (suc n)))) c w ge le e = absurd (omega arith)
