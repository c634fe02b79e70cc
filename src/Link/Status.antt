-- ===== src/Link/Status.antt =====
-- The calibration status from the firmware, send_calibration_status of modules/teensy/src/main.cpp, to the
-- message of the node, src/driver.cpp of modules/autonomy_pi/ros/autonomy_teensy.
use rdml_blue_rov2_deploymen.Common.{
  ℕ, ◌≡◌, not, List, [], ◌∷◌, ◌++◌, length, All, IsByte, bit_and, ◌==◌,
}
use rdml_blue_rov2_deploymen.Host.Packet.{Packet}
use rdml_blue_rov2_deploymen.Host.Packet.Frames.{parsed}
use rdml_blue_rov2_deploymen.Host.Node.{Ros, CalibrationStatus, Node}
use rdml_blue_rov2_deploymen.Firmware.Ids.{cal_status, imu_01}
use rdml_blue_rov2_deploymen.Firmware.Imu.{Board, Imu, calibrating}
use rdml_blue_rov2_deploymen.Firmware.Imu.Calibration.{IsSh2}
use rdml_blue_rov2_deploymen.Firmware.Main.{status_bytes}

-- The bytes of a float, four of them, and the float that they stand for.
pub record IsFloat {F : Type 0} (float_bytes : F → List ℕ) (float_of : List ℕ → F) : Type 0 where
  pub four : (x : F) → length (float_bytes x) ≡ 4
  pub bytes : (x : F) → All IsByte (float_bytes x)
  pub back : (x : F) → float_of (float_bytes x) ≡ x

-- The accuracies and the mask are `uint8_t`.
pub record HasByteStatus {F : Type 0} (imu : Imu F) : Type 0 where
  pub accel_byte : IsByte imu.sensor_accuracy.accel_status
  pub gyro_byte : IsByte imu.sensor_accuracy.gyro_status
  pub mag_byte : IsByte imu.sensor_accuracy.mag_status
  pub quat_byte : IsByte imu.sensor_accuracy.quat_status
  pub mask_byte : IsByte imu.cal_mask

module _ {D F : Type 0} (board : Board D F) where
  -- What a message ought to say of the sensor.
  abbrev pub status_of : {S : Type 0} → S → List ℕ → Imu F → CalibrationStatus S F
  status_of stamp frame_id imu = record {
    status_stamp = stamp;
    status_frame_id = frame_id;
    accelerometer_accuracy = imu.sensor_accuracy.accel_status;
    gyroscope_accuracy = imu.sensor_accuracy.gyro_status;
    magnetometer_accuracy = imu.sensor_accuracy.mag_status;
    orientation_accuracy = imu.sensor_accuracy.quat_status;
    accelerometer_calibration_enabled = not (bit_and imu.cal_mask board.sh2_cal_accel == 0);
    gyroscope_calibration_enabled = not (bit_and imu.cal_mask board.sh2_cal_gyro == 0);
    magnetometer_calibration_enabled = calibrating board imu;
    orientation_accuracy_rad = imu.sensor_accuracy.quat_rad;
  }

  abbrev pub status_packet : (F → List ℕ) → Imu F → Packet
  status_packet float_bytes imu = parsed cal_status imu_01 (status_bytes board float_bytes imu)

module _ {D C S F G : Type 0} (board : Board D F) (sh2 : IsSh2 board) (float_bytes : F → List ℕ)
    (ros : Ros C S F G) (float : IsFloat float_bytes ros.float_of) where
  abbrev pub with_status : Imu F → Node C S F G → Node C S F G
  with_status imu n = record n {
    clock = (ros.now n.clock).1;
    statuses = n.statuses ++ (status_of board (ros.now n.clock).0 n.params.frame_id imu ∷ []);
  }
