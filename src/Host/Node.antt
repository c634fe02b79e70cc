-- ===== src/Host/Node.antt =====
-- modules/autonomy_pi/ros/autonomy_teensy/src/driver.cpp and driver.hpp: the lifecycle of the node and its
-- callbacks on packets. ROS is not part of the repository: its clock, the floats and the doubles are the
-- record `Ros`, a publisher is null or tells whether it is activated, and what is published is collected.
pub mod Lifecycle
pub mod Messages
pub mod Callbacks
pub mod Reach
pub mod Transitions
pub mod Safety
pub mod Effects
pub mod Teardown
use rdml_blue_rov2_deploymen.Common.{
  ℕ, zero, suc, ◌+◌, ◌*◌, bit_and, Bool, true, false, not, Option, none, some, List, [], ◌∷◌, ◌++◌,
  length, replicate,
}
use rdml_blue_rov2_deploymen.Common.{◌==◌, if◌then◌else◌, Result, ok, fault, ◌>>=◌, load, store}
use rdml_blue_rov2_deploymen.Host.Error.{InvalidArgument}
use rdml_blue_rov2_deploymen.Host.Ids.{CommandId, imu_data, cal_status, command_response}
use rdml_blue_rov2_deploymen.Host.Packet.{Packet, pop_front}
use rdml_blue_rov2_deploymen.Host.Client.{Client, new_client, register_callback}
use rdml_blue_rov2_deploymen.Host.Command.{Commands, on_command_response}

-- `C` is the state of the clock, `S` a stamp, `F` float and `G` double.
pub record Ros (C S F G : Type 0) : Type 0 where
  pub now : C → S × C
  pub float_of : List ℕ → F
  pub to_double : F → G
  pub zero_double : G

-- The parameters of teensy_driver_parameters.yaml, which the build makes a struct of.
pub record Params (G : Type 0) : Type 0 where
  pub port : List ℕ
  pub baudrate : ℕ
  pub frame_id : List ℕ
  pub orientation_variances : List G
  pub angular_velocity_variances : List G
  pub linear_acceleration_variances : List G
  pub command_timeout : G
  pub command_retries : ℕ

-- `sensor_msgs::msg::Imu`
pub record ImuMessage (S G : Type 0) : Type 0 where
  pub imu_stamp : S
  pub imu_frame_id : List ℕ
  pub orientation : G × G × G × G
  pub angular_velocity : G × G × G
  pub linear_acceleration : G × G × G
  pub orientation_covariance : List G
  pub angular_velocity_covariance : List G
  pub linear_acceleration_covariance : List G

-- `autonomy_msgs::msg::ImuCalibrationStatus`
pub record CalibrationStatus (S F : Type 0) : Type 0 where
  pub status_stamp : S
  pub status_frame_id : List ℕ
  pub accelerometer_accuracy : ℕ
  pub gyroscope_accuracy : ℕ
  pub magnetometer_accuracy : ℕ
  pub orientation_accuracy : ℕ
  pub accelerometer_calibration_enabled : Bool
  pub gyroscope_calibration_enabled : Bool
  pub magnetometer_calibration_enabled : Bool
  pub orientation_accuracy_rad : F

-- The members beside the client, with what was published. A service is the command that it sends.
pub record Node (C S F G : Type 0) : Type 0 where
  pub params : Params G
  pub clock : C
  pub imu_pub : Option Bool
  pub calib_pub : Option Bool
  pub imu_messages : List (ImuMessage S G)
  pub statuses : List (CalibrationStatus S F)
  pub start_cal_srv : Option CommandId
  pub save_cal_srv : Option CommandId
  pub stop_cal_srv : Option CommandId
  pub commands : Commands

-- What the callbacks of the client act on: the node, or the exception that has left one of them.
abbrev pub Outside : (C S F G : Type 0) → Type 0
Outside C S F G = Result InvalidArgument (Node C S F G)

-- The node with `client_`.
pub record Driver (C S F G : Type 0) : Type 0 where
  pub node : Node C S F G
  pub client : Option (Client (Outside C S F G))

pub data CallbackReturn : Type 0 where
  callback_success callback_error : CallbackReturn

-- A call through a pointer, with a fault if it is null.
abbrev pub deref {ℓ} : {A : Type ℓ} → Option A → Result InvalidArgument A
deref none = fault
deref (some a) = ok a

-- The loop over the diagonal of a covariance, for one of the three fields of the message.
unfoldable pub fill_diagonal :
    {G : Type 0} → ℕ → ℕ → List G → List G → Result InvalidArgument (List G)
fill_diagonal zero i variances covariance = ok covariance
fill_diagonal (suc n) i variances covariance = do
  variance ← load variances i
  covariance' ← store covariance (i * 3 + i) variance
  fill_diagonal n (i + 1) variances covariance'

module _ {C S F G : Type 0} (ros : Ros C S F G) where
  unfoldable pub pop_float : Packet → Result InvalidArgument (F × Packet)
  pop_float packet = do (bytes, packet') ← pop_front 4 packet; ok (ros.float_of bytes, packet')

  unfoldable pub pop_double : Packet → Result InvalidArgument (G × Packet)
  unfolding pop_float
  pop_double packet = do (x, packet') ← pop_float packet; ok (ros.to_double x, packet')

  unfoldable pub pop_byte : Packet → Result InvalidArgument (ℕ × Packet)
  pop_byte packet = do
    (bytes, packet') ← pop_front 1 packet
    byte ← load bytes 0
    ok (byte, packet')

  abbrev pub no_covariance : List G
  no_covariance = replicate 9 ros.zero_double

  -- The message that an IMU_DATA packet of 40 bytes makes.
  unfoldable pub imu_message : S → Params G → Packet → Result InvalidArgument (ImuMessage S G)
  unfolding pop_double fill_diagonal
  imu_message stamp params p₀ = do
    (qx, p₁) ← pop_double p₀
    (qy, p₂) ← pop_double p₁
    (qz, p₃) ← pop_double p₂
    (qw, p₄) ← pop_double p₃
    (gx, p₅) ← pop_double p₄
    (gy, p₆) ← pop_double p₅
    (gz, p₇) ← pop_double p₆
    (ax, p₈) ← pop_double p₇
    (ay, p₉) ← pop_double p₈
    (az, p₁₀) ← pop_double p₉
    orientation ← fill_diagonal 3 0 params.orientation_variances no_covariance
    angular_velocity ← fill_diagonal 3 0 params.angular_velocity_variances no_covariance
    linear_acceleration ← fill_diagonal 3 0 params.linear_acceleration_variances no_covariance
    ok (record {
      imu_stamp = stamp;
      imu_frame_id = params.frame_id;
      orientation = (qx, qy, qz, qw);
      angular_velocity = (gx, gy, gz);
      linear_acceleration = (ax, ay, az);
      orientation_covariance = orientation;
      angular_velocity_covariance = angular_velocity;
      linear_acceleration_covariance = linear_acceleration;
    })

  unfoldable pub on_imu_data : Packet → Node C S F G → Result InvalidArgument (Node C S F G)
  unfolding imu_message
  on_imu_data packet n = do
    activated ← deref n.imu_pub
    if not activated then ok n else if not (length packet.payload == 40) then ok n else (do
      let (stamp, clock') = ros.now n.clock
      msg ← imu_message stamp n.params packet
      ok (record n { clock = clock'; imu_messages = n.imu_messages ++ (msg ∷ []) }))

  -- The message that a CAL_STATUS packet of nine bytes makes.
  unfoldable pub calibration_status :
      S → Params G → Packet → Result InvalidArgument (CalibrationStatus S F)
  unfolding pop_byte pop_float
  calibration_status stamp params p₀ = do
    (accelerometer, p₁) ← pop_byte p₀
    (gyroscope, p₂) ← pop_byte p₁
    (magnetometer, p₃) ← pop_byte p₂
    (orientation, p₄) ← pop_byte p₃
    (cal_config, p₅) ← pop_byte p₄
    (rad, p₆) ← pop_float p₅
    ok (record {
      status_stamp = stamp;
      status_frame_id = params.frame_id;
      accelerometer_accuracy = accelerometer;
      gyroscope_accuracy = gyroscope;
      magnetometer_accuracy = magnetometer;
      orientation_accuracy = orientation;
      accelerometer_calibration_enabled = not (bit_and cal_config 0x01 == 0);
      gyroscope_calibration_enabled = not (bit_and cal_config 0x02 == 0);
      magnetometer_calibration_enabled = not (bit_and cal_config 0x04 == 0);
      orientation_accuracy_rad = rad;
    })

  unfoldable pub on_cal_status : Packet → Node C S F G → Result InvalidArgument (Node C S F G)
  unfolding calibration_status
  on_cal_status packet n = do
    activated ← deref n.calib_pub
    if not activated then ok n else if not (length packet.payload == 9) then ok n else (do
      let (stamp, clock') = ros.now n.clock
      msg ← calibration_status stamp n.params packet
      ok (record n { clock = clock'; statuses = n.statuses ++ (msg ∷ []) }))

  unfoldable pub on_response : Packet → Node C S F G → Result InvalidArgument (Node C S F G)
  on_response packet n = ok (record n { commands = on_command_response packet n.commands })

  -- The three calls of `register_callback` in `on_configure`.
  unfoldable pub with_callbacks : Client (Outside C S F G) → Client (Outside C S F G)
  unfolding on_imu_data on_cal_status on_response
  with_callbacks c =
      register_callback command_response (λ packet r. r >>= on_response packet)
        (register_callback cal_status (λ packet r. r >>= on_cal_status packet)
          (register_callback imu_data (λ packet r. r >>= on_imu_data packet) c))

  unfoldable pub configured_client : Client (Outside C S F G)
  unfolding with_callbacks
  configured_client = with_callbacks new_client
