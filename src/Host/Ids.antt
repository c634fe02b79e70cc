-- ===== src/Host/Ids.antt =====
-- The identifiers of modules/autonomy_pi/ros/autonomy_teensy/include/autonomy_teensy:
-- packet_id.hpp, device_id.hpp and command.hpp. An enumeration
-- over `uint8_t` holds any byte, so an identifier that is read from the link is a number.
use rdml_blue_rov2_deploymen.Common.{ℕ}

abbrev pub PacketId : Type 0
PacketId = ℕ

abbrev pub imu_data : PacketId
imu_data = 0x01

abbrev pub cal_status : PacketId
cal_status = 0x02

abbrev pub command : PacketId
command = 0x10

abbrev pub command_response : PacketId
command_response = 0x11

abbrev pub DeviceId : Type 0
DeviceId = ℕ

abbrev pub imu_01 : DeviceId
imu_01 = 0x01

abbrev pub CommandId : Type 0
CommandId = ℕ

abbrev pub calibration_start : CommandId
calibration_start = 0x01

abbrev pub calibration_save : CommandId
calibration_save = 0x02

abbrev pub calibration_stop : CommandId
calibration_stop = 0x03

-- The result codes, as they stand in a response.
abbrev pub CommandResponse : Type 0
CommandResponse = ℕ

abbrev pub response_ok : CommandResponse
response_ok = 0x00

abbrev pub unknown_command : CommandResponse
unknown_command = 0x01

abbrev pub sensor_error : CommandResponse
sensor_error = 0x02

abbrev pub invalid_state : CommandResponse
invalid_state = 0x03
