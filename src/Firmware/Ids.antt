-- ===== src/Firmware/Ids.antt =====
-- The identifiers of modules/teensy/lib/packet: packet_id.h, device_id.h and command.h. An enumeration
-- over `uint8_t` holds any byte, so an identifier that is read from the link is a number.
use rdml_blue_rov2_deploymen.Common.{ℕ}

abbrev pub PacketId : Type 0
PacketId = ℕ

abbrev pub imu_data : PacketId
imu_data = 0x01

abbrev pub cal_status : PacketId
cal_status = 0x02

abbrev pub command : PacketId
command = 0x10

abbrev pub command_response : PacketId
command_response = 0x11

abbrev pub DeviceId : Type 0
DeviceId = ℕ

abbrev pub imu_01 : DeviceId
imu_01 = 0x01

abbrev pub CommandId : Type 0
CommandId = ℕ

abbrev pub calibration_start : CommandId
calibration_start = 0x01

abbrev pub calibration_save : CommandId
calibration_save = 0x02

abbrev pub calibration_stop : CommandId
calibration_stop = 0x03

-- What a handler answers; `to_byte` is its value on the link.
pub data CommandResponse : Type 0 where
  done unknown_command sensor_error invalid_state : CommandResponse

abbrev pub to_byte : CommandResponse → ℕ
to_byte done = 0x00
to_byte unknown_command = 0x01
to_byte sensor_error = 0x02
to_byte invalid_state = 0x03
