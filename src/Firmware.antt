-- ===== src/Firmware.antt =====
-- The Teensy's side of the link: modules/teensy.
pub mod Cobs
pub mod Crc
pub mod Ids
pub mod Packet
pub mod SerialBuffer
pub mod Client
pub mod Imu
pub mod Main
