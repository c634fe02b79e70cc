-- ===== src/Host.antt =====
-- The Raspberry Pi's side of the link: modules/autonomy_pi/ros/autonomy_teensy.
pub mod Error
pub mod Cobs
pub mod Crc
pub mod Ids
pub mod Packet
pub mod Client
pub mod Command
pub mod Node
