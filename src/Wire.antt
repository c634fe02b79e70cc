-- ===== src/Wire.antt =====
-- What the two ends of the serial link have in common: the format of a frame, by itself.
pub mod Cobs
pub mod Crc
pub mod Packet
