-- ===== src/Tests.antt =====
-- The theorems at concrete inputs, and runs of the code on inputs whose results are known.
pub mod Driver
pub mod Teensy
pub mod Link
pub mod Sensor
pub mod Board
pub mod Node
pub mod Flow
pub mod Threads
pub mod Turns
pub mod Registry
pub mod Teardown
