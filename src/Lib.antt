-- ===== src/Lib.antt =====
-- The serial link of the BlueROV2 between the Teensy microcontroller and the Raspberry Pi: byte stuffing,
-- checksum, packets, the buffer that finds the frames, and the two clients.
--
-- The firmware under modules/teensy answers commands that arrive on its serial port and sends the readings
-- of the inertial sensor. The ROS driver under modules/autonomy_pi/ros/autonomy_teensy sends the commands
-- and decodes what comes back. Each end has its own copy of the protocol. A packet is its two identifiers,
-- a payload of at most 64 bytes and a checksum byte; it is stuffed so that it has no zero byte, and a zero
-- byte delimits it.
--
-- Common holds the shared names: native numbers, lists, Boolean tests, exclusive or, and `Result`, the
-- outcome of code that may fail. `err` is a failure that the code reports, `fault` an access outside an
-- array, `stuck` a loop without fuel.
-- Wire describes the protocol apart from the code: Wire/Cobs the stuffing, as a relation and block by
-- block; Wire/Crc the checksum as a remainder of polynomials; Wire/Packet the frame of a packet.
-- Firmware is modules/teensy/lib/packet:
--   Firmware/Cobs          cobs.cpp (encode_cobs, decode_cobs)
--   Firmware/Crc           crc.cpp (calculate_crc)
--   Firmware/Ids           packet_id.h, device_id.h, command.h
--   Firmware/Packet        packet.cpp, packet.h (encode, decode)
--   Firmware/SerialBuffer  serial_buffer.cpp, serial_buffer.h (push, data, size, reset)
--   Firmware/Client        client.cpp, client.h (send, register_handler, poll_command)
-- and the rest of modules/teensy:
--   Firmware/Imu           lib/bno085/bno085.cpp, bno085.h (begin, configure, reset, read, the calibration);
--                          Firmware/Imu/Restore has what reset leaves on the sensor
--   Firmware/Main          src/main.cpp, include/ (the handlers, setup, loop)
-- Host is modules/autonomy_pi/ros/autonomy_teensy:
--   Host/Error             the exceptions std::invalid_argument
--   Host/Cobs              src/cobs.cpp
--   Host/Crc               src/crc.cpp
--   Host/Ids               packet_id.hpp, device_id.hpp, command.hpp
--   Host/Packet            src/packet.cpp, packet.hpp (decode_packet, decode_packets, encode_packet)
--   Host/Client            src/client.cpp, client.hpp (the constructor, register_callback,
--                          poll_connection, send); Host/Client/Threads has the reading thread and
--                          the destructor as steps, Host/Client/Registry/Tables callbacks_
--                          without the order of its entries
--   Host/Command           src/driver.cpp, driver.hpp (send_command, the callback on COMMAND_RESPONSE);
--                          Host/Command/Turns has send_command as steps beside the reading thread
--   Host/Node              src/driver.cpp, driver.hpp (the other callbacks); Host/Node/Lifecycle has
--                          on_configure, on_activate, on_deactivate, on_cleanup and the services, and
--                          Host/Node/Teardown the end of the node beside the reading thread
-- Link is about both ends, on the way of a command and of its answer; Link/Calibration about the commands
-- of the calibration; Link/Telemetry about packets that the firmware sends; Link/Status and Link/Motion
-- about the way of a calibration status and of a sample to the messages that the node publishes, by way of
-- Link/Delivery; Link/Service about a service of the node, the firmware and the answer.
-- The children of these modules hold the proofs; Tests applies the theorems at concrete inputs.
--
-- A byte is a number below 256, a pointer with a size is the list of its bytes, and an array is the list of
-- all its elements: a load or a store outside it is a fault. A byte keeps its wrap-around (`% 256`), and so
-- does the index of a handler (`% 2 ^ 32`, the size_t of the Teensy). The other sums of sizes stay far
-- below 2 ^ 32, since each is at most the length of an array and a small constant.
--
-- The loops over a frame run on fuel, the number of its bytes: each round takes at least one. The loops
-- of a client run over the bytes, or over the rounds of reading, that the environment supplies.
-- Handlers and callbacks are functions on a state of any type, a parameter, so that the theorems on the
-- clients hold for all of them.
--
-- The library of the sensor, the clock and the arithmetic of float are not part of the repository: they
-- are the record `Board` of Firmware/Imu, and the bytes of a float a function. Where a theorem relies on
-- the constants of sh2.h it has them as the hypothesis `IsSh2`, or `HasIds` for the identifiers of events; `Settings`
-- says that a call of the library that succeeds makes its own setting on the sensor and no other; and
-- `IsFloat` says that a float comes back from its four bytes.
--
-- The loop of `begin` runs on as many rounds as its timeout has milliseconds, and one more: each round waits
-- for 100 ms. That it ends rests on the hypothesis `HasClock`, a clock that goes on, is not set back, and
-- that `millis` shows modulo 2 ^ 32.
--
-- ROS is not part of the repository either: its clock and the arithmetic of float and double are the record
-- `Ros` of Host/Node, a publisher is null or tells whether it is activated, what is published is collected,
-- and the parameters come with an event. Where a theorem needs their validation it has `IsValid` as a
-- hypothesis.
--
-- The threads: in Host/Client/Threads the reading thread and the owner of a client take turns, and in
-- Host/Command/Turns a call of `send_command` and what the reading thread does to it; the part of a call that
-- is under a lock is one step, and so is a call of `send`. In Host/Node/Teardown the reading thread takes turns
-- with the transitions of the node: each reset or activation of one member is a step of the owner, and so is
-- the block under the lock; a call of one callback is one step of the reading thread, so that no member is
-- changed while a callback runs. In Host/Client the reading thread is the sequence
-- of its rounds. Elsewhere the threads are sequences: what arrives while an attempt of `send_command` waits,
-- and when the link fails, is a function of the attempt that the environment chooses, and Host/Node/Reach
-- runs the node over any list of transitions, packets and calls of services, one after another.
--
-- The class overrides four transitions of a managed node. The two that it inherits are those that
-- rclcpp_lifecycle documents: `on_shutdown` does nothing and succeeds, `on_error` fails; both lead to the stage
-- `finalized`.
--
-- `command_retries` and the attempts are numbers without a bound: the loop of `send_command` counts its attempts
-- in an `int` up to a parameter of 64 bits, and the two agree as long as that is below 2 ^ 31. A write to the
-- port that fails is taken to put out no bytes. The repeated calls of `loop` are the Arduino core's, over a list
-- of what arrives.
--
-- Not modelled: the locks by themselves, what is logged or printed for a person, and everything that is not
-- C++. The destruction of the node without a cleanup is a run in Tests/Teardown.
pub mod Common
pub mod Wire
pub mod Firmware
pub mod Host
pub mod Link
pub mod Tests
