-- ===== src/Host/Error.antt =====
-- The `std::invalid_argument` exceptions that modules/autonomy_pi/ros/autonomy_teensy throws, one for
-- each message.
pub data InvalidArgument : Type 0 where
  zero_in_frame : InvalidArgument
  code_past_end : InvalidArgument
  too_short : InvalidArgument
  crc_mismatch : InvalidArgument
  payload_too_large : InvalidArgument
  not_enough_bytes : InvalidArgument
