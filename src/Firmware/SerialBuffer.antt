-- ===== src/Firmware/SerialBuffer.antt =====
-- modules/teensy/lib/packet/serial_buffer.cpp.
pub mod Holds
use rdml_blue_rov2_deploymen.Common.{ℕ, ◌+◌, Bool, true, false, not, ◌&&◌, List, take, replicate}
use rdml_blue_rov2_deploymen.Common.{ltb, leb, ◌==◌, if◌then◌else◌, Result, ok, ◌>>=◌, store}
use rdml_blue_rov2_deploymen.Firmware.Cobs.{Failure}
use rdml_blue_rov2_deploymen.Firmware.Packet.{max_encoded_size}

-- `buffer` is the whole array of `max_encoded_size` bytes.
pub record SerialBuffer : Type 0 where
  pub buffer : List ℕ
  pub len : ℕ
  pub overflowed : Bool

abbrev pub empty_buffer : SerialBuffer
empty_buffer = record { buffer = replicate max_encoded_size 0; len = 0; overflowed = false }

unfoldable pub reset : SerialBuffer → SerialBuffer
reset b = record b { len = 0; overflowed = false }

-- The result of the call, and the buffer after it.
unfoldable pub push : SerialBuffer → ℕ → Result Failure (Bool × SerialBuffer)
unfolding reset
push b byte =
    if byte == 0x00
    then (let have_frame = ltb 0 b.len && not b.overflowed in
        ok (have_frame, if not have_frame then reset b else b))
    else if leb max_encoded_size b.len
    then ok (false, record b { overflowed = true })
    else (do
      buffer ← store b.buffer b.len byte
      ok (false, record b { buffer = buffer; len = b.len + 1 }))

-- `data()` and `size()`: the buffered bytes.
unfoldable pub contents : SerialBuffer → List ℕ
contents b = take b.len b.buffer
