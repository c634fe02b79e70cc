-- ===== src/Firmware/Client/Send.antt =====
-- About send_bytes of modules/teensy/lib/packet/client.cpp.
use native.Mathlib.Nat.{zero-add}
use rdml_blue_rov2_deploymen.Common.{ℕ, ◌-◌, ◌≤◌, ◌≡◌, arith, true}
use rdml_blue_rov2_deploymen.Common.{
  List, [], ◌∷◌, ◌++◌, length, replicate, take-append, le→ltb_false,
}
use rdml_blue_rov2_deploymen.Common.{Result, ok}
use rdml_blue_rov2_deploymen.Wire.Packet.{frame}
use rdml_blue_rov2_deploymen.Firmware.Cobs.{Failure}
use rdml_blue_rov2_deploymen.Firmware.Cobs.Encode.{Writes}
use rdml_blue_rov2_deploymen.Firmware.Packet.{max_payload_size, max_encoded_size}
use rdml_blue_rov2_deploymen.Firmware.Packet.Encode.{encode-frame}
use rdml_blue_rov2_deploymen.Firmware.Client.{Stream, copy_payload, write_encoded, send_bytes}

write_encoded-Writes :
    (stream : Stream) (bytes : List ℕ) (room : ℕ) (r : Result Failure (List ℕ × ℕ))
    → Writes [] bytes room r
    → write_encoded stream r ≡ ok (true, record stream { output = stream.output ++ bytes })
unfolding write_encoded
write_encoded-Writes stream bytes room r w = rw (w.result, zero-add, take-append)

-- A payload of 64 bytes at most is sent: the output grows by its frame and the delimiter.
pub send_bytes-frame :
    (a b : ℕ) (bytes : List ℕ) (stream : Stream)
    → length bytes ≤ max_payload_size
    → send_bytes a b bytes stream
      ≡ ok (true, record stream { output = stream.output ++ (frame a b bytes ++ (0 ∷ [])) })
unfolding send_bytes copy_payload
send_bytes-frame a b bytes stream h = rw (le→ltb_false max_payload_size (length bytes) h) (
    write_encoded-Writes stream (frame a b bytes ++ (0 ∷ [])) _ _ (
      encode-frame a b bytes (replicate (64 - length bytes) 0) (replicate max_encoded_size 0)
        max_encoded_size h (omega arith) (omega arith)))
