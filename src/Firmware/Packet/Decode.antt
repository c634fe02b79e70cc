-- ===== src/Firmware/Packet/Decode.antt =====
-- About decode of modules/teensy/lib/packet/packet.cpp, beside decode_packet of the driver.
use rdml_blue_rov2_deploymen.Common.{
  ℕ, suc, ◌+◌, ◌-◌, ◌<◌, ◌≤◌, ◌≡◌, refl, ap, ◌∙◌, arith, Option, none, some,
}
use rdml_blue_rov2_deploymen.Common.{
  List, [], ◌∷◌, ◌++◌, append_assoc, length, length-replicate, replicate, take-append,
}
use rdml_blue_rov2_deploymen.Common.{leb, le→ltb_false, lt→ltb, if◌then◌else◌}
use rdml_blue_rov2_deploymen.Common.{Result, ok, err, fault, stuck, load-append}
use rdml_blue_rov2_deploymen.Host.Error.{InvalidArgument}
use rdml_blue_rov2_deploymen.Host.Packet
use rdml_blue_rov2_deploymen.Host.Packet.Frames.{parse_decoded_lem, short, full, shape}
use rdml_blue_rov2_deploymen.Firmware.Cobs.Decode.{fits, long, bad, decode_cobs-SameDecode}
use rdml_blue_rov2_deploymen.Firmware.Packet.{
  Packet, copy_from_frame, parse_decoded, decode, max_frame_size, max_payload_size,
}
use rdml_blue_rov2_deploymen.Firmware.Packet.Copies.{copy_from_frame-append, replicate-add}

-- The driver's packet in the firmware's form: the payload in an array of 64 bytes.
unfoldable pub embedded : Packet.Packet → Packet
embedded packet = record {
  packet_id = packet.packet_id;
  device_id = packet.device_id;
  payload = packet.payload ++ replicate (max_payload_size - length packet.payload) 0;
  size = length packet.payload;
}

-- What the firmware makes of the driver's result.
unfoldable pub accepted : Result InvalidArgument Packet.Packet → Option Packet
unfolding embedded
accepted (ok packet) =
    if leb (length packet.payload) max_payload_size then some (embedded packet) else none
accepted (err e) = none
accepted fault = none
accepted stuck = none

module _ (a b : ℕ) (p : List ℕ) (c : ℕ) (unused : List ℕ) (h : length p ≤ max_payload_size) where
  payload_copied :
      copy_from_frame (length p) 0 (a ∷ b ∷ (p ++ (c ∷ unused))) (replicate 64 0)
      ≡ ok (p ++ replicate (64 - length p) 0)
  payload_copied =
      ap (copy_from_frame (length p) 0 (a ∷ b ∷ (p ++ (c ∷ unused)))) zeros
      ∙ copy_from_frame-append p [] (c ∷ unused) (replicate (length p) 0)
          (replicate (64 - length p) 0) a b (length-replicate (length p) 0)
    where
      room : 64 ≡ length p + (64 - length p)
      room = omega arith

      zeros : replicate {A = ℕ} 64 0 ≡ replicate (length p) 0 ++ replicate (64 - length p) 0
      zeros = ap (λ n. replicate {A = ℕ} n 0) room ∙ replicate-add (length p) (64 - length p) 0

  -- What three bytes or more parse to.
  parse_decoded_firmware :
      parse_decoded (a ∷ b ∷ (p ++ (c ∷ unused))) (length p + 3)
      ≡ ok (accepted (Packet.parse_decoded (a ∷ b ∷ (p ++ (c ∷ [])))))
  unfolding parse_decoded accepted
  parse_decoded_firmware =
      rw
        (
          le→ltb_false (length p + 3) 3 (omega arith),
          body_size,
          load-append,
          take-append,
          payload_size,
          payload_copied,
          parse_decoded_lem,
        )
        (ground arith)
    where
      body_size : length p + 3 - 1 ≡ suc (suc (length p))
      body_size = omega arith

      payload_size : suc (suc (length p)) - 2 ≡ length p
      payload_size = omega arith

-- The firmware on what the driver has decoded, and on more than its array holds.
parse_decoded-accepted :
    (d unused : List ℕ)
    → length d ≤ max_frame_size
    → parse_decoded (d ++ unused) (length d) ≡ ok (accepted (Packet.parse_decoded d))
parse_decoded-accepted d unused h = elim (shape d) [
  | short few ↦ unfold parse_decoded Packet.parse_decoded accepted in rw (lt→ltb (length d) 3 few)
  | full a b p c e size ↦
      rw (size, e, append_assoc p (c ∷ []) unused)
        (parse_decoded_firmware a b p c unused (omega arith))
]

too_long-accepted :
    (d : List ℕ) → max_frame_size < length d → accepted (Packet.parse_decoded d) ≡ none
too_long-accepted d h = elim (shape d) [
  | short few ↦ absurd (omega arith)
  | full a b p c e size ↦ rw (e, parse_decoded_lem) (unfold accepted in ground arith)
]

-- On every list of bytes the firmware's `decode` returns the packet that the driver's `decode_packet`
-- returns, if its payload has 64 bytes at most, and `std::nullopt` if it is longer or the driver throws.
pub decode-accepted : (bytes : List ℕ) → decode bytes ≡ ok (accepted (Packet.decode_packet bytes))
unfolding decode Packet.decode_packet
decode-accepted bytes =
    elim (decode_cobs-SameDecode bytes (replicate max_frame_size 0) max_frame_size (omega arith)) [
      | fits d unused hd fd le total ↦ rw (hd, fd, decode) (parse_decoded-accepted d unused le)
      | long d hd fd gt ↦ rw (hd, fd, decode, too_long-accepted d gt)
      | bad x hd fd ↦ rw (hd, fd, decode) (unfold accepted in refl)
    ]
