-- ===== src/Host/Packet/Frames.antt =====
-- About encode_packet and decode_packet of modules/autonomy_pi/ros/autonomy_teensy/src/packet.cpp on one frame.
use rdml_blue_rov2_deploymen.Common.{
  ℕ, ◌+◌, ◌-◌, ◌<◌, ◌≡◌, refl, ap, arith, not, false, ◌⊎◌, inl, inr, Bool-cases,
}
use rdml_blue_rov2_deploymen.Common.{
  List, [], ◌∷◌, ◌++◌, length, length-append, take-append, All, All-append, IsByte,
}
use rdml_blue_rov2_deploymen.Common.{ltb, lt→ltb, le→ltb_false, ◌==◌, ==_refl, if◌then◌else◌}
use rdml_blue_rov2_deploymen.Common.{ok, err, load-append}
use rdml_blue_rov2_deploymen.Wire.Cobs.Laws.{stuff-Stuffed, stuff-IsByte}
use rdml_blue_rov2_deploymen.Wire.Packet.{contents, frame}
use rdml_blue_rov2_deploymen.Firmware.Crc
use rdml_blue_rov2_deploymen.Firmware.Crc.Laws.{calculate_crc-IsByte}
use rdml_blue_rov2_deploymen.Host.Error.{
  InvalidArgument, too_short, crc_mismatch, payload_too_large,
}
use rdml_blue_rov2_deploymen.Host.Crc.Agree.{calculate_crc_firmware}
use rdml_blue_rov2_deploymen.Host.Cobs.{decode_cobs}
use rdml_blue_rov2_deploymen.Host.Cobs.Decode.{decode_cobs_iff, decode_loop_total}
use rdml_blue_rov2_deploymen.Host.Cobs.Encode.{encode_cobs-stuff}
use rdml_blue_rov2_deploymen.Host.Packet.{
  Packet, parse_decoded, decode_packet, encode_packet, max_payload_size, packet_delimiter,
}

-- Up to the largest payload `encode_packet` returns the frame and the delimiter; beyond it, it throws.
pub encode_packet-frame :
    (packet_id device_id : ℕ) (payload : List ℕ)
    → encode_packet packet_id device_id payload ≡ (
        if ltb max_payload_size (length payload)
        then err payload_too_large
        else ok (frame packet_id device_id payload ++ (packet_delimiter ∷ [])))
unfolding encode_packet
encode_packet-frame packet_id device_id payload = rw (encode_cobs-stuff, calculate_crc_firmware)

abbrev pub parsed : ℕ → ℕ → List ℕ → Packet
parsed a b p = record { packet_id = a; device_id = b; payload = p }

module _ (a b : ℕ) (p : List ℕ) (c : ℕ) where
  last_index : length (a ∷ b ∷ (p ++ (c ∷ []))) - 1 ≡ length (a ∷ b ∷ p)
  last_index = omega (arith, length-append p (c ∷ []))

  -- What decoded data of three bytes or more parse to.
  pub parse_decoded_lem :
      parse_decoded (a ∷ b ∷ (p ++ (c ∷ [])))
      ≡ (if not (c == Crc.calculate_crc (a ∷ b ∷ p)) then err crc_mismatch else ok (parsed a b p))
  unfolding parse_decoded
  parse_decoded_lem = rw (long_enough, last_index, load-append, take-append, calculate_crc_firmware)
    where
      long_enough : ltb (length (a ∷ b ∷ (p ++ (c ∷ [])))) 3 ≡ false
      long_enough = le→ltb_false _ 3 (omega (arith, length-append p (c ∷ [])))

-- The bytes of a packet are bytes with their checksum.
pub contents-IsByte :
    (a b : ℕ) (p : List ℕ) → IsByte a → IsByte b → All IsByte p → All IsByte (contents a b p)
contents-IsByte a b p ha hb hp =
    (ha, (hb, All-append IsByte p _ hp (calculate_crc-IsByte (a ∷ b ∷ p) (ha, (hb, hp)), tt)))

pub decode_cobs-frame :
    (a b : ℕ) (p : List ℕ)
    → IsByte a
    → IsByte b
    → All IsByte p
    → decode_cobs (frame a b p) ≡ ok (contents a b p)
decode_cobs-frame a b p ha hb hp =
    let bytes : All IsByte (contents a b p) = contents-IsByte a b p ha hb hp in
    (decode_cobs_iff (frame a b p) (contents a b p) (stuff-IsByte [] _ (omega arith) tt bytes)).1
      (stuff-Stuffed [] (contents a b p) (omega arith))

-- `decode_packet` reads a packet of bytes, of any length, back from its frame.
pub decode_packet-frame :
    (a b : ℕ) (p : List ℕ)
    → IsByte a
    → IsByte b
    → All IsByte p
    → decode_packet (frame a b p) ≡ ok (parsed a b p)
unfolding decode_packet
decode_packet-frame a b p ha hb hp =
    rw (decode_cobs-frame a b p ha hb hp, parse_decoded_lem, ==_refl)

-- Three bytes or more, taken apart at both ends.
last_byte : (x : ℕ) (l : List ℕ) → (p : List ℕ) × (c : ℕ) × (x ∷ l ≡ p ++ (c ∷ []))
last_byte x [] = ([], x, refl)
last_byte x (y ∷ l) = let (p, c, e) = last_byte y l in (x ∷ p, c, ap (λ r. x ∷ r) e)

pub data Shape (d : List ℕ) : Type 0 where
  short : length d < 3 → Shape d
  full :
      (a b : ℕ) (p : List ℕ) (c : ℕ)
      → d ≡ a ∷ b ∷ (p ++ (c ∷ []))
      → length d ≡ length p + 3
      → Shape d

pub shape : (d : List ℕ) → Shape d
shape [] = short (omega arith)
shape (a ∷ []) = short (omega arith)
shape (a ∷ b ∷ []) = short (omega arith)
shape (a ∷ b ∷ x ∷ l) =
    let (p, c, e) = last_byte x l in
    full a b p c (ap (λ r. a ∷ b ∷ r) e) (omega (arith, ap length e, length-append p (c ∷ [])))

-- `decode_packet` returns a packet or throws, on any list.
pub parse_decoded_total :
    (d : List ℕ)
    → ((packet : Packet) × (parse_decoded d ≡ ok packet))
      ⊎ ((x : InvalidArgument) × (parse_decoded d ≡ err x))
parse_decoded_total d = elim (shape d) [
  | short few ↦ inr (too_short, unfold parse_decoded in rw (lt→ltb (length d) 3 few))
  | full a b p c e size ↦ elim (Bool-cases (c == Crc.calculate_crc (a ∷ b ∷ p))) [
    | inl same ↦ inl (parsed a b p, rw (e, parse_decoded_lem, same))
    | inr other ↦ inr (crc_mismatch, rw (e, parse_decoded_lem, other))
  ]
]

pub decode_packet_total :
    (bytes : List ℕ)
    → ((packet : Packet) × (decode_packet bytes ≡ ok packet))
      ⊎ ((x : InvalidArgument) × (decode_packet bytes ≡ err x))
unfolding decode_packet decode_cobs
decode_packet_total bytes = elim (decode_loop_total (length bytes) bytes [] (omega arith)) [
  | inl (d, e, _) ↦ rw e (parse_decoded_total d)
  | inr (x, e) ↦ inr (x, rw e)
]
