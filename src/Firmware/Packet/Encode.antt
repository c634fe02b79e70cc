-- ===== src/Firmware/Packet/Encode.antt =====
-- About encode of modules/teensy/lib/packet/packet.cpp.
use native.Mathlib.Nat.{zero-add}
use rdml_blue_rov2_deploymen.Common.{ℕ, suc, ◌+◌, ◌-◌, ◌<◌, ◌≤◌, ◌≡◌, sym, ap, ◌∙◌, ◌⊎◌, arith}
use rdml_blue_rov2_deploymen.Common.{
  List, [], ◌∷◌, ◌++◌, append_assoc, length, length-append, length-replicate, replicate, take,
  take-append,
}
use rdml_blue_rov2_deploymen.Common.{le→ltb_false, ne→==_false}
use rdml_blue_rov2_deploymen.Common.{Result, ok, err, ◌>>=◌, store, store-append}
use rdml_blue_rov2_deploymen.Wire.Cobs.Laws.{length-stuff}
use rdml_blue_rov2_deploymen.Wire.Packet.{contents, frame}
use rdml_blue_rov2_deploymen.Firmware.Crc.{calculate_crc}
use rdml_blue_rov2_deploymen.Firmware.Cobs.{Failure, minus_one, encode_cobs}
use rdml_blue_rov2_deploymen.Firmware.Cobs.Encode.{Writes, encode_cobs-Writes}
use rdml_blue_rov2_deploymen.Firmware.Packet.{
  Packet, copy_to_frame, encode, max_payload_size, max_encoded_size,
}
use rdml_blue_rov2_deploymen.Firmware.Packet.Copies.{two-add, copy_to_frame-append, replicate-add}

-- The array `frame` when it is handed to `encode_cobs`, for the payload `p` of a packet.
module _ (a b : ℕ) (p rest : List ℕ) (m : ℕ) (h : length p + m ≡ max_payload_size) where
  payload_copied :
      copy_to_frame (length p) 0 (p ++ rest) (a ∷ b ∷ replicate 65 0)
      ≡ ok ((a ∷ b ∷ p) ++ (0 ∷ replicate m 0))
  payload_copied =
      ap (λ z. copy_to_frame (length p) 0 (p ++ rest) (a ∷ b ∷ z)) zeros
      ∙ copy_to_frame-append p [] rest (replicate (length p) 0) (0 ∷ replicate m 0) a b
          (length-replicate (length p) 0)
    where
      room : 65 ≡ length p + suc m
      room = omega arith

      zeros : replicate {A = ℕ} 65 0 ≡ replicate (length p) 0 ++ (0 ∷ replicate m 0)
      zeros = ap (λ n. replicate {A = ℕ} n 0) room ∙ replicate-add (length p) (suc m) 0

  crc_stored :
      (v : ℕ)
      → store {E = Failure} ((a ∷ b ∷ p) ++ (0 ∷ replicate m 0)) (2 + length p) v
        ≡ ok ((a ∷ b ∷ p) ++ (v ∷ replicate m 0))
  crc_stored v = rw (two-add (length p)) (store-append (a ∷ b ∷ p) 0 (replicate m 0) v)

  body_taken : take (2 + length p) ((a ∷ b ∷ p) ++ (0 ∷ replicate m 0)) ≡ a ∷ b ∷ p
  body_taken = rw (two-add (length p)) (take-append (a ∷ b ∷ p) (0 ∷ replicate m 0))

  contents_taken :
      take (2 + length p + 1) ((a ∷ b ∷ p) ++ (calculate_crc (a ∷ b ∷ p) ∷ replicate m 0))
      ≡ contents a b p
  contents_taken =
      rw size
        (ap (take (length (contents a b p))) regroup ∙ take-append (contents a b p) (replicate m 0))
    where
      size : 2 + length p + 1 ≡ length (contents a b p)
      size = omega (arith, length-append p (calculate_crc (a ∷ b ∷ p) ∷ []))

      regroup :
          (a ∷ b ∷ p) ++ (calculate_crc (a ∷ b ∷ p) ∷ replicate m 0)
          ≡ contents a b p ++ replicate m 0
      regroup =
          ap (λ l. a ∷ b ∷ l)
            (sym (append_assoc p (calculate_crc (a ∷ b ∷ p) ∷ []) (replicate m 0)))

  encode-contents :
      (out : List ℕ) (out_size : ℕ)
      → 0 < out_size
      → encode
          (record { packet_id = a; device_id = b; payload = p ++ rest; size = length p })
          out
          out_size
        ≡ (encode_cobs (contents a b p) out (out_size - 1) >>= λ (out', n).
            store out' n 0 >>= λ out''. ok (out'', n + 1))
  unfolding encode
  encode-contents out out_size pos = rw (
    le→ltb_false 64 (length p) (omega arith),
    ne→==_false out_size 0 (λ e. omega arith),
    payload_copied,
    body_taken,
    crc_stored,
    contents_taken,
  )

-- The delimiter goes behind the frame.
delimiter_stored :
    (encoded out : List ℕ) {r : Result Failure (List ℕ × ℕ)}
    → length encoded < length out
    → Writes [] encoded (length out) r
    → Writes []
        (encoded ++ (0 ∷ []))
        (length out)
        (r >>= λ (out', n). store out' n 0 >>= λ out''. ok (out'', n + 1))
delimiter_stored encoded out {r} h w = close w.unused w.result w.fits
  where
    close :
        (unused : List ℕ)
        → r ≡ ok (encoded ++ unused, 0 + length encoded)
        → length out ≡ length encoded + length unused
        → Writes []
            (encoded ++ (0 ∷ []))
            (length out)
            (r >>= λ (out', n). store out' n 0 >>= λ out''. ok (out'', n + 1))
    close [] e fits = absurd (omega arith)
    close (t ∷ unused) e fits = record {
      unused = unused;
      result =
          rw (e, zero-add, store-append)
            (ground (arith, append_assoc encoded (0 ∷ []) unused, length-append encoded (0 ∷ [])));
      fits = omega (arith, length-append encoded (0 ∷ []));
    }

-- With room for the longest frame, `encode` writes the frame of the first `size` bytes of the payload and
-- the delimiter at the front of the array, and returns their number.
pub encode-frame :
    (a b : ℕ) (p rest out : List ℕ) (out_size : ℕ)
    → length p ≤ max_payload_size
    → max_encoded_size ≤ out_size
    → out_size ≤ length out
    → Writes [] (frame a b p ++ (0 ∷ [])) (length out) (
        encode
          (record { packet_id = a; device_id = b; payload = p ++ rest; size = length p })
          out
          out_size)
encode-frame a b p rest out out_size hp hs ho =
    rw (encode-contents a b p rest (64 - length p) (omega arith) out out_size (omega arith)) (
      delimiter_stored (frame a b p) out (omega (arith, size, length-stuff [] (contents a b p))) (
        encode_cobs-Writes (contents a b p) out (out_size - 1) (omega (arith, size)) (omega arith)))
  where
    size : length (contents a b p) ≡ length p + 3
    size = omega (arith, length-append p (calculate_crc (a ∷ b ∷ p) ∷ []))

-- A size beyond the largest payload, or an empty array, gives -1.
pub encode_rejects :
    (packet : Packet) (out : List ℕ) (out_size : ℕ)
    → (max_payload_size < packet.size) ⊎ (out_size ≡ 0)
    → encode packet out out_size ≡ err minus_one
unfolding encode
encode_rejects packet out out_size h = ground arith
