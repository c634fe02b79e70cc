-- ===== src/Firmware/Cobs/Encode.antt =====
-- About encode_cobs of modules/teensy/lib/packet/cobs.cpp.
use native.Mathlib.Nat.{zero-add}
use rdml_blue_rov2_deploymen.Common.{ℕ, suc, ◌+◌, ◌/◌, ◌%◌, ◌<◌, ◌≤◌, ◌≡◌, ◌≢◌, subst, ◌∙◌}
use rdml_blue_rov2_deploymen.Common.{List, [], ◌∷◌, ◌++◌, append_assoc, arith}
use rdml_blue_rov2_deploymen.Common.{length, length-append, ne→==_false, lt→ltb, le→ltb_false}
use rdml_blue_rov2_deploymen.Common.{Result, ok, err, ◌>>=◌, store-append, store-append_between}
use rdml_blue_rov2_deploymen.Wire.Cobs.{stuff}
use rdml_blue_rov2_deploymen.Wire.Cobs.Laws.{
  stuff-nil, stuff_cases, length-stuff, lt-length-stuff, lt-length-stuff_cons,
}
use rdml_blue_rov2_deploymen.Firmware.Cobs.{
  Encoder, minus_one, encode_byte, encode_loop, encode_end, encode_cobs,
}

-- The loop's variables behind the finished blocks `front`, with the block `p` at hand and `after` left
-- of the array.
abbrev at : List ℕ → ℕ → List ℕ → List ℕ → Encoder
at front hole p after = record {
  out = front ++ (hole ∷ (p ++ after));
  write = length front + suc (length p);
  code_index = length front;
  code = suc (length p);
}

module _ {ℓ} {E : Type ℓ} (front : List ℕ) (hole : ℕ) (p : List ℕ) (t : ℕ) (after : List ℕ) where
  byte_zero :
      encode_byte {E = E} (at front hole p (t ∷ after)) 0
      ≡ ok (at (front ++ (suc (length p) ∷ p)) t [] after)
  unfolding encode_byte
  byte_zero = rw store-append (
      ground (
        arith,
        append_assoc front (suc (length p) ∷ p) (t ∷ after),
        length-append front (suc (length p) ∷ p),
      ))

  module _ (b : ℕ) (h : b ≢ 0) where
    byte_more :
        length p < 253
        → encode_byte {E = E} (at front hole p (t ∷ after)) b
          ≡ ok (at front hole (p ++ (b ∷ [])) after)
    unfolding encode_byte
    byte_more hp =
        rw (ne→==_false b 0 h, store-append_between)
          (ground (arith, append_assoc p (b ∷ []) after, length-append p (b ∷ [])))

    byte_full :
        (t' : ℕ)
        → length p ≡ 253
        → encode_byte {E = E} (at front hole p (t ∷ t' ∷ after)) b
          ≡ ok (at (front ++ (255 ∷ (p ++ (b ∷ [])))) t' [] after)
    unfolding encode_byte
    byte_full t' hp =
        rw (ne→==_false b 0 h, store-append_between, code_full, store-append)
          (ground (
            arith,
            append_assoc front (255 ∷ (p ++ (b ∷ []))) (t' ∷ after),
            append_assoc p (b ∷ []) (t' ∷ after),
            length-append front (255 ∷ (p ++ (b ∷ []))),
            length-append p (b ∷ []),
          ))
      where
        code_full : (suc (length p) + 1) % 256 ≡ 255
        code_full = omega arith

-- The loop and the store behind it, from any point on: they write the rest of the frame, and use as
-- many of the `room` places left in the array as it has bytes.
pub record Writes {ℓ} {E : Type ℓ} (front frame : List ℕ) (room : ℕ) (r : Result E (List ℕ × ℕ))
    : Type ℓ where
  pub unused : List ℕ
  pub result : r ≡ ok (front ++ (frame ++ unused), length front + length frame)
  pub fits : room ≡ length frame + length unused

-- A finished block and what is written behind it are one frame.
Writes-append {ℓ} :
    {E : Type ℓ} (front block : List ℕ) {frame : List ℕ} {room room' : ℕ}
    {r : Result E (List ℕ × ℕ)}
    → room' ≡ length block + room
    → Writes (front ++ block) frame room r
    → Writes front (block ++ frame) room' r
Writes-append front block {frame} h w = record {
  unused = w.unused;
  result =
      w.result
      ∙ ground (
        arith,
        append_assoc front block (frame ++ w.unused),
        append_assoc block frame w.unused,
        length-append front block,
        length-append block frame,
      );
  fits = omega (arith, w.fits, length-append block frame);
}

module _ {ℓ} {E : Type ℓ} where
  -- What is left to do, from the loop's variables on.
  abbrev go_on : List ℕ → Encoder → Result E (List ℕ × ℕ)
  go_on bytes e = encode_loop bytes e >>= encode_end

  go_on-cons :
      (b : ℕ) (bytes : List ℕ) (e : Encoder) {e' : Encoder}
      → encode_byte {E = E} e b ≡ ok e'
      → go_on (b ∷ bytes) e ≡ go_on bytes e'
  unfolding encode_loop
  go_on-cons b bytes e h = rw h

  go_on_full :
      (b : ℕ) (bytes front : List ℕ) (hole : ℕ) (p : List ℕ) (t : ℕ) (after : List ℕ)
      → b ≢ 0
      → length p ≡ 253
      → length (stuff [] bytes) + 255 ≤ length p + suc (suc (length after))
      → ((t' : ℕ) (after' : List ℕ)
          → length (stuff [] bytes) ≤ suc (length after')
          → Writes
              (front ++ (255 ∷ (p ++ (b ∷ []))))
              (stuff [] bytes)
              (suc (length after'))
              (go_on bytes (at (front ++ (255 ∷ (p ++ (b ∷ [])))) t' [] after')))
      → Writes front
          ((255 ∷ (p ++ (b ∷ []))) ++ stuff [] bytes)
          (suc (length p + suc (length after)))
          (go_on (b ∷ bytes) (at front hole p (t ∷ after)))
  go_on_full b bytes front hole p t [] ne e fits rest =
      absurd (omega (arith, lt-length-stuff [] bytes))
  go_on_full b bytes front hole p t (t' ∷ after) ne e fits rest =
      rw (go_on-cons _ _ _ (byte_full front hole p t after b ne t' e)) (
        Writes-append front (255 ∷ (p ++ (b ∷ []))) (omega (arith, length-append p (b ∷ [])))
          (rest t' after (omega arith)))

  -- `hole ∷ (p ++ after)` is the part of the array that is not finished.
  go_on-Writes :
      (bytes front : List ℕ) (hole : ℕ) (p after : List ℕ)
      → length p < 254
      → length (stuff p bytes) ≤ suc (length p + length after)
      → Writes front
          (stuff p bytes)
          (suc (length p + length after))
          (go_on bytes (at front hole p after))
  go_on-Writes [] front hole p after hp room = record {
    unused = after;
    result = unfold encode_loop encode_end in rw (store-append, stuff-nil);
    fits = rw stuff-nil (omega arith);
  }
  go_on-Writes (b ∷ bytes) front hole p [] hp room =
      absurd (omega (arith, room, lt-length-stuff_cons p b bytes))
  go_on-Writes (b ∷ bytes) front hole p (t ∷ after) hp room =
      stuff_cases
        (λ l.
          length l ≤ suc (length p + suc (length after))
          → Writes front l (suc (length p + suc (length after)))
              (go_on (b ∷ bytes) (at front hole p (t ∷ after))))
        p b bytes
        (λ e fits.
          rw (e, go_on-cons _ _ _ (byte_zero front hole p t after))
            (Writes-append front (suc (length p) ∷ p) (omega arith) (
              go_on-Writes bytes _ t [] after (omega arith)
                (omega (arith, fits, length-append p (stuff [] bytes))))))
        (λ ne e fits.
          go_on_full b bytes front hole p t after ne e
            (omega (
              arith,
              fits,
              length-append (p ++ (b ∷ [])) (stuff [] bytes),
              length-append p (b ∷ []),
            ))
            (λ t' after' h. rw zero-add at (
              go_on-Writes bytes (front ++ (255 ∷ (p ++ (b ∷ [])))) t' [] after' (omega arith)
                (omega (arith, h)))))
        (λ ne e fits.
          rw (go_on-cons _ _ _ (byte_more front hole p t after b ne (omega arith)), ← room_eq)
            (go_on-Writes bytes front hole (p ++ (b ∷ [])) after (rw length-append (omega arith))
              (rw room_eq fits)))
        room
    where
      room_eq : suc (length (p ++ (b ∷ [])) + length after) ≡ suc (length p + suc (length after))
      room_eq = omega (arith, length-append p (b ∷ []))

-- The loop and the store behind it, on an array with a byte for every started run of 254 bytes beside
-- the bytes themselves.
pub encode_room-Writes {ℓ} :
    {E : Type ℓ} (bytes out : List ℕ)
    → length bytes + length bytes / 254 + 1 ≤ length out
    → Writes {E = E} [] (stuff [] bytes) (length out) (
        encode_loop bytes (record { out = out; write = 1; code_index = 0; code = 1 })
        >>= encode_end)
encode_room-Writes bytes [] h = absurd (omega arith)
encode_room-Writes {E} bytes (hole ∷ after) h =
    subst
      (λ room. Writes [] (stuff [] bytes) (suc room) (go_on {E = E} bytes (at [] hole [] after)))
      (zero-add (length after))
      (go_on-Writes bytes [] hole [] after (omega arith) (omega (arith, length-stuff [] bytes)))

-- `encode_cobs` on bytes for which the array and `out_size` have room writes their stuffing at the
-- front of the array and returns its length.
pub encode_cobs-Writes :
    (bytes out : List ℕ) (out_size : ℕ)
    → length bytes + length bytes / 254 + 1 ≤ out_size
    → out_size ≤ length out
    → Writes [] (stuff [] bytes) (length out) (encode_cobs bytes out out_size)
unfolding encode_cobs
encode_cobs-Writes bytes out out_size h fits =
    rw (le→ltb_false out_size (length bytes + length bytes / 254 + 1) h)
      (encode_room-Writes bytes out (omega arith))

-- Without that room in `out_size` it returns -1.
pub encode_cobs_too_small :
    (bytes out : List ℕ) (out_size : ℕ)
    → out_size < length bytes + length bytes / 254 + 1
    → encode_cobs bytes out out_size ≡ err minus_one
unfolding encode_cobs
encode_cobs_too_small bytes out out_size h =
    rw (lt→ltb out_size (length bytes + length bytes / 254 + 1) h)
