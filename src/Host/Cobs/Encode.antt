-- ===== src/Host/Cobs/Encode.antt =====
-- About encode_cobs of modules/autonomy_pi/ros/autonomy_teensy/src/cobs.cpp, beside encode_cobs of the firmware.
use native.Mathlib.Nat.{zero-add}
use rdml_blue_rov2_deploymen.Common.{ℕ, ◌+◌, ◌-◌, ◌/◌, ◌≡◌, refl, ◌∙◌, arith}
use rdml_blue_rov2_deploymen.Common.{
  List, [], ◌∷◌, ◌++◌, append-nil, length, length-append, take-append, replicate, length-replicate,
}
use rdml_blue_rov2_deploymen.Common.{Result, ok, err, fault, stuck, store, ◌>>=◌}
use rdml_blue_rov2_deploymen.Wire.Cobs.{stuff}
use rdml_blue_rov2_deploymen.Host.Cobs.{Encoder, encode_byte, encode_loop, resize, encode_cobs}
use rdml_blue_rov2_deploymen.Firmware.Cobs
use rdml_blue_rov2_deploymen.Firmware.Cobs.Encode.{Writes, encode_room-Writes}

-- The firmware's variables, and how the two loops correspond.
abbrev firmware : Encoder → Cobs.Encoder
firmware e = record { out = e.out; write = e.write; code_index = e.code_index; code = e.code }

abbrev both {ℓ} : {E : Type ℓ} → Result E Encoder → Result E Cobs.Encoder
both m = m >>= λ e. ok (firmware e)

module _ {ℓ} {E : Type ℓ} where
  encode_byte-firmware :
      (e : Encoder) (b : ℕ) → both (encode_byte {E = E} e b) ≡ Cobs.encode_byte (firmware e) b
  unfolding encode_byte Cobs.encode_byte
  encode_byte-firmware e b = ground arith

  both-bind :
      (m : Result E Encoder) (k : Encoder → Result E Encoder)
      (k' : Cobs.Encoder → Result E Cobs.Encoder)
      → ((e : Encoder) → both (k e) ≡ k' (firmware e))
      → both (m >>= k) ≡ (both m >>= k')
  both-bind (ok e) k k' h = h e
  both-bind (err x) k k' h = refl
  both-bind fault k k' h = refl
  both-bind stuck k k' h = refl

  encode_loop-firmware :
      (bytes : List ℕ) (e : Encoder)
      → both (encode_loop {E = E} bytes e) ≡ Cobs.encode_loop bytes (firmware e)
  unfolding encode_loop Cobs.encode_loop
  encode_loop-firmware [] e = refl
  encode_loop-firmware (b ∷ bytes) e =
      both-bind (encode_byte e b) (encode_loop bytes) (Cobs.encode_loop bytes)
        (λ e'. encode_loop-firmware bytes e')
      ∙ rw encode_byte-firmware

resize-append : (frame unused : List ℕ) → resize (frame ++ unused) (length frame) ≡ frame
unfolding resize
resize-append frame unused = rw (take-append, length-append, nothing) (append-nil frame)
  where
    nothing : length frame - (length frame + length unused) ≡ 0
    nothing = omega arith

module _ {ℓ} {E : Type ℓ} (frame unused : List ℕ) where
  -- What follows the loop: the store, and the cut to the length of the frame.
  resize_firmware :
      (m : Result E (List ℕ)) (write : ℕ)
      → ◌>>=◌ {B = List ℕ × ℕ} m (λ out. ok (out, write)) ≡ ok (frame ++ unused, length frame)
      → (m >>= λ out. ok (resize out write)) ≡ ok frame
  resize_firmware (ok out) write h = ground (arith, resize-append frame unused)
  resize_firmware (err x) write h = cc
  resize_firmware fault write h = cc
  resize_firmware stuck write h = cc

  finish_firmware :
      (m : Result E Encoder)
      → (both m >>= Cobs.encode_end) ≡ ok (frame ++ unused, length frame)
      → (m >>= λ e. store e.out e.code_index e.code >>= λ out. ok (resize out e.write)) ≡ ok frame
  unfolding Cobs.encode_end
  finish_firmware (ok e) h = resize_firmware (store e.out e.code_index e.code) e.write h
  finish_firmware (err x) h = cc
  finish_firmware fault h = cc
  finish_firmware stuck h = cc

-- `encode_cobs` returns the stuffing of any list of bytes, and never writes outside its vector.
pub encode_cobs-stuff {ℓ} :
    {E : Type ℓ} (bytes : List ℕ) → encode_cobs {E = E} bytes ≡ ok (stuff [] bytes)
unfolding encode_cobs
encode_cobs-stuff {E} bytes =
    finish_firmware (stuff [] bytes) w.unused (encode_loop bytes start)
      (rw (encode_loop-firmware bytes start) (w.result ∙ rw zero-add))
  where
    room : List ℕ
    room = replicate (length bytes + length bytes / 254 + 1) 0

    start : Encoder
    start = record { out = room; write = 1; code_index = 0; code = 1 }

    w :
        Writes {E = E} []
          (stuff [] bytes)
          (length room)
          (Cobs.encode_loop bytes (firmware start) >>= Cobs.encode_end)
    w = encode_room-Writes bytes room (rw length-replicate (omega arith))
