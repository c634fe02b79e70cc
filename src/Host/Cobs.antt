-- ===== src/Host/Cobs.antt =====
-- modules/autonomy_pi/ros/autonomy_teensy/src/cobs.cpp. A `std::vector` is the list of its elements.
pub mod Decode
pub mod Encode
use rdml_blue_rov2_deploymen.Common.{ℕ, zero, suc, ◌+◌, ◌-◌, ◌/◌, ◌%◌, not, ◌&&◌}
use rdml_blue_rov2_deploymen.Common.{List, [], ◌∷◌, ◌++◌, length, is_empty, take, replicate}
use rdml_blue_rov2_deploymen.Common.{◌==◌, if◌then◌else◌}
use rdml_blue_rov2_deploymen.Common.{Result, ok, err, stuck, ◌>>=◌, store}
use rdml_blue_rov2_deploymen.Host.Error.{InvalidArgument, zero_in_frame, code_past_end}

-- The inner loop of `decode_cobs`, by the rounds that are left. The first list is the packet from `i`
-- on, the second `decoded_data`; the result is both after the loop.
unfoldable pub copy_block : ℕ → List ℕ → List ℕ → Result InvalidArgument (List ℕ × List ℕ)
copy_block zero rest decoded = ok (rest, decoded)
copy_block (suc n) [] decoded = err code_past_end
copy_block (suc n) (byte ∷ rest) decoded = copy_block n rest (decoded ++ (byte ∷ []))

-- The outer loop. Each round takes a byte, so as many rounds as there are bytes are enough.
unfoldable pub decode_loop : ℕ → List ℕ → List ℕ → Result InvalidArgument (List ℕ)
decode_loop fuel [] decoded = ok decoded
decode_loop zero (byte ∷ rest) decoded = stuck
decode_loop (suc fuel) (byte ∷ rest) decoded = if byte == 0 then err zero_in_frame else (do
  (rest', decoded') ← copy_block (byte - 1) rest decoded
  decode_loop fuel rest'
      (if not (byte == 0xff) && not (is_empty rest') then decoded' ++ (0 ∷ []) else decoded'))

unfoldable pub decode_cobs : List ℕ → Result InvalidArgument (List ℕ)
decode_cobs packet = decode_loop (length packet) packet []

-- The local variables of the loop of `encode_cobs`.
pub record Encoder : Type 0 where
  pub out : List ℕ
  pub write : ℕ
  pub code_index : ℕ
  pub code : ℕ

-- One round of the loop, for `byte`. Where the source says `continue`, the branch ends.
unfoldable pub encode_byte {ℓ} : {E : Type ℓ} → Encoder → ℕ → Result E Encoder
encode_byte e byte =
    if byte == 0
    then (do
      out ← store e.out e.code_index e.code
      ok (record { out = out; write = e.write + 1; code_index = e.write; code = 1 }))
    else (do
      out ← store e.out e.write byte
      let code = (e.code + 1) % 256
      if code == 0xff
          then (do
            out' ← store out e.code_index code
            ok (record { out = out'; write = e.write + 1 + 1; code_index = e.write + 1; code = 1 }))
          else ok
              (record { out = out; write = e.write + 1; code_index = e.code_index; code = code }))

unfoldable pub encode_loop {ℓ} : {E : Type ℓ} → List ℕ → Encoder → Result E Encoder
encode_loop [] e = ok e
encode_loop (byte ∷ bytes) e = do e' ← encode_byte e byte; encode_loop bytes e'

-- `out.resize(size)`
pub resize : List ℕ → ℕ → List ℕ
resize out size = take size out ++ replicate (size - length out) 0

pub encode_cobs {ℓ} : {E : Type ℓ} → List ℕ → Result E (List ℕ)
unfolding resize
encode_cobs bytes = do
  let room = replicate (length bytes + length bytes / 254 + 1) 0
  e ← encode_loop bytes (record { out = room; write = 1; code_index = 0; code = 1 })
  out ← store e.out e.code_index e.code
  ok (resize out e.write)
