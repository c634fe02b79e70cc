-- ===== src/Firmware/Cobs.antt =====
-- modules/teensy/lib/packet/cobs.cpp. A pointer and a size that are only read are the list of those
-- bytes; `out` is the whole array behind the pointer, and `out_size` the size that is passed.
-- An index into an array stays below 2^32, so no `size_t` sum here wraps before `store` faults.
pub mod Encode
pub mod Decode
use rdml_blue_rov2_deploymen.Common.{ℕ, zero, suc, ◌+◌, ◌-◌, ◌/◌, ◌%◌, not, ◌&&◌}
use rdml_blue_rov2_deploymen.Common.{List, [], ◌∷◌, length, is_empty, ltb, leb, ◌==◌, if◌then◌else◌}
use rdml_blue_rov2_deploymen.Common.{Result, ok, err, stuck, ◌>>=◌, store}

-- The `-1` that stands for every failure.
pub data Failure : Type 0 where
  minus_one : Failure

-- The local variables of the loop of `encode_cobs`.
pub record Encoder : Type 0 where
  pub out : List ℕ
  pub write : ℕ
  pub code_index : ℕ
  pub code : ℕ

-- One round of the loop. It has no failure of its own, so it is written for any.
unfoldable pub encode_byte {ℓ} : {E : Type ℓ} → Encoder → ℕ → Result E Encoder
encode_byte e b =
    if b == 0
    then (do
      out ← store e.out e.code_index e.code
      ok (record { out = out; write = e.write + 1; code_index = e.write; code = 1 }))
    else (do
      out ← store e.out e.write b
      let code = (e.code + 1) % 256
      if code == 0xff
          then (do
            out' ← store out e.code_index code
            ok (record { out = out'; write = e.write + 1 + 1; code_index = e.write + 1; code = 1 }))
          else ok
              (record { out = out; write = e.write + 1; code_index = e.code_index; code = code }))

unfoldable pub encode_loop {ℓ} : {E : Type ℓ} → List ℕ → Encoder → Result E Encoder
encode_loop [] e = ok e
encode_loop (b ∷ bytes) e = do e' ← encode_byte e b; encode_loop bytes e'

-- `out[code_index] = code; return write;`
unfoldable pub encode_end {ℓ} : {E : Type ℓ} → Encoder → Result E (List ℕ × ℕ)
encode_end e = do out ← store e.out e.code_index e.code; ok (out, e.write)

-- The result is the array behind `out` and the number of bytes written.
pub encode_cobs : List ℕ → List ℕ → ℕ → Result Failure (List ℕ × ℕ)
unfolding encode_end
encode_cobs bytes out out_size =
    if ltb out_size (length bytes + length bytes / 254 + 1) then err minus_one else (do
      e ← encode_loop bytes (record { out = out; write = 1; code_index = 0; code = 1 })
      encode_end e)

-- `if (write >= out_size) return -1; out[write++] = byte;`, which the loop does at two places.
pub put : ℕ → List ℕ → ℕ → ℕ → Result Failure (List ℕ × ℕ)
put out_size out write byte =
    if leb out_size write
    then err minus_one
    else (do out' ← store out write byte; ok (out', write + 1))

-- The inner loop, by the rounds that are left; the first list is the bytes from `read` on. The result
-- is what is left of it, the array and `write`.
unfoldable pub copy_block : ℕ → ℕ → List ℕ → List ℕ → ℕ → Result Failure (List ℕ × List ℕ × ℕ)
copy_block out_size zero rest out write = ok (rest, out, write)
copy_block out_size (suc n) [] out write = err minus_one
copy_block out_size (suc n) (byte ∷ rest) out write = do
  (out', write') ← put out_size out write byte
  copy_block out_size n rest out' write'

-- The outer loop. Each round takes a byte, so as many rounds as there are bytes are enough.
unfoldable pub decode_loop : ℕ → ℕ → List ℕ → List ℕ → ℕ → Result Failure (List ℕ × ℕ)
decode_loop fuel out_size [] out write = ok (out, write)
decode_loop zero out_size (code ∷ rest) out write = stuck
decode_loop (suc fuel) out_size (code ∷ rest) out write = if code == 0 then err minus_one else (do
  (rest', out', write') ← copy_block out_size (code - 1) rest out write
  (out'', write'') ←
      (if not (code == 0xff) && not (is_empty rest')
        then put out_size out' write' 0
        else ok (out', write'))
  decode_loop fuel out_size rest' out'' write'')

unfoldable pub decode_cobs : List ℕ → List ℕ → ℕ → Result Failure (List ℕ × ℕ)
decode_cobs bytes out out_size = decode_loop (length bytes) out_size bytes out 0
