-- ===== src/Firmware/Client/Poll.antt =====
-- About the loop of poll_command of modules/teensy/lib/packet/client.cpp.
use rdml_blue_rov2_deploymen.Common.{ℕ, ◌≡◌, refl, ◌∙◌, false, Bool-cases, inl, inr, if◌then◌else◌}
use rdml_blue_rov2_deploymen.Common.{List, [], ◌∷◌, ◌++◌, append_assoc, append-nil, All, Option}
use rdml_blue_rov2_deploymen.Common.{Result, ok, ◌>>=◌}
use rdml_blue_rov2_deploymen.Wire.Cobs.Laws.{IsNonzero}
use rdml_blue_rov2_deploymen.Firmware.Cobs.{Failure}
use rdml_blue_rov2_deploymen.Firmware.Packet.{decode}
use rdml_blue_rov2_deploymen.Firmware.SerialBuffer.{SerialBuffer, push, reset}
use rdml_blue_rov2_deploymen.Firmware.SerialBuffer.Holds.{
  Holds, complete, push-byte, push-delimiter, reset-Holds,
}
use rdml_blue_rov2_deploymen.Firmware.Client.{
  Stream, Client, CommandHandler, dispatch_decoded, poll_loop,
}

module _ {W : Type 0} (handlers : List (Option (CommandHandler W))) (output : List ℕ) (w : W) where
  abbrev pub client : SerialBuffer → Client W
  client b = record { buffer = b; command_handlers = handlers }

  pub poll_loop-byte :
      (x : ℕ) (rest : List ℕ) (b : SerialBuffer) {b' : SerialBuffer}
      → push b x ≡ ok (false, b')
      → poll_loop (x ∷ rest) (client b) output w ≡ poll_loop rest (client b') output w
  unfolding poll_loop
  poll_loop-byte x rest b e = rw (e, poll_loop)

  -- Bytes without a delimiter go into the buffer.
  poll_loop-bytes :
      (f rest q : List ℕ) (b : SerialBuffer)
      → All IsNonzero f
      → Holds b q
      → (b' : SerialBuffer) × Holds b' (q ++ f)
        × (poll_loop (f ++ rest) (client b) output w ≡ poll_loop rest (client b') output w)
  poll_loop-bytes [] rest q b nz h = (b, rw append-nil h, refl)
  poll_loop-bytes (x ∷ f) rest q b (ne, nz) h =
      let (b₁, e₁, h₁) = push-byte q x ne h in
      let (b₂, h₂, e₂) = poll_loop-bytes f rest (q ++ (x ∷ [])) b₁ nz h₁ in
      (b₂, rw (append_assoc q (x ∷ []) f) at h₂, poll_loop-byte x (f ++ rest) b e₁ ∙ e₂)

  -- What `poll_command` does with a frame in the buffer.
  abbrev pub deliver : List ℕ → List ℕ → SerialBuffer → Result Failure (Client W × Stream × W)
  deliver f input b = decode f >>= λ packet.
      dispatch_decoded packet (client b) (record { input = input; output = output }) w
      >>= λ (stream, w'). ok (client b, stream, w')

  -- At a delimiter the bytes since the last one are delivered, if the array has held them and there are
  -- any; if not, the loop goes on with an empty buffer.
  pub poll_loop-delimiter :
      (q input : List ℕ) (b : SerialBuffer)
      → Holds b q
      → (b' : SerialBuffer) × Holds b' []
        × (poll_loop (0 ∷ input) (client b) output w
            ≡ (if complete q then deliver q input b' else poll_loop input (client b') output w))
  poll_loop-delimiter q input b h =
      let (b₁, e, whole, none_yet) = push-delimiter q h in
      elim (Bool-cases (complete q)) [
        | inl c ↦ (
          reset b₁,
          reset-Holds q (whole c).1,
          unfold poll_loop in rw (e, c, poll_loop, (whole c).0),
        )
        | inr c ↦ (b₁, none_yet c, unfold poll_loop in rw (e, c, poll_loop))
      ]

  -- The loop of `poll_command`, behind the bytes `q` in the buffer, on bytes `f` without a delimiter and a
  -- delimiter: if there are between one and as many as the buffer's array has, `q ++ f` is decoded, the
  -- packet is dispatched, and the loop ends; if not, it goes on behind the delimiter. The buffer is empty.
  pub poll_loop-frame :
      (q f input : List ℕ) (b : SerialBuffer)
      → All IsNonzero f
      → Holds b q
      → (b' : SerialBuffer) × Holds b' []
        × (poll_loop (f ++ (0 ∷ input)) (client b) output w ≡ (
            if complete (q ++ f)
            then deliver (q ++ f) input b'
            else poll_loop input (client b') output w))
  poll_loop-frame q f input b nz h =
      let (b₁, h₁, e₁) = poll_loop-bytes f (0 ∷ input) q b nz h in
      let (b₂, h₂, e₂) = poll_loop-delimiter (q ++ f) input b₁ h₁ in (b₂, h₂, e₁ ∙ e₂)
