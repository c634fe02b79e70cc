-- ===== src/Firmware/Client/Total.antt =====
-- About poll_command of modules/teensy/lib/packet/client.cpp on any input.
use rdml_blue_rov2_deploymen.Common.{
  ℕ, zero, suc, ◌-◌, ◌<◌, ◌≤◌, ◌≡◌, refl, arith, not, ◌||◌, Bool-cases, inl, inr,
}
use rdml_blue_rov2_deploymen.Common.{
  Option, none, List, [], ◌∷◌, ◌++◌, length, length-append, length-replicate, replicate, ltb, leb,
  ltb→lt, ◌==◌, ==_false→ne, ==_iff,
}
use rdml_blue_rov2_deploymen.Common.{Result, ok, load}
use rdml_blue_rov2_deploymen.Wire.Packet.{frame}
use rdml_blue_rov2_deploymen.Host.Packet
use rdml_blue_rov2_deploymen.Host.Packet.Frames.{decode_packet_total}
use rdml_blue_rov2_deploymen.Firmware.Cobs.{Failure}
use rdml_blue_rov2_deploymen.Firmware.Ids.{CommandId, command, command_response, to_byte}
use rdml_blue_rov2_deploymen.Firmware.Packet.{Packet, max_payload_size}
use rdml_blue_rov2_deploymen.Firmware.Packet.Decode.{decode-accepted, accepted, embedded}
use rdml_blue_rov2_deploymen.Firmware.SerialBuffer.{SerialBuffer}
use rdml_blue_rov2_deploymen.Firmware.SerialBuffer.Holds.{Holds, complete, push-byte}
use rdml_blue_rov2_deploymen.Firmware.Client.{
  Stream, Client, CommandHandler, handler_index, max_command_handlers, find_handler, answer,
  dispatch_command, dispatch_decoded, poll_loop, poll_command,
}
use rdml_blue_rov2_deploymen.Firmware.Client.Send.{send_bytes-frame}
use rdml_blue_rov2_deploymen.Firmware.Client.Poll.{
  client, deliver, poll_loop-byte, poll_loop-delimiter,
}

-- A call that returns.
abbrev Returns {ℓ} : {A : Type ℓ} → Result Failure A → Type ℓ
Returns {A} r = (a : A) × (r ≡ ok a)

load-Returns {ℓ} :
    {A : Type ℓ} (xs : List A) (i : ℕ) → i < length xs → Returns (load {E = Failure} xs i)
load-Returns [] i h = absurd (omega arith)
load-Returns (x ∷ xs) zero h = (x, refl)
load-Returns (x ∷ xs) (suc i) h = load-Returns xs i (omega arith)

data AtLeastTwo (l : List ℕ) : Type 0 where
  two : (x y : ℕ) (rest : List ℕ) → l ≡ x ∷ y ∷ rest → AtLeastTwo l

at_least_two : (l : List ℕ) → 2 ≤ length l → AtLeastTwo l
at_least_two [] h = absurd (omega arith)
at_least_two (x ∷ []) h = absurd (omega arith)
at_least_two (x ∷ y ∷ rest) h = two x y rest refl

module _ {W : Type 0} where
  find_handler-Returns :
      (command_id : CommandId) (c : Client W)
      → length c.command_handlers ≡ max_command_handlers
      → Returns (find_handler command_id c)
  unfolding find_handler
  find_handler-Returns command_id c h =
      elim (Bool-cases (ltb (handler_index command_id) max_command_handlers)) [
        | inl below ↦ rw below (
            load-Returns c.command_handlers (handler_index command_id)
              (omega (arith, h, ltb→lt (handler_index command_id) max_command_handlers below)))
        | inr above ↦ (none, rw above)
      ]

  dispatch_command-Returns :
      (packet : Packet) (c : Client W) (stream : Stream) (w : W)
      → length c.command_handlers ≡ max_command_handlers
      → 2 ≤ length packet.payload
      → Returns (dispatch_command packet c stream w)
  unfolding dispatch_command
  dispatch_command-Returns packet c stream w h room =
      elim (Bool-cases (not (packet.packet_id == command) || not (packet.size == 3))) [
        | inl other ↦ ((stream, w), rw other)
        | inr same ↦ elim (at_least_two packet.payload room) [
          | two x y rest e ↦
              let (handler, found) = find_handler-Returns x c h in
              (
                (
                  record stream {
                    output =
                        stream.output
                        ++ (frame command_response packet.device_id
                              (x ∷ y ∷ to_byte (answer handler w).0 ∷ [])
                            ++ (0 ∷ []));
                  },
                  (answer handler w).1,
                ),
                rw (
                  same,
                  e,
                  found,
                  send_bytes-frame command_response packet.device_id
                      (x ∷ y ∷ to_byte (answer handler w).0 ∷ []) stream (omega arith),
                ),
              )
        ]
      ]

  -- What `decode` accepts has an array of 64 bytes.
  dispatch_decoded-Returns :
      (bytes : List ℕ) (c : Client W) (stream : Stream) (w : W)
      → length c.command_handlers ≡ max_command_handlers
      → Returns (dispatch_decoded (accepted (Packet.decode_packet bytes)) c stream w)
  unfolding dispatch_decoded accepted embedded
  dispatch_decoded-Returns bytes c stream w h = elim (decode_packet_total bytes) [
    | inr (x, e) ↦ rw e ((stream, w), refl)
    | inl (packet, e) ↦ rw e (elim (Bool-cases (leb (length packet.payload) max_payload_size)) [
      | inr long ↦ rw long ((stream, w), refl)
      | inl fits ↦ rw fits (
          dispatch_command-Returns (embedded packet) c stream w h (
            omega (
              arith,
              length-append packet.payload
                  (replicate {A = ℕ} (max_payload_size - length packet.payload) 0),
              length-replicate {A = ℕ} (max_payload_size - length packet.payload) 0,
            )))
    ])
  ]

-- The client, the stream and the state after a run, and what the buffer then holds.
module _ {W : Type 0} (handlers : List (Option (CommandHandler W))) (output : List ℕ) (w : W)
    (h : length handlers ≡ max_command_handlers) where
  abbrev Ends : Result Failure (Client W × Stream × W) → Type 0
  Ends r =
      (b : SerialBuffer) × (q : List ℕ) × (stream : Stream) × (w' : W) × Holds b q
      × (r ≡ ok (client handlers output w b, stream, w'))

  deliver-Ends :
      (q input : List ℕ) (b : SerialBuffer)
      → Holds b []
      → Ends (deliver handlers output w q input b)
  deliver-Ends q input b hb =
      let ((stream, w'), e) =
        dispatch_decoded-Returns q (client handlers output w b)
          (record { input = input; output = output }) w h in
      (b, [], stream, w', hb, rw (decode-accepted q, e))

  poll_loop-Ends :
      (input q : List ℕ) (b : SerialBuffer)
      → Holds b q
      → Ends (poll_loop input (client handlers output w b) output w)
  poll_loop-Ends [] q b hb =
      (b, q, record { input = []; output = output }, w, hb, unfold poll_loop in refl)
  poll_loop-Ends (byte ∷ input) q b hb = elim (Bool-cases (byte == 0)) [
    | inr ne ↦
        let (b₁, e₁, h₁) = push-byte q byte (==_false→ne byte 0 ne) hb in
        rw (poll_loop-byte handlers output w byte input b e₁)
          (poll_loop-Ends input (q ++ (byte ∷ [])) b₁ h₁)
    | inl z ↦
        let (b₁, h₁, e₁) = poll_loop-delimiter handlers output w q input b hb in
        rw ((==_iff byte 0).0 z, e₁)
          (elim (Bool-cases (complete q)) [
            | inl whole ↦ rw whole (deliver-Ends q input b₁ h₁)
            | inr part ↦ rw part (poll_loop-Ends input [] b₁ h₁)
          ])
  ]

-- `poll_command` on any input, and with a buffer that holds any bytes, returns: no access leaves an array,
-- and no loop lacks fuel. The buffer holds some bytes again, and the handlers are as they were.
pub poll_command_total :
    {W : Type 0} (c : Client W) (stream : Stream) (w : W) (q : List ℕ)
    → Holds c.buffer q
    → length c.command_handlers ≡ max_command_handlers
    → (b : SerialBuffer) × (q' : List ℕ) × (stream' : Stream) × (w' : W) × Holds b q'
      × (poll_command c stream w ≡ ok (record c { buffer = b }, stream', w'))
unfolding poll_command
poll_command_total c stream w q hb h =
    poll_loop-Ends c.command_handlers stream.output w h stream.input q c.buffer hb
