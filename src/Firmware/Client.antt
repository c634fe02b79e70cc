-- ===== src/Firmware/Client.antt =====
-- modules/teensy/lib/packet/client.cpp and client.h.
pub mod Send
pub mod Poll
pub mod Command
pub mod Handlers
pub mod Total
use rdml_blue_rov2_deploymen.Common.{ℕ, zero, suc, ◌+◌, ◌-◌, ◌%◌, ◌^◌, Bool, true, false, not, ◌||◌}
use rdml_blue_rov2_deploymen.Common.{
  Option, none, some, List, [], ◌∷◌, ◌++◌, length, take, replicate,
}
use rdml_blue_rov2_deploymen.Common.{
  ltb, ◌==◌, if◌then◌else◌, Result, ok, err, fault, stuck, ◌>>=◌, load, store,
}
use rdml_blue_rov2_deploymen.Firmware.Cobs.{Failure, minus_one}
use rdml_blue_rov2_deploymen.Firmware.Ids.{PacketId, DeviceId, CommandId, command, command_response}
use rdml_blue_rov2_deploymen.Firmware.Ids.{CommandResponse, unknown_command, to_byte}
use rdml_blue_rov2_deploymen.Firmware.Packet.{
  Packet, max_payload_size, max_encoded_size, encode, decode,
}
use rdml_blue_rov2_deploymen.Firmware.SerialBuffer.{
  SerialBuffer, push, reset, contents, empty_buffer,
}

-- The `Stream`: the bytes that have arrived, and those that were written to it.
pub record Stream : Type 0 where
  pub input : List ℕ
  pub output : List ℕ

-- `memcpy(packet.payload.data(), data, size)` into an array of zeros.
unfoldable pub copy_payload : List ℕ → Result Failure (List ℕ)
copy_payload bytes =
    if ltb max_payload_size (length bytes)
    then fault
    else ok (bytes ++ replicate (max_payload_size - length bytes) 0)

-- `stream_.write(out.data(), n)` for the array that `encode` filled; -1 gives `false`.
unfoldable pub write_encoded : Stream → Result Failure (List ℕ × ℕ) → Result Failure (Bool × Stream)
write_encoded stream (ok (out, n)) =
    ok (true, record stream { output = stream.output ++ take n out })
write_encoded stream (err minus_one) = ok (false, stream)
write_encoded stream fault = fault
write_encoded stream stuck = stuck

unfoldable pub send_bytes : PacketId → DeviceId → List ℕ → Stream → Result Failure (Bool × Stream)
unfolding copy_payload write_encoded
send_bytes packet_id device_id bytes stream = do
  payload ← copy_payload bytes
  let packet : Packet = record {
    packet_id = packet_id;
    device_id = device_id;
    payload = payload;
    size = length bytes;
  }
  write_encoded stream (encode packet (replicate max_encoded_size 0) max_encoded_size)

-- `size_t` has 32 bits on the Teensy; command ids are 1-indexed.
abbrev pub handler_index : CommandId → ℕ
handler_index command_id = (command_id + 2 ^ 32 - 1) % 2 ^ 32

abbrev pub max_command_handlers : ℕ
max_command_handlers = 3

-- What a handler acts on, the sensor among it, is the type `W`. A null pointer is `none`.
module _ (W : Type 0) where
  abbrev pub CommandHandler : Type 0
  CommandHandler = W → CommandResponse × W

  pub record Client : Type 0 where
    pub buffer : SerialBuffer
    pub command_handlers : List (Option CommandHandler)

module _ {W : Type 0} where
  abbrev pub new_client : Client W
  new_client = record {
    buffer = empty_buffer;
    command_handlers = replicate max_command_handlers none;
  }

  unfoldable pub register_handler :
      CommandId → CommandHandler W → Client W → Result Failure (Client W)
  register_handler command_id handler c =
      if ltb (handler_index command_id) max_command_handlers
      then (do
        handlers ← store c.command_handlers (handler_index command_id) (some handler)
        ok (record c { command_handlers = handlers }))
      else ok c

  unfoldable pub find_handler : CommandId → Client W → Result Failure (Option (CommandHandler W))
  find_handler command_id c =
      if ltb (handler_index command_id) max_command_handlers
      then load c.command_handlers (handler_index command_id)
      else ok none

  -- `handler != nullptr ? handler() : CommandResponse::UNKNOWN_COMMAND`
  unfoldable pub answer : Option (CommandHandler W) → W → CommandResponse × W
  answer (some handler) w = handler w
  answer none w = (unknown_command, w)

  -- The result of `send` is not looked at.
  unfoldable pub dispatch_command : Packet → Client W → Stream → W → Result Failure (Stream × W)
  unfolding answer
  dispatch_command packet c stream w =
      if not (packet.packet_id == command) || not (packet.size == 3) then ok (stream, w) else (do
        command_id ← load packet.payload 0
        seq ← load packet.payload 1
        handler ← find_handler command_id c
        let (result, w') = answer handler w
        (sent, stream') ←
            send_bytes command_response packet.device_id (command_id ∷ seq ∷ to_byte result ∷ [])
              stream
        ok (stream', w'))

  -- `if (packet.has_value()) dispatch_command(*packet);`
  unfoldable pub dispatch_decoded :
      Option Packet → Client W → Stream → W → Result Failure (Stream × W)
  dispatch_decoded none c stream w = ok (stream, w)
  dispatch_decoded (some packet) c stream w = dispatch_command packet c stream w

  -- The loop of `poll_command`, over the bytes that have arrived.
  unfoldable pub poll_loop : List ℕ → Client W → List ℕ → W → Result Failure (Client W × Stream × W)
  unfolding dispatch_decoded
  poll_loop [] c output w = ok (c, record { input = []; output = output }, w)
  poll_loop (byte ∷ input) c output w = do
    (have_frame, buffer) ← push c.buffer byte
    elim have_frame [
      | false ↦ poll_loop input (record c { buffer = buffer }) output w
      | true ↦ do
        packet ← decode (contents buffer)
        let c' : Client W = record c { buffer = reset buffer }
        (stream, w') ← dispatch_decoded packet c' (record { input = input; output = output }) w
        ok (c', stream, w')
    ]

  unfoldable pub poll_command : Client W → Stream → W → Result Failure (Client W × Stream × W)
  poll_command c stream w = poll_loop stream.input c stream.output w
