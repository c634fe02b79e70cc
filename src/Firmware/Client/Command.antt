-- ===== src/Firmware/Client/Command.antt =====
-- About poll_command of modules/teensy/lib/packet/client.cpp on the frame of a command.
use rdml_blue_rov2_deploymen.Common.{ℕ, ◌+◌, ◌≤◌, ◌≡◌, refl, ◌∙◌, arith, Option, some, true}
use rdml_blue_rov2_deploymen.Common.{
  List, [], ◌∷◌, ◌++◌, length, All, IsByte, length-append, is_empty-false, le→leb,
}
use rdml_blue_rov2_deploymen.Common.{ok}
use rdml_blue_rov2_deploymen.Wire.Cobs.Laws.{stuff-IsNonzero, stuff-ne-nil, length-stuff}
use rdml_blue_rov2_deploymen.Wire.Packet.{frame, contents}
use rdml_blue_rov2_deploymen.Host.Packet.Frames.{decode_packet-frame, parsed}
use rdml_blue_rov2_deploymen.Firmware.Ids.{command, command_response, to_byte}
use rdml_blue_rov2_deploymen.Firmware.Crc.{calculate_crc}
use rdml_blue_rov2_deploymen.Firmware.Packet.{decode, max_payload_size, max_encoded_size}
use rdml_blue_rov2_deploymen.Firmware.Packet.Decode.{decode-accepted, accepted, embedded}
use rdml_blue_rov2_deploymen.Firmware.SerialBuffer.{SerialBuffer}
use rdml_blue_rov2_deploymen.Firmware.SerialBuffer.Holds.{Holds, complete}
use rdml_blue_rov2_deploymen.Firmware.Client.{
  Stream, Client, CommandHandler, find_handler, answer, dispatch_command, dispatch_decoded,
  poll_command,
}
use rdml_blue_rov2_deploymen.Firmware.Client.Send.{send_bytes-frame}
use rdml_blue_rov2_deploymen.Firmware.Client.Poll.{poll_loop-frame}

-- The firmware reads back any packet of bytes with 64 bytes of payload at most.
pub decode-frame :
    (a b : ℕ) (p : List ℕ)
    → IsByte a
    → IsByte b
    → All IsByte p
    → length p ≤ max_payload_size
    → decode (frame a b p) ≡ ok (some (embedded (parsed a b p)))
decode-frame a b p ha hb hp h =
    decode-accepted (frame a b p)
    ∙ rw (decode_packet-frame a b p ha hb hp) (unfold accepted in ground arith)

-- Its frame fits the serial buffer.
frame-complete :
    (a b : ℕ) (p : List ℕ) → length p ≤ max_payload_size → complete (frame a b p) ≡ true
frame-complete a b p h = rw (
  is_empty-false (frame a b p) (stuff-ne-nil [] (contents a b p)),
  le→leb (length (frame a b p)) max_encoded_size
      (omega (arith, size, length-stuff [] (contents a b p))),
)
  where
    size : length (contents a b p) ≡ length p + 3
    size = omega (arith, length-append p (calculate_crc (a ∷ b ∷ p) ∷ []))

module _ {W : Type 0} (c : Client W) (output input : List ℕ) (w : W) where
  -- What a command does, with the handler that is registered for it.
  dispatch-command :
      (device cmd seq arg : ℕ) (handler : Option (CommandHandler W))
      → find_handler cmd c ≡ ok handler
      → dispatch_decoded
          (some (embedded (parsed command device (cmd ∷ seq ∷ arg ∷ []))))
          c
          (record { input = input; output = output })
          w
        ≡ ok (
          record {
            input = input;
            output =
                output
                ++ (frame command_response device (cmd ∷ seq ∷ to_byte (answer handler w).0 ∷ [])
                    ++ (0 ∷ []));
          },
          (answer handler w).1,
        )
  unfolding dispatch_decoded dispatch_command embedded
  dispatch-command device cmd seq arg handler e = rw (
    e,
    send_bytes-frame command_response device (cmd ∷ seq ∷ to_byte (answer handler w).0 ∷ [])
        (record { input = input; output = output }) (omega arith),
  )

find_handler-buffer :
    {W : Type 0} (c : Client W) (cmd : ℕ) (b : SerialBuffer)
    → find_handler cmd (record c { buffer = b }) ≡ find_handler cmd c
unfolding find_handler
find_handler-buffer c cmd b = refl

-- `poll_command`, with an empty buffer, on the frame of a command whose fields are bytes, its delimiter and
-- more input, by what `find_handler` and `answer` come to.
pub poll_command-command :
    {W : Type 0} (c : Client W) (stream : Stream) (w : W) (device cmd seq arg : ℕ) (input : List ℕ)
    (handler : Option (CommandHandler W))
    → Holds c.buffer []
    → IsByte device
    → IsByte cmd
    → IsByte seq
    → IsByte arg
    → find_handler cmd c ≡ ok handler
    → stream.input ≡ frame command device (cmd ∷ seq ∷ arg ∷ []) ++ (0 ∷ input)
    → (b : SerialBuffer) × Holds b []
      × (poll_command c stream w
          ≡ ok (
            record c { buffer = b },
            record {
              input = input;
              output =
                  stream.output
                  ++ (frame command_response device (cmd ∷ seq ∷ to_byte (answer handler w).0 ∷ [])
                      ++ (0 ∷ []));
            },
            (answer handler w).1,
          ))
poll_command-command c stream w device cmd seq arg input handler h hd hc hs ha found e =
    let f : List ℕ = frame command device (cmd ∷ seq ∷ arg ∷ []) in
    let (b, hb, p) =
      poll_loop-frame c.command_handlers stream.output w [] f input c.buffer
        (stuff-IsNonzero [] _ tt) h in
    (
      b,
      hb,
      unfold poll_command in
          rw (
            e,
            p,
            frame-complete command device (cmd ∷ seq ∷ arg ∷ []) (omega arith),
            decode-frame command device (cmd ∷ seq ∷ arg ∷ []) (omega arith) hd (hc, (hs, (ha, tt)))
                (omega arith),
            dispatch-command (record c { buffer = b }) stream.output input w device cmd seq arg
                handler (find_handler-buffer c cmd b ∙ found),
          ),
    )
