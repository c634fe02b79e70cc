-- ===== src/Link/Telemetry.antt =====
-- About what the firmware sends, modules/teensy/lib/packet/client.cpp, and what the driver takes in.
use rdml_blue_rov2_deploymen.Common.{
  ℕ, ◌≤◌, ◌≡◌, ap, ◌∙◌, List, [], ◌∷◌, ◌++◌, append-nil, append_assoc, length, All, Result, ok,
  ◌>>=◌,
}
use rdml_blue_rov2_deploymen.Wire.Packet.{frame}
use rdml_blue_rov2_deploymen.Host.Packet.{Packet, decode_packets}
use rdml_blue_rov2_deploymen.Host.Packet.Resync.{streamed, IsBytes, decode_packets-streamed_alone}
use rdml_blue_rov2_deploymen.Firmware.Cobs.{Failure}
use rdml_blue_rov2_deploymen.Firmware.Packet.{max_payload_size}
use rdml_blue_rov2_deploymen.Firmware.Client.{Stream, send_bytes}
use rdml_blue_rov2_deploymen.Firmware.Client.Send.{send_bytes-frame}

-- A row of calls of `send_bytes`.
abbrev pub send_all : List Packet → Stream → Result Failure Stream
send_all [] stream = ok stream
send_all (p ∷ packets) stream =
    send_bytes p.packet_id p.device_id p.payload stream >>= λ (sent, stream').
    send_all packets stream'

-- A payload that `send` accepts.
abbrev pub Fits : Packet → Type 0
Fits p = length p.payload ≤ max_payload_size

send_all-streamed :
    (packets : List Packet) (stream : Stream)
    → All Fits packets
    → send_all packets stream ≡ ok (record stream { output = stream.output ++ streamed packets })
send_all-streamed [] stream h = rw append-nil
send_all-streamed (p ∷ packets) stream (hp, h) =
    rw (send_bytes-frame p.packet_id p.device_id p.payload stream hp) (
      send_all-streamed packets (record stream { output = stream.output ++ f }) h
      ∙ ap (λ output. ok (record stream { output = output }))
          (append_assoc stream.output f (streamed packets)
            ∙ ap (λ l. stream.output ++ l)
                (append_assoc (frame p.packet_id p.device_id p.payload) (0 ∷ [])
                  (streamed packets))))
  where
    f : List ℕ
    f = frame p.packet_id p.device_id p.payload ++ (0 ∷ [])

-- Packets of bytes, with 64 bytes of payload at most, that the firmware sends one after another are what
-- the driver's `decode_packets` takes out of the bytes that were written: each once, in order, unchanged.
pub send_all-received :
    (packets : List Packet) (input : List ℕ)
    → All IsBytes packets
    → All Fits packets
    → (output : List ℕ) × (send_all packets (record { input = input; output = [] })
        ≡ ok (record { input = input; output = output }))
      × (decode_packets output ≡ ok (packets, []))
send_all-received packets input hb hf = (
  streamed packets,
  send_all-streamed packets (record { input = input; output = [] }) hf,
  decode_packets-streamed_alone packets hb,
)
