-- ===== src/Host/Packet/Resync.antt =====
-- About decode_packets of modules/autonomy_pi/ros/autonomy_teensy/src/packet.cpp on streams of frames.
use rdml_blue_rov2_deploymen.Common.{ℕ, ◌≡◌, subst, refl, sym, ap, ◌∙◌, arith}
use rdml_blue_rov2_deploymen.Common.{
  List, [], ◌∷◌, ◌++◌, append_assoc, append-nil, All, IsByte, All-append, is_empty, is_empty-false,
  Bool-cases, inl, inr, if◌then◌else◌, ◌==◌, ==_false→ne,
}
use rdml_blue_rov2_deploymen.Common.{ok}
use rdml_blue_rov2_deploymen.Wire.Cobs.Laws.{IsNonzero, stuff-IsNonzero, stuff-ne-nil}
use rdml_blue_rov2_deploymen.Wire.Packet.{contents, frame}
use rdml_blue_rov2_deploymen.Host.Packet.{Packet, decode_packets}
use rdml_blue_rov2_deploymen.Host.Packet.Frames.{decode_packet-frame}
use rdml_blue_rov2_deploymen.Host.Packet.Stream.{
  attempt, Received, receive, receive_all, receive_all-append, receive_all-IsNonzero, waiting,
  nothing_received, decode_packets-receive_all,
}

-- `front` before the packets of a state.
abbrev pub behind : List Packet → Received → Received
behind front r = waiting (front ++ r.packets) r.pending

receive-behind :
    (front : List Packet) (r : Received) (b : ℕ)
    → receive (behind front r) b ≡ behind front (receive r b)
unfolding receive
receive-behind front r b = ground (arith, append_assoc front r.packets (attempt r.pending))

-- The packets that were there before stay in front, and change nothing else.
pub receive_all-behind :
    (front : List Packet) (r : Received) (bytes : List ℕ)
    → receive_all (behind front r) bytes ≡ behind front (receive_all r bytes)
unfolding receive_all
receive_all-behind front r [] = refl
receive_all-behind front r (b ∷ bytes) =
    rw (receive-behind front r b) (receive_all-behind front (receive r b) bytes)

receive-pending :
    (r : Received) (b : ℕ) → All IsNonzero r.pending → All IsNonzero (receive r b).pending
unfolding receive
receive-pending r b h = elim (Bool-cases (b == 0)) [
  | inl z ↦ rw z (at_delimiter r h)
  | inr z ↦ rw z (All-append IsNonzero r.pending (b ∷ []) h (==_false→ne b 0 z, tt))
]
  where
    at_delimiter :
        (r : Received)
        → All IsNonzero r.pending
        → All IsNonzero
            (if is_empty r.pending then r else waiting (r.packets ++ attempt r.pending) []).pending
    at_delimiter r h = elim (Bool-cases (is_empty r.pending)) [ inl e ↦ rw e h | inr e ↦ rw e tt ]

pub receive_all-pending :
    (r : Received) (bytes : List ℕ)
    → All IsNonzero r.pending
    → All IsNonzero (receive_all r bytes).pending
unfolding receive_all
receive_all-pending r [] h = h
receive_all-pending r (b ∷ bytes) h =
    receive_all-pending (receive r b) bytes (receive-pending r b h)

-- Taking a state's pending bytes in again, with more behind them, goes on from the state.
receive_all-pending_again :
    (r : Received) (bytes : List ℕ)
    → All IsNonzero r.pending
    → behind r.packets (receive_all nothing_received (r.pending ++ bytes)) ≡ receive_all r bytes
receive_all-pending_again r bytes h =
    ap (behind r.packets) (
      receive_all-append nothing_received r.pending bytes
      ∙ rw (receive_all-IsNonzero [] [] r.pending h))
    ∙ sym (receive_all-behind r.packets (waiting [] r.pending) bytes)
    ∙ rw append-nil

received :
    (bytes rest : List ℕ) (packets : List Packet)
    → decode_packets bytes ≡ ok (packets, rest)
    → receive_all nothing_received bytes ≡ waiting packets rest
received bytes rest packets h = ground (arith, decode_packets-receive_all bytes)

decoded :
    (bytes : List ℕ) (r : Received)
    → receive_all nothing_received bytes ≡ r
    → decode_packets bytes ≡ ok (r.packets, r.pending)
decoded bytes r h = rw (decode_packets-receive_all, h)

-- If `decode_packets` takes some packets out of the bytes at hand, and some more out of the bytes that it
-- leaves with others behind them, then on all the bytes at once it takes both, in that order, and leaves
-- the same.
pub decode_packets-append :
    (xs ys rest rest' : List ℕ) (packets packets' : List Packet)
    → decode_packets xs ≡ ok (packets, rest)
    → decode_packets (rest ++ ys) ≡ ok (packets', rest')
    → decode_packets (xs ++ ys) ≡ ok (packets ++ packets', rest')
decode_packets-append xs ys rest rest' packets packets' h h' =
    decoded (xs ++ ys) (waiting (packets ++ packets') rest') (
      receive_all-append nothing_received xs ys
      ∙ rw (received xs rest packets h) (
          sym (receive_all-pending_again (waiting packets rest) ys pending)
          ∙ ap (behind packets) (received (rest ++ ys) rest' packets' h')))
  where
    pending : All IsNonzero rest
    pending =
        subst (λ (r : Received). All IsNonzero r.pending) (received xs rest packets h)
          (receive_all-pending nothing_received xs tt)

-- The bytes of a row of packets on the link: each frame with its delimiter.
abbrev pub streamed : List Packet → List ℕ
streamed [] = []
streamed (p ∷ packets) = frame p.packet_id p.device_id p.payload ++ (0 ∷ streamed packets)

-- A packet of bytes.
abbrev pub IsBytes : Packet → Type 0
IsBytes p = IsByte p.packet_id × IsByte p.device_id × All IsByte p.payload

frame-IsNonzero : (p : Packet) → All IsNonzero (frame p.packet_id p.device_id p.payload)
frame-IsNonzero p = stuff-IsNonzero [] (contents p.packet_id p.device_id p.payload) tt

attempt-frame :
    (p : Packet) → IsBytes p → attempt (frame p.packet_id p.device_id p.payload) ≡ p ∷ []
unfolding attempt
attempt-frame p (ha, hb, hp) =
    rw (decode_packet-frame p.packet_id p.device_id p.payload ha hb hp, attempt)

-- Nothing is pending behind a delimiter.
receive-delimiter : (r : Received) → receive r 0 ≡ waiting (receive r 0).packets []
unfolding receive
receive-delimiter r = ground arith

-- A whole frame and its delimiter yield its packet.
receive_all-frame_lem :
    (packets : List Packet) (p : Packet) (rest : List ℕ)
    → IsBytes p
    → receive_all (waiting packets []) (frame p.packet_id p.device_id p.payload ++ (0 ∷ rest))
      ≡ receive_all (waiting (packets ++ (p ∷ [])) []) rest
receive_all-frame_lem packets p rest (ha, hb, hp) =
    receive_all-append (waiting packets []) f (0 ∷ rest)
    ∙ rw (receive_all-IsNonzero packets [] f (frame-IsNonzero p))
        (unfold receive_all in ap (λ r. receive_all r rest) at_end)
  where
    f : List ℕ
    f = frame p.packet_id p.device_id p.payload

    at_end : receive (waiting packets f) 0 ≡ waiting (packets ++ (p ∷ [])) []
    at_end =
        unfold receive in rw (is_empty-false f (stuff-ne-nil [] _), attempt-frame p (ha, hb, hp))

receive_all-nil : (packets : List Packet) → receive_all (waiting packets []) [] ≡ waiting packets []
unfolding receive_all
receive_all-nil packets = refl

receive_all-streamed :
    (packets sent : List Packet)
    → All IsBytes sent
    → receive_all (waiting packets []) (streamed sent) ≡ waiting (packets ++ sent) []
receive_all-streamed packets [] h = rw append-nil (receive_all-nil packets)
receive_all-streamed packets (p ∷ sent) (hp, h) =
    receive_all-frame_lem packets p (streamed sent) hp
    ∙ receive_all-streamed (packets ++ (p ∷ [])) sent h
    ∙ rw append_assoc

pub decode_packets-streamed_alone :
    (sent : List Packet) → All IsBytes sent → decode_packets (streamed sent) ≡ ok (sent, [])
decode_packets-streamed_alone sent h =
    decoded (streamed sent) (waiting sent []) (receive_all-streamed [] sent h)

-- `decode_packets`, whatever came before: behind the next delimiter every packet of bytes that was sent is
-- received, once, in order and unchanged, behind the packets that come out up to that delimiter, and
-- nothing is left over.
pub decode_packets-streamed :
    (junk : List ℕ) (sent : List Packet)
    → All IsBytes sent
    → (packets : List Packet) × (decode_packets (junk ++ (0 ∷ [])) ≡ ok (packets, []))
      × (decode_packets (junk ++ (0 ∷ streamed sent)) ≡ ok (packets ++ sent, []))
decode_packets-streamed junk sent h = (
  r.packets,
  decoded (junk ++ (0 ∷ [])) (waiting r.packets []) (at_delimiter [] ∙ receive_all-nil r.packets),
  decoded (junk ++ (0 ∷ streamed sent)) (waiting (r.packets ++ sent) [])
      (at_delimiter (streamed sent) ∙ receive_all-streamed r.packets sent h),
)
  where
    r : Received
    r = receive (receive_all nothing_received junk) 0

    at_delimiter :
        (bytes : List ℕ)
        → receive_all nothing_received (junk ++ (0 ∷ bytes))
          ≡ receive_all (waiting r.packets []) bytes
    at_delimiter bytes =
        receive_all-append nothing_received junk (0 ∷ bytes)
        ∙ unfold receive_all in
          ap (λ s. receive_all s bytes) (receive-delimiter (receive_all nothing_received junk))
