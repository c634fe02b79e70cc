-- ===== src/Host/Packet/Stream.antt =====
-- About decode_packets of modules/autonomy_pi/ros/autonomy_teensy/src/packet.cpp, beside a description that takes the bytes in one by one.
use rdml_blue_rov2_deploymen.Common.{
  ℕ, zero, suc, ◌≤◌, ◌≡◌, refl, ap, ◌∙◌, inl, inr, arith, none, some,
}
use rdml_blue_rov2_deploymen.Common.{
  List, [], ◌∷◌, ◌++◌, append_assoc, append-nil, length, length-append, is_empty, All,
}
use rdml_blue_rov2_deploymen.Common.{
  ◌==◌, ==_iff, ==_false→ne, ne→==_false, Bool-cases, if◌then◌else◌,
}
use rdml_blue_rov2_deploymen.Common.{ok}
use rdml_blue_rov2_deploymen.Wire.Cobs.Laws.{IsNonzero}
use rdml_blue_rov2_deploymen.Host.Packet.{
  Packet, decode_packet, find_delimiter, push_decoded, decode_packets_loop, decode_packets,
}
use rdml_blue_rov2_deploymen.Host.Packet.Frames.{decode_packet_total}

-- What a frame yields: its packet, or nothing if it is malformed.
unfoldable pub attempt : List ℕ → List Packet
attempt packet_data = elim (decode_packet packet_data) [ ok packet ↦ packet ∷ [] | _ ↦ [] ]

-- The packets so far, and the bytes since the last delimiter.
pub record Received : Type 0 where
  pub packets : List Packet
  pub pending : List ℕ

unfoldable pub receive : Received → ℕ → Received
receive r byte =
    if byte == 0
    then (if is_empty r.pending
        then r
        else record { packets = r.packets ++ attempt r.pending; pending = [] })
    else record r { pending = r.pending ++ (byte ∷ []) }

unfoldable pub receive_all : Received → List ℕ → Received
receive_all r [] = r
receive_all r (byte ∷ bytes) = receive_all (receive r byte) bytes

pub receive_all-append :
    (r : Received) (xs ys : List ℕ) → receive_all r (xs ++ ys) ≡ receive_all (receive_all r xs) ys
unfolding receive_all
receive_all-append r [] ys = refl
receive_all-append r (x ∷ xs) ys = receive_all-append (receive r x) xs ys

abbrev pub waiting : List Packet → List ℕ → Received
waiting packets pending = record { packets = packets; pending = pending }

-- Bytes without a delimiter are kept.
pub receive_all-IsNonzero :
    (packets : List Packet) (q f : List ℕ)
    → All IsNonzero f
    → receive_all (waiting packets q) f ≡ waiting packets (q ++ f)
unfolding receive_all receive
receive_all-IsNonzero packets q [] h = rw append-nil
receive_all-IsNonzero packets q (b ∷ f) (hb, h) =
    rw (ne→==_false b 0 hb) (receive_all-IsNonzero packets (q ++ (b ∷ [])) f h ∙ rw append_assoc)

push_decoded-attempt :
    (f : List ℕ) (packets : List Packet) → push_decoded f packets ≡ ok (packets ++ attempt f)
unfolding push_decoded attempt
push_decoded-attempt f packets = elim (decode_packet_total f) [
  | inl (packet, e) ↦ rw (e, push_decoded, attempt)
  | inr (x, e) ↦ rw (e, push_decoded, attempt, append-nil)
]

data Found (bytes : List ℕ) : Type 0 where
  missing : find_delimiter bytes ≡ none → All IsNonzero bytes → Found bytes
  split :
      (f rest : List ℕ)
      → find_delimiter bytes ≡ some (f, rest)
      → bytes ≡ f ++ (0 ∷ rest)
      → All IsNonzero f
      → Found bytes

find_delimiter-Found : (bytes : List ℕ) → Found bytes
unfolding find_delimiter
find_delimiter-Found [] = missing refl tt
find_delimiter-Found (b ∷ bytes) = elim (Bool-cases (b == 0)) [
  | inl z ↦ split [] bytes (rw z) (rw ((==_iff b 0).0 z)) tt
  | inr z ↦ elim (find_delimiter-Found bytes) [
    | missing e h ↦ missing (rw (z, e, find_delimiter)) (==_false→ne b 0 z, h)
    | split f rest e e' h ↦
        split (b ∷ f) rest (rw (z, e, find_delimiter)) (ap (λ l. b ∷ l) e') (==_false→ne b 0 z, h)
  ]
]

-- At a delimiter the pending bytes are a frame; an empty one is passed over.
receive_delimiter :
    (packets : List Packet) (b : ℕ) (f : List ℕ)
    → receive (waiting packets (b ∷ f)) 0 ≡ waiting (packets ++ attempt (b ∷ f)) []
unfolding receive
receive_delimiter packets b f = refl

receive_all-frame :
    (packets : List Packet) (f rest : List ℕ)
    → All IsNonzero f
    → receive_all (waiting packets []) (f ++ (0 ∷ rest))
      ≡ receive_all (receive (waiting packets f) 0) rest
receive_all-frame packets f rest h =
    receive_all-append (waiting packets []) f (0 ∷ rest)
    ∙ rw (receive_all-IsNonzero packets [] f h) (unfold receive_all in refl)

-- One round of the loop, by what `std::find` finds.
module _ (fuel : ℕ) (start : List ℕ) (packets : List Packet) where
  round_missing :
      find_delimiter start ≡ none
      → decode_packets_loop (suc fuel) start packets ≡ ok (packets, start)
  unfolding decode_packets_loop
  round_missing e = rw (e, decode_packets_loop)

  round_empty :
      (rest : List ℕ)
      → find_delimiter start ≡ some ([], rest)
      → decode_packets_loop (suc fuel) start packets ≡ decode_packets_loop fuel rest packets
  unfolding decode_packets_loop
  round_empty rest e = rw (e, decode_packets_loop)

  round_frame :
      (b : ℕ) (f rest : List ℕ)
      → find_delimiter start ≡ some (b ∷ f, rest)
      → decode_packets_loop (suc fuel) start packets
        ≡ decode_packets_loop fuel rest (packets ++ attempt (b ∷ f))
  unfolding decode_packets_loop
  round_frame b f rest e = rw (e, decode_packets_loop, push_decoded-attempt)

abbrev taken : Received → List Packet × List ℕ
taken r = (r.packets, r.pending)

-- With as many rounds as there are bytes the loop takes all of them in.
decode_packets_loop-receive_all :
    (fuel : ℕ) (start : List ℕ) (packets : List Packet)
    → length start ≤ fuel
    → decode_packets_loop fuel start packets ≡ ok (taken (receive_all (waiting packets []) start))
decode_packets_loop-receive_all zero [] packets h =
    unfold decode_packets_loop find_delimiter receive_all in refl
decode_packets_loop-receive_all zero (b ∷ start) packets h = absurd (omega arith)
decode_packets_loop-receive_all (suc fuel) start packets h = elim (find_delimiter-Found start) [
  | missing e nz ↦
      round_missing fuel start packets e ∙ rw (receive_all-IsNonzero packets [] start nz)
  | split [] rest e e' nz ↦
      round_empty fuel start packets rest e
      ∙ decode_packets_loop-receive_all fuel rest packets (omega (arith, ap length e'))
      ∙ rw e' (unfold receive_all receive in refl)
  | split (b ∷ f) rest e e' nz ↦
      round_frame fuel start packets b f rest e
      ∙ decode_packets_loop-receive_all fuel rest (packets ++ attempt (b ∷ f))
          (omega (arith, ap length e', length-append f (0 ∷ rest)))
      ∙ rw (e', receive_all-frame packets (b ∷ f) rest nz, receive_delimiter)
]

abbrev pub nothing_received : Received
nothing_received = waiting [] []

-- `decode_packets` on any bytes returns what taking them in one by one yields: the packets of the
-- well-formed frames in order, and the bytes behind the last delimiter.
pub decode_packets-receive_all :
    (bytes : List ℕ)
    → let r = receive_all nothing_received bytes in decode_packets bytes ≡ ok (r.packets, r.pending)
unfolding decode_packets
decode_packets-receive_all bytes =
    decode_packets_loop-receive_all (length bytes) bytes [] (omega arith)
