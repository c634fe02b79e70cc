-- ===== src/Host/Client/Chunks.antt =====
-- About poll_connection of modules/autonomy_pi/ros/autonomy_teensy/src/client.cpp and the reads into which the serial port cuts the stream.
use rdml_blue_rov2_deploymen.Common.{ℕ, ◌≡◌, refl, sym, ap, ◌∙◌}
use rdml_blue_rov2_deploymen.Common.{List, [], ◌∷◌, ◌++◌, append-nil, All, ok, ok_injective}
use rdml_blue_rov2_deploymen.Wire.Cobs.Laws.{IsNonzero}
use rdml_blue_rov2_deploymen.Host.Packet.{Packet, decode_packets}
use rdml_blue_rov2_deploymen.Host.Packet.Stream.{
  Received, waiting, nothing_received, receive_all, receive_all-append, receive_all-IsNonzero,
  decode_packets-receive_all,
}
use rdml_blue_rov2_deploymen.Host.Packet.Resync.{behind, receive_all-behind, receive_all-pending}
use rdml_blue_rov2_deploymen.Host.Client.{
  Client, Port, arrived, read_from_socket, dispatch, dispatch_all, poll_connection,
}

-- The bytes that a row of reads brings.
abbrev pub joined : List (List ℕ) → List ℕ
joined [] = []
joined (bytes ∷ chunks) = bytes ++ joined chunks

abbrev pub rounds : List (List ℕ) → List Port
rounds [] = []
rounds (bytes ∷ chunks) = arrived bytes ∷ rounds chunks

decode_packets_behind :
    (accumulated bytes : List ℕ)
    → All IsNonzero accumulated
    → decode_packets (accumulated ++ bytes)
      ≡ ok (
        (receive_all (waiting [] accumulated) bytes).packets,
        (receive_all (waiting [] accumulated) bytes).pending,
      )
decode_packets_behind accumulated bytes h =
    decode_packets-receive_all (accumulated ++ bytes)
    ∙ ap (λ (r : Received). ok (r.packets, r.pending))
        (receive_all-append nothing_received accumulated bytes
          ∙ ap (λ r. receive_all r bytes) (receive_all-IsNonzero [] [] accumulated h))

receive_all_twice :
    (r : Received) (bytes : List ℕ)
    → receive_all r bytes ≡ behind r.packets (receive_all (waiting [] r.pending) bytes)
receive_all_twice r bytes =
    ap (λ ps. receive_all (waiting ps r.pending) bytes) (sym (append-nil r.packets))
    ∙ receive_all-behind r.packets (waiting [] r.pending) bytes

module _ {W : Type 0} where
  dispatch_all-append :
      (c : Client W) (ps qs : List Packet) (w : W)
      → dispatch_all c (ps ++ qs) w ≡ dispatch_all c qs (dispatch_all c ps w)
  unfolding dispatch_all
  dispatch_all-append c [] qs w = refl
  dispatch_all-append c (p ∷ ps) qs w = dispatch_all-append c ps qs (dispatch c p w)

  -- The callbacks do not depend on the bytes at hand.
  dispatch_all-accumulated :
      (c : Client W) (rest : List ℕ) (ps : List Packet) (w : W)
      → dispatch_all (record c { accumulated = rest }) ps w ≡ dispatch_all c ps w
  unfolding dispatch_all dispatch
  dispatch_all-accumulated c rest [] w = refl
  dispatch_all-accumulated c rest (p ∷ ps) w = dispatch_all-accumulated c rest ps _

  round_empty :
      (ports : List Port) (c : Client W) (w : W)
      → poll_connection (arrived [] ∷ ports) c w ≡ poll_connection ports c w
  unfolding poll_connection read_from_socket
  round_empty ports c w = refl

  round_bytes :
      (b : ℕ) (bytes : List ℕ) (ports : List Port) (c : Client W) (w : W) (packets : List Packet)
      (rest : List ℕ)
      → decode_packets (c.accumulated ++ (b ∷ bytes)) ≡ ok (packets, rest)
      → poll_connection (arrived (b ∷ bytes) ∷ ports) c w
        ≡ poll_connection ports (record c { accumulated = rest }) (dispatch_all c packets w)
  unfolding poll_connection read_from_socket
  round_bytes b bytes ports c w packets rest e = rw (e, poll_connection)

  -- What the loop comes to, from the state that taking in the bytes leads to.
  abbrev outcome : Client W → W → Received → Client W × W
  outcome c w r = (record c { accumulated = r.pending }, dispatch_all c r.packets w)

  outcome-behind :
      (c : Client W) (w : W) (r s : Received)
      → outcome (record c { accumulated = r.pending }) (dispatch_all c r.packets w) s
        ≡ outcome c w (behind r.packets s)
  outcome-behind c w r s =
      ap (λ w'. (record c { accumulated = s.pending }, w'))
        (dispatch_all-accumulated c r.pending s.packets (dispatch_all c r.packets w)
          ∙ sym (dispatch_all-append c r.packets s.packets w))

  poll_connection-receive_all :
      (chunks : List (List ℕ)) (c : Client W) (w : W)
      → All IsNonzero c.accumulated
      → poll_connection (rounds chunks) c w
        ≡ ok (outcome c w (receive_all (waiting [] c.accumulated) (joined chunks)))
  poll_connection-receive_all [] c w h = unfold poll_connection dispatch_all receive_all in refl
  poll_connection-receive_all ([] ∷ chunks) c w h =
      round_empty (rounds chunks) c w ∙ poll_connection-receive_all chunks c w h
  poll_connection-receive_all ((b ∷ bytes) ∷ chunks) c w h =
      round_bytes b bytes (rounds chunks) c w r.packets r.pending
        (decode_packets_behind c.accumulated (b ∷ bytes) h)
      ∙ poll_connection-receive_all chunks (record c { accumulated = r.pending })
          (dispatch_all c r.packets w)
          (receive_all-pending (waiting [] c.accumulated) (b ∷ bytes) h)
      ∙ ap ok (
          outcome-behind c w r (receive_all (waiting [] r.pending) (joined chunks))
          ∙ ap (outcome c w) (
              sym (
                receive_all-append (waiting [] c.accumulated) (b ∷ bytes) (joined chunks)
                ∙ receive_all_twice r (joined chunks))))
    where
      r : Received
      r = receive_all (waiting [] c.accumulated) (b ∷ bytes)

  -- `poll_connection`, with no delimiter among the bytes at hand, on any row of reads none of which fails:
  -- the packets that `decode_packets` takes out of all the bytes in one piece are dispatched, each once and
  -- in order, and what it leaves is kept.
  pub poll_connection-joined :
      (chunks : List (List ℕ)) (c : Client W) (w : W) (packets : List Packet) (rest : List ℕ)
      → All IsNonzero c.accumulated
      → decode_packets (c.accumulated ++ joined chunks) ≡ ok (packets, rest)
      → poll_connection (rounds chunks) c w
        ≡ ok (record c { accumulated = rest }, dispatch_all c packets w)
  poll_connection-joined chunks c w packets rest h e =
      poll_connection-receive_all chunks c w h
      ∙ ap (λ (ps, left). ok (record c { accumulated = left }, dispatch_all c ps w))
          (ok_injective (sym (decode_packets_behind c.accumulated (joined chunks) h) ∙ e))
