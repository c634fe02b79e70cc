-- ===== src/Host/Client/Failure.antt =====
-- About poll_connection of modules/autonomy_pi/ros/autonomy_teensy/src/client.cpp when the port fails.
use rdml_blue_rov2_deploymen.Common.{
  ℕ, ◌≡◌, refl, ◌∙◌, ap, Bool, false, List, [], ◌∷◌, ◌++◌, All, Result, ok, err, fault, stuck,
  ◌>>=◌,
}
use rdml_blue_rov2_deploymen.Wire.Cobs.Laws.{IsNonzero}
use rdml_blue_rov2_deploymen.Host.Packet.{Packet, decode_packets}
use rdml_blue_rov2_deploymen.Host.Client.{
  Port, RuntimeError, Client, read_from_socket, dispatch_all, poll_connection, send,
}
use rdml_blue_rov2_deploymen.Host.Client.Chunks.{joined, rounds, poll_connection-joined}

bind_between :
    {E A B C : Type 0} (r : Result E A) (f : A → Result E C) (f' : A → Result E B)
    (g : B → Result E C)
    → ((x : A) → f x ≡ (f' x >>= g))
    → (r >>= f) ≡ (r >>= f' >>= g)
bind_between (ok x) f f' g h = h x
bind_between (err e) f f' g h = refl
bind_between fault f f' g h = refl
bind_between stuck f f' g h = refl

module _ {W : Type 0} where
  -- Reads that do not fail, with other rounds behind them.
  poll_connection-append :
      (chunks : List (List ℕ)) (ports : List Port) (c : Client W) (w : W)
      → poll_connection (rounds chunks ++ ports) c w
        ≡ (poll_connection (rounds chunks) c w >>= λ (c', w'). poll_connection ports c' w')
  unfolding poll_connection read_from_socket
  poll_connection-append [] ports c w = refl
  poll_connection-append ([] ∷ chunks) ports c w = poll_connection-append chunks ports c w
  poll_connection-append ((b ∷ bytes) ∷ chunks) ports c w =
      bind_between (decode_packets (c.accumulated ++ (b ∷ bytes))) _ _ _ (λ (packets, stop).
        poll_connection-append chunks ports (record c { accumulated = stop })
          (dispatch_all c packets w))

  failed_round :
      (port : Port) (ports : List Port) (c : Client W) (w : W) (e : RuntimeError)
      → read_from_socket port ≡ err e
      → poll_connection (port ∷ ports) c w ≡ ok (record c { connected = false }, w)
  unfolding poll_connection
  failed_round port ports c w e h = rw (h, poll_connection) refl

  -- `poll_connection`, with no delimiter among the bytes at hand, on reads of which one fails: the packets in the
  -- bytes up to there are dispatched as if the link had not failed, what the port would give behind it is not
  -- looked at, and the client is not connected; from then on `send` writes nothing and returns false.
  pub poll_connection-failed :
      (chunks : List (List ℕ)) (port : Port) (ports : List Port) (c : Client W) (w : W)
      (packets : List Packet) (rest : List ℕ) (e : RuntimeError) (frame : List ℕ)
      (write_fails : Bool)
      → All IsNonzero c.accumulated
      → decode_packets (c.accumulated ++ joined chunks) ≡ ok (packets, rest)
      → read_from_socket port ≡ err e
      → (c' : Client W) × (poll_connection (rounds chunks ++ (port ∷ ports)) c w
          ≡ ok (c', dispatch_all c packets w))
        × (c' ≡ record c { connected = false; accumulated = rest })
        × (send frame write_fails c' ≡ (false, c', []))
  unfolding send
  poll_connection-failed chunks port ports c w packets rest e frame write_fails h decoded failed = (
    record c { connected = false; accumulated = rest },
    poll_connection-append chunks (port ∷ ports) c w
        ∙ ap (λ r. r >>= λ (c', w'). poll_connection (port ∷ ports) c' w')
            (poll_connection-joined chunks c w packets rest h decoded)
        ∙ failed_round port ports (record c { accumulated = rest }) (dispatch_all c packets w) e
            failed,
    refl,
    refl,
  )
