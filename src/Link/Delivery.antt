-- ===== src/Link/Delivery.antt =====
-- One packet from the serial port of the driver to the callbacks: src/client.cpp and src/packet.cpp of
-- modules/autonomy_pi/ros/autonomy_teensy.
use rdml_blue_rov2_deploymen.Common.{ℕ, ◌≡◌, refl, ap, ◌∙◌, List, [], ◌∷◌, ok}
use rdml_blue_rov2_deploymen.Host.Packet.{Packet}
use rdml_blue_rov2_deploymen.Host.Packet.Resync.{streamed, IsBytes, decode_packets-streamed_alone}
use rdml_blue_rov2_deploymen.Host.Client.{Client, dispatch, dispatch_all, poll_connection}
use rdml_blue_rov2_deploymen.Host.Client.Chunks.{joined, rounds, poll_connection-joined}
use rdml_blue_rov2_deploymen.Host.Packet.{decode_packets}

-- A client that waits at the beginning of a frame.
abbrev pub at_start : {W : Type 0} → Client W → Client W
at_start c = record c { accumulated = [] }

pub poll_connection-streamed :
    {W : Type 0} (c : Client W) (w : W) (p : Packet) (chunks : List (List ℕ))
    → IsBytes p
    → joined chunks ≡ streamed (p ∷ [])
    → poll_connection (rounds chunks) (at_start c) w ≡ ok (at_start c, dispatch c p w)
poll_connection-streamed c w p chunks h e =
    poll_connection-joined chunks (at_start c) w (p ∷ []) [] tt
      (ap decode_packets e ∙ decode_packets-streamed_alone (p ∷ []) (h, tt))
    ∙ unfold dispatch_all dispatch in refl
