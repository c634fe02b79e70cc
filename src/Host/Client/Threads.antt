-- ===== src/Host/Client/Threads.antt =====
-- modules/autonomy_pi/ros/autonomy_teensy/src/client.cpp: the reading thread beside the thread that owns the
-- client, one access to shared members at a time. Between any two steps of one the other may take steps;
-- `running_` and `connected_` are atomic, and `callbacks_` is behind its lock.
pub mod Advance
pub mod Undisturbed
pub mod Join
pub mod Quiet
pub mod Serial
use rdml_blue_rov2_deploymen.Common.{
  ℕ, ◌≡◌, ◌≢◌, Bool, true, false, Option, none, some, List, [], ◌∷◌, ◌++◌, is_empty, if◌then◌else◌,
  Result, ok, err, fault, stuck, ◌>>=◌,
}
use rdml_blue_rov2_deploymen.Host.Error.{InvalidArgument}
use rdml_blue_rov2_deploymen.Host.Ids.{PacketId}
use rdml_blue_rov2_deploymen.Host.Packet.{Packet, decode_packets}
use rdml_blue_rov2_deploymen.Host.Client.{
  Port, Callback, Client, read_from_socket, register_callback, find_callbacks, send,
}

-- Where the reading thread stands: before the test of the loop, before `read_from_socket`, before the
-- dispatch of the packets that are left, among the calls for a packet, or behind the loop.
pub data Reader (W : Type 0) : Type 0 where
  testing : Reader W
  reading : Reader W
  dispatching : List Packet → Reader W
  calling : List (Callback W) → Packet → List Packet → Reader W
  finished : Reader W

-- Where the owner stands: the client is there, its destructor waits in `join`, or it has returned.
pub data Owner : Type 0 where
  in_use joining destroyed : Owner

pub record Threads (W : Type 0) : Type 0 where
  pub client : Client W
  pub running : Bool
  pub reader : Reader W
  pub owner : Owner
  pub world : W

module _ {W : Type 0} where
  abbrev pub stand : Reader W → Threads W → Threads W
  stand reader s = record s { reader = reader }

  -- The bytes that were read, up to the loop over the packets.
  unfoldable pub take_in : List ℕ → Threads W → Result InvalidArgument (Threads W)
  take_in bytes s = elim (is_empty bytes) [
    | true ↦ ok (stand testing s)
    | false ↦ do
      (packets, stop) ← decode_packets (s.client.accumulated ++ bytes)
      ok (record s {
        client = record s.client { accumulated = stop };
        reader = dispatching packets;
      })
  ]

  -- `to_call` is a copy of what is registered.
  unfoldable pub look_up : Option (List (Callback W)) → Packet → List Packet → Reader W
  look_up none packet packets = dispatching packets
  look_up (some to_call) packet packets = calling to_call packet packets

  -- A step of `poll_connection`, with what the port comes to if it is read.
  unfoldable pub reader_step : Reader W → Port → Threads W → Result InvalidArgument (Threads W)
  unfolding take_in look_up
  reader_step testing port s = ok (stand (if s.running then reading else finished) s)
  reader_step reading port s = elim (read_from_socket port) [
    | err e ↦ ok (record s { client = record s.client { connected = false }; reader = finished })
    | fault ↦ fault
    | stuck ↦ stuck
    | ok bytes ↦ take_in bytes s
  ]
  reader_step (dispatching []) port s = ok (stand testing s)
  reader_step (dispatching (packet ∷ packets)) port s =
      ok (stand (look_up (find_callbacks packet.packet_id s.client.callbacks) packet packets) s)
  reader_step (calling [] packet packets) port s = ok (stand (dispatching packets) s)
  reader_step (calling (callback ∷ to_call) packet packets) port s =
      ok (record s { world = callback packet s.world; reader = calling to_call packet packets })
  reader_step finished port s = ok s

  -- The head of `~Client`: what is left of it is the `join`.
  unfoldable pub destroy : Threads W → Threads W
  destroy s = record s { running = false; owner = joining }

  -- A step of one of the two. What else the owner does with the world, under a lock, is any function of it.
  pub data Step (s t : Threads W) : Type 0 where
    reads : (port : Port) → s.reader ≢ finished → reader_step s.reader port s ≡ ok t → Step s t
    registers :
        (packet_id : PacketId) (callback : Callback W)
        → s.owner ≡ in_use
        → t ≡ record s { client = register_callback packet_id callback s.client }
        → Step s t
    sends :
        (frame : List ℕ) (write_fails : Bool)
        → s.owner ≡ in_use
        → t ≡ record s { client = (send frame write_fails s.client).1 }
        → Step s t
    acts : (f : W → W) → s.owner ≡ in_use → t ≡ record s { world = f s.world } → Step s t
    destroys : s.owner ≡ in_use → t ≡ destroy s → Step s t
    joins : s.owner ≡ joining → s.reader ≡ finished → t ≡ record s { owner = destroyed } → Step s t

  -- The steps from one state to another, in their order.
  pub data Run (u : Threads W) : Threads W → Type 0 where
    here : Run u u
    next : {s t : Threads W} → Step s t → Run u t → Run u s

  -- The constructor: the thread is started last.
  abbrev pub started : Client W → W → Threads W
  started c w = record { client = c; running = true; reader = testing; owner = in_use; world = w }
