-- ===== src/Tests/Threads.antt =====
-- The driver's reading thread beside the owner of its client, at concrete inputs.
use rdml_blue_rov2_deploymen.Common.{ℕ, ◌+◌, ◌≡◌, refl, [], ◌∷◌, Bool, true, false, ok}
use rdml_blue_rov2_deploymen.Host.Ids
use rdml_blue_rov2_deploymen.Host.Cobs
use rdml_blue_rov2_deploymen.Host.Packet
use rdml_blue_rov2_deploymen.Host.Packet.{Packet, decode_packet, decode_packets}
use rdml_blue_rov2_deploymen.Host.Packet.Frames.{parsed}
use rdml_blue_rov2_deploymen.Host.Cobs.{decode_cobs}
use rdml_blue_rov2_deploymen.Host.Client.{
  Client, poll_connection, dispatch, dispatch_all, find_callbacks, send, timeout, arrived,
  read_from_socket,
}
use rdml_blue_rov2_deploymen.Host.Client.Threads.{
  Reader, dispatching, finished, in_use, destroyed, Threads, take_in, look_up, reader_step, destroy,
  Step, reads, sends, destroys, joins, Run, here, next, started,
}
use rdml_blue_rov2_deploymen.Host.Client.Threads.Undisturbed.{heard, undisturbed, settled}
use rdml_blue_rov2_deploymen.Host.Client.Threads.Serial.{run-serial}
use rdml_blue_rov2_deploymen.Host.Client.Threads.Join.{reader_steps, join-ends}
use rdml_blue_rov2_deploymen.Host.Client.Threads.Quiet.{destroyed-still}

-- A client with bytes at hand and a callback that counts responses.
abbrev counting : Client ℕ
counting = record {
  connected = true;
  accumulated = 3 ∷ [];
  callbacks = (Ids.command_response, (λ packet n. n + 1) ∷ []) ∷ [];
}

abbrev response : Packet
response = parsed Ids.command_response Ids.imu_01 (1 ∷ 7 ∷ 0 ∷ [])

-- The reading thread has one packet to dispatch.
abbrev busy : Bool → Threads ℕ
busy running = record {
  client = counting;
  running = running;
  reader = dispatching (response ∷ []);
  owner = in_use;
  world = 4;
}

-- The packet is counted while a write fails; then noise is read.
abbrev quiet_end : Threads ℕ
quiet_end = record {
  client = record counting { connected = false; accumulated = 5 ∷ [] };
  running = true;
  reader = dispatching [];
  owner = in_use;
  world = 5;
}

noisy_run : Run quiet_end (busy true)
unfolding reader_step look_up find_callbacks send read_from_socket take_in decode_packets
    Packet.decode_packets_loop Packet.find_delimiter Packet.push_decoded decode_packet decode_cobs
    Cobs.decode_loop Cobs.copy_block
noisy_run = next (reads timeout (λ h. cc) refl) (
    next (sends (1 ∷ 0 ∷ []) true refl refl) (
      next (reads timeout (λ h. cc) refl) (
        next (reads timeout (λ h. cc) refl) (
          next (reads timeout (λ h. cc) refl) (
            next (reads timeout (λ h. cc) refl)
              (next (reads (arrived (9 ∷ 0 ∷ 5 ∷ [])) (λ h. cc) refl) here))))))

run-serial_example :
    (b : Bool) × (poll_connection (arrived (9 ∷ 0 ∷ 5 ∷ []) ∷ []) counting 5
      ≡ ok (
        record quiet_end.client { connected = b },
        settled quiet_end.reader quiet_end.client quiet_end.world,
      ))
unfolding heard settled noisy_run undisturbed dispatch_all dispatch
run-serial_example = run-serial quiet_end (busy true) noisy_run refl

join-ends_example :
    (n : ℕ) × (t : Threads ℕ) × (reader_steps n (λ i. timeout) (busy false) ≡ ok t)
    × (t.reader ≡ finished)
join-ends_example = join-ends (λ i. timeout) (busy false) refl

-- A client that is destroyed while its reading thread waits for the port.
abbrev gone : Threads ℕ
gone = record {
  client = counting;
  running = false;
  reader = finished;
  owner = destroyed;
  world = 4;
}

gone_run : Run gone (started counting 4)
unfolding reader_step take_in read_from_socket destroy
gone_run = next (reads timeout (λ h. cc) refl) (
    next (destroys refl refl) (
      next (reads timeout (λ h. cc) refl)
        (next (reads timeout (λ h. cc) refl) (next (joins refl refl refl) here))))

destroyed-still_example :
    ◌≡◌ {A = Bool} false false × ◌≡◌ {A = Reader ℕ} finished finished × (¬ Step gone gone)
destroyed-still_example = destroyed-still counting 4 gone gone gone_run refl
