-- ===== src/Host/Client/Threads/Advance.antt =====
-- About one step of the reading thread of modules/autonomy_pi/ros/autonomy_teensy/src/client.cpp: it is never stuck.
use rdml_blue_rov2_deploymen.Common.{
  ℕ, List, Bool, true, false, ◌≡◌, refl, [], ◌∷◌, ◌++◌, ok, ap, ◌>>=◌,
}
use rdml_blue_rov2_deploymen.Host.Packet.Stream.{
  nothing_received, receive_all, decode_packets-receive_all,
}
use rdml_blue_rov2_deploymen.Host.Client.{
  Port, poll_failed, timeout, no_input, read_failed, arrived, read_from_socket,
}
use rdml_blue_rov2_deploymen.Host.Client.Threads.{
  Reader, testing, reading, dispatching, calling, finished, Threads, take_in, reader_step,
}

module _ {W : Type 0} where
  -- What a step comes to: the flags of the owner stay as they are.
  abbrev pub Advance : Threads W → Reader W → Port → Type 0
  Advance s reader port =
      (t : Threads W) × (reader_step reader port s ≡ ok t)
      × (t.running ≡ s.running)
      × (t.owner ≡ s.owner)

  -- Bytes that are there: their packets are to be dispatched.
  abbrev pub taken : List ℕ → Threads W → Threads W
  taken bytes s = record s {
    client = record s.client { accumulated = (receive_all nothing_received bytes).pending };
    reader = dispatching (receive_all nothing_received bytes).packets;
  }

  pub take_in-cons :
      (b : ℕ) (bytes : List ℕ) (s : Threads W)
      → take_in (b ∷ bytes) s ≡ ok (taken (s.client.accumulated ++ (b ∷ bytes)) s)
  unfolding take_in
  take_in-cons b bytes s =
      ap
        (λ r. r >>= λ (packets, stop). ok (record s {
          client = record s.client { accumulated = stop };
          reader = dispatching packets;
        }))
        (decode_packets-receive_all (s.client.accumulated ++ (b ∷ bytes)))

  abbrev pub is_reading : Reader W → Bool
  is_reading reading = true
  is_reading _ = false

  pub advance_reading :
      (port : Port) (s : Threads W)
      → (t : Threads W) × (reader_step reading port s ≡ ok t)
        × (t.running ≡ s.running)
        × (t.owner ≡ s.owner)
        × (is_reading t.reader ≡ false)
  unfolding reader_step read_from_socket take_in
  advance_reading poll_failed s = (_, refl, refl, refl, refl)
  advance_reading timeout s = (_, refl, refl, refl, refl)
  advance_reading no_input s = (_, refl, refl, refl, refl)
  advance_reading read_failed s = (_, refl, refl, refl, refl)
  advance_reading (arrived []) s = (_, refl, refl, refl, refl)
  advance_reading (arrived (b ∷ bytes)) s = (_, take_in-cons b bytes s, refl, refl, refl)

  pub advance : (reader : Reader W) (port : Port) (s : Threads W) → Advance s reader port
  unfolding reader_step
  advance testing port s = (_, refl, refl, refl)
  advance reading port s =
      let (t, e, running, owner, _) = advance_reading port s in (t, e, running, owner)
  advance (dispatching []) port s = (_, refl, refl, refl)
  advance (dispatching (packet ∷ packets)) port s = (_, refl, refl, refl)
  advance (calling [] packet packets) port s = (_, refl, refl, refl)
  advance (calling (callback ∷ to_call) packet packets) port s = (_, refl, refl, refl)
  advance finished port s = (_, refl, refl, refl)

  pub reader_step-keeps :
      (reader : Reader W) (port : Port) (s t : Threads W)
      → reader_step reader port s ≡ ok t
      → (t.running ≡ s.running) × (t.owner ≡ s.owner)
  reader_step-keeps reader port s t e =
      let (t', e', running, owner) = advance reader port s in (cc, cc)
