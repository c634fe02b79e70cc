-- ===== src/Host/Client/Threads/Serial.antt =====
-- About what the reading thread of modules/autonomy_pi/ros/autonomy_teensy/src/client.cpp has done when it is stopped between
-- two of its steps, beside the loop `poll_connection` as one function.
use rdml_blue_rov2_deploymen.Common.{
  ◌≡◌, ◌≢◌, refl, sym, ap, subst, ok_injective, ◌∙◌, Bool, true, false, if◌then◌else◌, ◌⊎◌, inl,
  inr, Option, none, some, List, [], ◌∷◌, ◌++◌, ok, ◌>>=◌,
}
use rdml_blue_rov2_deploymen.Host.Packet.{Packet, decode_packets}
use rdml_blue_rov2_deploymen.Host.Packet.Stream.{
  Received, nothing_received, receive_all, decode_packets-receive_all,
}
use rdml_blue_rov2_deploymen.Host.Client.{
  Port, poll_failed, timeout, no_input, read_failed, arrived, Callback, Client, read_from_socket,
  find_callbacks, call_all, dispatch, dispatch_all, poll_connection,
}
use rdml_blue_rov2_deploymen.Host.Client.Threads.{
  Reader, testing, reading, dispatching, calling, finished, Threads, take_in, look_up, reader_step,
  Run, here, next,
}
use rdml_blue_rov2_deploymen.Host.Client.Threads.Advance.{taken, take_in-cons}
use rdml_blue_rov2_deploymen.Host.Client.Threads.Undisturbed.{
  heard_at, heard, undisturbed, settled, with_connected, dispatch_all-connected, reader_turn,
  owner_turn, turn, split_undisturbed, finished-stays, owner-settled,
}

module _ {W : Type 0} where
  settled-test :
      (running : Bool) (c : Client W) (w : W)
      → settled (if running then reading else finished) c w ≡ w
  unfolding settled
  settled-test true c w = refl
  settled-test false c w = refl

  look_up-settled :
      (packet : Packet) (packets : List Packet) (found : Option (List (Callback W))) (c : Client W)
      (w : W)
      → find_callbacks packet.packet_id c.callbacks ≡ found
      → settled (look_up found packet packets) c w ≡ dispatch_all c packets (dispatch c packet w)
  unfolding settled look_up dispatch
  look_up-settled packet packets none c w e = rw (e, dispatch) refl
  look_up-settled packet packets (some to_call) c w e = rw (e, dispatch) refl

  -- A step that does not read.
  silent_step :
      (reader : Reader W) (port : Port) (s : Threads W) (ports : List Port)
      → reader ≢ reading
      → reader ≢ finished
      → (t : Threads W) × (reader_step reader port s ≡ ok t)
        × (t.client ≡ s.client)
        × (settled t.reader t.client t.world ≡ settled reader s.client s.world)
        × (heard_at reader port ports ≡ ports)
  unfolding reader_step settled dispatch_all call_all
  silent_step testing port s ports r f =
      (_, refl, refl, settled-test s.running s.client s.world, refl)
  silent_step reading port s ports r f = absurd (r refl)
  silent_step (dispatching []) port s ports r f = (_, refl, refl, refl, refl)
  silent_step (dispatching (packet ∷ packets)) port s ports r f =
      (_, refl, refl, look_up-settled packet packets _ s.client s.world refl, refl)
  silent_step (calling [] packet packets) port s ports r f = (_, refl, refl, refl, refl)
  silent_step (calling (callback ∷ to_call) packet packets) port s ports r f =
      (_, refl, refl, refl, refl)
  silent_step finished port s ports r f = absurd (f refl)

  -- A step that reads: a round of the loop, or the end of it.
  data Round (port : Port) (s t : Threads W) : Type 0 where
    round :
        ((b : Bool) (ports : List Port)
          → poll_connection (port ∷ ports) (with_connected b s.client) s.world
            ≡ poll_connection ports (with_connected b t.client) (settled t.reader t.client t.world))
        → Round port s t
    ended :
        t.reader ≡ finished
        → t.world ≡ s.world
        → ((b : Bool) (ports : List Port)
            → poll_connection (port ∷ ports) (with_connected b s.client) s.world
              ≡ ok (with_connected false s.client, s.world))
        → t.client ≡ with_connected false s.client
        → Round port s t

  reading_step :
      (port : Port) (s : Threads W)
      → (t : Threads W) × (reader_step reading port s ≡ ok t) × Round port s t
  unfolding reader_step read_from_socket take_in settled poll_connection
  reading_step poll_failed s = (_, refl, ended refl refl (λ b ports. refl) refl)
  reading_step timeout s = (_, refl, round (λ b ports. refl))
  reading_step no_input s = (_, refl, round (λ b ports. refl))
  reading_step read_failed s = (_, refl, ended refl refl (λ b ports. refl) refl)
  reading_step (arrived []) s = (_, refl, round (λ b ports. refl))
  reading_step (arrived (x ∷ bytes)) s = (
    taken (s.client.accumulated ++ (x ∷ bytes)) s,
    take_in-cons x bytes s,
    round (λ b ports.
        ap
          (λ r. r >>= λ (packets, stop).
            poll_connection ports (record s.client { connected = b; accumulated = stop })
              (dispatch_all (with_connected b s.client) packets s.world))
          decoded
        ∙ ap
            (poll_connection ports
              (record s.client { connected = b; accumulated = received.pending }))
            (dispatch_all-connected b received.pending s.client received.packets s.world)),
  )
    where
      received : Received
      received = receive_all nothing_received (s.client.accumulated ++ (x ∷ bytes))

      decoded :
          decode_packets (s.client.accumulated ++ (x ∷ bytes))
          ≡ ok (received.packets, received.pending)
      decoded = decode_packets-receive_all (s.client.accumulated ++ (x ∷ bytes))

  Serial : Threads W → Threads W → List Port → Bool → Type 0
  Serial s u ports b =
      (b' : Bool) × (poll_connection ports (with_connected b s.client)
          (settled s.reader s.client s.world)
        ≡ ok (with_connected b' u.client, settled u.reader u.client u.world))

  shift-Serial :
      (s t u : Threads W) (ports ports' : List Port) (b : Bool)
      → ports' ≡ ports
      → with_connected b t.client ≡ with_connected b s.client
      → settled t.reader t.client t.world ≡ settled s.reader s.client s.world
      → Serial t u ports b
      → Serial s u ports' b
  unfolding Serial
  shift-Serial s t u ports ports' b same c w (b', e) = (
    b',
    ap (λ ps. poll_connection ps (with_connected b s.client) (settled s.reader s.client s.world))
          same
        ∙ ap (λ d. poll_connection ports d (settled s.reader s.client s.world)) (sym c)
        ∙ ap (poll_connection ports (with_connected b t.client)) (sym w)
        ∙ e,
  )

  round-Serial :
      (s t u : Threads W) (port : Port) (run : Run u t) (b : Bool)
      → Round port s t
      → undisturbed run ≡ true
      → Serial t u (heard run) b
      → (b' : Bool) × (poll_connection (port ∷ heard run) (with_connected b s.client) s.world
          ≡ ok (with_connected b' u.client, settled u.reader u.client u.world))
  unfolding Serial
  round-Serial s t u port run b (round f) calm (b', e) = (b', f b (heard run) ∙ e)
  round-Serial s t u port run b (ended done same f c) calm ih =
      let (b', c', w) = finished-stays u t run calm done in
      (
        false,
        f b (heard run)
            ∙ ap (λ d. ok (d, s.world))
                (ap (with_connected false) (sym (c' ∙ ap (with_connected b') c)))
            ∙ ap (λ w. ok (with_connected false u.client, w)) (sym (w ∙ same)),
      )

  reading_or : (reader : Reader W) → (reader ≡ reading) ⊎ (reader ≢ reading)
  reading_or reading = inl refl
  reading_or testing = inr (λ h. cc)
  reading_or (dispatching packets) = inr (λ h. cc)
  reading_or (calling to_call packet packets) = inr (λ h. cc)
  reading_or finished = inr (λ h. cc)

  reader-Serial :
      (s t u : Threads W) (port : Port) (run : Run u t) (b : Bool)
      → s.reader ≢ finished
      → reader_step s.reader port s ≡ ok t
      → undisturbed run ≡ true
      → Serial t u (heard run) b
      → Serial s u (heard_at s.reader port (heard run)) b
  unfolding Serial settled
  reader-Serial s t u port run b live e calm ih = elim (reading_or s.reader) [
    | inl r ↦
        let (t', e', taken) = reading_step port s in
        rw r (
          round-Serial s t u port run b
            (subst (Round port s)
              (ok_injective (sym e' ∙ ap (λ q. reader_step q port s) (sym r) ∙ e)) taken)
            calm ih)
    | inr r ↦
        let (t', e', c, w, h) = silent_step s.reader port s (heard run) r live in
        shift-Serial s t' u (heard run) _ b h (ap (with_connected b) c) w
          (subst (λ t. Serial t u (heard run) b) (ok_injective (sym e ∙ e')) ih)
  ]

  every_run :
      (u s : Threads W) (run : Run u s) (b : Bool)
      → undisturbed run ≡ true
      → Serial s u (heard run) b
  unfolding heard poll_connection Serial
  every_run u s here b calm = (b, refl)
  every_run u s (next {t} step run) b calm =
      let (alone, calm') = split_undisturbed u s t step run calm in
      elim (turn s t step alone) [
        | owner_turn leaves same ↦
            (let (c, w) = owner-settled s t b leaves in
              shift-Serial s t u (heard run) _ b (same (heard run)) c w (every_run u t run b calm'))
        | reader_turn port live e same ↦
            subst (λ ports. Serial s u ports b) (sym (same (heard run)))
              (reader-Serial s t u port run b live e calm' (every_run u t run b calm'))
      ]

  -- From any state of the two threads, over any interleaving in which the owner writes, destroys and joins,
  -- but neither registers callbacks nor changes the world itself: with the calls that are still due made up,
  -- the reading thread has done to the world, the accumulated bytes and the callbacks exactly what the loop
  -- `poll_connection` as one function does on what the port came to at the reads of the run, in their order.
  pub run-serial :
      (u s : Threads W) (run : Run u s)
      → undisturbed run ≡ true
      → (b : Bool) × (poll_connection (heard run) s.client (settled s.reader s.client s.world)
          ≡ ok (record u.client { connected = b }, settled u.reader u.client u.world))
  unfolding Serial
  run-serial u s run calm = every_run u s run s.client.connected calm
