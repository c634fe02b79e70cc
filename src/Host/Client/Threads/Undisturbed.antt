-- ===== src/Host/Client/Threads/Undisturbed.antt =====
-- About runs of the two threads of modules/autonomy_pi/ros/autonomy_teensy/src/client.cpp in which the owner writes, destroys
-- and joins, but neither registers a callback nor does anything to what the callbacks keep.
use rdml_blue_rov2_deploymen.Common.{
  ℕ, ◌≡◌, ◌≢◌, refl, ap, ◌∙◌, Bool, true, false, Bool-cases, Bool-cases, ◌&&◌, inl, inr, arith,
  List, [], ◌∷◌, ok,
}
use rdml_blue_rov2_deploymen.Host.Packet.{Packet}
use rdml_blue_rov2_deploymen.Host.Client.{Port, Client, send, call_all, dispatch, dispatch_all}
use rdml_blue_rov2_deploymen.Host.Client.Threads.{
  Owner, Reader, testing, reading, dispatching, calling, finished, Threads, reader_step, destroy,
  Step, reads, registers, sends, acts, destroys, joins, Run, here, next,
}

module _ {W : Type 0} where
  -- What the ports that the steps of a run look at come to, in their order.
  abbrev pub heard_at : Reader W → Port → List Port → List Port
  heard_at reading port ports = port ∷ ports
  heard_at _ port ports = ports

  abbrev pub heard_in : {s t : Threads W} → Step s t → List Port → List Port
  heard_in {s} (reads port live e) ports = heard_at s.reader port ports
  heard_in _ ports = ports

  unfoldable pub heard : {u s : Threads W} → Run u s → List Port
  heard here = []
  heard (next step run) = heard_in step (heard run)

  -- The owner may write, destroy and join meanwhile; it registers nothing and leaves the world alone.
  abbrev pub leaves_alone : {s t : Threads W} → Step s t → Bool
  leaves_alone (registers _ _ _ _) = false
  leaves_alone (acts _ _ _) = false
  leaves_alone _ = true

  unfoldable pub undisturbed : {u s : Threads W} → Run u s → Bool
  undisturbed here = true
  undisturbed (next step run) = leaves_alone step && undisturbed run

  -- The world behind the calls that are left.
  unfoldable pub settled : Reader W → Client W → W → W
  settled (dispatching packets) c w = dispatch_all c packets w
  settled (calling to_call packet packets) c w = dispatch_all c packets (call_all to_call packet w)
  settled _ c w = w

  abbrev pub with_connected : Bool → Client W → Client W
  with_connected b c = record c { connected = b }

  -- The callbacks see neither the flag nor the bytes at hand.
  pub dispatch_all-connected :
      (b : Bool) (rest : List ℕ) (c : Client W) (packets : List Packet) (w : W)
      → dispatch_all (with_connected b c) packets w
        ≡ dispatch_all (record c { accumulated = rest }) packets w
  unfolding dispatch_all dispatch
  dispatch_all-connected b rest c [] w = refl
  dispatch_all-connected b rest c (packet ∷ packets) w = dispatch_all-connected b rest c packets _

  -- What the steps of the owner that are counted here may change.
  unfoldable pub OwnerLeaves : Threads W → Threads W → Type 0
  OwnerLeaves s t =
      (b : Bool) × (running : Bool) × (owner : Owner) × (t
        ≡ record s { client = with_connected b s.client; running = running; owner = owner })

  send-flag :
      (frame : List ℕ) (write_fails : Bool) (c : Client W)
      → (b : Bool) × ((send frame write_fails c).1 ≡ with_connected b c)
  unfolding send
  send-flag frame write_fails c = elim (Bool-cases c.connected) [
    | inl on ↦ elim (Bool-cases write_fails) [
      | inl down ↦ (false, rw (on, down) refl)
      | inr up ↦ (true, rw (on, up) refl)
    ]
    | inr off ↦ (false, rw off refl)
  ]

  pub data Turn {s t : Threads W} (step : Step s t) : Type 0 where
    reader_turn :
        (port : Port)
        → s.reader ≢ finished
        → reader_step s.reader port s ≡ ok t
        → ((ports : List Port) → heard_in step ports ≡ heard_at s.reader port ports)
        → Turn step
    owner_turn : OwnerLeaves s t → ((ports : List Port) → heard_in step ports ≡ ports) → Turn step

  pub turn : (s t : Threads W) (step : Step s t) → leaves_alone step ≡ true → Turn step
  unfolding destroy OwnerLeaves
  turn s t (reads port live e) h = reader_turn port live e (λ ports. refl)
  turn s t (registers packet_id callback free e) h = ground arith
  turn s t (sends frame write_fails free e) h =
      let (b, e') = send-flag frame write_fails s.client in
      owner_turn (b, s.running, s.owner, e ∙ ap (λ c. record s { client = c }) e') (λ ports. refl)
  turn s t (acts f free e) h = ground arith
  turn s t (destroys free e) h = owner_turn (s.client.connected, _, _, e) (λ ports. refl)
  turn s t (joins free gone e) h = owner_turn (s.client.connected, _, _, e) (λ ports. refl)

  pub split_undisturbed :
      (u s t : Threads W) (step : Step s t) (run : Run u t)
      → undisturbed (next step run) ≡ true
      → (leaves_alone step ≡ true) × (undisturbed run ≡ true)
  unfolding undisturbed
  split_undisturbed u s t step run h = ground arith

  pub settled-connected :
      (reader : Reader W) (b : Bool) (c : Client W) (w : W)
      → settled reader (with_connected b c) w ≡ settled reader c w
  unfolding settled
  settled-connected (dispatching packets) b c w = dispatch_all-connected b c.accumulated c packets w
  settled-connected (calling to_call packet packets) b c w =
      dispatch_all-connected b c.accumulated c packets (call_all to_call packet w)
  settled-connected testing b c w = refl
  settled-connected reading b c w = refl
  settled-connected finished b c w = refl

  -- Behind the loop the owner's steps leave all but the flag.
  pub finished-stays :
      (u s : Threads W) (run : Run u s)
      → undisturbed run ≡ true
      → s.reader ≡ finished
      → (b : Bool) × (u.client ≡ with_connected b s.client)
        × (settled u.reader u.client u.world ≡ s.world)
  unfolding settled OwnerLeaves
  finished-stays u s here calm done = (s.client.connected, refl, rw done refl)
  finished-stays u s (next {t} step run) calm done =
      let (alone, calm') = split_undisturbed u s t step run calm in
      elim (turn s t step alone) [
        | reader_turn port live e same ↦ absurd (live done)
        | owner_turn (b, running, owner, e) same ↦
            (let (b', c, w) = finished-stays u t run calm' (ap (λ r. r.reader) e ∙ done) in
              (b', c ∙ ap (λ r. with_connected b' r.client) e, w ∙ ap (λ r. r.world) e))
      ]

  pub owner-settled :
      (s t : Threads W) (b : Bool)
      → OwnerLeaves s t
      → (with_connected b t.client ≡ with_connected b s.client)
        × (settled t.reader t.client t.world ≡ settled s.reader s.client s.world)
  unfolding OwnerLeaves
  owner-settled s t b (b', running, owner, e) =
      rw e (refl, settled-connected s.reader b' s.client s.world)
