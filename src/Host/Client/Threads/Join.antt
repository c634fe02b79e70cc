-- ===== src/Host/Client/Threads/Join.antt =====
-- About the `join` in the destructor of modules/autonomy_pi/ros/autonomy_teensy/src/client.cpp.
use rdml_blue_rov2_deploymen.Common.{
  ℕ, zero, suc, ◌≡◌, refl, arith, ◌∙◌, ap, false, Option, none, some, List, [], ◌∷◌, Result, ok,
  ◌>>=◌,
}
use rdml_blue_rov2_deploymen.Host.Error.{InvalidArgument}
use rdml_blue_rov2_deploymen.Host.Packet.{Packet}
use rdml_blue_rov2_deploymen.Host.Client.{Port, Callback, find_callbacks}
use rdml_blue_rov2_deploymen.Host.Client.Threads.{
  Reader, testing, reading, dispatching, calling, finished, Threads, stand, look_up, reader_step,
}
use rdml_blue_rov2_deploymen.Host.Client.Threads.Advance.{is_reading, advance_reading}

module _ {W : Type 0} where
  -- The reading thread alone, for a number of steps; `ports i` is for the i-th of them, if it reads.
  unfoldable pub reader_steps : ℕ → (ℕ → Port) → Threads W → Result InvalidArgument (Threads W)
  reader_steps zero ports s = ok s
  reader_steps (suc n) ports s =
      reader_step s.reader (ports 0) s >>= λ t. reader_steps n (λ i. ports (suc i)) t

  abbrev Ends : (ℕ → Port) → Threads W → Type 0
  Ends ports s = (n : ℕ) × (t : Threads W) × (reader_steps n ports s ≡ ok t) × (t.reader ≡ finished)

  step-Ends :
      (ports : ℕ → Port) (s t : Threads W)
      → reader_step s.reader (ports 0) s ≡ ok t
      → Ends (λ i. ports (suc i)) t
      → Ends ports s
  unfolding reader_steps
  step-Ends ports s t e (n, u, steps, done) =
      (suc n, u, ap (λ r. r >>= λ t. reader_steps n (λ i. ports (suc i)) t) e ∙ steps, done)

  -- From a place of the reading thread, whatever the members are.
  abbrev AlwaysEnds : Reader W → Type 0
  AlwaysEnds reader =
      (ports : ℕ → Port) (s : Threads W) → s.running ≡ false → Ends ports (stand reader s)

  testing-Ends : AlwaysEnds testing
  unfolding reader_steps reader_step
  testing-Ends ports s h = (1, stand finished s, rw h refl, refl)

  calling-Ends :
      (packet : Packet) (packets : List Packet) (to_call : List (Callback W))
      → AlwaysEnds (dispatching packets)
      → AlwaysEnds (calling to_call packet packets)
  unfolding reader_step
  calling-Ends packet packets [] rest ports s h = step-Ends ports _ _ refl (rest _ s h)
  calling-Ends packet packets (callback ∷ to_call) rest ports s h =
      step-Ends ports _ _ refl (
        calling-Ends packet packets to_call rest _ (record s { world = callback packet s.world }) h)

  look_up-Ends :
      (packet : Packet) (packets : List Packet) (found : Option (List (Callback W)))
      → AlwaysEnds (dispatching packets)
      → AlwaysEnds (look_up found packet packets)
  unfolding look_up
  look_up-Ends packet packets none rest = rest
  look_up-Ends packet packets (some to_call) rest = calling-Ends packet packets to_call rest

  dispatching-Ends : (packets : List Packet) → AlwaysEnds (dispatching packets)
  unfolding reader_step
  dispatching-Ends [] ports s h = step-Ends ports _ _ refl (testing-Ends _ s h)
  dispatching-Ends (packet ∷ packets) ports s h = step-Ends ports _ _ refl (
      look_up-Ends packet packets (find_callbacks packet.packet_id s.client.callbacks)
        (dispatching-Ends packets) _ s h)

  -- Anywhere but before a read.
  settled-Ends :
      (reader : Reader W) (ports : ℕ → Port) (s : Threads W)
      → is_reading reader ≡ false
      → s.running ≡ false
      → Ends ports (stand reader s)
  unfolding reader_steps
  settled-Ends testing ports s r h = testing-Ends ports s h
  settled-Ends reading ports s r h = ground arith
  settled-Ends (dispatching packets) ports s r h = dispatching-Ends packets ports s h
  settled-Ends (calling to_call packet packets) ports s r h =
      calling-Ends packet packets to_call (dispatching-Ends packets) ports s h
  settled-Ends finished ports s r h = (0, stand finished s, refl, refl)

  reading-Ends : AlwaysEnds reading
  reading-Ends ports s h =
      let (t, e, running, owner, settled) = advance_reading (ports 0) (stand reading s) in
      step-Ends ports (stand reading s) t e
        (settled-Ends t.reader (λ i. ports (suc i)) t settled (running ∙ h))

  any-Ends : (reader : Reader W) → AlwaysEnds reader
  any-Ends reading ports s h = reading-Ends ports s h
  any-Ends reader ports s h = settled-Ends reader ports s refl h

  -- Once `running_` is cleared, wherever the reading thread stands, with any packets and callbacks left and
  -- whatever the port gives it, it comes to its end after finitely many steps of its own; none of them
  -- fails, and the `join` returns.
  pub join-ends :
      (ports : ℕ → Port) (s : Threads W)
      → s.running ≡ false
      → (n : ℕ) × (t : Threads W) × (reader_steps n ports s ≡ ok t) × (t.reader ≡ finished)
  join-ends ports s h = any-Ends s.reader ports s h
