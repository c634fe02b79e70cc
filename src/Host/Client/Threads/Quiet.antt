-- ===== src/Host/Client/Threads/Quiet.antt =====
-- About the end of a client of modules/autonomy_pi/ros/autonomy_teensy/src/client.cpp: what its destructor
-- leaves running.
use rdml_blue_rov2_deploymen.Common.{◌≡◌, refl, sym, ◌∙◌, ap, Bool, true, false, arith}
use rdml_blue_rov2_deploymen.Host.Client.{Client}
use rdml_blue_rov2_deploymen.Host.Client.Threads.{
  finished, Owner, in_use, destroyed, Threads, destroy, Step, reads, registers, sends, acts,
  destroys, joins, Run, here, next, started,
}
use rdml_blue_rov2_deploymen.Host.Client.Threads.Advance.{reader_step-keeps}

abbrev is_in_use : Owner → Bool
is_in_use in_use = true
is_in_use _ = false

module _ {W : Type 0} where
  record Inv (s : Threads W) : Type 0 where
    stops : s.running ≡ is_in_use s.owner
    joined : s.owner ≡ destroyed → s.reader ≡ finished

  step-Inv : (s t : Threads W) → Step s t → Inv s → Inv t
  unfolding destroy
  step-Inv s t (reads port live e) inv =
      let (running, owner) = reader_step-keeps s.reader port s t e in
      record {
        stops = ground arith;
        joined = λ gone. absurd (live (inv.joined (sym owner ∙ gone)));
      }
  step-Inv s t (registers packet_id callback u e) inv =
      rw e (record { stops = inv.stops; joined = inv.joined })
  step-Inv s t (sends frame write_fails u e) inv = ground arith
  step-Inv s t (acts f u e) inv = ground arith
  step-Inv s t (destroys u e) inv = ground arith
  step-Inv s t (joins u done e) inv = ground arith

  run-Inv : (t s : Threads W) → Run t s → Inv s → Inv t
  run-Inv t s here inv = inv
  run-Inv t s (next step run) inv = run-Inv t _ run (step-Inv s _ step inv)

  still : (s t : Threads W) → s.owner ≡ destroyed → Inv s → ¬ Step s t
  still s t gone inv (reads port live e) = live (inv.joined gone)
  still s t gone inv (registers packet_id callback u e) = ground arith
  still s t gone inv (sends frame write_fails u e) = ground arith
  still s t gone inv (acts f u e) = ground arith
  still s t gone inv (destroys u e) = ground arith
  still s t gone inv (joins u done e) = ground arith

  -- From the start of a client's reading thread, over any interleaving of its steps and those of the owner:
  -- once the destructor has returned, `running_` is cleared, the reading thread is at its end, and no step is
  -- left to either of the two, so no callback runs after it.
  pub destroyed-still :
      (c : Client W) (w : W) (s t : Threads W)
      → Run s (started c w)
      → s.owner ≡ destroyed
      → (s.running ≡ false) × (s.reader ≡ finished) × (¬ Step s t)
  destroyed-still c w s t run gone =
      let inv = run-Inv s _ run (record { stops = refl; joined = λ h. ground arith }) in
      (inv.stops ∙ ap is_in_use gone, inv.joined gone, still s t gone inv)
