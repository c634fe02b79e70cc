-- ===== src/Host/Command/Turns/Serial.antt =====
-- About the calls of send_command of modules/autonomy_pi/ros/autonomy_teensy/src/driver.cpp in which the
-- reading thread takes turns with the caller, beside `send_command` as one function.
use rdml_blue_rov2_deploymen.Common.{
  ℕ, zero, suc, ◌≡◌, refl, sym, ap, subst, ◌∙◌, Bool, true, false, Option, none, some, List, [],
  ◌∷◌, ◌++◌, append_assoc, append-nil, ok, ok_injective, ◌>>=◌,
}
use rdml_blue_rov2_deploymen.Host.Ids.{CommandId}
use rdml_blue_rov2_deploymen.Host.Packet.{Packet}
use rdml_blue_rov2_deploymen.Host.Client.{Client, send}
use rdml_blue_rov2_deploymen.Host.Command.{
  Response, Commands, Message, link_down, timed_out, begin_attempt, deliver_all, stop_reader,
  verdict, Attempt, Outcome, ended, after_frame, attempts_loop, send_command,
}
use rdml_blue_rov2_deploymen.Host.Command.Answers.{open_at}
use rdml_blue_rov2_deploymen.Host.Command.Rounds.{next_seq, command_frame, encoded}
use rdml_blue_rov2_deploymen.Host.Command.Turns.{
  Caller, testing, encoding, sending, waiting, returned, Call, next_attempt, encode, write,
  end_wait, caller_step, Step, calls, responds, gives_up, Run, here, next, called,
}
use rdml_blue_rov2_deploymen.Host.Command.Turns.Round.{before, wait_end, attempt_of, first_sent}
use rdml_blue_rov2_deploymen.Host.Command.Turns.Stages.{
  Brings, before-Brings, Returns, answered, silent, Sends, down, up, Stage, gives_up-Stage,
  responds-Stage,
}

module _ {W : Type 0} (command_id : CommandId) (arg : ℕ) where
  exhausted-Returns :
      (came : List Packet) (seq : ℕ) (c : Client W)
      → Returns command_id arg came 0 seq c (false, timed_out) []
  unfolding attempts_loop ended
  exhausted-Returns came seq c = record {
    environment = λ i. attempt_of false false [];
    brings = λ i. (tt, refl);
    returns = λ s e. (ended (false, timed_out) s c [], refl, refl, refl);
  }

  Sends-Returns :
      (came : List Packet) (left seq : ℕ) (c : Client W) (result : Bool × Message)
      (frames : List (List ℕ))
      → Sends command_id arg came left
          (open_at (next_seq seq))
          (command_frame command_id arg (next_seq seq))
          c
          result
          frames
      → Returns command_id arg came (suc left) seq c result frames
  unfolding ended after_frame deliver_all
  Sends-Returns came left seq c result frames (down b f c' w sent r g) = record {
    environment = before (attempt_of b f []) (λ i. attempt_of false false []);
    brings =
        before-Brings came (attempt_of b f []) (λ i. attempt_of false false []) (tt, refl)
          (λ i. (tt, refl));
    returns = λ s e. (
      ended (false, link_down) (open_at (next_seq seq)) c' [],
      first_sent command_id arg (attempt_of b f []) (λ i. attempt_of false false []) left seq s c _
          e sent,
      sym r,
      sym g,
    );
  }
  Sends-Returns came left seq c result frames
        (up b f c' w l sent (answered packets r m found v h) g) =
      record {
        environment = before (attempt_of b f packets) (λ i. attempt_of false false []);
        brings =
            before-Brings came (attempt_of b f packets) (λ i. attempt_of false false []) (m, refl)
              (λ i. (tt, refl));
        returns = λ s e. (
          ended (verdict r.2) (deliver_all packets (open_at (next_seq seq))) c' (w ∷ []),
          first_sent command_id arg (attempt_of b f packets) (λ i. attempt_of false false []) left
                seq s c _ e sent
              ∙ ap
                  (λ o.
                    wait_end o (deliver_all packets (open_at (next_seq seq))) c' w []
                      (attempts_loop (λ i. attempt_of false false []) command_id arg left 0))
                  found,
          sym v,
          ap (λ l. w ∷ l) (sym h) ∙ sym g,
        );
      }
  Sends-Returns came left seq c result frames (up b f c' w l sent (silent packets m found rest) g) =
      record {
        environment = before (attempt_of b f packets) rest.environment;
        brings = before-Brings came (attempt_of b f packets) rest.environment (m, refl) rest.brings;
        returns = λ s e.
            let (o, out, same, written) =
              rest.returns (deliver_all packets (open_at (next_seq seq))) refl in
            (
              after_frame w o,
              first_sent command_id arg (attempt_of b f packets) rest.environment left seq s c _ e
                    sent
                  ∙ ap
                      (λ o.
                        wait_end o (deliver_all packets (open_at (next_seq seq))) c' w []
                          (attempts_loop rest.environment command_id arg left 0))
                      found
                  ∙ ap (λ r. r >>= λ o. ok (after_frame w o)) out,
              same,
              ap (λ l. w ∷ l) written ∙ sym g,
            );
      }

  Leads : List Packet → List (List ℕ) → Bool × Message → Caller → Call W → Type 0
  Leads came all result caller k =
      (frames : List (List ℕ)) × (all ≡ k.frames ++ frames)
      × Stage command_id arg came caller k result frames

  next_attempt-Leads :
      (came : List Packet) (all : List (List ℕ)) (result : Bool × Message) (left : ℕ) (k : Call W)
      → k.left ≡ left
      → Leads came all result (next_attempt left k).caller (next_attempt left k)
      → Leads came all result testing k
  unfolding Leads Stage next_attempt begin_attempt
  next_attempt-Leads came all result zero k e (frames, written, (same, none_more)) = (
    frames,
    written,
    subst (λ n. Returns command_id arg came n k.commands.command_seq k.client result frames) (sym e)
        (subst (λ r. Returns command_id arg came 0 k.commands.command_seq k.client r frames) same
          (subst
            (λ fs.
              Returns command_id arg came 0 k.commands.command_seq k.client (false, timed_out) fs)
            (sym none_more) (exhausted-Returns came k.commands.command_seq k.client))),
  )
  next_attempt-Leads came all result (suc left) k e (frames, written, sends) = (
    frames,
    written,
    rw e (Sends-Returns came left k.commands.command_seq k.client result frames sends),
  )

  write-Leads :
      (came : List Packet) (all : List (List ℕ)) (result : Bool × Message) (frame : List ℕ)
      (f : Bool) (x : Bool × Client W × List ℕ) (k : Call W)
      → send frame f k.client ≡ x
      → Leads came all result (write x k).caller (write x k)
      → Leads came all result (sending frame) k
  unfolding Leads Stage write stop_reader
  write-Leads came all result frame f (true, c, w) k sent (frames, written, waits) = (
    w ∷ frames,
    written ∙ append_assoc k.frames (w ∷ []) frames,
    up false f c w frames sent waits refl,
  )
  write-Leads came all result frame f (false, c, w) k sent (frames, written, (same, none_more)) =
      (frames, written, down false f c w sent (sym same) none_more)

  end_wait-Leads :
      (came : List Packet) (all : List (List ℕ)) (result : Bool × Message) (o : Option Response)
      (k : Call W)
      → k.commands.future ≡ o
      → Leads came all result (end_wait o k).caller (end_wait o k)
      → Leads came all result waiting k
  unfolding Leads Stage end_wait deliver_all
  end_wait-Leads came all result (some r) k found (frames, written, (same, none_more)) =
      (frames, written, answered [] r tt found (sym same) none_more)
  end_wait-Leads came all result none k found (frames, written, returns) =
      (frames, written, silent [] tt found returns)

  caller_step-Leads :
      (came : List Packet) (all : List (List ℕ)) (result : Bool × Message) (caller : Caller)
      (f : Bool) (k : Call W)
      → k.caller ≡ caller
      → (l : Call W) × (caller_step command_id arg caller f k ≡ ok l)
        × (Leads came all result l.caller l → Leads came all result caller k)
  unfolding caller_step Stage Leads
  caller_step-Leads came all result testing f k at =
      (_, refl, next_attempt-Leads came all result k.left k refl)
  caller_step-Leads came all result (encoding seq) f k at = (
    record k { caller = sending (command_frame command_id arg seq) },
    rw (encoded command_id arg seq) (unfold encode in refl),
    λ h. h,
  )
  caller_step-Leads came all result (sending frame) f k at =
      (_, refl, write-Leads came all result frame f _ k refl)
  caller_step-Leads came all result waiting f k at =
      (_, refl, end_wait-Leads came all result _ k refl)
  caller_step-Leads came all result (returned r) f k at =
      (_, refl, subst (λ q. Leads came all result q k) at)

  -- The responses that arrive in a run, in their order.
  abbrev arrives : {k l : Call W} → Step command_id arg k l → List Packet → List Packet
  arrives (responds packet e) packets = packet ∷ packets
  arrives _ packets = packets

  unfoldable pub arrivals : {l k : Call W} → Run command_id arg l k → List Packet
  arrivals here = []
  arrivals (next step run) = arrives step (arrivals run)

  step-Leads :
      (came : List Packet) (all : List (List ℕ)) (result : Bool × Message) (k l : Call W)
      → (step : Step command_id arg k l) → Leads came all result l.caller l
      → Leads (arrives step came) all result k.caller k
  unfolding Leads
  step-Leads came all result k l (calls f live e) lead =
      let (l', e', back) = caller_step-Leads came all result k.caller f k refl in
      back (subst (λ l. Leads came all result l.caller l) (ok_injective (sym e ∙ e')) lead)
  step-Leads came all result k l (responds packet e) lead =
      let (frames, written, stage) = subst (λ l. Leads came all result l.caller l) e lead in
      (frames, written, responds-Stage command_id arg came k.caller packet k result frames stage)
  step-Leads came all result k l (gives_up e) lead =
      let (frames, written, stage) = subst (λ l. Leads came all result l.caller l) e lead in
      (frames, written, gives_up-Stage command_id arg came k.caller k result frames stage)

  run-Leads :
      (l k : Call W) (result : Bool × Message)
      → l.caller ≡ returned result
      → (run : Run command_id arg l k) → Leads (arrivals run) l.frames result k.caller k
  unfolding Leads Stage arrivals
  run-Leads l k result done here = (
    [],
    sym (append-nil l.frames),
    subst (λ q. Stage command_id arg [] q l result []) (sym done) (refl, refl),
  )
  run-Leads l k result done (next step run) =
      step-Leads (arrivals run) l.frames result k _ step (run-Leads l _ result done run)

  -- A call of `send_command`, over any interleaving of its steps with responses that arrive and with the end
  -- of the reading thread, if the caller returns: its result and the frames that it has written are those of
  -- `send_command` as one function, in some surroundings in which every attempt's responses are among those
  -- that arrived, all of them before the attempt ends.
  pub run-send_command :
      (command_retries : ℕ) (s : Commands) (c : Client W) (l : Call W) (result : Bool × Message)
      (run : Run command_id arg l (called command_retries s c))
      → l.caller ≡ returned result
      → (environment : ℕ → Attempt) × (o : Outcome W) × (send_command command_retries environment
            command_id arg s c
          ≡ ok o)
        × ((o.success, o.message) ≡ result)
        × (o.frames ≡ l.frames)
        × ((i : ℕ) → Brings (arrivals run) (environment i))
  unfolding Leads Stage send_command
  run-send_command command_retries s c l result run done =
      let (frames, written, r) = run-Leads l (called command_retries s c) result done run in
      let (o, out, same, all) = r.returns s refl in
      (r.environment, o, out, same, all ∙ sym written, r.brings)
