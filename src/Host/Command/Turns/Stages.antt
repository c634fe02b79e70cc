-- ===== src/Host/Command/Turns/Stages.antt =====
-- About send_command of modules/autonomy_pi/ros/autonomy_teensy/src/driver.cpp from any of its steps on: what
-- is left of the call, as a call of the function in surroundings that bring given responses only.
use mathlib.Core.List.{Mem, mem-cons_self, mem-cons_of_mem}
use rdml_blue_rov2_deploymen.Common.{
  All, ℕ, zero, suc, ◌≡◌, refl, sym, ap, subst, ◌∙◌, Bool, true, false, Bool-cases, ◌&&◌, ◌==◌, inl,
  inr, none, some, Option-cases, List, [], ◌∷◌, ok, ok_injective,
}
use rdml_blue_rov2_deploymen.Host.Ids.{CommandId}
use rdml_blue_rov2_deploymen.Host.Packet.{Packet}
use rdml_blue_rov2_deploymen.Host.Client.{Client, send}
use rdml_blue_rov2_deploymen.Host.Command.{
  Response, Commands, response_of, Message, link_down, timed_out, on_command_response, deliver_all,
  stop_reader, verdict, Attempt, Outcome, ended, attempts_loop,
}
use rdml_blue_rov2_deploymen.Host.Command.Answers.{open_at}
use rdml_blue_rov2_deploymen.Host.Command.Rounds.{next_seq, command_frame}
use rdml_blue_rov2_deploymen.Host.Command.Turns.{
  Caller, testing, encoding, sending, waiting, returned, Call,
}
use rdml_blue_rov2_deploymen.Host.Command.Turns.Round.{
  before, send_end, before_eta, first_round, stopped_twice,
}

on_command_response_seq :
    (packet : Packet) (s : Commands) → (on_command_response packet s).command_seq ≡ s.command_seq
unfolding on_command_response
on_command_response_seq packet s = elim (Option-cases (response_of packet.payload)) [
  | inl e ↦ rw (e, on_command_response) refl
  | inr ((command_id, seq, result), e) ↦
      elim (Bool-cases (s.pending_promise && seq == s.pending_seq)) [
        | inl y ↦ rw (e, on_command_response, y) refl
        | inr n ↦ rw (e, on_command_response, n) refl
      ]
]

-- What an attempt's surroundings bring are responses of the list, each of them before the attempt ends.
abbrev pub Within : List Packet → List Packet → Type 0
Within came packets = All (λ p. Mem p came) packets

abbrev pub Brings : List Packet → Attempt → Type 0
Brings came attempt = Within came attempt.in_time × (attempt.late ≡ [])

Within-cons :
    (came : List Packet) (packet : Packet) (packets : List Packet)
    → Within came packets
    → Within (packet ∷ came) packets
Within-cons came packet [] h = tt
Within-cons came packet (p ∷ packets) (hp, h) =
    (mem-cons_of_mem packet hp, Within-cons came packet packets h)

pub before-Brings :
    (came : List Packet) (first : Attempt) (environment : ℕ → Attempt)
    → Brings came first
    → ((i : ℕ) → Brings came (environment i))
    → (i : ℕ) → Brings came (before first environment i)
before-Brings came first environment hf h zero = hf
before-Brings came first environment hf h (suc i) = h i

module _ {W : Type 0} (command_id : CommandId) (arg : ℕ) where
  -- A call that returns the result and writes the frames, in some surroundings and behind the number `seq`.
  pub record Returns (came : List Packet) (left seq : ℕ) (c : Client W) (result : Bool × Message)
      (frames : List (List ℕ)) : Type 0 where
    pub environment : ℕ → Attempt
    pub brings : (i : ℕ) → Brings came (environment i)
    pub returns :
        (s : Commands)
        → s.command_seq ≡ seq
        → (o : Outcome W) × (attempts_loop environment command_id arg left 0 s c ≡ ok o)
          × ((o.success, o.message) ≡ result)
          × (o.frames ≡ frames)

  -- The same from the wait on, and from `send` on.
  pub data Waits (came : List Packet) (left : ℕ) (s : Commands) (c : Client W)
      (result : Bool × Message) (frames : List (List ℕ)) : Type 0 where
    answered :
        (packets : List Packet) (r : Response)
        → Within came packets
        → (deliver_all packets s).future ≡ some r
        → result ≡ verdict r.2
        → frames ≡ []
        → Waits came left s c result frames
    silent :
        (packets : List Packet)
        → Within came packets
        → (deliver_all packets s).future ≡ none
        → Returns came left (deliver_all packets s).command_seq c result frames
        → Waits came left s c result frames

  pub data Sends (came : List Packet) (left : ℕ) (s : Commands) (frame : List ℕ) (c : Client W)
      (result : Bool × Message) (frames : List (List ℕ)) : Type 0 where
    down :
        (reader_stopped write_fails : Bool) (c' : Client W) (written : List ℕ)
        → send frame write_fails (stop_reader reader_stopped c) ≡ (false, c', written)
        → result ≡ (false, link_down)
        → frames ≡ []
        → Sends came left s frame c result frames
    up :
        (reader_stopped write_fails : Bool) (c' : Client W) (written : List ℕ)
        (later : List (List ℕ))
        → send frame write_fails (stop_reader reader_stopped c) ≡ (true, c', written)
        → Waits came left s c' result later
        → frames ≡ written ∷ later
        → Sends came left s frame c result frames

  unfoldable pub Stage : List Packet → Caller → Call W → Bool × Message → List (List ℕ) → Type 0
  Stage came testing k result frames =
      Returns came k.left k.commands.command_seq k.client result frames
  Stage came (encoding seq) k result frames =
      Sends came k.left k.commands (command_frame command_id arg seq) k.client result frames
  Stage came (sending frame) k result frames =
      Sends came k.left k.commands frame k.client result frames
  Stage came waiting k result frames = Waits came k.left k.commands k.client result frames
  Stage came (returned r) k result frames = (r ≡ result) × (frames ≡ [])

  stop_first :
      (first : Attempt) (environment : ℕ → Attempt) (left : ℕ) (s : Commands) (c : Client W)
      → attempts_loop
          (before (record first { reader_stopped = true }) environment)
          command_id
          arg
          (suc left)
          0
          s
          c
        ≡ attempts_loop
            (before first environment)
            command_id
            arg
            (suc left)
            0
            s
            (stop_reader true c)
  stop_first first environment left s c =
      first_round command_id arg (record first { reader_stopped = true }) environment left s c
      ∙ ap
          (λ d.
            send_end
              (send (command_frame command_id arg (next_seq s.command_seq)) first.write_fails d)
              (deliver_all first.in_time (open_at (next_seq s.command_seq))) first.late
              (attempts_loop environment command_id arg left 0))
          (sym (stopped_twice first.reader_stopped c))
      ∙ sym (first_round command_id arg first environment left s (stop_reader true c))

  -- The reading thread may as well give up when the next frame is to be written.
  gives_up-Returns :
      (came : List Packet) (left seq : ℕ) (c : Client W) (result : Bool × Message)
      (frames : List (List ℕ))
      → Returns came left seq (stop_reader true c) result frames
      → Returns came left seq c result frames
  unfolding attempts_loop ended
  gives_up-Returns came zero seq c result frames r = record {
    environment = r.environment;
    brings = r.brings;
    returns = λ s e.
        let (o, out, same, written) = r.returns s e in
        (
          ended (false, timed_out) s c [],
          refl,
          ap (λ (o : Outcome W). (o.success, o.message)) (ok_injective out) ∙ same,
          ap (λ (o : Outcome W). o.frames) (ok_injective out) ∙ written,
        );
  }
  gives_up-Returns came (suc left) seq c result frames r = record {
    environment =
        before (record (r.environment 0) { reader_stopped = true }) (λ i. r.environment (suc i));
    brings = before-Brings came _ _ (r.brings 0) (λ i. r.brings (suc i));
    returns = λ s e.
        let (o, out, same, written) = r.returns s e in
        (
          o,
          stop_first (r.environment 0) (λ i. r.environment (suc i)) left s c
              ∙ ap
                  (λ environment.
                    attempts_loop environment command_id arg (suc left) 0 s (stop_reader true c))
                  (λ i n. sym (before_eta r.environment n) i)
              ∙ out,
          same,
          written,
        );
  }

  gives_up-Waits :
      (came : List Packet) (left : ℕ) (s : Commands) (c : Client W) (result : Bool × Message)
      (frames : List (List ℕ))
      → Waits came left s (stop_reader true c) result frames
      → Waits came left s c result frames
  gives_up-Waits came left s c result frames (answered packets r m e f g) =
      answered packets r m e f g
  gives_up-Waits came left s c result frames (silent packets m e r) =
      silent packets m e (gives_up-Returns came _ _ _ _ _ r)

  gives_up-Sends :
      (came : List Packet) (left : ℕ) (s : Commands) (frame : List ℕ) (c : Client W)
      (result : Bool × Message) (frames : List (List ℕ))
      → Sends came left s frame (stop_reader true c) result frames
      → Sends came left s frame c result frames
  gives_up-Sends came left s frame c result frames (down b f c' w e r g) =
      down true f c' w (ap (send frame f) (sym (stopped_twice b c)) ∙ e) r g
  gives_up-Sends came left s frame c result frames (up b f c' w l e r g) =
      up true f c' w l (ap (send frame f) (sym (stopped_twice b c)) ∙ e) r g

  pub gives_up-Stage :
      (came : List Packet) (caller : Caller) (k : Call W) (result : Bool × Message)
      (frames : List (List ℕ))
      → Stage came caller (record k { client = stop_reader true k.client }) result frames
      → Stage came caller k result frames
  unfolding Stage
  gives_up-Stage came testing k result frames h = gives_up-Returns came _ _ _ _ _ h
  gives_up-Stage came (encoding seq) k result frames h = gives_up-Sends came _ _ _ _ _ _ h
  gives_up-Stage came (sending frame) k result frames h = gives_up-Sends came _ _ _ _ _ _ h
  gives_up-Stage came waiting k result frames h = gives_up-Waits came _ _ _ _ _ h
  gives_up-Stage came (returned r) k result frames h = h

  cons-Returns :
      (came : List Packet) (packet : Packet) (left seq : ℕ) (c : Client W) (result : Bool × Message)
      (frames : List (List ℕ))
      → Returns came left seq c result frames
      → Returns (packet ∷ came) left seq c result frames
  cons-Returns came packet left seq c result frames r = record {
    environment = r.environment;
    brings = λ i. (Within-cons came packet _ (r.brings i).0, (r.brings i).1);
    returns = r.returns;
  }

  responds-Waits :
      (came : List Packet) (left : ℕ) (packet : Packet) (s : Commands) (c : Client W)
      (result : Bool × Message) (frames : List (List ℕ))
      → Waits came left (on_command_response packet s) c result frames
      → Waits (packet ∷ came) left s c result frames
  unfolding deliver_all
  responds-Waits came left packet s c result frames (answered packets r m e f g) =
      answered (packet ∷ packets) r (mem-cons_self, Within-cons came packet packets m) e f g
  responds-Waits came left packet s c result frames (silent packets m e r) =
      silent (packet ∷ packets) (mem-cons_self, Within-cons came packet packets m) e
        (cons-Returns came packet _ _ _ _ _ r)

  responds-Sends :
      (came : List Packet) (left : ℕ) (packet : Packet) (s : Commands) (frame : List ℕ)
      (c : Client W) (result : Bool × Message) (frames : List (List ℕ))
      → Sends came left (on_command_response packet s) frame c result frames
      → Sends (packet ∷ came) left s frame c result frames
  responds-Sends came left packet s frame c result frames (down b f c' w e r g) =
      down b f c' w e r g
  responds-Sends came left packet s frame c result frames (up b f c' w l e r g) =
      up b f c' w l e (responds-Waits came left packet s c' result l r) g

  pub responds-Stage :
      (came : List Packet) (caller : Caller) (packet : Packet) (k : Call W)
      (result : Bool × Message) (frames : List (List ℕ))
      → Stage came caller
          (record k { commands = on_command_response packet k.commands })
          result
          frames
      → Stage (packet ∷ came) caller k result frames
  unfolding Stage
  responds-Stage came testing packet k result frames h = cons-Returns came packet _ _ _ _ _ (
      subst (λ q. Returns came k.left q k.client result frames)
        (on_command_response_seq packet k.commands) h)
  responds-Stage came (encoding seq) packet k result frames h = responds-Sends came _ _ _ _ _ _ _ h
  responds-Stage came (sending frame) packet k result frames h = responds-Sends came _ _ _ _ _ _ _ h
  responds-Stage came waiting packet k result frames h = responds-Waits came _ _ _ _ _ _ h
  responds-Stage came (returned r) packet k result frames h = h
