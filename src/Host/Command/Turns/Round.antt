-- ===== src/Host/Command/Turns/Round.antt =====
-- About a round of the loop of send_command of modules/autonomy_pi/ros/autonomy_teensy/src/driver.cpp.
use rdml_blue_rov2_deploymen.Common.{
  ℕ, zero, suc, ◌+◌, ◌≡◌, refl, sym, ap, subst, ◌∙◌, Bool, true, false, arith, Option, none, some,
  List, [], ◌∷◌, Result, ok, ◌>>=◌,
}
use rdml_blue_rov2_deploymen.Host.Error.{InvalidArgument}
use rdml_blue_rov2_deploymen.Host.Ids.{CommandId}
use rdml_blue_rov2_deploymen.Host.Packet.{Packet}
use rdml_blue_rov2_deploymen.Host.Client.{Client, send}
use rdml_blue_rov2_deploymen.Host.Command.{
  Response, Commands, link_down, deliver_all, stop_reader, verdict, Attempt, Outcome, ended,
  after_frame, attempts_loop,
}
use rdml_blue_rov2_deploymen.Host.Command.Rounds.{
  next_seq, command_frame, sending, arrived_by, loop_down, loop_answered, loop_silent,
}
use rdml_blue_rov2_deploymen.Host.Command.Answers.{open_at}

-- An environment with one more attempt in front.
abbrev pub before : Attempt → (ℕ → Attempt) → ℕ → Attempt
before first environment zero = first
before first environment (suc i) = environment i

before_suc :
    (first : Attempt) (environment : ℕ → Attempt) (i : ℕ)
    → before first environment (i + 1) ≡ environment i
before_suc first environment i =
    subst (λ j. before first environment j ≡ environment i) one_more refl
  where
    one_more : suc i ≡ i + 1
    one_more = omega arith

abbrev pub Rest : Type 0 → Type 0
Rest W = Commands → Client W → Result InvalidArgument (Outcome W)

module _ {W : Type 0} where
  -- An attempt behind its `send`: what the wait comes to, and the rest of the loop.
  abbrev pub wait_end :
      Option Response
      → Commands
      → Client W
      → List ℕ
      → List Packet
      → Rest W
      → Result InvalidArgument (Outcome W)
  wait_end (some r) s c written late rest = ok (ended (verdict r.2) s c (written ∷ []))
  wait_end none s c written late rest =
      rest (deliver_all late s) c >>= λ o. ok (after_frame written o)

  abbrev pub send_end :
      Bool × Client W × List ℕ
      → Commands
      → List Packet
      → Rest W
      → Result InvalidArgument (Outcome W)
  send_end (false, c, written) s late rest = ok (ended (false, link_down) s c [])
  send_end (true, c, written) s late rest = wait_end s.future s c written late rest

  wait_end-rest :
      (o : Option Response) (s : Commands) (c : Client W) (written : List ℕ) (late : List Packet)
      (rest rest' : Rest W)
      → ((s : Commands) (c : Client W) → rest s c ≡ rest' s c)
      → wait_end o s c written late rest ≡ wait_end o s c written late rest'
  wait_end-rest (some r) s c written late rest rest' h = refl
  wait_end-rest none s c written late rest rest' h =
      ap (λ r. r >>= λ o. ok (after_frame written o)) (h (deliver_all late s) c)

  send_end-rest :
      (x : Bool × Client W × List ℕ) (s : Commands) (late : List Packet) (rest rest' : Rest W)
      → ((s : Commands) (c : Client W) → rest s c ≡ rest' s c)
      → send_end x s late rest ≡ send_end x s late rest'
  send_end-rest (false, c, written) s late rest rest' h = refl
  send_end-rest (true, c, written) s late rest rest' h =
      wait_end-rest s.future s c written late rest rest' h

  module _ (command_id : CommandId) (arg : ℕ) where
    abbrev pub attempt_with :
        Attempt → Commands → Client W → Rest W → Result InvalidArgument (Outcome W)
    attempt_with now s c rest =
        send_end
          (send (command_frame command_id arg (next_seq s.command_seq)) now.write_fails
            (stop_reader now.reader_stopped c))
          (deliver_all now.in_time (open_at (next_seq s.command_seq))) now.late rest

    attempt_with-rest :
        (now : Attempt) (s : Commands) (c : Client W) (rest rest' : Rest W)
        → ((s : Commands) (c : Client W) → rest s c ≡ rest' s c)
        → attempt_with now s c rest ≡ attempt_with now s c rest'
    attempt_with-rest now s c rest rest' h =
        send_end-rest
          (send (command_frame command_id arg (next_seq s.command_seq)) now.write_fails
            (stop_reader now.reader_stopped c))
          (deliver_all now.in_time (open_at (next_seq s.command_seq))) now.late rest rest' h

    module _ (environment : ℕ → Attempt) (left attempt : ℕ) (s : Commands) (c : Client W) where
      abbrev rest_of : Rest W
      rest_of s c = attempts_loop environment command_id arg left (attempt + 1) s c

      loop_waits :
          (c' : Client W) (written : List ℕ) (o : Option Response)
          → sending environment command_id arg left attempt s c ≡ (true, c', written)
          → (arrived_by environment command_id arg left attempt s c).future ≡ o
          → attempts_loop environment command_id arg (suc left) attempt s c
            ≡ wait_end o
                (arrived_by environment command_id arg left attempt s c)
                c'
                written
                (environment attempt).late
                rest_of
      loop_waits c' written none sent f =
          loop_silent environment command_id arg left attempt s c c' written sent f
      loop_waits c' written (some r) sent f =
          loop_answered environment command_id arg left attempt s c c' written r sent f

      loop_sends :
          (x : Bool × Client W × List ℕ)
          → sending environment command_id arg left attempt s c ≡ x
          → attempts_loop environment command_id arg (suc left) attempt s c
            ≡ send_end x
                (arrived_by environment command_id arg left attempt s c)
                (environment attempt).late
                rest_of
      loop_sends (false, c', written) sent =
          loop_down environment command_id arg left attempt s c c' written sent
      loop_sends (true, c', written) sent = loop_waits c' written _ sent refl

      -- A round of the loop.
      loop_round :
          attempts_loop environment command_id arg (suc left) attempt s c
          ≡ attempt_with (environment attempt) s c rest_of
      loop_round = loop_sends _ refl

    attempts_loop-before :
        (first : Attempt) (environment : ℕ → Attempt) (left attempt : ℕ) (s : Commands)
        (c : Client W)
        → attempts_loop (before first environment) command_id arg left (attempt + 1) s c
          ≡ attempts_loop environment command_id arg left attempt s c
    attempts_loop-before first environment zero attempt s c = unfold attempts_loop in refl
    attempts_loop-before first environment (suc left) attempt s c =
        loop_round (before first environment) left (attempt + 1) s c
        ∙ ap
            (λ now.
              attempt_with now s c (rest_of (before first environment) left (attempt + 1) s c))
            (before_suc first environment attempt)
        ∙ attempt_with-rest (environment attempt) s c _ _
            (attempts_loop-before first environment left (attempt + 1))
        ∙ sym (loop_round environment left attempt s c)

    pub first_round :
        (first : Attempt) (environment : ℕ → Attempt) (left : ℕ) (s : Commands) (c : Client W)
        → attempts_loop (before first environment) command_id arg (suc left) 0 s c
          ≡ attempt_with first s c (attempts_loop environment command_id arg left 0)
    first_round first environment left s c =
        loop_round (before first environment) left 0 s c
        ∙ attempt_with-rest first s c _ _ (attempts_loop-before first environment left 0)

    -- The same, behind a known number and for what `send` returns.
    pub first_sent :
        (first : Attempt) (environment : ℕ → Attempt) (left seq : ℕ) (s : Commands) (c : Client W)
        (x : Bool × Client W × List ℕ)
        → s.command_seq ≡ seq
        → send
            (command_frame command_id arg (next_seq seq))
            first.write_fails
            (stop_reader first.reader_stopped c)
          ≡ x
        → attempts_loop (before first environment) command_id arg (suc left) 0 s c
          ≡ send_end x
              (deliver_all first.in_time (open_at (next_seq seq)))
              first.late
              (attempts_loop environment command_id arg left 0)
    first_sent first environment left seq s c x e sent =
        first_round first environment left s c
        ∙ ap
            (λ q.
              send_end
                (send (command_frame command_id arg (next_seq q)) first.write_fails
                  (stop_reader first.reader_stopped c))
                (deliver_all first.in_time (open_at (next_seq q))) first.late
                (attempts_loop environment command_id arg left 0))
            e
        ∙ ap
            (λ x.
              send_end x (deliver_all first.in_time (open_at (next_seq seq))) first.late
                (attempts_loop environment command_id arg left 0))
            sent

pub stopped_twice :
    {W : Type 0} (b : Bool) (c : Client W) → stop_reader b (stop_reader true c) ≡ stop_reader true c
unfolding stop_reader
stopped_twice true c = refl
stopped_twice false c = refl

pub before_eta :
    (environment : ℕ → Attempt) (i : ℕ)
    → environment i ≡ before (environment 0) (λ j. environment (suc j)) i
before_eta environment zero = refl
before_eta environment (suc i) = refl

-- An attempt around which nothing happens but this.
abbrev pub attempt_of : Bool → Bool → List Packet → Attempt
attempt_of reader_stopped write_fails packets = record {
  reader_stopped = reader_stopped;
  write_fails = write_fails;
  in_time = packets;
  late = [];
}
