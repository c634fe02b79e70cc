-- ===== src/Host/Command/Rounds.antt =====
-- About one attempt of send_command of modules/autonomy_pi/ros/autonomy_teensy/src/driver.cpp.
use rdml_blue_rov2_deploymen.Common.{
  ℕ, suc, ◌+◌, ◌%◌, ◌^◌, ◌≡◌, arith, Bool, true, false, not, ◌&&◌, none, some, List, [], ◌∷◌, ◌++◌,
  Result, ok, ◌>>=◌,
}
use rdml_blue_rov2_deploymen.Wire.Packet.{frame}
use rdml_blue_rov2_deploymen.Host.Error.{InvalidArgument}
use rdml_blue_rov2_deploymen.Host.Ids.{CommandId, command, imu_01}
use rdml_blue_rov2_deploymen.Host.Packet.{encode_packet}
use rdml_blue_rov2_deploymen.Host.Packet.Frames.{encode_packet-frame}
use rdml_blue_rov2_deploymen.Host.Client.{Client, send}
use rdml_blue_rov2_deploymen.Host.Command.{
  Response, Commands, link_down, verdict, Attempt, Outcome, ended, after_frame, stop_reader,
  begin_attempt, deliver_all, attempts_loop,
}
use rdml_blue_rov2_deploymen.Host.Command.Answers.{open_at}

-- `++command_seq_`
abbrev pub next_seq : ℕ → ℕ
next_seq seq = (seq + 1) % 2 ^ 8

-- The link lets an attempt's frame through.
abbrev pub link_up : Attempt → Bool
link_up here = not here.reader_stopped && not here.write_fails

abbrev pub command_frame : CommandId → ℕ → ℕ → List ℕ
command_frame command_id arg seq = frame command imu_01 (command_id ∷ seq ∷ arg ∷ []) ++ (0 ∷ [])

pub encoded :
    (command_id : CommandId) (arg seq : ℕ)
    → encode_packet command imu_01 (command_id ∷ seq ∷ arg ∷ [])
      ≡ ok (command_frame command_id arg seq)
encoded command_id arg seq = encode_packet-frame command imu_01 (command_id ∷ seq ∷ arg ∷ [])

module _ {W : Type 0} (environment : ℕ → Attempt) (command_id : CommandId) (arg : ℕ) where
  send_up :
      (here : Attempt) (bytes : List ℕ) (c : Client W)
      → c.connected ≡ true
      → link_up here ≡ true
      → send bytes here.write_fails (stop_reader here.reader_stopped c) ≡ (true, c, bytes)
  unfolding send stop_reader
  send_up here bytes c h up = ground arith

  send_down :
      (here : Attempt) (bytes : List ℕ) (c : Client W)
      → c.connected ≡ true
      → link_up here ≡ false
      → send bytes here.write_fails (stop_reader here.reader_stopped c)
        ≡ (false, record c { connected = false }, [])
  unfolding send stop_reader
  send_down here bytes c h up = ground arith

  module _ (left attempt : ℕ) (s : Commands) (c : Client W) where
    abbrev pub arrived_by : Commands
    arrived_by = deliver_all (environment attempt).in_time (open_at (next_seq s.command_seq))

    abbrev pub this_frame : List ℕ
    this_frame = command_frame command_id arg (next_seq s.command_seq)

    abbrev pub loop : Result InvalidArgument (Outcome W)
    loop = attempts_loop environment command_id arg (suc left) attempt s c

    abbrev pub sending : Bool × Client W × List ℕ
    sending =
        send this_frame (environment attempt).write_fails
          (stop_reader (environment attempt).reader_stopped c)

    -- The attempt once `send` has returned.
    pub loop_down :
        (c' : Client W) (written : List ℕ)
        → sending ≡ (false, c', written)
        → loop ≡ ok (ended (false, link_down) arrived_by c' [])
    unfolding attempts_loop begin_attempt
    loop_down c' written sent =
        rw (attempts_loop, encoded command_id arg (next_seq s.command_seq), sent, sent)

    pub loop_answered :
        (c' : Client W) (written : List ℕ) (r : Response)
        → sending ≡ (true, c', written)
        → arrived_by.future ≡ some r
        → loop ≡ ok (ended (verdict r.2) arrived_by c' (written ∷ []))
    unfolding attempts_loop begin_attempt
    loop_answered c' written r sent f =
        rw (attempts_loop, encoded command_id arg (next_seq s.command_seq), sent, f, sent)

    pub loop_silent :
        (c' : Client W) (written : List ℕ)
        → sending ≡ (true, c', written)
        → arrived_by.future ≡ none
        → loop ≡ (
            attempts_loop environment command_id arg left
              (attempt + 1)
              (deliver_all (environment attempt).late arrived_by)
              c'
            >>= λ o. ok (after_frame written o))
    unfolding attempts_loop begin_attempt
    loop_silent c' written sent f =
        rw (attempts_loop, encoded command_id arg (next_seq s.command_seq), sent, f, sent)

    module _ (h : c.connected ≡ true) where
      pub round_down :
          link_up (environment attempt) ≡ false
          → loop ≡ ok (ended (false, link_down) arrived_by (record c { connected = false }) [])
      round_down e =
          loop_down (record c { connected = false }) []
            (send_down (environment attempt) this_frame c h e)

      pub round_answered :
          (r : Response)
          → link_up (environment attempt) ≡ true
          → arrived_by.future ≡ some r
          → loop ≡ ok (ended (verdict r.2) arrived_by c (this_frame ∷ []))
      round_answered r e f =
          loop_answered c this_frame r (send_up (environment attempt) this_frame c h e) f

      pub round_silent :
          link_up (environment attempt) ≡ true
          → arrived_by.future ≡ none
          → loop ≡ (
              attempts_loop environment command_id arg left
                (attempt + 1)
                (deliver_all (environment attempt).late arrived_by)
                c
              >>= λ o. ok (after_frame this_frame o))
      round_silent e f = loop_silent c this_frame (send_up (environment attempt) this_frame c h e) f
