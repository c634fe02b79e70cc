-- ===== src/Host/Command/Total.antt =====
-- About send_command of modules/autonomy_pi/ros/autonomy_teensy/src/driver.cpp with any client.
use rdml_blue_rov2_deploymen.Common.{
  ℕ, zero, suc, ◌+◌, ◌≡◌, refl, ◌∙◌, arith, Bool, false, Bool-cases, inl, inr, Option-cases, [],
  ◌∷◌, List, Result, ok,
}
use rdml_blue_rov2_deploymen.Host.Error.{InvalidArgument}
use rdml_blue_rov2_deploymen.Host.Ids.{CommandId}
use rdml_blue_rov2_deploymen.Host.Client.{Client, send}
use rdml_blue_rov2_deploymen.Host.Command.{
  Commands, link_down, timed_out, verdict, Attempt, Outcome, ended, after_frame, stop_reader,
  begin_attempt, deliver_all, attempts_loop, send_command,
}
use rdml_blue_rov2_deploymen.Host.Command.Answers.{open_at}
use rdml_blue_rov2_deploymen.Host.Command.Rounds.{next_seq, command_frame, encoded}

module _ {W : Type 0} where
  -- A call that returns, and keeps the callbacks of the client.
  abbrev pub Keeps : Client W → Result InvalidArgument (Outcome W) → Type 0
  Keeps c r = (o : Outcome W) × (r ≡ ok o) × (o.client.callbacks ≡ c.callbacks)

  send-callbacks :
      (bytes : List ℕ) (fails stopped : Bool) (c : Client W)
      → (send bytes fails (stop_reader stopped c)).1.callbacks ≡ c.callbacks
  unfolding send stop_reader
  send-callbacks bytes fails stopped c = ground arith

  module _ (environment : ℕ → Attempt) (command_id : CommandId) (arg : ℕ) where
    attempts_loop-Keeps :
        (left attempt : ℕ) (s : Commands) (c : Client W)
        → Keeps c (attempts_loop environment command_id arg left attempt s c)
    unfolding attempts_loop begin_attempt ended after_frame
    attempts_loop-Keeps zero attempt s c = (ended (false, timed_out) s c [], refl, refl)
    attempts_loop-Keeps (suc left) attempt s c = elim (Bool-cases sent.0) [
      | inr fails ↦ (
        ended (false, link_down) arrived sent.1 [],
        rw (attempts_loop, encoded command_id arg (next_seq s.command_seq), fails) refl,
        kept,
      )
      | inl works ↦ elim (Option-cases arrived.future) [
        | inr (r, e) ↦ (
          ended (verdict r.2) arrived sent.1 (sent.2 ∷ []),
          rw (attempts_loop, encoded command_id arg (next_seq s.command_seq), works, e) refl,
          kept,
        )
        | inl e ↦
            let (o, returns, same) =
              attempts_loop-Keeps left (attempt + 1) (deliver_all here.late arrived) sent.1 in
            (
              after_frame sent.2 o,
              rw (attempts_loop, encoded command_id arg (next_seq s.command_seq), works, e, returns)
                  refl,
              same ∙ kept,
            )
      ]
    ]
      where
        here : Attempt
        here = environment attempt

        arrived : Commands
        arrived = deliver_all here.in_time (open_at (next_seq s.command_seq))

        sent : Bool × Client W × List ℕ
        sent =
            send (command_frame command_id arg (next_seq s.command_seq)) here.write_fails
              (stop_reader here.reader_stopped c)

        kept : sent.1.callbacks ≡ c.callbacks
        kept = send-callbacks _ here.write_fails here.reader_stopped c

    pub send_command-Keeps :
        (command_retries : ℕ) (s : Commands) (c : Client W)
        → Keeps c (send_command command_retries environment command_id arg s c)
    unfolding send_command
    send_command-Keeps command_retries s c = attempts_loop-Keeps command_retries 0 s c
