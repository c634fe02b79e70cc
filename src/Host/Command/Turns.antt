-- ===== src/Host/Command/Turns.antt =====
-- modules/autonomy_pi/ros/autonomy_teensy/src/driver.cpp: `send_command` beside the reading thread, one block
-- under a lock, one call or one end of a wait at a time. Between any two steps of the caller responses may
-- arrive and the reading thread may give up.
mod Round
pub mod Stages
pub mod Serial
pub mod Ends
use rdml_blue_rov2_deploymen.Common.{
  ℕ, zero, suc, ◌≡◌, Bool, true, false, Option, none, some, List, [], ◌∷◌, ◌++◌, Result, ok, err,
  fault, stuck,
}
use rdml_blue_rov2_deploymen.Host.Error.{InvalidArgument}
use rdml_blue_rov2_deploymen.Host.Ids.{CommandId, command, imu_01}
use rdml_blue_rov2_deploymen.Host.Packet.{Packet, encode_packet}
use rdml_blue_rov2_deploymen.Host.Client.{Client, send}
use rdml_blue_rov2_deploymen.Host.Command.{
  Response, Commands, Message, encode_failed, link_down, timed_out, begin_attempt,
  on_command_response, stop_reader, verdict,
}

-- Where the caller stands: before the test of the loop, before `encode_packet`, before `send`, at the wait,
-- or behind a `return`.
pub data Caller : Type 0 where
  testing : Caller
  encoding : ℕ → Caller
  sending : List ℕ → Caller
  waiting : Caller
  returned : Bool × Message → Caller

abbrev pub going : Caller → Bool
going (returned result) = false
going _ = true

-- `left` are the attempts to go; `frames` are those that were written.
pub record Call (W : Type 0) : Type 0 where
  pub caller : Caller
  pub left : ℕ
  pub commands : Commands
  pub client : Client W
  pub frames : List (List ℕ)

module _ {W : Type 0} where
  -- The block under `command_lock_`, unless the attempts are used up.
  unfoldable pub next_attempt : ℕ → Call W → Call W
  unfolding begin_attempt
  next_attempt zero k = record k { caller = returned (false, timed_out) }
  next_attempt (suc left) k =
      let (seq, s) = begin_attempt k.commands in
      record k { caller = encoding seq; left = left; commands = s }

  unfoldable pub encode : Result InvalidArgument (List ℕ) → Call W → Result InvalidArgument (Call W)
  encode (ok frame) k = ok (record k { caller = sending frame })
  encode (err e) k = ok (record k { caller = returned (false, encode_failed e) })
  encode fault k = fault
  encode stuck k = stuck

  unfoldable pub write : Bool × Client W × List ℕ → Call W → Call W
  write (true, c, frame) k = record k {
    caller = waiting;
    client = c;
    frames = k.frames ++ (frame ∷ []);
  }
  write (false, c, frame) k = record k { caller = returned (false, link_down); client = c }

  -- The end of `wait_for`: ready, or after its time.
  unfoldable pub end_wait : Option Response → Call W → Call W
  unfolding verdict
  end_wait (some (command_id, seq, result)) k = record k { caller = returned (verdict result) }
  end_wait none k = record k { caller = testing }

  -- A step of the caller; `write_fails` is looked at by the one that writes.
  unfoldable pub caller_step :
      CommandId → ℕ → Caller → Bool → Call W → Result InvalidArgument (Call W)
  unfolding next_attempt encode write end_wait
  caller_step command_id arg testing write_fails k = ok (next_attempt k.left k)
  caller_step command_id arg (encoding seq) write_fails k =
      encode (encode_packet command imu_01 (command_id ∷ seq ∷ arg ∷ [])) k
  caller_step command_id arg (sending frame) write_fails k =
      ok (write (send frame write_fails k.client) k)
  caller_step command_id arg waiting write_fails k = ok (end_wait k.commands.future k)
  caller_step command_id arg (returned result) write_fails k = ok k

  module _ (command_id : CommandId) (arg : ℕ) where
    pub data Step (k l : Call W) : Type 0 where
      calls :
          (write_fails : Bool)
          → going k.caller ≡ true
          → caller_step command_id arg k.caller write_fails k ≡ ok l
          → Step k l
      responds :
          (packet : Packet)
          → l ≡ record k { commands = on_command_response packet k.commands }
          → Step k l
      gives_up : l ≡ record k { client = stop_reader true k.client } → Step k l

    -- The steps from one state to another, in their order.
    pub data Run (l : Call W) : Call W → Type 0 where
      here : Run l l
      next : {j k : Call W} → Step j k → Run l k → Run l j

  abbrev pub called : ℕ → Commands → Client W → Call W
  called command_retries s c = record {
    caller = testing;
    left = command_retries;
    commands = s;
    client = c;
    frames = [];
  }
