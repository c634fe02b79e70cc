-- ===== src/Host/Command/Course.antt =====
-- About send_command of modules/autonomy_pi/ros/autonomy_teensy/src/driver.cpp, beside a description that
-- has neither promise nor pending number.
use rdml_blue_rov2_deploymen.Common.{
  ℕ, zero, suc, ◌+◌, ◌≡◌, refl, subst, ap, ◌∙◌, Bool, true, false, Bool-cases, inl, inr, none, some,
  Option-cases, List, [], ◌∷◌, Result, ok, ◌>>=◌,
}
use rdml_blue_rov2_deploymen.Host.Error.{InvalidArgument}
use rdml_blue_rov2_deploymen.Host.Ids.{CommandId}
use rdml_blue_rov2_deploymen.Host.Client.{Client}
use rdml_blue_rov2_deploymen.Host.Command.{
  Response, Commands, Message, link_down, timed_out, verdict, Attempt, Outcome, ended, after_frame,
  deliver_all, attempts_loop, send_command,
}
use rdml_blue_rov2_deploymen.Host.Command.Answers.{
  first_answer, open_at, deliver_all-settled, deliver_all_seq, silent_open,
}
use rdml_blue_rov2_deploymen.Host.Command.Rounds.{
  next_seq, link_up, command_frame, round_down, round_answered, round_silent,
}

-- The frames of a row of attempts behind the number `seq`.
abbrev pub numbered : CommandId → ℕ → ℕ → ℕ → List (List ℕ)
numbered command_id arg zero seq = []
numbered command_id arg (suc n) seq =
    command_frame command_id arg (next_seq seq) ∷ numbered command_id arg n (next_seq seq)

-- How the attempts go, `left` of them from attempt number `attempt` on, behind the number `seq`: the result
-- and how many frames are written.
pub data Course (environment : ℕ → Attempt) : ℕ → ℕ → ℕ → Bool × Message → ℕ → Type 0 where
  exhausted : {attempt seq : ℕ} → Course environment 0 attempt seq (false, timed_out) 0
  down :
      {left attempt seq : ℕ}
      → link_up (environment attempt) ≡ false
      → Course environment (suc left) attempt seq (false, link_down) 0
  answered :
      {left attempt seq : ℕ} (r : Response)
      → link_up (environment attempt) ≡ true
      → first_answer (next_seq seq) (environment attempt).in_time ≡ some r
      → Course environment (suc left) attempt seq (verdict r.2) 1
  silent :
      {left attempt seq : ℕ} {result : Bool × Message} {n : ℕ}
      → link_up (environment attempt) ≡ true
      → first_answer (next_seq seq) (environment attempt).in_time ≡ none
      → Course environment left (attempt + 1) (next_seq seq) result n
      → Course environment (suc left) attempt seq result (suc n)

module _ {W : Type 0} (environment : ℕ → Attempt) (command_id : CommandId) (arg : ℕ) where
  -- A call that returns as `Course` says.
  pub record Follows (left attempt seq : ℕ) (r : Result InvalidArgument (Outcome W)) : Type 0 where
    pub outcome : Outcome W
    pub frame_count : ℕ
    pub returns : r ≡ ok outcome
    pub course : Course environment left attempt seq (outcome.success, outcome.message) frame_count
    pub written : outcome.frames ≡ numbered command_id arg frame_count seq

  silent_head :
      (left attempt seq : ℕ) {loop : Result InvalidArgument (Outcome W)}
      {rest : Result InvalidArgument (Outcome W)}
      → link_up (environment attempt) ≡ true
      → first_answer (next_seq seq) (environment attempt).in_time ≡ none
      → loop ≡ (rest >>= λ o. ok (after_frame (command_frame command_id arg (next_seq seq)) o))
      → Follows left (attempt + 1) (next_seq seq) rest
      → Follows (suc left) attempt seq loop
  unfolding after_frame
  silent_head left attempt seq up none_came e f = record {
    outcome = after_frame (command_frame command_id arg (next_seq seq)) f.outcome;
    frame_count = suc f.frame_count;
    returns = e ∙ rw f.returns refl;
    course = silent up none_came f.course;
    written = ap (λ l. command_frame command_id arg (next_seq seq) ∷ l) f.written;
  }

  silent-Follows :
      (left attempt seq : ℕ) {loop : Result InvalidArgument (Outcome W)}
      {rest : Result InvalidArgument (Outcome W)}
      → link_up (environment attempt) ≡ true
      → first_answer (next_seq seq) (environment attempt).in_time ≡ none
      → loop ≡ (rest >>= λ o. ok (after_frame (command_frame command_id arg (next_seq seq)) o))
      → {seq' : ℕ} → seq' ≡ next_seq seq
      → Follows left (attempt + 1) seq' rest
      → Follows (suc left) attempt seq loop
  silent-Follows left attempt seq {loop} {rest} up none_came e same f =
      silent_head left attempt seq up none_came e
        (subst (λ q. Follows left (attempt + 1) q rest) same f)

  -- The loop, from any state of the members.
  attempts_loop-Follows :
      (left attempt : ℕ) (s : Commands) (c : Client W)
      → c.connected ≡ true
      → Follows left attempt s.command_seq
          (attempts_loop environment command_id arg left attempt s c)
  attempts_loop-Follows zero attempt s c h = record {
    outcome = ended (false, timed_out) s c [];
    frame_count = 0;
    returns = unfold attempts_loop in refl;
    course = unfold ended in exhausted;
    written = unfold ended in refl;
  }
  attempts_loop-Follows (suc left) attempt s c h =
      elim (Bool-cases (link_up (environment attempt))) [
        | inr off ↦ record {
          outcome = ended (false, link_down) arrived (record c { connected = false }) [];
          frame_count = 0;
          returns = round_down environment command_id arg left attempt s c h off;
          course = unfold ended in down off;
          written = unfold ended in refl;
        }
        | inl up ↦ elim (Option-cases (first_answer next (environment attempt).in_time)) [
          | inr (r, e) ↦ record {
            outcome = ended (verdict r.2) arrived c (command_frame command_id arg next ∷ []);
            frame_count = 1;
            returns = round_answered environment command_id arg left attempt s c h r up (
                ap (λ (t : Commands). t.future)
                  (deliver_all-settled next (environment attempt).in_time)
                ∙ rw e refl);
            course = unfold ended in answered r up e;
            written = unfold ended in refl;
          }
          | inl e ↦
              silent-Follows left attempt s.command_seq up e
                (round_silent environment command_id arg left attempt s c h up (
                  ap (λ (t : Commands). t.future)
                    (silent_open next (environment attempt).in_time e)))
                (after e)
                (attempts_loop-Follows left (attempt + 1)
                  (deliver_all (environment attempt).late arrived) c h)
        ]
      ]
    where
      next : ℕ
      next = next_seq s.command_seq

      arrived : Commands
      arrived = deliver_all (environment attempt).in_time (open_at next)

      after :
          first_answer next (environment attempt).in_time ≡ none
          → (deliver_all (environment attempt).late arrived).command_seq ≡ next
      after e =
          rw (silent_open next (environment attempt).in_time e)
            (deliver_all_seq next (environment attempt).late)

  -- `send_command` on a connected client, in any surroundings, returns, and goes as `Course` says: each
  -- attempt takes the next number modulo 256 and writes one frame if the link lets it through; the first
  -- response of that number, within the attempt, decides the result, and no other response counts; a link
  -- that is down ends the call, and so does the last attempt.
  pub send_command-Follows :
      (command_retries : ℕ) (s : Commands) (c : Client W)
      → c.connected ≡ true
      → Follows command_retries 0 s.command_seq
          (send_command command_retries environment command_id arg s c)
  unfolding send_command
  send_command-Follows command_retries s c h = attempts_loop-Follows command_retries 0 s c h
