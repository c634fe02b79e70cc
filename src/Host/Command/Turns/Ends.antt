-- ===== src/Host/Command/Turns/Ends.antt =====
-- About the end of send_command of modules/autonomy_pi/ros/autonomy_teensy/src/driver.cpp, beside the
-- reading thread.
use rdml_blue_rov2_deploymen.Common.{
  ℕ, zero, suc, ◌+◌, ◌*◌, ◌≤◌, ◌<◌, ◌≡◌, refl, sym, subst, ◌∙◌, Bool, true, false, ◌⊎◌, inl, inr,
  arith, Option, none, some, List, ok, ok_injective,
}
use rdml_blue_rov2_deploymen.Host.Ids.{CommandId}
use rdml_blue_rov2_deploymen.Host.Client.{Client}
use rdml_blue_rov2_deploymen.Host.Command.{Response, Commands, Message}
use rdml_blue_rov2_deploymen.Host.Command.Rounds.{command_frame, encoded}
use rdml_blue_rov2_deploymen.Host.Command.Turns.{
  Caller, testing, encoding, sending, waiting, returned, going, Call, next_attempt, encode, write,
  end_wait, caller_step, Step, calls, responds, gives_up, Run, here, next, called,
}

-- A bound on the steps that the caller has to go.
abbrev rank : Caller → ℕ → ℕ
rank testing left = 4 * left + 1
rank (encoding seq) left = 4 * left + 4
rank (sending frame) left = 4 * left + 3
rank waiting left = 4 * left + 2
rank (returned result) left = 0

module _ {W : Type 0} (command_id : CommandId) (arg : ℕ) where
  next_attempt-rank :
      (left : ℕ) (k : Call W)
      → rank (next_attempt left k).caller (next_attempt left k).left < 4 * left + 1
  unfolding next_attempt
  next_attempt-rank zero k = omega arith
  next_attempt-rank (suc left) k = omega arith

  write-rank :
      (x : Bool × Client W × List ℕ) (k : Call W)
      → rank (write x k).caller (write x k).left < 4 * k.left + 3
  unfolding write
  write-rank (true, c, w) k = omega arith
  write-rank (false, c, w) k = omega arith

  end_wait-rank :
      (o : Option Response) (k : Call W)
      → rank (end_wait o k).caller (end_wait o k).left < 4 * k.left + 2
  unfolding end_wait
  end_wait-rank none k = omega arith
  end_wait-rank (some r) k = omega arith

  caller_step-rank :
      (caller : Caller) (f : Bool) (k : Call W)
      → going caller ≡ true
      → (l : Call W) × (caller_step command_id arg caller f k ≡ ok l)
        × (rank l.caller l.left < rank caller k.left)
  unfolding caller_step
  caller_step-rank testing f k h = (_, refl, next_attempt-rank k.left k)
  caller_step-rank (encoding seq) f k h = (
    record k { caller = sending (command_frame command_id arg seq) },
    rw (encoded command_id arg seq) (unfold encode in refl),
    omega arith,
  )
  caller_step-rank (sending frame) f k h = (_, refl, write-rank _ k)
  caller_step-rank waiting f k h = (_, refl, end_wait-rank _ k)
  caller_step-rank (returned r) f k h = ground arith

  -- The steps of the caller in a run.
  abbrev counts : {k l : Call W} → Step command_id arg k l → ℕ → ℕ
  counts (calls f live e) n = suc n
  counts _ n = n

  unfoldable pub caller_steps : {l k : Call W} → Run command_id arg l k → ℕ
  caller_steps here = 0
  caller_steps (next step run) = counts step (caller_steps run)

  step-rank :
      (k l : Call W) (step : Step command_id arg k l) (n : ℕ)
      → n ≤ rank l.caller l.left
      → counts step n ≤ rank k.caller k.left
  step-rank k l (calls f live e) n h =
      let (l', e', less) = caller_step-rank k.caller f k live in
      less_of
        (subst (λ l. rank l.caller l.left < rank k.caller k.left) (ok_injective (sym e' ∙ e)) less)
    where
      less_of : rank l.caller l.left < rank k.caller k.left → suc n ≤ rank k.caller k.left
      less_of less = omega (arith, h, less)
  step-rank k l (responds packet e) n h = subst (λ l. n ≤ rank l.caller l.left) e h
  step-rank k l (gives_up e) n h = subst (λ l. n ≤ rank l.caller l.left) e h

  run-rank : (l k : Call W) (run : Run command_id arg l k) → caller_steps run ≤ rank k.caller k.left
  unfolding caller_steps
  run-rank l k here = omega arith
  run-rank l k (next step run) = step-rank k _ step (caller_steps run) (run-rank l _ run)

  steps :
      (caller : Caller) (f : Bool) (k : Call W)
      → going caller ≡ true
      → (l : Call W) × (caller_step command_id arg caller f k ≡ ok l)
  steps caller f k h = let (l, e, less) = caller_step-rank caller f k h in (l, e)

  caller_step-or_returned :
      (caller : Caller) (f : Bool) (k : Call W)
      → ((result : Bool × Message) × (caller ≡ returned result))
        ⊎ ((l : Call W) × (caller_step command_id arg caller f k ≡ ok l))
  caller_step-or_returned (returned result) f k = inl (result, refl)
  caller_step-or_returned testing f k = inr (steps testing f k refl)
  caller_step-or_returned (encoding seq) f k = inr (steps (encoding seq) f k refl)
  caller_step-or_returned (sending frame) f k = inr (steps (sending frame) f k refl)
  caller_step-or_returned waiting f k = inr (steps waiting f k refl)

  -- A call of `send_command`, over any interleaving of its steps with responses that arrive and with the end
  -- of the reading thread: the caller takes at most four steps for each attempt and one more, and as long as it
  -- has not returned, it can take another, whether the write fails or not; none of them is outside the code.
  pub caller-ends :
      (command_retries : ℕ) (s : Commands) (c : Client W) (l : Call W) (write_fails : Bool)
      (run : Run command_id arg l (called command_retries s c))
      → (caller_steps run ≤ 4 * command_retries + 1)
        × (((result : Bool × Message) × (l.caller ≡ returned result))
            ⊎ ((m : Call W) × (caller_step command_id arg l.caller write_fails l ≡ ok m)))
  caller-ends command_retries s c l write_fails run =
      (run-rank l (called command_retries s c) run, caller_step-or_returned l.caller write_fails l)
