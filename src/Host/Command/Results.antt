-- ===== src/Host/Command/Results.antt =====
-- About what send_command of modules/autonomy_pi/ros/autonomy_teensy/src/driver.cpp returns.
use rdml_blue_rov2_deploymen.Common.{
  ℕ, zero, suc, ◌+◌, ◌%◌, ◌^◌, ◌≤◌, ◌<◌, ◌≡◌, refl, sym, ap, subst, ◌∙◌, arith, Bool, true, false,
  Option, none, some, length, ok, Bool-cases, inl, inr, ◌⊎◌,
}
use rdml_blue_rov2_deploymen.Host.Ids.{CommandId, response_ok}
use rdml_blue_rov2_deploymen.Host.Client.{Client}
use rdml_blue_rov2_deploymen.Host.Command.{
  Response, Commands, Message, verdict, Attempt, Outcome, send_command,
}
use rdml_blue_rov2_deploymen.Host.Command.Answers.{first_answer}
use rdml_blue_rov2_deploymen.Host.Command.Rounds.{next_seq, link_up}
use rdml_blue_rov2_deploymen.Host.Command.Course.{
  numbered, Course, exhausted, down, answered, silent, Follows, send_command-Follows,
}

-- The number of the attempt `i` behind the number `seq`.
abbrev pub seq_of : ℕ → ℕ → ℕ
seq_of seq i = (seq + i + 1) % 2 ^ 8

seq_of_next : (seq i : ℕ) → seq_of (next_seq seq) i ≡ seq_of seq (suc i)
seq_of_next seq i = omega arith

seq_of_zero : (seq : ℕ) → seq_of seq 0 ≡ next_seq seq
seq_of_zero seq = omega arith

attempt_next : (attempt i : ℕ) → attempt + 1 + i ≡ attempt + suc i
attempt_next attempt i = omega arith

verdict-true : (result : ℕ) → (verdict result).0 ≡ true → result ≡ response_ok
unfolding verdict
verdict-true result h = ground arith

same_answer : {o : Option Response} {x y : Response} → o ≡ some x → o ≡ some y → x ≡ y
same_answer e f = cc

length-numbered : (command_id arg n seq : ℕ) → length (numbered command_id arg n seq) ≡ n
length-numbered command_id arg zero seq = refl
length-numbered command_id arg (suc n) seq =
    ap suc (length-numbered command_id arg n (next_seq seq))

module _ (environment : ℕ → Attempt) where
  Course-le :
      {left attempt seq : ℕ} {result : Bool × Message} {n : ℕ}
      → Course environment left attempt seq result n
      → n ≤ left
  Course-le exhausted = omega arith
  Course-le (down e) = omega arith
  Course-le (answered r up e) = omega arith
  Course-le (silent up e rest) = omega (arith, Course-le rest)

  -- An attempt that is answered with OK, `n` attempts in.
  abbrev pub Confirmed : ℕ → ℕ → ℕ → Type 0
  Confirmed attempt seq i =
      (r : Response) × (link_up (environment (attempt + i)) ≡ true)
      × (first_answer (seq_of seq i) (environment (attempt + i)).in_time ≡ some r)
      × (r.2 ≡ response_ok)

  Confirmed-next :
      (attempt seq i : ℕ) → Confirmed (attempt + 1) (next_seq seq) i → Confirmed attempt seq (suc i)
  Confirmed-next attempt seq i (r, up, e, result) = (
    r,
    subst (λ k. link_up (environment k) ≡ true) (attempt_next attempt i) up,
    subst (λ k. first_answer (seq_of seq (suc i)) (environment k).in_time ≡ some r)
        (attempt_next attempt i)
        (subst (λ q. first_answer q (environment (attempt + 1 + i)).in_time ≡ some r)
          (seq_of_next seq i) e),
    result,
  )

  success-Confirmed :
      {left attempt seq : ℕ} {result : Bool × Message} {n : ℕ}
      → Course environment left attempt seq result n
      → result.0 ≡ true
      → (i : ℕ) × (i < left) × (n ≡ suc i) × Confirmed attempt seq i
  success-Confirmed exhausted h = cc
  success-Confirmed (down e) h = cc
  success-Confirmed {attempt} {seq} (answered r up e) h = (
    0,
    omega arith,
    refl,
    (
      r,
      subst (λ k. link_up (environment k) ≡ true) (omega arith) up,
      subst (λ k. first_answer (seq_of seq 0) (environment k).in_time ≡ some r) (omega arith)
          (subst (λ q. first_answer q (environment attempt).in_time ≡ some r)
            (sym (seq_of_zero seq)) e),
      verdict-true r.2 h,
    ),
  )
  success-Confirmed {attempt} {seq} (silent up e rest) h =
      let (i, lt, eq, confirmed) = success-Confirmed rest h in
      (suc i, omega arith, ap suc eq, Confirmed-next attempt seq i confirmed)

  -- An attempt whose frame goes out, with the first answer that it gets.
  abbrev pub Gets : Option Response → ℕ → ℕ → Type 0
  Gets o seq attempt =
      (link_up (environment attempt) ≡ true) × (first_answer seq (environment attempt).in_time ≡ o)

  at_zero :
      (P : ℕ → ℕ → Type 0) (seq attempt : ℕ)
      → P (seq_of seq 0) (attempt + 0)
      → P (next_seq seq) attempt
  at_zero P seq attempt h =
      subst (λ k. P (next_seq seq) k) (omega arith)
        (subst (λ q. P q (attempt + 0)) (seq_of_zero seq) h)

  at_suc :
      (P : ℕ → ℕ → Type 0) (seq attempt i : ℕ)
      → P (seq_of seq (suc i)) (attempt + suc i)
      → P (seq_of (next_seq seq) i) (attempt + 1 + i)
  at_suc P seq attempt i h =
      subst (λ k. P (seq_of (next_seq seq) i) k) (sym (attempt_next attempt i))
        (subst (λ q. P q (attempt + suc i)) (sym (seq_of_next seq i)) h)

  Course-answered :
      {left attempt seq : ℕ} {result : Bool × Message} {n : ℕ} (i : ℕ) (r : Response)
      → Course environment left attempt seq result n
      → i < left
      → ((j : ℕ) → j < i → Gets none (seq_of seq j) (attempt + j))
      → Gets (some r) (seq_of seq i) (attempt + i)
      → (result ≡ verdict r.2) × (n ≡ suc i)
  Course-answered i r exhausted lt before now = absurd (omega arith)
  Course-answered {attempt} {seq} zero r (down e) lt before now =
      let (up, f) = at_zero (Gets (some r)) seq attempt now in cc
  Course-answered {attempt} {seq} (suc i) r (down e) lt before now =
      let (up, f) = at_zero (Gets none) seq attempt (before 0 (omega arith)) in cc
  Course-answered {attempt} {seq} zero r (answered r' up e) lt before now =
      let (up', f) = at_zero (Gets (some r)) seq attempt now in
      (ap (λ (x : Response). verdict x.2) (same_answer e f), refl)
  Course-answered {attempt} {seq} (suc i) r (answered r' up e) lt before now =
      let (up', f) = at_zero (Gets none) seq attempt (before 0 (omega arith)) in cc
  Course-answered {attempt} {seq} zero r (silent up e rest) lt before now =
      let (up', f) = at_zero (Gets (some r)) seq attempt now in cc
  Course-answered {attempt} {seq} (suc i) r (silent up e rest) lt before now =
      let (same, count) =
        Course-answered i r rest (omega arith)
          (λ j h. at_suc (Gets none) seq attempt j (before (suc j) (omega arith)))
          (at_suc (Gets (some r)) seq attempt i now) in
      (same, ap suc count)

module _ {W : Type 0} (environment : ℕ → Attempt) (command_id : CommandId) (arg command_retries : ℕ)
    (s : Commands) (c : Client W) (connected : c.connected ≡ true) where
  -- `send_command` on a connected client, in any surroundings, returns, and writes at most `command_retries`
  -- frames; either it reports no success, or it has written a frame, the last one of this call, and the first
  -- response with that frame's number came in time for its attempt and has the result OK.
  pub send_command_success :
      (o : Outcome W) × (send_command command_retries environment command_id arg s c ≡ ok o)
      × (length o.frames ≤ command_retries)
      × ((o.success ≡ false)
          ⊎ ((i : ℕ) × (i < command_retries)
              × (o.frames ≡ numbered command_id arg (suc i) s.command_seq)
              × Confirmed environment 0 s.command_seq i))
  send_command_success = (
    f.outcome,
    f.returns,
    rw count (Course-le environment f.course),
    elim (Bool-cases f.outcome.success) [
      | inr failed ↦ inl failed
      | inl h ↦
          let (i, lt, same, confirmed) = success-Confirmed environment f.course h in
          inr (i, lt, f.written ∙ ap (λ n. numbered command_id arg n s.command_seq) same, confirmed)
    ],
  )
    where
      f :
          Follows environment command_id arg command_retries 0 s.command_seq
            (send_command command_retries environment command_id arg s c)
      f = send_command-Follows environment command_id arg command_retries s c connected

      count : length f.outcome.frames ≡ f.frame_count
      count = ap length f.written ∙ length-numbered command_id arg f.frame_count s.command_seq

  -- If the link lets through the frames up to attempt `i`, one of the `command_retries`, and the first response
  -- of that attempt's number comes in time for it, while those before get none in time, then `send_command` on a
  -- connected client ends with that attempt, and with the verdict on the response.
  pub send_command_answered :
      (i : ℕ) (r : Response)
      → i < command_retries
      → ((j : ℕ) → j < i → Gets environment none (seq_of s.command_seq j) j)
      → Gets environment (some r) (seq_of s.command_seq i) i
      → (o : Outcome W) × (send_command command_retries environment command_id arg s c ≡ ok o)
        × ((o.success, o.message) ≡ verdict r.2)
        × (o.frames ≡ numbered command_id arg (suc i) s.command_seq)
  send_command_answered i r lt before now =
      let (same, count) =
        Course-answered environment i r f.course lt
          (λ j h.
            subst (λ k. Gets environment none (seq_of s.command_seq j) k) (omega arith)
              (before j h))
          (subst (λ k. Gets environment (some r) (seq_of s.command_seq i) k) (omega arith) now) in
      (
        f.outcome,
        f.returns,
        same,
        f.written ∙ ap (λ n. numbered command_id arg n s.command_seq) count,
      )
    where
      f :
          Follows environment command_id arg command_retries 0 s.command_seq
            (send_command command_retries environment command_id arg s c)
      f = send_command-Follows environment command_id arg command_retries s c connected
