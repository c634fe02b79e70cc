-- ===== src/Host/Command/Answers.antt =====
-- About the callback on COMMAND_RESPONSE of modules/autonomy_pi/ros/autonomy_teensy/src/driver.cpp, beside
-- the first response of a row that has a given number.
use rdml_blue_rov2_deploymen.Common.{
  ℕ, ◌≡◌, refl, ◌∙◌, true, false, Bool-cases, inl, inr, Option, none, some, List, [], ◌∷◌, ◌==◌,
  Option-cases,
}
use rdml_blue_rov2_deploymen.Host.Packet.{Packet}
use rdml_blue_rov2_deploymen.Host.Command.{
  Response, Commands, response_of, on_command_response, deliver_all,
}

-- A packet as an answer to the command with the number `seq`.
unfoldable pub answer_to : ℕ → Packet → Option Response
answer_to seq packet = elim (response_of packet.payload) [
  | none ↦ none
  | some (command_id, seq', result) ↦ elim (seq' == seq) [
    | true ↦ some (command_id, seq', result)
    | false ↦ none
  ]
]

unfoldable pub first_answer : ℕ → List Packet → Option Response
first_answer seq [] = none
first_answer seq (packet ∷ packets) = elim (answer_to seq packet) [
  | some r ↦ some r
  | none ↦ first_answer seq packets
]

-- The members while a command with the number `seq` is waited for, and once it is answered.
abbrev pub open_at : ℕ → Commands
open_at seq = record { pending_promise = true; future = none; pending_seq = seq; command_seq = seq }

abbrev pub answered_at : ℕ → Response → Commands
answered_at seq r = record {
  pending_promise = false;
  future = some r;
  pending_seq = seq;
  command_seq = seq;
}

abbrev pub settled : ℕ → Option Response → Commands
settled seq none = open_at seq
settled seq (some r) = answered_at seq r

-- Without a promise a response changes nothing.
answered_ignores :
    (seq : ℕ) (r : Response) (packet : Packet)
    → on_command_response packet (answered_at seq r) ≡ answered_at seq r
unfolding on_command_response
answered_ignores seq r packet = elim (Option-cases (response_of packet.payload)) [
  | inl e ↦ rw (e, on_command_response)
  | inr (x, e) ↦ rw (e, on_command_response)
]

answered_stays :
    (seq : ℕ) (r : Response) (packets : List Packet)
    → deliver_all packets (answered_at seq r) ≡ answered_at seq r
unfolding deliver_all
answered_stays seq r [] = refl
answered_stays seq r (packet ∷ packets) =
    rw (answered_ignores seq r packet) (answered_stays seq r packets)

open_answer :
    (seq : ℕ) (packet : Packet)
    → on_command_response packet (open_at seq) ≡ settled seq (answer_to seq packet)
unfolding on_command_response answer_to
open_answer seq packet = elim (Option-cases (response_of packet.payload)) [
  | inl e ↦ rw (e, on_command_response, answer_to)
  | inr ((command_id, seq', result), e) ↦ elim (Bool-cases (seq' == seq)) [
    | inl same ↦ rw (e, on_command_response, answer_to, same)
    | inr other ↦ rw (e, on_command_response, answer_to, other)
  ]
]

-- Any row of packets leaves the promise of an attempt open, or answers it with the first response of its
-- number.
pub deliver_all-settled :
    (seq : ℕ) (packets : List Packet)
    → deliver_all packets (open_at seq) ≡ settled seq (first_answer seq packets)
unfolding deliver_all first_answer
deliver_all-settled seq [] = refl
deliver_all-settled seq (packet ∷ packets) = elim (Option-cases (answer_to seq packet)) [
  | inl e ↦ rw (open_answer seq packet, e, first_answer) (deliver_all-settled seq packets)
  | inr (r, e) ↦ rw (open_answer seq packet, e, first_answer) (answered_stays seq r packets)
]

settled_seq : (seq : ℕ) (o : Option Response) → (settled seq o).command_seq ≡ seq
settled_seq seq none = refl
settled_seq seq (some r) = refl

pub deliver_all_seq :
    (seq : ℕ) (packets : List Packet) → (deliver_all packets (open_at seq)).command_seq ≡ seq
deliver_all_seq seq packets =
    rw (deliver_all-settled seq packets) (settled_seq seq (first_answer seq packets))

-- The state an attempt without an answer leaves.
pub silent_open :
    (seq : ℕ) (packets : List Packet)
    → first_answer seq packets ≡ none
    → deliver_all packets (open_at seq) ≡ open_at seq
silent_open seq packets e = deliver_all-settled seq packets ∙ rw e refl
