-- ===== src/Firmware/Client/Handlers.antt =====
-- About register_handler, find_handler and poll_command of modules/teensy/lib/packet/client.cpp: which handler
-- a command gets, and what is answered where there is none.
use rdml_blue_rov2_deploymen.Common.{
  ℕ, zero, suc, ◌≡◌, refl, sym, ap, ◌∙◌, arith, ◌&&◌, Option, none, some, List, [], ◌∷◌, ◌++◌, All,
  IsByte, ltb, ◌==◌, if◌then◌else◌, Result, ok, ok_injective, ◌>>=◌,
}
use rdml_blue_rov2_deploymen.Wire.Packet.{frame}
use rdml_blue_rov2_deploymen.Firmware.Cobs.{Failure}
use rdml_blue_rov2_deploymen.Firmware.Ids.{CommandId, command, command_response, to_byte}
use rdml_blue_rov2_deploymen.Firmware.SerialBuffer.{SerialBuffer, empty_buffer}
use rdml_blue_rov2_deploymen.Firmware.SerialBuffer.Holds.{Holds}
use rdml_blue_rov2_deploymen.Firmware.Client.{
  Stream, Client, CommandHandler, new_client, register_handler, find_handler, answer, poll_command,
}
use rdml_blue_rov2_deploymen.Firmware.Client.Command.{poll_command-command}

-- The array of the handlers with its three places.
abbrev Slots : Type 0 → Type 0
Slots W = Option (CommandHandler W) × Option (CommandHandler W) × Option (CommandHandler W)

module _ {W : Type 0} where
  -- Calls of `register_handler`, one after another.
  abbrev pub register_all :
      List (CommandId × CommandHandler W) → Client W → Result Failure (Client W)
  register_all [] c = ok c
  register_all ((i, handler) ∷ rs) c = register_handler i handler c >>= register_all rs

  -- The handler of a command behind a row of registrations: the last one, if the command has the value 1, 2
  -- or 3; else `before`.
  abbrev pub registered :
      CommandId
      → List (CommandId × CommandHandler W)
      → Option (CommandHandler W)
      → Option (CommandHandler W)
  registered cmd [] before = before
  registered cmd ((i, handler) ∷ rs) before =
      registered cmd rs (if i == cmd && (ltb 0 cmd && ltb cmd 4) then some handler else before)

  -- The result byte that is answered, and the world behind it.
  abbrev pub reply : Option (CommandHandler W) → W → ℕ × W
  reply (some handler) w = (to_byte (handler w).0, (handler w).1)
  reply none w = (0x01, w)

  abbrev listed : Slots W → List (Option (CommandHandler W))
  listed (a, b, c) = a ∷ b ∷ c ∷ []

  abbrev get : CommandId → Slots W → Option (CommandHandler W)
  get cmd (a, b, c) = if cmd == 1 then a else if cmd == 2 then b else if cmd == 3 then c else none

  abbrev put : CommandId → CommandHandler W → Slots W → Slots W
  put i handler (a, b, c) = (
    if i == 1 then some handler else a,
    if i == 2 then some handler else b,
    if i == 3 then some handler else c,
  )

  get-put :
      (cmd i : CommandId) (handler : CommandHandler W) (slots : Slots W)
      → get cmd (put i handler slots)
        ≡ (if i == cmd && (ltb 0 cmd && ltb cmd 4) then some handler else get cmd slots)
  get-put cmd i handler (a, b, c) = ground arith

  get-none : (cmd : CommandId) → get cmd (none, none, none) ≡ none
  get-none cmd = ground arith

  find_handler-get :
      (cmd : CommandId) (c : Client W) (slots : Slots W)
      → c.command_handlers ≡ listed slots
      → IsByte cmd
      → find_handler cmd c ≡ ok (get cmd slots)
  unfolding find_handler
  find_handler-get zero c slots e h = refl
  find_handler-get (suc zero) c slots e h = rw e refl
  find_handler-get (suc (suc zero)) c slots e h = rw e refl
  find_handler-get (suc (suc (suc zero))) c slots e h = rw e refl
  find_handler-get (suc (suc (suc (suc n)))) c slots e h = ground arith

  register_handler-put :
      (i : CommandId) (handler : CommandHandler W) (c : Client W) (slots : Slots W)
      → c.command_handlers ≡ listed slots
      → IsByte i
      → register_handler i handler c
        ≡ ok (record c { command_handlers = listed (put i handler slots) })
  unfolding register_handler
  register_handler-put zero handler c slots e h = rw (← e) refl
  register_handler-put (suc zero) handler c slots e h = rw e refl
  register_handler-put (suc (suc zero)) handler c slots e h = rw e refl
  register_handler-put (suc (suc (suc zero))) handler c slots e h = rw e refl
  register_handler-put (suc (suc (suc (suc n)))) handler c slots e h = ground arith

  find_handler-register_all :
      (cmd : CommandId) (rs : List (CommandId × CommandHandler W)) (c c' : Client W)
      (slots : Slots W)
      → c.command_handlers ≡ listed slots
      → IsByte cmd
      → All (λ r. IsByte r.0) rs
      → register_all rs c ≡ ok c'
      → find_handler cmd c' ≡ ok (registered cmd rs (get cmd slots))
  find_handler-register_all cmd [] c c' slots e h hs r =
      find_handler-get cmd c' slots (ap (λ d. d.command_handlers) (sym (ok_injective r)) ∙ e) h
  find_handler-register_all cmd ((i, handler) ∷ rs) c c' slots e h (hi, hs) r =
      rw (← get-put cmd i handler slots) (
        find_handler-register_all cmd rs
          (record c { command_handlers = listed (put i handler slots) }) c' (put i handler slots)
          refl h hs (rw (register_handler-put i handler c slots e hi) at r))

  find_handler-registered :
      (cmd : CommandId) (rs : List (CommandId × CommandHandler W)) (c : Client W)
      → IsByte cmd
      → All (λ r. IsByte r.0) rs
      → register_all rs new_client ≡ ok (record c { buffer = empty_buffer })
      → find_handler cmd c ≡ ok (registered cmd rs none)
  unfolding find_handler
  find_handler-registered cmd rs c hc ids made =
      find_handler-register_all cmd rs new_client (record c { buffer = empty_buffer })
        (none, none, none) refl hc ids made
      ∙ ap (λ before. ok (registered cmd rs before)) (get-none cmd)

  pub reply-answer :
      (handler : Option (CommandHandler W)) (w : W)
      → (to_byte (answer handler w).0, (answer handler w).1) ≡ reply handler w
  unfolding answer
  reply-answer none w = refl
  reply-answer (some handler) w = refl

  -- `poll_command` of a client on which `register_handler` has been called any number of times since it was
  -- made, with an empty buffer, on the frame of a command whose fields are bytes, its delimiter and more input:
  -- if the command has the value 1, 2 or 3 and a handler was registered for it, the last one of those runs
  -- once, and one response with the command's number and the handler's result is written; if not, no handler
  -- runs, and the response has the result byte 1, `UNKNOWN_COMMAND`. The handlers stay, the buffer is empty
  -- again, and the input behind the delimiter is left for the next call.
  pub poll_command-registered :
      (rs : List (CommandId × CommandHandler W)) (c : Client W) (stream : Stream) (w : W)
      (device cmd seq arg : ℕ) (input : List ℕ)
      → All (λ r. IsByte r.0) rs
      → register_all rs new_client ≡ ok (record c { buffer = empty_buffer })
      → Holds c.buffer []
      → IsByte device
      → IsByte cmd
      → IsByte seq
      → IsByte arg
      → stream.input ≡ frame command device (cmd ∷ seq ∷ arg ∷ []) ++ (0 ∷ input)
      → (b : SerialBuffer) × Holds b []
        × (poll_command c stream w
            ≡ ok (
              record c { buffer = b },
              record {
                input = input;
                output =
                    stream.output
                    ++ (frame command_response device
                          (cmd ∷ seq ∷ (reply (registered cmd rs none) w).0 ∷ [])
                        ++ (0 ∷ []));
              },
              (reply (registered cmd rs none) w).1,
            ))
  poll_command-registered rs c stream w device cmd seq arg input ids made h hd hc hs ha e =
      rw (← reply-answer (registered cmd rs none) w) (
        poll_command-command c stream w device cmd seq arg input (registered cmd rs none) h hd hc hs
          ha (find_handler-registered cmd rs c hc ids made) e)
