-- ===== src/Host/Node/Teardown/Cleanup.antt =====
-- About the cleanup of a node of modules/autonomy_pi/ros/autonomy_teensy/src/driver.cpp whose reading thread runs.
use rdml_blue_rov2_deploymen.Common.{
  ◌≡◌, ◌≢◌, refl, sym, subst, ◌∙◌, ap, Bool, true, false, ◌⊎◌, inl, inr, arith, Option, none, some,
  List, [], ◌∷◌, ◌++◌, All, ok, ok_injective, ◌>>=◌,
}
use rdml_blue_rov2_deploymen.Host.Client.{Client, Port}
use rdml_blue_rov2_deploymen.Host.Client.Threads.{
  Reader, testing, reading, dispatching, calling, finished, Owner, in_use, joining, destroyed,
  Threads, reader_step, destroy, started,
}
use rdml_blue_rov2_deploymen.Host.Client.Threads.Advance.{reader_step-keeps}
use rdml_blue_rov2_deploymen.Host.Node.{Ros, Node, Outside, configured_client}
use rdml_blue_rov2_deploymen.Host.Node.Callbacks.{IsValid, Handles}
use rdml_blue_rov2_deploymen.Host.Node.Lifecycle.{set_activated}
use rdml_blue_rov2_deploymen.Host.Node.Teardown.{
  Action, activate_imu_pub, activate_calib_pub, reset_client, reset_imu_pub, reset_calib_pub,
  reset_start_cal_srv, reset_save_cal_srv, reset_stop_cal_srv, reset_commands, cleanup_order,
  transitions, act, is_finished, reset_step, owner_step, Step, reads, goes_on, Run, here, next,
}
use rdml_blue_rov2_deploymen.Host.Node.Teardown.Calls.{
  IsSafe, SafeReader, Acts, SafeStep, reader_step-SafeStep,
}

module _ {C S F G : Type 0} (ros : Ros C S F G) where
  -- What is left of a transition that is half done.
  abbrev half_done : Option Bool → List Action
  half_done none = []
  half_done (some activated) = activate_calib_pub activated ∷ []

  -- While the client is there.
  record Serving (s : Threads (Outside C S F G)) (left : List Action) : Type 0 where
    half : Option Bool
    row : List Bool
    todo : left ≡ half_done half ++ (transitions row ++ cleanup_order)
    there : s.owner ≢ destroyed
    callbacks : s.client.callbacks ≡ (configured_client ros).callbacks
    safe : SafeReader ros s.reader
    node : Node C S F G
    imu_active : Bool
    calib_active : Bool
    holds : s.world ≡ ok node
    imu : node.imu_pub ≡ some imu_active
    calib : node.calib_pub ≡ some calib_active
    valid : IsValid node.params

  carry-Serving :
      (s t : Threads (Outside C S F G)) (left : List Action) (h : Serving s left)
      → t.owner ≡ s.owner
      → t.client.callbacks ≡ s.client.callbacks
      → SafeReader ros t.reader
      → Handles ros h.node t.world
      → Serving t left
  carry-Serving s t left h owner same safe (node, holds, imu, calib, params) = record {
    half = h.half;
    row = h.row;
    todo = h.todo;
    there = λ gone. h.there (sym owner ∙ gone);
    callbacks = same ∙ h.callbacks;
    safe = safe;
    node = node;
    imu_active = h.imu_active;
    calib_active = h.calib_active;
    holds = holds;
    imu = imu ∙ h.imu;
    calib = calib ∙ h.calib;
    valid = subst IsValid (sym params) h.valid;
  }

  Acts-Handles :
      (s t : Threads (Outside C S F G)) (left : List Action) (h : Serving s left)
      → Acts ros s t
      → Handles ros h.node t.world
  unfolding Acts IsSafe
  Acts-Handles s t left h (inl same) = (h.node, same ∙ h.holds, refl, refl, refl)
  Acts-Handles s t left h (inr (callback, packet, safe, e)) =
      subst (Handles ros h.node) (sym (e ∙ ap (callback packet) h.holds))
        (safe packet h.node h.imu_active h.calib_active h.imu h.calib h.valid)

  read-Serving :
      (s t : Threads (Outside C S F G)) (left : List Action) (port : Port)
      → s.reader ≢ finished
      → reader_step s.reader port s ≡ ok t
      → Serving s left
      → Serving t left
  unfolding SafeStep
  read-Serving s t left port live e h =
      let (t', e', same, safe, acts) =
        reader_step-SafeStep ros s.reader port s h.callbacks live h.safe in
      let (running, owner) = reader_step-keeps s.reader port s t' e' in
      subst (λ t. Serving t left) (ok_injective (sym e' ∙ e))
        (carry-Serving s t' left h owner same safe (Acts-Handles s t' left h acts))

  -- Behind the reset of the client.
  abbrev Frees : Action → Type 0
  Frees reset_imu_pub = Unit
  Frees reset_calib_pub = Unit
  Frees reset_start_cal_srv = Unit
  Frees reset_save_cal_srv = Unit
  Frees reset_stop_cal_srv = Unit
  Frees reset_commands = Unit
  Frees _ = ⊥

  record Closed (s : Threads (Outside C S F G)) (left : List Action) : Type 0 where
    gone : s.owner ≡ destroyed
    ended : s.reader ≡ finished
    node : Node C S F G
    holds : s.world ≡ ok node
    todo : All Frees left

  Kept : Option (Threads (Outside C S F G) × List Action) → Type 0
  Kept none = Unit
  Kept (some (t, rest)) = Serving t rest ⊎ Closed t rest

  at_end : (reader : Reader (Outside C S F G)) → is_finished reader ≡ true → reader ≡ finished
  at_end finished h = refl
  at_end testing h = ground arith
  at_end reading h = ground arith
  at_end (dispatching packets) h = ground arith
  at_end (calling to_call packet packets) h = ground arith

  abbrev behind_client : List Action
  behind_client =
      reset_imu_pub ∷ reset_calib_pub ∷ reset_start_cal_srv ∷ reset_save_cal_srv
      ∷ reset_stop_cal_srv ∷ reset_commands ∷ []

  reset-Kept :
      (s : Threads (Outside C S F G)) (left : List Action) (owner : Owner) (read : Bool)
      → s.owner ≡ owner
      → is_finished s.reader ≡ read
      → Serving s left
      → Kept (reset_step owner read s behind_client)
  unfolding Kept reset_step cleanup_order destroy
  reset-Kept s left in_use read at end h = inl (record {
    half = none;
    row = [];
    todo = refl;
    there = λ e. cc;
    callbacks = h.callbacks;
    safe = h.safe;
    node = h.node;
    imu_active = h.imu_active;
    calib_active = h.calib_active;
    holds = h.holds;
    imu = h.imu;
    calib = h.calib;
    valid = h.valid;
  })
  reset-Kept s left joining true at end h = inr (record {
    gone = refl;
    ended = at_end s.reader end;
    node = h.node;
    holds = h.holds;
    todo = (tt, (tt, (tt, (tt, (tt, (tt, tt))))));
  })
  reset-Kept s left joining false at end h = tt
  reset-Kept s left destroyed read at end h = absurd (h.there at)

  activate_imu_pub-Kept :
      (s : Threads (Outside C S F G)) (left : List Action) (activated : Bool) (row : List Bool)
      → Serving s left
      → Kept (owner_step (transitions (activated ∷ row) ++ cleanup_order) s)
  unfolding Kept owner_step act set_activated
  activate_imu_pub-Kept s left activated row h = inl (record {
    half = some activated;
    row = row;
    todo = refl;
    there = h.there;
    callbacks = h.callbacks;
    safe = h.safe;
    node = record h.node { imu_pub = some activated };
    imu_active = activated;
    calib_active = h.calib_active;
    holds = ap (λ w. w >>= act (activate_imu_pub activated)) h.holds ∙ rw h.imu refl;
    imu = refl;
    calib = h.calib;
    valid = h.valid;
  })

  activate_calib_pub-Kept :
      (s : Threads (Outside C S F G)) (left : List Action) (activated : Bool) (row : List Bool)
      → Serving s left
      → Kept (owner_step (activate_calib_pub activated ∷ (transitions row ++ cleanup_order)) s)
  unfolding Kept owner_step act set_activated
  activate_calib_pub-Kept s left activated row h = inl (record {
    half = none;
    row = row;
    todo = refl;
    there = h.there;
    callbacks = h.callbacks;
    safe = h.safe;
    node = record h.node { calib_pub = some activated };
    imu_active = h.imu_active;
    calib_active = activated;
    holds = ap (λ w. w >>= act (activate_calib_pub activated)) h.holds ∙ rw h.calib refl;
    imu = h.imu;
    calib = refl;
    valid = h.valid;
  })

  row-Kept :
      (s : Threads (Outside C S F G)) (left : List Action) (half : Option Bool) (row : List Bool)
      → Serving s left
      → Kept (owner_step (half_done half ++ (transitions row ++ cleanup_order)) s)
  unfolding owner_step cleanup_order
  row-Kept s left (some activated) row h = activate_calib_pub-Kept s left activated row h
  row-Kept s left none [] h = reset-Kept s left s.owner (is_finished s.reader) refl refl h
  row-Kept s left none (activated ∷ row) h = activate_imu_pub-Kept s left activated row h

  free-Closed :
      (s : Threads (Outside C S F G)) (left : List Action) (action : Action) (n n' : Node C S F G)
      → s.owner ≡ destroyed
      → s.reader ≡ finished
      → s.world ≡ ok n
      → act action n ≡ ok n'
      → All Frees left
      → Closed (record s { world = s.world >>= act action }) left
  free-Closed s left action n n' gone ended holds e todo = record {
    gone = gone;
    ended = ended;
    node = n';
    holds = ap (λ w. w >>= act action) holds ∙ e;
    todo = todo;
  }

  owner-Closed :
      (s : Threads (Outside C S F G)) (left : List Action)
      → Closed s left
      → Kept (owner_step left s)
  unfolding Kept owner_step act
  owner-Closed s [] h = tt
  owner-Closed s (reset_imu_pub ∷ left) h =
      inr (free-Closed s left reset_imu_pub h.node _ h.gone h.ended h.holds refl h.todo.1)
  owner-Closed s (reset_calib_pub ∷ left) h =
      inr (free-Closed s left reset_calib_pub h.node _ h.gone h.ended h.holds refl h.todo.1)
  owner-Closed s (reset_start_cal_srv ∷ left) h =
      inr (free-Closed s left reset_start_cal_srv h.node _ h.gone h.ended h.holds refl h.todo.1)
  owner-Closed s (reset_save_cal_srv ∷ left) h =
      inr (free-Closed s left reset_save_cal_srv h.node _ h.gone h.ended h.holds refl h.todo.1)
  owner-Closed s (reset_stop_cal_srv ∷ left) h =
      inr (free-Closed s left reset_stop_cal_srv h.node _ h.gone h.ended h.holds refl h.todo.1)
  owner-Closed s (reset_commands ∷ left) h =
      inr (free-Closed s left reset_commands h.node _ h.gone h.ended h.holds refl h.todo.1)
  owner-Closed s (reset_client ∷ left) h = absurd h.todo.0
  owner-Closed s (activate_imu_pub b ∷ left) h = absurd h.todo.0
  owner-Closed s (activate_calib_pub b ∷ left) h = absurd h.todo.0

  abbrev Inv : Threads (Outside C S F G) → List Action → Type 0
  Inv s left = Serving s left ⊎ Closed s left

  step-Inv :
      (s t : Threads (Outside C S F G)) (left rest : List Action)
      → Step s left t rest
      → Inv s left
      → Inv t rest
  unfolding Kept
  step-Inv s t left rest (reads port live e) (inl h) = inl (read-Serving s t left port live e h)
  step-Inv s t left rest (reads port live e) (inr h) = absurd (live h.ended)
  step-Inv s t left rest (goes_on e) (inl h) =
      subst Kept (ap (λ l. owner_step l s) (sym h.todo) ∙ e) (row-Kept s left h.half h.row h)
  step-Inv s t left rest (goes_on e) (inr h) = subst Kept e (owner-Closed s left h)

  steps-Inv :
      (u : Threads (Outside C S F G)) (end : List Action) (s : Threads (Outside C S F G))
      (left : List Action)
      → Run u end s left
      → Inv s left
      → Inv u end
  steps-Inv u end s left here h = h
  steps-Inv u end s left (next step run) h = steps-Inv u end _ _ run (step-Inv s _ left _ step h)

  not_done :
      (half : Option Bool) (row : List Bool)
      → (half_done half ++ (transitions row ++ cleanup_order)) ≢ []
  unfolding cleanup_order
  not_done none [] = λ h. cc
  not_done none (activated ∷ row) = λ h. cc
  not_done (some activated) row = λ h. cc

  -- What the invariant says of the node, and of the end.
  Inv-holds :
      (s : Threads (Outside C S F G)) (left : List Action)
      → Inv s left
      → (n : Node C S F G) × (s.world ≡ ok n)
        × ((left ≢ []) ⊎ ((s.owner ≡ destroyed) × (s.reader ≡ finished)))
  Inv-holds s left (inl h) =
      (h.node, h.holds, inl (subst (λ l. l ≢ []) (sym h.todo) (not_done h.half h.row)))
  Inv-holds s left (inr h) = (h.node, h.holds, inr (h.gone, h.ended))

  -- From the start of the reading thread of a configured node with validated parameters, over any
  -- interleaving of its steps with a row of `on_activate` and `on_deactivate` and then `on_cleanup`: no callback
  -- ever meets a null pointer or throws, whatever the port gives; and when `on_cleanup` is through, the client is
  -- destroyed and its reading thread at its end.
  pub cleanup-safe :
      (c : Client (Outside C S F G)) (n : Node C S F G) (active : Bool) (row : List Bool)
      (u : Threads (Outside C S F G)) (end : List Action)
      → c.callbacks ≡ (configured_client ros).callbacks
      → n.imu_pub ≡ some active
      → n.calib_pub ≡ some active
      → IsValid n.params
      → Run u end (started c (ok n)) (transitions row ++ cleanup_order)
      → (n' : Node C S F G) × (u.world ≡ ok n')
        × ((end ≢ []) ⊎ ((u.owner ≡ destroyed) × (u.reader ≡ finished)))
  unfolding SafeReader
  cleanup-safe c n active row u end callbacks imu calib valid run = Inv-holds u end (
      steps-Inv u end _ _ run (
        inl (record {
          half = none;
          row = row;
          todo = refl;
          there = λ e. cc;
          callbacks = callbacks;
          safe = tt;
          node = n;
          imu_active = active;
          calib_active = active;
          holds = refl;
          imu = imu;
          calib = calib;
          valid = valid;
        })))
