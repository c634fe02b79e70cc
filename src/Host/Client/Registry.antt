-- ===== src/Host/Client/Registry.antt =====
-- About register_callback and dispatch of modules/autonomy_pi/ros/autonomy_teensy/src/client.cpp: what is
-- called for a packet after a row of registrations.
pub mod Tables
use rdml_blue_rov2_deploymen.Common.{
  ℕ, ◌≡◌, refl, sym, ap, ◌∙◌, Bool, true, false, Bool-cases, Option-cases, subst, if◌then◌else◌,
  ◌==◌, ==_iff, inl, inr, arith, Option, none, some, List, [], ◌∷◌, ◌++◌, append-nil, append_assoc,
}
use mathlib.Core.List.{foldl}
use rdml_blue_rov2_deploymen.Host.Ids.{PacketId}
use rdml_blue_rov2_deploymen.Host.Packet.{Packet}
use rdml_blue_rov2_deploymen.Host.Client.{
  Callback, Client, push_callback, register_callback, find_callbacks, call_all, dispatch,
}

-- Registrations in their order, and those of them for an identifier.
abbrev pub Registrations : Type 0 → Type 0
Registrations W = List (PacketId × Callback W)

module _ {W : Type 0} where
  abbrev pub registered : PacketId → Registrations W → List (Callback W)
  registered packet_id [] = []
  registered packet_id ((i, callback) ∷ rs) =
      if i == packet_id then callback ∷ registered packet_id rs else registered packet_id rs

  abbrev pub register_all : Registrations W → Client W → Client W
  register_all [] c = c
  register_all ((i, callback) ∷ rs) c = register_all rs (register_callback i callback c)

  -- A missing entry is as good as an empty one.
  abbrev pub calls_of : Option (List (Callback W)) → List (Callback W)
  calls_of none = []
  calls_of (some callbacks) = callbacks

  abbrev pub calls_for : PacketId → List (PacketId × List (Callback W)) → List (Callback W)
  calls_for packet_id callbacks = calls_of (find_callbacks packet_id callbacks)

  -- What a registration puts behind the callbacks of an identifier.
  abbrev pub new_for : PacketId → PacketId → Callback W → List (Callback W)
  new_for packet_id i callback = if i == packet_id then callback ∷ [] else []

  new_for-other :
      (packet_id i : PacketId) (callback : Callback W)
      → (i == packet_id) ≡ false
      → (cs : List (Callback W)) → cs ≡ cs ++ new_for packet_id i callback
  new_for-other packet_id i callback h cs = rw h (sym (append-nil cs))

  -- The entry that the registration is put into.
  own_entry :
      (packet_id i : PacketId) (callback : Callback W) (cs : List (Callback W))
      (callbacks : List (PacketId × List (Callback W)))
      → calls_for packet_id ((i, cs ++ (callback ∷ [])) ∷ callbacks)
        ≡ calls_for packet_id ((i, cs) ∷ callbacks) ++ new_for packet_id i callback
  unfolding find_callbacks
  own_entry packet_id i callback cs callbacks = elim (Bool-cases (i == packet_id)) [
    | inl y ↦ rw (y, find_callbacks) refl
    | inr n ↦ rw (n, find_callbacks) (sym (append-nil (calls_for packet_id callbacks)))
  ]

  -- An entry in front of it.
  other_entry :
      (packet_id i j : PacketId) (callback : Callback W) (cs : List (Callback W))
      (callbacks more : List (PacketId × List (Callback W)))
      → (j == i) ≡ false
      → calls_for packet_id more ≡ calls_for packet_id callbacks ++ new_for packet_id i callback
      → calls_for packet_id ((j, cs) ∷ more)
        ≡ calls_for packet_id ((j, cs) ∷ callbacks) ++ new_for packet_id i callback
  unfolding find_callbacks
  other_entry packet_id i j callback cs callbacks more ne h = elim (Bool-cases (j == packet_id)) [
    | inl y ↦ rw (y, find_callbacks) (new_for-other packet_id i callback (not_it y) cs)
    | inr n ↦ rw (n, find_callbacks) h
  ]
    where
      not_it : (j == packet_id) ≡ true → (i == packet_id) ≡ false
      not_it y = ground arith

  pub calls_for-push_callback :
      (packet_id i : PacketId) (callback : Callback W)
      (callbacks : List (PacketId × List (Callback W)))
      → calls_for packet_id (push_callback i callback callbacks)
        ≡ calls_for packet_id callbacks ++ new_for packet_id i callback
  unfolding push_callback find_callbacks
  calls_for-push_callback packet_id i callback [] = elim (Bool-cases (i == packet_id)) [
    | inl y ↦ rw (y, find_callbacks) refl
    | inr n ↦ rw (n, find_callbacks) refl
  ]
  calls_for-push_callback packet_id i callback ((j, cs) ∷ callbacks) = elim (Bool-cases (j == i)) [
    | inl y ↦ rw y (
        subst
          (λ k.
            calls_for packet_id ((k, cs ++ (callback ∷ [])) ∷ callbacks)
            ≡ calls_for packet_id ((k, cs) ∷ callbacks) ++ new_for packet_id i callback)
          (sym ((==_iff j i).0 y)) (own_entry packet_id i callback cs callbacks))
    | inr n ↦ rw n (
        other_entry packet_id i j callback cs callbacks _ n
          (calls_for-push_callback packet_id i callback callbacks))
  ]

  pub dispatch-calls_for :
      (c : Client W) (packet : Packet) (w : W)
      → dispatch c packet w ≡ call_all (calls_for packet.packet_id c.callbacks) packet w
  unfolding dispatch call_all
  dispatch-calls_for c packet w =
      elim (Option-cases (find_callbacks packet.packet_id c.callbacks)) [
        | inl e ↦ rw (e, dispatch) refl
        | inr (cs, e) ↦ rw (e, dispatch) refl
      ]

  -- The callbacks of an identifier, after a row of registrations.
  pub calls_for-register_all :
      (packet_id : PacketId) (rs : Registrations W) (c : Client W)
      → calls_for packet_id (register_all rs c).callbacks
        ≡ calls_for packet_id c.callbacks ++ registered packet_id rs
  unfolding register_callback
  calls_for-register_all packet_id [] c = sym (append-nil (calls_for packet_id c.callbacks))
  calls_for-register_all packet_id ((i, callback) ∷ rs) c =
      calls_for-register_all packet_id rs (register_callback i callback c)
      ∙ ap (λ cs. cs ++ registered packet_id rs)
          (calls_for-push_callback packet_id i callback c.callbacks)
      ∙ append_assoc (calls_for packet_id c.callbacks) (new_for packet_id i callback)
          (registered packet_id rs)
      ∙ ap (λ cs. calls_for packet_id c.callbacks ++ cs) (new_in_front packet_id i callback rs)
    where
      new_in_front :
          (packet_id i : PacketId) (callback : Callback W) (rs : Registrations W)
          → new_for packet_id i callback ++ registered packet_id rs
            ≡ registered packet_id ((i, callback) ∷ rs)
      new_in_front packet_id i callback rs = elim (Bool-cases (i == packet_id)) [
        | inl y ↦ rw (y) refl
        | inr n ↦ rw (n) refl
      ]

  call_all-foldl :
      (callbacks : List (Callback W)) (packet : Packet) (w : W)
      → call_all callbacks packet w ≡ foldl (λ w callback. callback packet w) w callbacks
  unfolding call_all
  call_all-foldl [] packet w = refl
  call_all-foldl (callback ∷ callbacks) packet w =
      call_all-foldl callbacks packet (callback packet w)

  -- A packet that is dispatched after any row of registrations with a client that has none: the callbacks that
  -- the row has for the packet's identifier are called, each once, in the order of their registration, each
  -- on what the one before has left, and no callback of another identifier is.
  pub dispatch-register_all :
      (rs : Registrations W) (c : Client W) (packet : Packet) (w : W)
      → c.callbacks ≡ []
      → dispatch (register_all rs c) packet w
        ≡ foldl (λ w callback. callback packet w) w (registered packet.packet_id rs)
  unfolding find_callbacks
  dispatch-register_all rs c packet w none_yet =
      dispatch-calls_for (register_all rs c) packet w
      ∙ ap (λ cs. call_all cs packet w)
          (calls_for-register_all packet.packet_id rs c ∙ rw none_yet refl)
      ∙ call_all-foldl (registered packet.packet_id rs) packet w
