-- ===== src/Host/Client/Registry/Tables.antt =====
-- About register_callback and dispatch of modules/autonomy_pi/ros/autonomy_teensy/src/client.cpp: `callbacks_`
-- as a quotient that forgets the order of its entries.
use mathlib.Core.List.{append_cancel_left}
use mathlib.Core.Path.{fun_ext}
use mathlib.Core.Quot
use mathlib.Core.Quot.{Quot, Quot-set}
use rdml_blue_rov2_deploymen.Common.{◌≡◌, refl, sym, ap, ◌∙◌, ◌↔◌, true, List, [], ◌∷◌, ◌++◌}
use rdml_blue_rov2_deploymen.Host.Ids.{PacketId}
use rdml_blue_rov2_deploymen.Host.Client.{Callback, Client, push_callback, register_callback}
use rdml_blue_rov2_deploymen.Host.Client.Registry.{
  Registrations, registered, register_all, calls_for, new_for, calls_for-push_callback,
  calls_for-register_all,
}

module _ {W : Type 0} where
  -- Tables in which every identifier has the same callbacks, in the same order.
  abbrev SameCalls :
      List (PacketId × List (Callback W)) → List (PacketId × List (Callback W)) → Type 0
  SameCalls xs ys = (packet_id : PacketId) → calls_for packet_id xs ≡ calls_for packet_id ys

module _ (W : Type 0) where
  -- `callbacks_` without the order of its entries.
  abbrev pub Table : Type 0
  Table = Quot (SameCalls {W = W})

module _ {W : Type 0} where
  abbrev pub table_of : Client W → Table W
  table_of c = Quot.mk c.callbacks

  SameCalls-push_callback :
      (i : PacketId) (callback : Callback W) (xs ys : List (PacketId × List (Callback W)))
      → SameCalls xs ys
      → SameCalls (push_callback i callback xs) (push_callback i callback ys)
  SameCalls-push_callback i callback xs ys h packet_id =
      calls_for-push_callback packet_id i callback xs
      ∙ ap (λ cs. cs ++ new_for packet_id i callback) (h packet_id)
      ∙ sym (calls_for-push_callback packet_id i callback ys)

  -- A registration and a dispatch on tables.
  pub register : PacketId → Callback W → Table W → Table W
  register i callback =
      Quot.lift Quot-set (λ xs. Quot.mk (push_callback i callback xs))
        (λ xs ys h. Quot.sound (SameCalls-push_callback i callback xs ys h))

  pub register_table : Registrations W → Table W → Table W
  register_table [] t = t
  register_table ((i, callback) ∷ rs) t = register_table rs (register i callback t)

  table_of-register_all :
      (rs : Registrations W) (c : Client W)
      → table_of (register_all rs c) ≡ register_table rs (table_of c)
  unfolding register_table register register_callback
  table_of-register_all [] c = refl
  table_of-register_all ((i, callback) ∷ rs) c =
      table_of-register_all rs (register_callback i callback c)

  SameCalls-register_all :
      (rs rs' : Registrations W) (c : Client W)
      → ((packet_id : PacketId) → registered packet_id rs ≡ registered packet_id rs')
      → SameCalls (register_all rs c).callbacks (register_all rs' c).callbacks
  SameCalls-register_all rs rs' c h packet_id =
      calls_for-register_all packet_id rs c
      ∙ ap (λ cs. calls_for packet_id c.callbacks ++ cs) (h packet_id)
      ∙ sym (calls_for-register_all packet_id rs' c)

  Callbacks-set : IsSet W → IsSet (List (Callback W))
  Callbacks-set W_set = hlevel

  abbrev at_table : (xs : List (PacketId × List (Callback W))) → Client W
  at_table xs = record { connected = true; accumulated = []; callbacks = xs }

  calls_at : IsSet W → PacketId → Table W → List (Callback W)
  calls_at W_set packet_id =
      Quot.lift (Callbacks-set W_set) (calls_for packet_id) (λ xs ys h. h packet_id)

  same_table :
      (rs rs' : Registrations W) (xs : List (PacketId × List (Callback W)))
      → ((packet_id : PacketId) → registered packet_id rs ≡ registered packet_id rs')
      → register_table rs (Quot.mk xs) ≡ register_table rs' (Quot.mk xs)
  same_table rs rs' xs h =
      sym (table_of-register_all rs (at_table xs))
      ∙ Quot.sound (SameCalls-register_all rs rs' (at_table xs) h)
      ∙ table_of-register_all rs' (at_table xs)

  calls_at-register_table :
      (W_set : IsSet W) (packet_id : PacketId) (rs : Registrations W)
      (xs : List (PacketId × List (Callback W)))
      → calls_at W_set packet_id (register_table rs (Quot.mk xs))
        ≡ calls_for packet_id xs ++ registered packet_id rs
  unfolding calls_at
  calls_at-register_table W_set packet_id rs xs =
      ap (calls_at W_set packet_id) (sym (table_of-register_all rs (at_table xs)))
      ∙ calls_for-register_all packet_id rs (at_table xs)

  same_registrations :
      (W_set : IsSet W) (rs rs' : Registrations W) (xs : List (PacketId × List (Callback W)))
      → register_table rs (Quot.mk xs) ≡ register_table rs' (Quot.mk xs)
      → (packet_id : PacketId) → registered packet_id rs ≡ registered packet_id rs'
  same_registrations W_set rs rs' xs e packet_id =
      append_cancel_left (calls_for packet_id xs) (registered packet_id rs)
        (registered packet_id rs')
        (sym (calls_at-register_table W_set packet_id rs xs)
          ∙ ap (calls_at W_set packet_id) e
          ∙ calls_at-register_table W_set packet_id rs' xs)

  -- Where the world that the callbacks act on is a set: a row of calls of `register_callback` leads a client to
  -- the table that the row makes of the client's; and from any table two rows lead to the same one exactly if
  -- they have, for each identifier, the same callbacks in the same order: the interleaving of different
  -- identifiers is forgotten, and nothing else is.
  pub register_table_iff :
      (W_set : IsSet W) (rs rs' : Registrations W) (c : Client W) (t : Table W)
      → (table_of (register_all rs c) ≡ register_table rs (table_of c))
        × ((register_table rs t ≡ register_table rs' t)
            ↔ ((packet_id : PacketId) → registered packet_id rs ≡ registered packet_id rs'))
  register_table_iff W_set rs rs' c t = (
    table_of-register_all rs c,
    (
      λ e packet_id.
          Quot.ind
            {β = λ t.
              register_table rs t ≡ register_table rs' t
              → registered packet_id rs ≡ registered packet_id rs'}
            (λ t. same_prop packet_id t) (λ xs e. same_registrations W_set rs rs' xs e packet_id) t
            e,
      λ h.
          Quot.ind {β = λ t. register_table rs t ≡ register_table rs' t}
            (λ t. Quot-set (register_table rs t) (register_table rs' t))
            (λ xs. same_table rs rs' xs h) t,
    ),
  )
    where
      same_prop :
          (packet_id : PacketId) (t : Table W)
          → IsProp (
              register_table rs t ≡ register_table rs' t
              → registered packet_id rs ≡ registered packet_id rs')
      same_prop packet_id t =
          let list_set = Callbacks-set W_set in λ p q. fun_ext (λ e. list_set _ _ (p e) (q e))
