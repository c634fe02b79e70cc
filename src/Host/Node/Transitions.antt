-- ===== src/Host/Node/Transitions.antt =====
-- About the transitions of the node of modules/autonomy_pi/ros/autonomy_teensy/src/driver.cpp, each in the
-- stage that it belongs to.
use rdml_blue_rov2_deploymen.Common.{
  ℕ, ◌≡◌, refl, sym, subst, true, false, Bool-cases, inl, inr, Option, none, some, List, ok, ◌&&◌,
  ◌⊎◌,
}
use rdml_blue_rov2_deploymen.Host.Node.{
  Ros, Params, Driver, Outside, CallbackReturn, callback_success, callback_error, configured_client,
}
use rdml_blue_rov2_deploymen.Host.Node.Lifecycle.{
  set_activated, set_publishers, offer_services, withdraw_services, on_configure, on_activate,
  on_deactivate, on_cleanup,
}
use rdml_blue_rov2_deploymen.Host.Node.Reach.{
  configure, stage_after, IsBare, IsReady, Inv, IsValidated,
}
use rdml_blue_rov2_deploymen.Host.Client.{
  SerialPort, new_client, open_client, set_options, port_options,
}
use rdml_blue_rov2_deploymen.Host.Node.Callbacks.{IsValid}

opened :
    (W : Type 0) (serial_port : SerialPort) (port : List ℕ) (baudrate : ℕ)
    → (open_client {W = W} serial_port port baudrate ≡ some new_client)
      ⊎ (open_client {W = W} serial_port port baudrate ≡ none)
unfolding open_client
opened W serial_port port baudrate =
    elim (Bool-cases
      (serial_port.opens port && set_options serial_port.accepts (port_options baudrate))) [
        | inl e ↦ inl (rw (e, open_client) refl)
        | inr e ↦ inr (rw (e, open_client) refl)
      ]

module _ {C S F G : Type 0} (ros : Ros C S F G) where
  abbrev pub Fits : CallbackReturn × Driver C S F G → Type 0
  Fits (result, d) = Inv ros (stage_after result) d

  on_configure_opened :
      (params : Params G) (serial_port : SerialPort) (d : Driver C S F G)
      → open_client {W = Outside C S F G} serial_port params.port params.baudrate ≡ some new_client
      → IsValid params
      → Fits (on_configure ros (some params) serial_port d)
  unfolding on_configure set_publishers offer_services configured_client
  on_configure_opened params serial_port d e v = subst Fits (sym done) (record {
    reader = configured_client ros;
    has_client = refl;
    has_callbacks = refl;
    has_imu_pub = refl;
    has_calib_pub = refl;
    valid = v;
  })
    where
      ready : Driver C S F G
      ready = record {
        client = some (configured_client ros);
        node = offer_services (set_publishers (some false) (record d.node { params = params }));
      }

      done : on_configure ros (some params) serial_port d ≡ (callback_success, ready)
      done = rw (e, on_configure) refl

  on_configure_refused :
      (params : Params G) (serial_port : SerialPort) (d : Driver C S F G)
      → open_client {W = Outside C S F G} serial_port params.port params.baudrate ≡ none
      → IsBare d
      → Fits (on_configure ros (some params) serial_port d)
  unfolding on_configure set_publishers
  on_configure_refused params serial_port d e h = subst Fits (sym (refused d)) (
      inl (record {
        no_client = h.no_client;
        no_imu_pub = refl;
        no_calib_pub = refl;
        no_start = h.no_start;
        no_save = h.no_save;
        no_stop = h.no_stop;
      }))
    where
      refused :
          (d : Driver C S F G)
          → on_configure ros (some params) serial_port d ≡ (
            callback_error,
            record d { node = set_publishers none (record d.node { params = params }) },
          )
      refused d = rw (e, on_configure) refl

  pub on_configure-Inv :
      (params : Option (Params G)) (serial_port : SerialPort) (d : Driver C S F G)
      → IsValidated (configure params serial_port)
      → IsBare d
      → Fits (on_configure ros params serial_port d)
  unfolding on_configure
  on_configure-Inv none serial_port d v h = inl h
  on_configure-Inv (some params) serial_port d v h =
      elim (opened (Outside C S F G) serial_port params.port params.baudrate) [
        | inl e ↦ on_configure_opened params serial_port d e v
        | inr e ↦ on_configure_refused params serial_port d e h
      ]

  pub on_activate-IsReady :
      (d : Driver C S F G)
      → IsReady ros false d
      → (result : CallbackReturn) × (d' : Driver C S F G) × (on_activate d ≡ ok (result, d'))
        × IsReady ros true d'
  unfolding on_activate set_activated
  on_activate-IsReady d h = (
    callback_success,
    record d { node = record d.node { imu_pub = some true; calib_pub = some true } },
    rw (h.has_imu_pub, h.has_calib_pub) refl,
    record {
      reader = h.reader;
      has_client = h.has_client;
      has_callbacks = h.has_callbacks;
      has_imu_pub = refl;
      has_calib_pub = refl;
      valid = h.valid;
    },
  )

  pub on_deactivate-IsReady :
      (d : Driver C S F G)
      → IsReady ros true d
      → (result : CallbackReturn) × (d' : Driver C S F G) × (on_deactivate d ≡ ok (result, d'))
        × IsReady ros false d'
  unfolding on_deactivate set_activated
  on_deactivate-IsReady d h = (
    callback_success,
    record d { node = record d.node { imu_pub = some false; calib_pub = some false } },
    rw (h.has_imu_pub, h.has_calib_pub) refl,
    record {
      reader = h.reader;
      has_client = h.has_client;
      has_callbacks = h.has_callbacks;
      has_imu_pub = refl;
      has_calib_pub = refl;
      valid = h.valid;
    },
  )

  pub on_cleanup-IsBare : (d : Driver C S F G) → IsBare (on_cleanup d).1
  unfolding on_cleanup set_publishers withdraw_services
  on_cleanup-IsBare d = record {
    no_client = refl;
    no_imu_pub = refl;
    no_calib_pub = refl;
    no_start = refl;
    no_save = refl;
    no_stop = refl;
  }
