-- ===== src/Host/Client.antt =====
-- modules/autonomy_pi/ros/autonomy_teensy/src/client.cpp. The reading thread is the function
-- `poll_connection`, over what each call of `poll` and `read_some` gives it; a callback is a function on
-- whatever the driver keeps, the type `W`.
pub mod Chunks
pub mod Failure
pub mod Registry
pub mod Threads
use rdml_blue_rov2_deploymen.Common.{ℕ, Bool, true, false, Option, none, some, List, [], ◌∷◌, ◌++◌}
use rdml_blue_rov2_deploymen.Common.{
  is_empty, ◌&&◌, ◌==◌, if◌then◌else◌, Result, ok, err, fault, stuck, ◌>>=◌,
}
use rdml_blue_rov2_deploymen.Host.Error.{InvalidArgument}
use rdml_blue_rov2_deploymen.Host.Ids.{PacketId}
use rdml_blue_rov2_deploymen.Host.Packet.{Packet, decode_packets}

-- What one `poll` of the port and the `read_some` behind it come to.
pub data Port : Type 0 where
  poll_failed : Port
  timeout : Port
  no_input : Port
  read_failed : Port
  arrived : List ℕ → Port

-- The `std::runtime_error`s of `read_from_socket`.
pub data RuntimeError : Type 0 where
  cannot_poll cannot_read : RuntimeError

unfoldable pub read_from_socket : Port → Result RuntimeError (List ℕ)
read_from_socket poll_failed = err cannot_poll
read_from_socket timeout = ok []
read_from_socket no_input = ok []
read_from_socket read_failed = err cannot_read
read_from_socket (arrived bytes) = ok bytes

-- `boost::asio::serial_port`: its options, and whether opening a port and setting an option succeed.
pub data PortOption : Type 0 where
  baud_rate : ℕ → PortOption
  character_size : ℕ → PortOption
  parity_none stop_bits_one flow_control_none : PortOption

pub record SerialPort : Type 0 where
  pub opens : List ℕ → Bool
  pub accepts : PortOption → Bool

-- The options in the order of the calls of `set_option`; an exception ends them.
abbrev pub port_options : ℕ → List PortOption
port_options baudrate =
    baud_rate baudrate ∷ character_size 8 ∷ parity_none ∷ stop_bits_one ∷ flow_control_none ∷ []

unfoldable pub set_options : (PortOption → Bool) → List PortOption → Bool
set_options accepts [] = true
set_options accepts (option ∷ options) = accepts option && set_options accepts options

module _ (W : Type 0) where
  abbrev pub Callback : Type 0
  Callback = Packet → W → W

  -- `callbacks_` as an association list.
  pub record Client : Type 0 where
    pub connected : Bool
    pub accumulated : List ℕ
    pub callbacks : List (PacketId × List Callback)

module _ {W : Type 0} where
  abbrev pub new_client : Client W
  new_client = record { connected = true; accumulated = []; callbacks = [] }

  -- `Client(port, baudrate)`, with `none` for an exception.
  unfoldable pub open_client : SerialPort → List ℕ → ℕ → Option (Client W)
  unfolding set_options
  open_client serial_port port baudrate =
      if serial_port.opens port && set_options serial_port.accepts (port_options baudrate)
      then some new_client
      else none

  unfoldable pub push_callback :
      PacketId
      → Callback W
      → List (PacketId × List (Callback W))
      → List (PacketId × List (Callback W))
  push_callback packet_id callback [] = (packet_id, callback ∷ []) ∷ []
  push_callback packet_id callback ((i, cs) ∷ callbacks) =
      if i == packet_id
      then (i, cs ++ (callback ∷ [])) ∷ callbacks
      else (i, cs) ∷ push_callback packet_id callback callbacks

  unfoldable pub register_callback : PacketId → Callback W → Client W → Client W
  unfolding push_callback
  register_callback packet_id callback c = record c {
    callbacks = push_callback packet_id callback c.callbacks;
  }

  -- `callbacks_.find`
  unfoldable pub find_callbacks :
      PacketId → List (PacketId × List (Callback W)) → Option (List (Callback W))
  find_callbacks packet_id [] = none
  find_callbacks packet_id ((i, cs) ∷ callbacks) =
      if i == packet_id then some cs else find_callbacks packet_id callbacks

  unfoldable pub call_all : List (Callback W) → Packet → W → W
  call_all [] packet w = w
  call_all (callback ∷ to_call) packet w = call_all to_call packet (callback packet w)

  unfoldable pub dispatch : Client W → Packet → W → W
  unfolding find_callbacks call_all
  dispatch c packet w = elim (find_callbacks packet.packet_id c.callbacks) [
    | none ↦ w
    | some to_call ↦ call_all to_call packet w
  ]

  unfoldable pub dispatch_all : Client W → List Packet → W → W
  dispatch_all c [] w = w
  dispatch_all c (packet ∷ packets) w = dispatch_all c packets (dispatch c packet w)

  -- The loop, over the rounds that the schedule lets it make. A round without data is skipped; an error
  -- ends the loop.
  unfoldable pub poll_connection : List Port → Client W → W → Result InvalidArgument (Client W × W)
  poll_connection [] c w = ok (c, w)
  poll_connection (port ∷ ports) c w = elim (read_from_socket port) [
    | err e ↦ ok (record c { connected = false }, w)
    | fault ↦ fault
    | stuck ↦ stuck
    | ok bytes ↦ elim (is_empty bytes) [
      | true ↦ poll_connection ports c w
      | false ↦ do
        (packets, stop) ← decode_packets (c.accumulated ++ bytes)
        poll_connection ports (record c { accumulated = stop }) (dispatch_all c packets w)
    ]
  ]

  -- The second argument tells whether the write fails; the bytes that go out are the third result.
  unfoldable pub send : List ℕ → Bool → Client W → Bool × Client W × List ℕ
  send frame write_fails c =
      if c.connected
      then (if write_fails then (false, record c { connected = false }, []) else (true, c, frame))
      else (false, c, [])
