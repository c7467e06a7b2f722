-- ===== src/Driver/Setup.antt =====
-- The constructor of the node of wsg50_driver/src/main.cpp, as far as it makes and starts the
-- transport, and initialize_connection with the thread that it starts.
pub mod Bounds
pub mod Defaults
pub mod Steps
pub mod Threads
mod Examples
use wsg50_ros2_humble.Base.{
  ℕ, ◌&&◌, ◌||◌, not, Bool, true, false, List, [], ◌∷◌, Option, none, some, String, ◌==◌,
  if◌then◌else◌,
}
use wsg50_ros2_humble.Wire.Bytes.{u16}
use wsg50_ros2_humble.Device.{CommandReply, success, DeviceState}
use wsg50_ros2_humble.Transport.{TransportOptions, Transport, default_options, init}
use wsg50_ros2_humble.Transport.Requests.{start, stop}
use wsg50_ros2_humble.Driver.{Doubles, Parameters, duration, validate_parameters}
use wsg50_ros2_humble.Driver.Goals.{Initialization}

-- The commands of the thread, each with its reply.
pub data Step : Type 0 where
  acceleration force acknowledgement homing : Step

-- The replies to the commands, if they are sent.
pub record Replies : Type 0 where
  pub acceleration_reply : CommandReply
  pub force_reply : CommandReply
  pub acknowledge_reply : CommandReply
  pub home_reply : CommandReply

-- What the node knows of its initialization: the last one that ended, and whether one is running.
pub record Setup : Type 0 where
  pub done : Initialization
  pub running : Bool

-- initialize_connection up to the thread: the generation that it is started for.
unfoldable pub initialize_connection : Bool → Setup → DeviceState → Option ℕ × Setup
initialize_connection shutting_down setup state =
    if shutting_down || setup.running
    then (none, setup)
    else if not state.connected || state.connection_generation == setup.done.generation
    then (none, setup)
    else (
      some state.connection_generation,
      record setup { done = record (setup.done) { successful = false }; running = true },
    )

-- What the thread stores at its end.
unfoldable pub initialized : ℕ → CommandReply → Setup → Setup
initialized generation reply setup = record {
  done = record { generation = generation; successful = success reply };
  running = false;
}

module _ (F : Doubles) where
  abbrev pub make_options : Parameters F → TransportOptions
  make_options p = record default_options {
    address = p.address;
    port = u16 (duration p.port);
    connect_timeout = duration p.connect_timeout_ms;
    response_timeout = duration p.response_timeout_ms;
    reconnect_interval = duration p.reconnect_interval_ms;
    state_update_period_ms = u16 (duration p.state_update_period_ms);
  }

  -- The transport that the constructor starts, unless validate_parameters throws.
  unfoldable pub construct : Parameters F → Option Transport
  unfolding validate_parameters start init
  construct p = elim (validate_parameters F p) [
    | some text ↦ none
    | none ↦ some ((start (init (make_options p))).1)
  ]

  -- The commands that the thread sends, and the last reply.
  unfoldable pub initialize : Parameters F → Replies → List Step × CommandReply
  initialize p r =
      if not (success r.acceleration_reply)
      then (acceleration ∷ [], r.acceleration_reply)
      else if not (success r.force_reply)
      then (acceleration ∷ force ∷ [], r.force_reply)
      else if p.auto_acknowledge_faults
      then (if not (success r.acknowledge_reply)
          then (acceleration ∷ force ∷ acknowledgement ∷ [], r.acknowledge_reply)
          else if p.auto_home
          then (acceleration ∷ force ∷ acknowledgement ∷ homing ∷ [], r.home_reply)
          else (acceleration ∷ force ∷ acknowledgement ∷ [], r.acknowledge_reply))
      else if p.auto_home
      then (acceleration ∷ force ∷ homing ∷ [], r.home_reply)
      else (acceleration ∷ force ∷ [], r.force_reply)
