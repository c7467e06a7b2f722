-- ===== src/Transport.antt =====
-- The state of the class Transport of wsg50_driver/include/wsg50_driver/transport.hpp, its promises
-- and its map of requests in flight; the operations are in the children.
pub mod Requests
pub mod Link
pub mod Replies
pub mod Dispatch
pub mod Worker
pub mod Invariant
pub mod Threads
pub mod Samples
mod Examples
use wsg50_ros2_humble.Base.{
  ℕ, suc, ◌+◌, Bool, true, false, List, [], ◌∷◌, ◌++◌, Option, none, some, String, ltb, ◌==◌,
  if◌then◌else◌, Outcome, returns, throws,
}
use wsg50_ros2_humble.Wire.Bytes.{Bytes}
use wsg50_ros2_humble.Device.{CommandReply, DeviceState, initial_state, status_transport_error}

-- Durations are in milliseconds, which is also the unit of the clock.
pub record TransportOptions : Type 0 where
  pub address : String
  pub port : ℕ
  pub connect_timeout : ℕ
  pub response_timeout : ℕ
  pub reconnect_interval : ℕ
  pub state_update_period_ms : ℕ
  pub max_payload_size : ℕ

abbrev pub default_options : TransportOptions
default_options = record {
  address = "192.168.1.160";
  port = 1501;
  connect_timeout = 2000;
  response_timeout = 2000;
  reconnect_interval = 1000;
  state_update_period_ms = 50;
  max_payload_size = 4096;
}

-- `promise` is the number of the request's promise: promises are numbered as they are made.
pub record Request : Type 0 where
  pub id : ℕ
  pub payload : Bytes
  pub allow_pending : Bool
  pub internal : Bool
  pub timeout : ℕ
  pub deadline : ℕ
  pub promise : ℕ

-- `in_flight` is the std::map, in the order of its keys; `socket` is `none` for -1. `promises` is
-- the count of the promises made so far, `settled` holds the replies that they were set to, the
-- newest first, and `written` the bytes that the socket has taken since it was connected.
pub record Transport : Type 0 where
  pub options : TransportOptions
  pub running : Bool
  pub connected : Bool
  pub socket : Option ℕ
  pub state : DeviceState
  pub queue : List Request
  pub priority_queue : List Request
  pub in_flight : List (ℕ × Request)
  pub receive_buffer : Bytes
  pub promises : ℕ
  pub settled : List (ℕ × CommandReply)
  pub written : Bytes

unfoldable pub init : TransportOptions → Transport
init options = record {
  options = options;
  running = false;
  connected = false;
  socket = none;
  state = initial_state;
  queue = [];
  priority_queue = [];
  in_flight = [];
  receive_buffer = [];
  promises = 0;
  settled = [];
  written = [];
}

-- std::map::find, erase and the assignment to an element.
unfoldable pub find : ℕ → List (ℕ × Request) → Option Request
find k [] = none
find k ((j, r) ∷ m) = if j == k then some r else find k m

unfoldable pub erase : ℕ → List (ℕ × Request) → List (ℕ × Request)
erase k [] = []
erase k ((j, r) ∷ m) = if j == k then m else (j, r) ∷ erase k m

unfoldable pub assign : ℕ → Request → List (ℕ × Request) → List (ℕ × Request)
assign k r [] = (k, r) ∷ []
assign k r ((j, x) ∷ m) =
    let rest = assign k r m in
    if j == k then (k, r) ∷ m else if ltb k j then (k, r) ∷ (j, x) ∷ m else (j, x) ∷ rest

unfoldable pub is_settled : ℕ → List (ℕ × CommandReply) → Bool
is_settled p [] = false
is_settled p ((q, reply) ∷ rest) = if q == p then true else is_settled p rest

-- std::promise::set_value, which throws a future_error on a promise that is set already.
unfoldable pub set_value : ℕ → CommandReply → Transport → Outcome Transport
unfolding is_settled
set_value promise reply t =
    if is_settled promise t.settled
    then throws
    else returns (record t { settled = (promise, reply) ∷ t.settled })
