-- ===== src/Transport/Link.antt =====
-- Transport::disconnect, connect_socket and send_all of wsg50_driver/src/transport.cpp. What the
-- system calls return is a script that the caller gives; `now` is the clock's reading.
use Prim.Native.String.{◌++◌ as ◌<>◌}
use wsg50_ros2_humble.Base.{
  ℕ, ◌+◌, ◌%◌, ◌^◌, Bool, true, false, ◌&&◌, List, [], ◌∷◌, ◌++◌, Option, none, some, String,
  if◌then◌else◌, take, drop, Outcome, returns, waits,
}
use wsg50_ros2_humble.Wire.Bytes.{Bytes}
use wsg50_ros2_humble.Device.{DeviceState, status_success, status_transport_error}
use wsg50_ros2_humble.Transport.{Transport}
use wsg50_ros2_humble.Transport.Requests.{fail_all}

unfoldable pub disconnected : ℕ → String → DeviceState → DeviceState
disconnected now reason s = record s {
  connected = false;
  referenced = false;
  moving = false;
  stalled = false;
  system_state = 0;
  last_status = status_transport_error;
  status_message = reason;
  last_error = reason;
  updated_at = now;
}

unfoldable pub disconnect : ℕ → String → Transport → Transport
unfolding disconnected fail_all
disconnect now reason t =
    let closed = record t { connected = false; socket = none } in
    let failed = fail_all reason closed in
    record failed { state = disconnected now reason failed.state }

-- What the first ::connect says, and where it is in progress, whether ::poll reports the socket and
-- ::getsockopt no error.
pub data ConnectResult : Type 0 where
  immediate refused : ConnectResult
  in_progress : Bool → Bool → ConnectResult

pub record ConnectScript : Type 0 where
  pub descriptor : Option ℕ  -- ::socket
  pub non_blocking : Bool  -- both calls of ::fcntl succeed
  pub valid_address : Bool  -- ::inet_pton returns 1
  pub result : ConnectResult
  pub now : ℕ

abbrev pub connection_ready : ConnectResult → Bool
connection_ready immediate = true
connection_ready refused = false
connection_ready (in_progress polled no_error) = polled && no_error

unfoldable pub established : ℕ → ℕ → Transport → Transport
established fd now t = record t {
  connected = true;
  socket = some fd;
  receive_buffer = [];
  written = [];
  state = record (t.state) {
    connected = true;
    last_status = status_success;
    status_message = "connected";
    updated_at = now;
    opening_updated_at = 0;
    system_updated_at = 0;
    connection_generation = (t.state.connection_generation + 1) % 2 ^ 64;
  };
}

unfoldable pub with_descriptor : ConnectScript → Option ℕ → Transport → Bool × Transport
unfolding established
with_descriptor script none t = (false, t)
with_descriptor script (some fd) t =
    if script.non_blocking
    then (if script.valid_address
        then (if connection_ready script.result
            then (true, established fd script.now t)
            else (false, t))
        else (
          false,
          record t { state = record (t.state) { status_message = "invalid IPv4 address" } },
        ))
    else (false, t)

unfoldable pub connect_socket : ConnectScript → Transport → Bool × Transport
unfolding with_descriptor
connect_socket script t = with_descriptor script script.descriptor t

-- ::send took some bytes (a positive count, at most those that it was given); would block or was
-- interrupted, and the ::poll that follows reports the socket or not; or failed. The text is that
-- of strerror.
pub data SendResult : Type 0 where
  accepted : ℕ → SendResult
  try_again : Bool → String → SendResult
  failed : String → SendResult

-- One round of a loop over the socket: what `running_` is at its test, and what the calls return.
pub record SendRound : Type 0 where
  pub running : Bool
  pub result : SendResult
  pub now : ℕ

-- The loop, with the bytes from `offset` on; it returns whether `offset` has reached the end.
unfoldable pub send_loop : List SendRound → Bytes → Transport → Outcome (Bool × Transport)
send_loop rounds [] t = returns (true, t)
send_loop [] (b ∷ bs) t = waits
send_loop (round ∷ rounds) (b ∷ bs) t = elim (round.running) [
  | false ↦ returns (false, t)
  | true ↦ elim (round.result) [
    | accepted count ↦
        send_loop rounds (drop count (b ∷ bs))
          (record t { written = t.written ++ take count (b ∷ bs) })
    | try_again ready error ↦ elim ready [
      | true ↦ send_loop rounds (b ∷ bs) t
      | false ↦ returns (false, disconnect round.now ("send failed: " <> error) t)
    ]
    | failed error ↦ returns (false, disconnect round.now ("send failed: " <> error) t)
  ]
]

unfoldable pub send_all : List SendRound → Bytes → Transport → Outcome (Bool × Transport)
unfolding send_loop disconnect
send_all rounds frame t = send_loop rounds frame t
