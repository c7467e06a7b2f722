-- ===== src/Transport/Replies.antt =====
-- Transport::handle_frame and expire_requests of wsg50_driver/src/transport.cpp.
use wsg50_ros2_humble.Base.{
  ℕ, ◌+◌, Bool, true, false, not, ◌&&◌, ◌||◌, List, [], ◌∷◌, Option, none, some, ltb, leb, ◌==◌,
  if◌then◌else◌, length, Outcome, returns,
}
use wsg50_ros2_humble.Wire.Bytes.{Bytes, read_u16}
use wsg50_ros2_humble.Device.{
  CommandReply, DeviceState, status_success, status_command_pending, status_text, update_state,
}
use wsg50_ros2_humble.Transport.{Transport, Request, find, erase, assign, set_value}
use wsg50_ros2_humble.Transport.Link.{disconnect}

-- The reply that a frame makes.
abbrev pub answer : ℕ → Bytes → CommandReply
answer status payload = record {
  transport_ok = true;
  status = status;
  message = status_text status;
  payload = payload;
}

-- The second change of the state, for the final reply to a request.
unfoldable pub note_reply : ℕ → DeviceState → DeviceState
note_reply status s =
    let noted = record s { last_status = status; status_message = status_text status } in
    if not (status == status_success)
    then record noted { last_error = status_text status }
    else noted

-- `find` has found the request, or nothing.
unfoldable pub settle_request : ℕ → ℕ → ℕ → Bytes → Option Request → Transport → Outcome Transport
unfolding note_reply set_value
settle_request now id status payload none t = returns t
settle_request now id status payload (some request) t =
    if request.allow_pending && status == status_command_pending
    then returns (record t {
      in_flight = assign id (record request { deadline = now + request.timeout }) t.in_flight;
    })
    else set_value request.promise (answer status payload)
        (record t { in_flight = erase id t.in_flight; state = note_reply status t.state })

unfoldable pub handle_frame : ℕ → ℕ → Bytes → Transport → Outcome Transport
unfolding settle_request
handle_frame now id payload t =
    if ltb (length payload) 2
    then returns t
    else (let status = read_u16 payload in
        settle_request now id status payload (find id t.in_flight)
          (record t { state = update_state now id status payload t.state }))

unfoldable pub any_expired : ℕ → List (ℕ × Request) → Bool
any_expired now [] = false
any_expired now ((k, r) ∷ m) = leb r.deadline now || any_expired now m

unfoldable pub expire_requests : ℕ → Transport → Transport
unfolding any_expired disconnect
expire_requests now t =
    if any_expired now t.in_flight then disconnect now "command response timeout" t else t
