-- ===== src/Transport/Requests.antt =====
-- Transport::command, fail_request, fail_all, queue_state_streaming, start and stop of
-- wsg50_driver/src/transport.cpp. A future is the number of its promise.
use wsg50_ros2_humble.Base.{
  ℕ, suc, Bool, true, false, List, [], ◌∷◌, ◌++◌, map, String, if◌then◌else◌, Outcome, returns,
  throws, waits, bit_and,
}
use wsg50_ros2_humble.Wire.Bytes.{Bytes, u8, ◌>>>◌}
use wsg50_ros2_humble.Device.{CommandReply, status_transport_error}
use wsg50_ros2_humble.Transport.{Transport, Request, set_value}

-- The reply with the defaults of CommandReply but for the message.
abbrev pub failure : String → CommandReply
failure reason = record {
  transport_ok = false;
  status = status_transport_error;
  message = reason;
  payload = [];
}

-- The catch clause drops the future_error.
caught : Transport → Outcome Transport → Transport
caught t (returns t') = t'
caught t throws = t
caught t waits = t

unfoldable pub fail_request : Request → String → Transport → Transport
unfolding caught set_value
fail_request request reason t = caught t (set_value request.promise (failure reason) t)

unfoldable pub fail_each : List Request → String → Transport → Transport
fail_each [] reason t = t
fail_each (r ∷ rs) reason t = fail_each rs reason (fail_request r reason t)

-- The requests in the order in which fail_all collects them.
abbrev pub collected : Transport → List Request
collected t = map (λ (e : ℕ × Request). e.1) t.in_flight ++ (t.queue ++ t.priority_queue)

unfoldable pub fail_all : String → Transport → Transport
unfolding fail_each fail_request
fail_all reason t =
    fail_each (collected t) reason (record t { in_flight = []; queue = []; priority_queue = [] })

-- A new request with a fresh promise; its deadline is set when it is dispatched.
abbrev pub make_request : ℕ → Bytes → Bool → Bool → ℕ → Transport → Request
make_request id payload allow_pending internal timeout t = record {
  id = id;
  payload = payload;
  allow_pending = allow_pending;
  internal = internal;
  timeout = timeout;
  deadline = 0;
  promise = t.promises;
}

abbrev pub after_make : Transport → Transport
after_make t = record t { promises = suc t.promises }

unfoldable pub command : ℕ → Bytes → Bool → ℕ → Bool → Transport → ℕ × Transport
unfolding fail_request
command id payload allow_pending timeout priority t =
    let request = make_request id payload allow_pending false timeout t in
    let made = after_make t in
    if t.connected
    then (
      t.promises,
      (if priority
          then record made { priority_queue = t.priority_queue ++ request ∷ [] }
          else record made { queue = t.queue ++ request ∷ [] }),
    )
    else (t.promises, fail_request request "gripper is not connected" made)

unfoldable pub stream_each : List ℕ → Bytes → Transport → Transport
stream_each [] payload t = t
stream_each (id ∷ ids) payload t =
    let request = make_request id payload false true t.options.response_timeout t in
    stream_each ids payload (record (after_make t) { queue = t.queue ++ request ∷ [] })

abbrev pub stream_payload : Transport → Bytes
stream_payload t =
    let period = t.options.state_update_period_ms in
    0x01 ∷ u8 (bit_and period 0xff) ∷ u8 (bit_and (period >>> 8) 0xff) ∷ []

abbrev pub stream_ids : List ℕ
stream_ids = 0x40 ∷ 0x41 ∷ 0x43 ∷ 0x44 ∷ 0x45 ∷ []

unfoldable pub queue_state_streaming : Transport → Transport
unfolding stream_each
queue_state_streaming t = stream_each stream_ids (stream_payload t) t

-- start() and the part of stop() before the join; the flag says whether a worker thread is to be
-- created, or notified and joined.
unfoldable pub start : Transport → Bool × Transport
start t = if t.running then (false, t) else (true, record t { running = true })

unfoldable pub stop : Transport → Bool × Transport
stop t = if t.running then (true, record t { running = false }) else (false, t)
