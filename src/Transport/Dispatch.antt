-- ===== src/Transport/Dispatch.antt =====
-- Transport::dispatch_requests of wsg50_driver/src/transport.cpp.
use wsg50_ros2_humble.Base.{
  ℕ, ◌+◌, List, [], ◌∷◌, Option, none, some, if◌then◌else◌, Outcome, returns, ◌>>=◌,
}
use wsg50_ros2_humble.Wire.Bytes.{Bytes}
use wsg50_ros2_humble.Wire.Frame.{encode_frame}
use wsg50_ros2_humble.Transport.{Transport, Request, find, erase, assign}
use wsg50_ros2_humble.Transport.Requests.{fail_request}
use wsg50_ros2_humble.Transport.Link.{SendRound, send_all}

-- The request is taken over into the map, with its deadline.
unfoldable pub put_in_flight : ℕ → Request → Transport → Request × Transport
put_in_flight now r t =
    let request = record r { deadline = now + r.timeout } in
    (request, record t { in_flight = assign r.id request t.in_flight })

-- The choice under the lock, on the two queues: `none` where the source returns.
unfoldable pub pick_normal : ℕ → List Request → Transport → Option (Request × Transport)
unfolding put_in_flight
pick_normal now [] t = none
pick_normal now (r ∷ rest) t = elim (t.in_flight) [
  | [] ↦ some (put_in_flight now r (record t { queue = rest }))
  | entry ∷ others ↦ none
]

unfoldable pub pick_from : ℕ → List Request → Transport → Option (Request × Transport)
unfolding pick_normal
pick_from now [] t = pick_normal now t.queue t
pick_from now (r ∷ rest) t = elim (find r.id t.in_flight) [
  | some other ↦ none
  | none ↦ some (put_in_flight now r (record t { priority_queue = rest }))
]

unfoldable pub pick_request : ℕ → Transport → Option (Request × Transport)
unfolding pick_from
pick_request now t = pick_from now t.priority_queue t

unfoldable pub abandon : Request → Transport → Transport
abandon request t =
    fail_request request "failed to send command"
      (record t { in_flight = erase request.id t.in_flight })

-- The part behind the lock.
unfoldable pub send_frame : List SendRound → Request → Bytes → Transport → Outcome Transport
unfolding abandon
send_frame rounds request [] t = returns (abandon request t)
send_frame rounds request (b ∷ bs) t = do
  (sent, t') ← send_all rounds (b ∷ bs) t
  returns (if sent then t' else abandon request t')

unfoldable pub send_picked :
    List SendRound → Option (Request × Transport) → Transport → Outcome Transport
unfolding send_frame
send_picked rounds none t = returns t
send_picked rounds (some (request, t')) t =
    send_frame rounds request (encode_frame request.id request.payload) t'

unfoldable pub dispatch_requests : ℕ → List SendRound → Transport → Outcome Transport
unfolding send_picked
dispatch_requests now rounds t = send_picked rounds (pick_request now t) t
