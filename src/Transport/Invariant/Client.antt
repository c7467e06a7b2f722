-- ===== src/Transport/Invariant/Client.antt =====
-- command, queue_state_streaming, start and stop of wsg50_driver/src/transport.cpp and
-- the invariant of the transport.
use wsg50_ros2_humble.Base.{
  ℕ, suc, ◌+◌, ◌≡◌, refl, sym, Bool, true, false, List, [], ◌∷◌, ◌++◌, String, ◌==◌, arith, if_both,
  subst,
}
use wsg50_ros2_humble.Wire.Bytes.{Bytes}
use wsg50_ros2_humble.Device.{CommandReply}
use wsg50_ros2_humble.Transport.{Transport, TransportOptions, Request, init}
use wsg50_ros2_humble.Transport.Requests.{
  command, fail_request, stream_each, queue_state_streaming, start, stop, make_request, after_make,
  stream_ids, stream_payload,
}
use wsg50_ros2_humble.Transport.Invariant.{one_if, Balance, IsOrderly}
use wsg50_ros2_humble.Transport.Invariant.Settle.{waiting-append, fail_request-Balance}

pub init-IsOrderly : (options : TransportOptions) → IsOrderly (init options)
unfolding init
init-IsOrderly options = record {
  accounted = λ k. ground arith;
  keyed = tt;
  offline_flight = λ h. refl;
  offline_queue = λ h. refl;
  offline_priority = λ h. refl;
  shown = refl;
  linked = refl;
}

-- A new promise is in the hands of the operation that made it.
after_make-Balance :
    (t : Transport)
    → Balance (λ k. 0) t
    → Balance (λ k. one_if (t.promises == k) + 0) (after_make t)
after_make-Balance t b k = let balance = b k in ground arith

-- A new account of the promises changes nothing else that the invariant speaks of.
pub recount-IsOrderly :
    (t : Transport) (p : ℕ) (s : List (ℕ × CommandReply))
    → Balance (λ k. 0) (record t { promises = p; settled = s })
    → IsOrderly t
    → IsOrderly (record t { promises = p; settled = s })
recount-IsOrderly t p s b v = record {
  accounted = b;
  keyed = v.keyed;
  offline_flight = v.offline_flight;
  offline_queue = v.offline_queue;
  offline_priority = v.offline_priority;
  shown = v.shown;
  linked = v.linked;
}

set_running-IsOrderly :
    (t : Transport) (running : Bool) → IsOrderly t → IsOrderly (record t { running = running })
set_running-IsOrderly t running v = record {
  accounted = v.accounted;
  keyed = v.keyed;
  offline_flight = v.offline_flight;
  offline_queue = v.offline_queue;
  offline_priority = v.offline_priority;
  shown = v.shown;
  linked = v.linked;
}

enqueue-IsOrderly :
    (t : Transport) (r : Request)
    → r.promise ≡ t.promises
    → t.connected ≡ true
    → IsOrderly t
    → IsOrderly (record (after_make t) { queue = t.queue ++ r ∷ [] })
enqueue-IsOrderly t r e c v = record {
  accounted = λ k.
      let made = after_make-Balance t v.accounted k in
      ground (arith, waiting-append k t.queue (r ∷ []));
  keyed = v.keyed;
  offline_flight = λ h. cc;
  offline_queue = λ h. cc;
  offline_priority = λ h. cc;
  shown = v.shown;
  linked = v.linked;
}

enqueue_priority-IsOrderly :
    (t : Transport) (r : Request)
    → r.promise ≡ t.promises
    → t.connected ≡ true
    → IsOrderly t
    → IsOrderly (record (after_make t) { priority_queue = t.priority_queue ++ r ∷ [] })
enqueue_priority-IsOrderly t r e c v = record {
  accounted = λ k.
      let made = after_make-Balance t v.accounted k in
      ground (arith, waiting-append k t.priority_queue (r ∷ []));
  keyed = v.keyed;
  offline_flight = λ h. cc;
  offline_queue = λ h. cc;
  offline_priority = λ h. cc;
  shown = v.shown;
  linked = v.linked;
}

refused-IsOrderly :
    (t : Transport) (r : Request) (reason : String)
    → r.promise ≡ t.promises
    → IsOrderly t
    → IsOrderly (fail_request r reason (after_make t))
refused-IsOrderly t r reason e v =
    let (s, set, b) =
      fail_request-Balance r reason (after_make t) (λ k. 0)
        (λ k. let made = after_make-Balance t v.accounted k in ground arith) in
    subst IsOrderly (sym set) (recount-IsOrderly t (suc t.promises) s b v)

-- command leaves an orderly transport orderly, whether it queues the request or, without a
-- connection, fails it.
pub command-IsOrderly :
    (id : ℕ) (payload : Bytes) (allow_pending : Bool) (timeout : ℕ) (priority : Bool)
    (t : Transport)
    → IsOrderly t
    → IsOrderly (command id payload allow_pending timeout priority t).1
unfolding command
command-IsOrderly id payload allow_pending timeout priority t v =
    if_both (λ (x : ℕ × Transport). IsOrderly x.1) t.connected _ _
      (λ on.
        if_both IsOrderly priority _ _ (λ _. enqueue_priority-IsOrderly t request refl on v)
          (λ _. enqueue-IsOrderly t request refl on v))
      (λ off. refused-IsOrderly t request "gripper is not connected" refl v)
  where
    request : Request
    request = make_request id payload allow_pending false timeout t

stream_each-IsOrderly :
    (ids : List ℕ) (payload : Bytes) (t : Transport)
    → t.connected ≡ true
    → IsOrderly t
    → IsOrderly (stream_each ids payload t)
unfolding stream_each
stream_each-IsOrderly [] payload t c v = v
stream_each-IsOrderly (id ∷ ids) payload t c v =
    stream_each-IsOrderly ids payload _ c (
      enqueue-IsOrderly t (make_request id payload false true t.options.response_timeout t) refl c
        v)

pub queue_state_streaming-IsOrderly :
    (t : Transport) → t.connected ≡ true → IsOrderly t → IsOrderly (queue_state_streaming t)
unfolding queue_state_streaming
queue_state_streaming-IsOrderly t c v = stream_each-IsOrderly stream_ids (stream_payload t) t c v

pub start-IsOrderly : (t : Transport) → IsOrderly t → IsOrderly (start t).1
unfolding start
start-IsOrderly t v =
    if_both (λ (x : Bool × Transport). IsOrderly x.1) t.running _ _ (λ _. v)
      (λ _. set_running-IsOrderly t true v)

pub stop-IsOrderly : (t : Transport) → IsOrderly t → IsOrderly (stop t).1
unfolding stop
stop-IsOrderly t v =
    if_both (λ (x : Bool × Transport). IsOrderly x.1) t.running _ _
      (λ _. set_running-IsOrderly t false v) (λ _. v)
