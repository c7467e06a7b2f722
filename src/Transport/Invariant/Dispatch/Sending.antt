-- ===== src/Transport/Invariant/Dispatch/Sending.antt =====
-- The second half of dispatch_requests in wsg50_driver/src/transport.cpp: the frame is sent, or the
-- request that was picked is taken out of the map again and its promise set to a failure.
use wsg50_ros2_humble.Base.{
  ℕ, ◌<◌, ◌≡◌, refl, sym, ap, ◌∙◌, Bool, List, [], ◌∷◌, ◌++◌, String, Option, none, some,
  if◌then◌else◌, arith, subst, Safely, Safely-bind,
}
use wsg50_ros2_humble.Wire.Bytes.{Bytes}
use wsg50_ros2_humble.Wire.Frame.{encode_frame}
use wsg50_ros2_humble.Transport.{Transport, Request, erase}
use wsg50_ros2_humble.Transport.Link.{disconnect, SendRound, send_all}
use wsg50_ros2_humble.Transport.Dispatch.{
  pick_request, abandon, send_frame, send_picked, dispatch_requests,
}
use wsg50_ros2_humble.Transport.Invariant.{IsOrderly}
use wsg50_ros2_humble.Transport.Invariant.Flight.{Ascending-erase, flying-erase, flying-find}
use wsg50_ros2_humble.Transport.Invariant.Settle.{fail_request-Balance, fail_request_set}
use wsg50_ros2_humble.Transport.Invariant.Link.{
  disconnect-IsOrderly, disconnect-IsDown, SendEnd, all_sent, halted, dropped, send_all_ends,
}
use wsg50_ros2_humble.Transport.Invariant.Dispatch.{Picked, AllPicked, pick_request-Picked}

-- The request is still in the map: its promise is set now.
abandon_held : (r : Request) (t : Transport) → Picked r t → IsOrderly (abandon r t)
unfolding abandon
abandon_held r t p =
    let removed = record t { in_flight = erase r.id t.in_flight } in
    let (s, e, b) =
      fail_request-Balance r "failed to send command" removed (λ k. 0)
        (λ k. omega (arith, p.orderly.accounted k, flying-erase k r.id t.in_flight r p.stands)) in
    subst IsOrderly (sym e) (record {
      accounted = b;
      keyed = Ascending-erase r.id 0 t.in_flight p.orderly.keyed;
      offline_flight = λ off. let on = p.online in cc;
      offline_queue = p.orderly.offline_queue;
      offline_priority = p.orderly.offline_priority;
      shown = p.orderly.shown;
      linked = p.orderly.linked;
    })

held_is_made : (r : Request) (t : Transport) → Picked r t → r.promise < t.promises
held_is_made r t p =
    let balance = p.orderly.accounted r.promise in
    let there = flying-find r.id t.in_flight r p.stands in ground arith

pub erase_nothing : (k : ℕ) (m : List (ℕ × Request)) → m ≡ [] → erase k m ≡ m
unfolding erase
erase_nothing k [] e = refl
erase_nothing k (x ∷ m) e = cc

-- A disconnect has emptied the map and set the promise already: nothing is left to do.
abandon_down :
    (r : Request) (t : Transport) (now : ℕ) (reason : String)
    → Picked r t
    → abandon r (disconnect now reason t) ≡ disconnect now reason t
unfolding abandon
abandon_down r t now reason p =
    let d = disconnect-IsDown now reason t p.orderly.accounted in
    let made = held_is_made r t p in
    let once = d.all_set r.promise (omega (arith, made, d.promises)) in
    fail_request_set r "failed to send command" _ (omega (arith, once))
    ∙ ap (λ m. record (disconnect now reason t) { in_flight = m })
        (erase_nothing r.id (disconnect now reason t).in_flight d.no_flight)

written_Picked :
    (r : Request) (t : Transport) (w : Bytes) → Picked r t → Picked r (record t { written = w })
written_Picked r t w p = record {
  orderly = record {
    accounted = p.orderly.accounted;
    keyed = p.orderly.keyed;
    offline_flight = p.orderly.offline_flight;
    offline_queue = p.orderly.offline_queue;
    offline_priority = p.orderly.offline_priority;
    shown = p.orderly.shown;
    linked = p.orderly.linked;
  };
  online = p.online;
  stands = p.stands;
}

-- After each way in which send_all ends.
sent_IsOrderly :
    (r : Request) (t : Transport) (bytes : Bytes) (sent : Bool) (t' : Transport)
    → Picked r t
    → SendEnd t bytes sent t'
    → IsOrderly (if sent then t' else abandon r t')
sent_IsOrderly r t bytes sent t' p (all_sent s e) = rw (s, e) ((written_Picked r t _ p).orderly)
sent_IsOrderly r t bytes sent t' p (halted done rest split s e) =
    rw (s, e) (abandon_held r _ (written_Picked r t _ p))
sent_IsOrderly r t bytes sent t' p (dropped done rest now reason split s e) =
    let p' = written_Picked r t (t.written ++ done) p in
    rw (s, e)
      (subst IsOrderly (sym (abandon_down r _ now reason p'))
        (disconnect-IsOrderly now reason _ p'.orderly.accounted))

send_frame-Safely :
    (rounds : List SendRound) (r : Request) (bytes : Bytes) (t : Transport)
    → Picked r t
    → Safely IsOrderly (send_frame rounds r bytes t)
unfolding send_frame
send_frame-Safely rounds r [] t p = abandon_held r t p
send_frame-Safely rounds r (b ∷ bs) t p =
    Safely-bind (λ (x : Bool × Transport). SendEnd t (b ∷ bs) x.0 x.1) IsOrderly
      (send_all rounds (b ∷ bs) t) _ (send_all_ends rounds (b ∷ bs) t)
      (λ x. sent_IsOrderly r t (b ∷ bs) x.0 x.1 p)

-- From an orderly transport, dispatch_requests throws nothing and leaves the transport orderly,
-- also where send_all has disconnected before the request is failed.
pub dispatch_requests-Safely :
    (now : ℕ) (rounds : List SendRound) (t : Transport)
    → IsOrderly t
    → Safely IsOrderly (dispatch_requests now rounds t)
unfolding dispatch_requests
dispatch_requests-Safely now rounds t v = by_pick (pick_request now t) (pick_request-Picked now t v)
  where
    by_pick :
        (o : Option (Request × Transport)) → AllPicked o → Safely IsOrderly (send_picked rounds o t)
    by_pick none p = v
    by_pick (some (r, t')) p = send_frame-Safely rounds r (encode_frame r.id r.payload) t' p
