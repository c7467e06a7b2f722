-- ===== src/Transport/Invariant/Dispatch.antt =====
-- dispatch_requests of wsg50_driver/src/transport.cpp: the choice of the request, and the
-- invariant.
pub mod Sending
use wsg50_ros2_humble.Base.{
  ℕ, zero, suc, ◌+◌, ◌≤◌, ◌<◌, ◌≡◌, refl, sym, ap, ◌∙◌, Bool, true, false, List, [], ◌∷◌, ◌++◌,
  String, Option, none, some, ltb, ◌==◌, if◌then◌else◌, arith, if_both, subst, Bool-cases,
  Option-cases, inl, inr, Outcome, returns, throws, waits, Safely, Safely-bind, ◌>>=◌,
}
use wsg50_ros2_humble.Wire.Bytes.{Bytes}
use wsg50_ros2_humble.Wire.Frame.{encode_frame}
use wsg50_ros2_humble.Transport.{Transport, Request, find, erase, assign}
use wsg50_ros2_humble.Transport.Requests.{fail_request}
use wsg50_ros2_humble.Transport.Link.{disconnect, SendRound, send_all}
use wsg50_ros2_humble.Transport.Dispatch.{
  put_in_flight, pick_normal, pick_from, pick_request, abandon, send_frame, send_picked,
  dispatch_requests,
}
use wsg50_ros2_humble.Transport.Invariant.{
  one_if, waiting, flying, times_set, held, Balance, Ascending, is_open, IsOrderly,
}
use wsg50_ros2_humble.Transport.Invariant.Flight.{
  Ascending-erase, Ascending-assign, flying-erase, flying-find, flying-assign_new,
}
use wsg50_ros2_humble.Transport.Invariant.Settle.{
  fail_request-Balance, fail_request_set, with_settled,
}
use wsg50_ros2_humble.Transport.Invariant.Client.{recount-IsOrderly}
use wsg50_ros2_humble.Transport.Invariant.Link.{
  disconnect-IsOrderly, disconnect-IsDown, SendEnd, all_sent, halted, dropped, send_all_ends,
}

-- The request that was picked is in flight under its id, in an orderly transport.
pub record Picked (request : Request) (t : Transport) : Type 0 where
  pub orderly : IsOrderly t
  pub online : t.connected ≡ true
  pub stands : find request.id t.in_flight ≡ some request

pub find-assign : (k : ℕ) (r : Request) (m : List (ℕ × Request)) → find k (assign k r m) ≡ some r
unfolding find assign
find-assign k r [] = ground arith
find-assign k r ((j, x) ∷ m) = ground (arith, find-assign k r m)

-- A request `r` that was taken off a queue goes into a free place of the map.
placed-Picked :
    (now : ℕ) (r : Request) (t : Transport)
    → Balance (λ k. one_if (r.promise == k) + 0) t
    → Ascending 0 t.in_flight
    → find r.id t.in_flight ≡ none
    → t.connected ≡ true
    → t.state.connected ≡ t.connected
    → is_open t.socket ≡ t.connected
    → Picked (put_in_flight now r t).0 (put_in_flight now r t).1
unfolding put_in_flight
placed-Picked now r t b a free on shown linked = record {
  orderly = record {
    accounted = λ k. omega (
      arith,
      b k,
      flying-assign_new k r.id (record r { deadline = now + r.timeout }) t.in_flight free,
    );
    keyed = Ascending-assign r.id 0 _ t.in_flight (omega arith) refl a;
    offline_flight = λ off. cc;
    offline_queue = λ off. cc;
    offline_priority = λ off. cc;
    shown = shown;
    linked = linked;
  };
  online = on;
  stands = find-assign r.id _ t.in_flight;
}

-- Where something waits in a queue the connection is up.
pub online_of {ℓ} :
    {A : Type ℓ} (connected : Bool) (xs : List A) {x : A} {rest : List A}
    → (connected ≡ false → xs ≡ [])
    → xs ≡ x ∷ rest
    → connected ≡ true
online_of true xs h e = refl
online_of false xs h e = let gone = h refl in cc

abbrev pub AllPicked : Option (Request × Transport) → Type 0
AllPicked none = Unit
AllPicked (some (request, t)) = Picked request t

pick_normal-Picked :
    (now : ℕ) (t : Transport) (queue : List Request)
    → IsOrderly t
    → t.queue ≡ queue
    → AllPicked (pick_normal now queue t)
unfolding pick_normal
pick_normal-Picked now t [] v e = tt
pick_normal-Picked now t (r ∷ rest) v e = by_flight t.in_flight refl
  where
    by_flight :
        (m : List (ℕ × Request)) → t.in_flight ≡ m → AllPicked (pick_normal now (r ∷ rest) t)
    by_flight (entry ∷ others) f = rw (f, pick_normal) tt
    by_flight [] f =
        rw (f, pick_normal)
          (placed-Picked now r (record t { queue = rest })
            (λ k. omega (arith, v.accounted k, ap (waiting k) e)) v.keyed
            (rw f (unfold find in refl)) (online_of t.connected t.queue v.offline_queue e) v.shown
            v.linked)

pick_from-Picked :
    (now : ℕ) (t : Transport) (priority_queue : List Request)
    → IsOrderly t
    → t.priority_queue ≡ priority_queue
    → AllPicked (pick_from now priority_queue t)
unfolding pick_from
pick_from-Picked now t [] v e = pick_normal-Picked now t t.queue v refl
pick_from-Picked now t (r ∷ rest) v e = elim (Option-cases (find r.id t.in_flight)) [
  | inr (other, taken) ↦ rw (taken, pick_from) tt
  | inl free ↦
      rw (free, pick_from)
        (placed-Picked now r (record t { priority_queue = rest })
          (λ k. omega (arith, v.accounted k, ap (waiting k) e)) v.keyed free
          (online_of t.connected t.priority_queue v.offline_priority e) v.shown v.linked)
]

pub pick_request-Picked : (now : ℕ) (t : Transport) → IsOrderly t → AllPicked (pick_request now t)
unfolding pick_request
pick_request-Picked now t v = pick_from-Picked now t t.priority_queue v refl
