-- ===== src/Transport/Threads/Sections.antt =====
-- What the locked sections of the worker of the class Transport of wsg50_driver/src/transport.cpp do
-- to the account of promises.
use wsg50_ros2_humble.Base.{
  ℕ, ◌+◌, ◌≤◌, ◌≡◌, refl, sym, ap, ◌∙◌, subst, true, List, [], ◌∷◌, none, some, String, ◌==◌, arith,
}
use wsg50_ros2_humble.Transport.{Transport, Request, find, erase}
use wsg50_ros2_humble.Transport.Requests.{
  failure, collected, queue_state_streaming, stream_ids, stream_payload,
}
use wsg50_ros2_humble.Transport.Link.{disconnected}
use wsg50_ros2_humble.Transport.Dispatch.{put_in_flight, abandon}
use wsg50_ros2_humble.Transport.Invariant.{one_if, waiting, flying, times_set, Balance, Ascending}
use wsg50_ros2_humble.Transport.Invariant.Flight.{
  Ascending-erase, Ascending-assign, flying-erase, flying-find, flying-assign_new,
}
use wsg50_ros2_humble.Transport.Invariant.Settle.{
  waiting-collected, fail_request_held, fail_request_set,
}
use wsg50_ros2_humble.Transport.Invariant.Dispatch.{find-assign}
use wsg50_ros2_humble.Transport.Invariant.Dispatch.Sending.{erase_nothing}
use wsg50_ros2_humble.Transport.Threads.{
  After, next_round, give_up, stop_run, resting, sending, failing, abandoning, system, after_pc,
}
use wsg50_ros2_humble.Transport.Threads.Account.{Gives, Inv, stream_each-Balance, stream_each-same}
use wsg50_ros2_humble.Transport.Threads.Keeps.{in_hands}

-- The system of the worker at a position.
module _ (refused : List Request) (t : Transport) where
  pub streamed-Inv :
      t.connected ≡ true
      → Inv (system t resting refused)
      → Inv (system (queue_state_streaming t) resting refused)
  unfolding queue_state_streaming
  streamed-Inv on v =
      let (same, flight, settled) = stream_each-same stream_ids (stream_payload t) t in
      record {
        accounted =
            stream_each-Balance stream_ids (stream_payload t) t (in_hands resting refused)
              v.accounted;
        keyed = rw flight (v.keyed);
        offline = λ off is_open. cc;
        facts = tt;
      }

  -- A request that was taken off a queue goes into a free place of the map.
  pub placed-Inv :
      (u : Transport) (now : ℕ) (r : Request)
      → find r.id u.in_flight ≡ none
      → u.connected ≡ true
      → Ascending 0 u.in_flight
      → Balance (λ k. one_if (r.promise == k) + waiting k refused) u
      → Inv (system (put_in_flight now r u).1 (sending (put_in_flight now r u).0) refused)
  unfolding put_in_flight
  placed-Inv u now r free on a b = record {
    accounted = λ k. omega (
      arith,
      b k,
      flying-assign_new k r.id (record r { deadline = now + r.timeout }) u.in_flight free,
    );
    keyed = Ascending-assign r.id 0 _ u.in_flight (omega arith) refl a;
    offline = λ off is_open. cc;
    facts = (on, find-assign r.id _ u.in_flight);
  }

  -- The frame was not sent, and no disconnect has taken the request out of the map.
  pub abandoned-Inv :
      (r : Request)
      → Inv (system t (sending r) refused)
      → Inv (system (abandon r t) resting refused)
  unfolding abandon
  abandoned-Inv r v =
      let removed = record t { in_flight = erase r.id t.in_flight } in
      let moved : (k : ℕ)
          → one_if (r.promise == k) + flying k removed.in_flight ≡ flying k t.in_flight =
        λ k. flying-erase k r.id t.in_flight r v.facts.1 in
      let e =
        fail_request_held r "failed to send command" removed (λ k. waiting k refused)
          (λ k. omega (arith, moved k, v.accounted k)) in
      subst (λ (u : Transport). Inv (system u resting refused)) (sym e)
        (record {
          accounted = λ k. omega (arith, moved k, v.accounted k);
          keyed = Ascending-erase r.id 0 t.in_flight v.keyed;
          offline = λ off is_open. let on = v.facts.0 in cc;
          facts = tt;
        })

  -- A disconnect has emptied the map and set the promise: nothing is left to do.
  pub late-Inv :
      (r : Request)
      → Inv (system t (abandoning r) refused)
      → Inv (system (abandon r t) resting refused)
  unfolding abandon
  late-Inv r v =
      let (empty, _, _) = v.offline (v.facts.0) refl in
      let same : abandon r t ≡ t =
        fail_request_set r "failed to send command"
          (record t { in_flight = erase r.id t.in_flight }) (v.facts.1)
        ∙ ap (λ m. record t { in_flight = m }) (erase_nothing r.id t.in_flight empty) in
      subst (λ (u : Transport). Inv (system u resting refused)) (sym same)
        (record { accounted = v.accounted; keyed = v.keyed; offline = v.offline; facts = tt })

  -- What the worker gives up after the disconnect waits in the list of fail_all.
  pub gathered-Gives :
      (after : After)
      → Gives (λ r. find r.id t.in_flight ≡ some r) after
      → Gives (λ r. 1 ≤ waiting r.promise (collected t) + times_set r.promise t.settled) after
  gathered-Gives next_round f = tt
  gathered-Gives stop_run f = tt
  gathered-Gives (give_up r) f =
      omega (arith, flying-find r.id t.in_flight r f, waiting-collected r.promise t)

  pub settled-Gives :
      (after : After) (reason : String) (x : Request) (rs : List Request)
      → Gives (λ r. 1 ≤ waiting r.promise (x ∷ rs) + times_set r.promise t.settled) after
      → Gives
          (λ r.
            1
            ≤ waiting r.promise rs + times_set r.promise ((x.promise, failure reason) ∷ t.settled))
          after
  settled-Gives next_round reason x rs f = tt
  settled-Gives stop_run reason x rs f = tt
  settled-Gives (give_up r) reason x rs f = omega (arith, f)

  pub after-Inv :
      (now : ℕ) (reason : String) (after : After)
      → Inv (system t (failing reason [] after) refused)
      → Inv (system (record t { state = disconnected now reason t.state }) (after_pc after) refused)
  after-Inv now reason next_round v = record {
    accounted = v.accounted;
    keyed = v.keyed;
    offline = λ off gone. v.offline off refl;
    facts = tt;
  }
  after-Inv now reason (give_up r) v = record {
    accounted = v.accounted;
    keyed = v.keyed;
    offline = λ off gone. v.offline off refl;
    facts = (v.facts.0, omega (arith, v.facts.1));
  }
  after-Inv now reason stop_run v = record {
    accounted = v.accounted;
    keyed = v.keyed;
    offline = λ off gone. v.offline off refl;
    facts = v.facts.0;
  }
