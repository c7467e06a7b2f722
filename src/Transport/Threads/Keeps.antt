-- ===== src/Transport/Threads/Keeps.antt =====
-- The steps of the clients of the class Transport of wsg50_driver/src/transport.cpp and the account
-- of promises.
use wsg50_ros2_humble.Base.{
  ℕ, ◌+◌, ◌≡◌, refl, sym, ap, subst, Bool, true, false, List, [], ◌∷◌, ◌++◌, String, ◌==◌, arith,
  if_both,
}
use wsg50_ros2_humble.Wire.Bytes.{Bytes}
use wsg50_ros2_humble.Transport.{Transport, Request}
use wsg50_ros2_humble.Transport.Requests.{failure, fail_request, make_request, after_make, command}
use wsg50_ros2_humble.Transport.Invariant.{one_if, waiting}
use wsg50_ros2_humble.Transport.Invariant.Settle.{waiting-append, fail_request_held}
use wsg50_ros2_humble.Transport.Threads.{Pc, system, ClientStep, enqueue, refuse, tell}
use wsg50_ros2_humble.Transport.Threads.Account.{in_hand, Inv, Facts-more, made-Balance}

-- What promises the threads hold.
abbrev pub in_hands : Pc → List Request → ℕ → ℕ
in_hands pc refused k = in_hand pc k + waiting k refused

-- A request with the next promise goes to the end of a queue.
queued-Inv :
    (pc : Pc) (refused : List Request) (t : Transport) (r : Request)
    → r.promise ≡ t.promises
    → t.connected ≡ true
    → Inv (system t pc refused)
    → Inv (system (record (after_make t) { queue = t.queue ++ r ∷ [] }) pc refused)
queued-Inv pc refused t r e on v = record {
  accounted = λ k.
      let made = made-Balance t (in_hands pc refused) v.accounted k in
      ground (arith, waiting-append k t.queue (r ∷ []));
  keyed = v.keyed;
  offline = λ off is_open. cc;
  facts = Facts-more pc t _ refl refl (λ k. omega arith) v.facts;
}

queued_priority-Inv :
    (pc : Pc) (refused : List Request) (t : Transport) (r : Request)
    → r.promise ≡ t.promises
    → t.connected ≡ true
    → Inv (system t pc refused)
    → Inv
        (system (record (after_make t) { priority_queue = t.priority_queue ++ r ∷ [] }) pc refused)
queued_priority-Inv pc refused t r e on v = record {
  accounted = λ k.
      let made = made-Balance t (in_hands pc refused) v.accounted k in
      ground (arith, waiting-append k t.priority_queue (r ∷ []));
  keyed = v.keyed;
  offline = λ off is_open. cc;
  facts = Facts-more pc t _ refl refl (λ k. omega arith) v.facts;
}

command-Inv :
    (id : ℕ) (payload : Bytes) (allow_pending : Bool) (timeout : ℕ) (priority : Bool) (pc : Pc)
    (refused : List Request) (t : Transport)
    → t.connected ≡ true
    → Inv (system t pc refused)
    → Inv (system (command id payload allow_pending timeout priority t).1 pc refused)
unfolding command
command-Inv id payload allow_pending timeout priority pc refused t on v =
    let r = make_request id payload allow_pending false timeout t in
    if_both (λ (x : ℕ × Transport). Inv (system x.1 pc refused)) t.connected _ _
      (λ _.
        if_both (λ (u : Transport). Inv (system u pc refused)) priority _ _
          (λ _. queued_priority-Inv pc refused t r refl on v)
          (λ _. queued-Inv pc refused t r refl on v))
      (λ off. cc)

-- A thread that holds a promise sets it to a failure.
pub failed-Inv :
    (pc pc' : Pc) (refused refused' : List Request) (t : Transport) (r : Request) (reason : String)
    → ((k : ℕ) → one_if (r.promise == k) + in_hands pc' refused' k ≡ in_hands pc refused k)
    → Inv (system t pc refused)
    → Inv (system (record t { settled = (r.promise, failure reason) ∷ t.settled }) pc' refused')
    → Inv (system (fail_request r reason t) pc' refused')
failed-Inv pc pc' refused refused' t r reason moved v done =
    subst (λ (u : Transport). Inv (system u pc' refused'))
      (sym (
        fail_request_held r reason t (in_hands pc' refused')
          (λ k. omega (arith, moved k, v.accounted k))))
      done

-- A step of a client leaves the account as it should be.
pub client-Inv :
    (pc : Pc) (t t' : Transport) (refused refused' : List Request)
    → ClientStep t refused t' refused'
    → Inv (system t pc refused)
    → Inv (system t' pc refused')
client-Inv pc t t' refused refused' (enqueue id payload allow_pending timeout priority on) v =
    command-Inv id payload allow_pending timeout priority pc refused t on v
client-Inv pc t t' refused refused' (refuse id payload allow_pending timeout off) v = record {
  accounted = λ k. omega (arith, made-Balance t (in_hands pc refused) v.accounted k);
  keyed = v.keyed;
  offline = v.offline;
  facts = Facts-more pc t _ refl refl (λ k. omega arith) v.facts;
}
client-Inv pc t t' refused refused' (tell before r behind split) v =
    let moved : (k : ℕ)
        → one_if (r.promise == k) + in_hands pc (before ++ behind) k ≡ in_hands pc refused k =
      λ k. omega (
        arith,
        waiting-append k before (r ∷ behind),
        waiting-append k before behind,
        ap (waiting k) split,
      ) in
    failed-Inv pc pc refused (before ++ behind) t r "gripper is not connected" moved v (record {
      accounted = λ k. omega (arith, moved k, v.accounted k);
      keyed = v.keyed;
      offline = v.offline;
      facts = Facts-more pc t _ refl refl (λ k. omega arith) v.facts;
    })
