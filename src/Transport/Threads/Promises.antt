-- ===== src/Transport/Threads/Promises.antt =====
-- The promises of the class Transport of wsg50_driver/src/transport.cpp over the interleavings of its
-- worker with the clients.
use wsg50_ros2_humble.Base.{false, ℕ, ◌<◌, ◌≡◌, refl, subst, List, [], ◌∷◌, arith, returns}
use wsg50_ros2_humble.Wire.Bytes.{Bytes}
use wsg50_ros2_humble.Transport.{Request, TransportOptions, init, set_value}
use wsg50_ros2_humble.Transport.Replies.{answer, note_reply}
use wsg50_ros2_humble.Transport.Invariant.{waiting, times_set, Balance}
use wsg50_ros2_humble.Transport.Invariant.Settle.{set_value_held}
use wsg50_ros2_humble.Transport.Threads.{
  Pc, answering, over, System, system, Step, client, worker, stops, begins, Reach, begin, later,
}
use wsg50_ros2_humble.Transport.Threads.Account.{Inv, Facts-more}
use wsg50_ros2_humble.Transport.Threads.Keeps.{in_hands, client-Inv}
use wsg50_ros2_humble.Transport.Threads.Worker.{worker-Inv}

begins-Inv : (options : TransportOptions) → Inv (begins options)
unfolding init
begins-Inv options = record {
  accounted = λ k. ground arith;
  keyed = tt;
  offline = λ off gone. (refl, refl, refl);
  facts = tt;
}

Step-Inv : {s s' : System} → Step s s' → Inv s → Inv s'
Step-Inv (client t t' pc refused refused' st) v = client-Inv pc t t' refused refused' st v
Step-Inv (worker t t' pc pc' refused st) v = worker-Inv refused t t' pc pc' st v
Step-Inv (stops t pc refused) v = record {
  accounted = v.accounted;
  keyed = v.keyed;
  offline = v.offline;
  facts = Facts-more pc t _ refl refl (λ k. omega arith) v.facts;
}

Reach-Inv : {options : TransportOptions} {s : System} → Reach options s → Inv s
Reach-Inv {options} begin = begins-Inv options
Reach-Inv (later r st) = Step-Inv st (Reach-Inv r)

-- However the worker and the clients interleave, each promise made is in exactly one place:
-- once in the map, in a queue or in the hands of a thread between two of its steps, or set
-- once; a promise not made is nowhere.
pub Reach-Balance :
    {options : TransportOptions} {s : System}
    → Reach options s
    → Balance (in_hands s.pc s.refused) s.transport
Reach-Balance r = (Reach-Inv r).accounted

-- However the worker and the clients interleave, when the worker has come to the end of run()
-- and no client is left between finding no connection and failing its request, each promise
-- made has been set exactly once.
pub Reach-settled :
    {options : TransportOptions} {s : System} (k : ℕ)
    → Reach options s
    → s.pc ≡ over
    → s.refused ≡ []
    → k < s.transport.promises
    → times_set k s.transport.settled ≡ 1
Reach-settled {options} {s} k r ended told made = by_end s.pc s.refused ended told (Reach-Inv r)
  where
    by_end :
        (pc : Pc) (refused : List Request)
        → pc ≡ over
        → refused ≡ []
        → Inv (system s.transport pc refused)
        → times_set k s.transport.settled ≡ 1
    by_end pc refused e e' w =
        let v =
          subst (λ (rs : List Request). Inv (system s.transport over rs)) e'
            (subst (λ (p : Pc). Inv (system s.transport p refused)) e w) in
        let (flight, queue, priority) = v.offline v.facts refl in
        let balance = v.accounted k in ground (arith, flight, queue, priority)

-- However the worker and the clients interleave, when handle_frame, behind its lock, has taken
-- a request out of the map and noted the status, its set_value throws no future_error: it sets
-- the promise to the answer.
pub Reach-set_value :
    {options : TransportOptions} {s : System} (p status : ℕ) (payload : Bytes)
    → Reach options s
    → s.pc ≡ answering p status payload
    → set_value p
        (answer status payload)
        (record (s.transport) { state = note_reply status s.transport.state })
      ≡ returns (record (s.transport) {
        state = note_reply status s.transport.state;
        settled = (p, answer status payload) ∷ s.transport.settled;
      })
Reach-set_value {options} {s} p status payload r e =
    let v = subst (λ (pc : Pc). Inv (system s.transport pc s.refused)) e (Reach-Inv r) in
    set_value_held p (answer status payload)
      (record (s.transport) { state = note_reply status s.transport.state })
      (λ k. waiting k s.refused) (λ k. omega (arith, v.accounted k))

-- Behind the end of run() there is no connection.
pub Reach-offline :
    {options : TransportOptions} {s : System}
    → Reach options s
    → s.pc ≡ over
    → s.transport.connected ≡ false
Reach-offline {options} {s} r e =
    (subst (λ (pc : Pc). Inv (system s.transport pc s.refused)) e (Reach-Inv r)).facts
